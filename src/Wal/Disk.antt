-- ===== src/Wal/Disk.antt =====
-- The file under the log, as src/core/wal.rs uses it. `file` and `writer_file` are two handles on
-- one open file, made by `try_clone`, so they share one offset. The writer is a `BufWriter`: what
-- it holds back goes to wherever that offset is when it is flushed. Reads and writes of an open
-- file do not fail here, except where the file ends.
use jasonisnthappy.Base.{
  ℕ, ◌+◌, ◌-◌, ◌*◌, List, [], ◌∷◌, ◌++◌, length, take, drop, replicate, ltb, leb, if◌then◌else◌,
  Option, none, some,
}
use jasonisnthappy.Base.Bytes.{slice}

-- `WAL_BUFFER_SIZE`
abbrev pub wal_buffer_size : ℕ
wal_buffer_size = 64 * 1024

pub record Disk : Type 0 where
  pub bytes : List ℕ
  pub position : ℕ
  pub buffer : List ℕ

-- `write` at an offset: a gap behind the end of the file reads as zeros, and no bytes written
-- change nothing.
unfoldable pub write_at : List ℕ → ℕ → List ℕ → List ℕ
write_at bytes i [] = bytes
write_at bytes i (b ∷ bs) =
    take i bytes
    ++ (replicate (i - length bytes) 0 ++ ((b ∷ bs) ++ drop (i + length (b ∷ bs)) bytes))

unfoldable pub seek : Disk → ℕ → Disk
seek d i = record d { position = i }

-- `BufWriter::flush`
unfoldable pub flush : Disk → Disk
flush d = record {
  bytes = write_at d.bytes d.position d.buffer;
  position = d.position + length d.buffer;
  buffer = [];
}

unfoldable pub push_bytes : Disk → List ℕ → Disk
push_bytes d data_bytes = record d { buffer = d.buffer ++ data_bytes }

-- `BufWriter::write_all`: bytes are held back while there is room for them.
unfoldable pub write_all : Disk → List ℕ → Disk
write_all d data_bytes =
    let spare = wal_buffer_size - length d.buffer in
    if ltb (length data_bytes) spare
    then push_bytes d data_bytes
    else let d' = if ltb spare (length data_bytes) then flush d else d in
      if leb wal_buffer_size (length data_bytes)
      then record d' {
        bytes = write_at d'.bytes d'.position data_bytes;
        position = d'.position + length data_bytes;
      }
      else push_bytes d' data_bytes

-- `File::read_exact` of `n` bytes; at the end of the file it fails, and has read up to the end
unfoldable pub read_exact : Disk → ℕ → Option (List ℕ) × Disk
read_exact d n =
    if leb (d.position + n) (length d.bytes)
    then (some (slice d.bytes d.position n), record d { position = d.position + n })
    else (
      none,
      record d {
        position = if ltb d.position (length d.bytes) then length d.bytes else d.position;
      },
    )

unfoldable pub set_len : Disk → ℕ → Disk
set_len d n = record d { bytes = take n d.bytes ++ replicate (n - length d.bytes) 0 }

-- A `BufReader` over the file: what it has read ahead, and the disk.
pub record Reader : Type 0 where
  pub ahead : List ℕ
  pub disk : Disk

unfoldable pub fill : Reader → Reader
fill r =
    let chunk = slice r.disk.bytes r.disk.position wal_buffer_size in
    record { ahead = chunk; disk = record r.disk { position = r.disk.position + length chunk } }

-- `BufReader::read_exact` of fewer bytes than its capacity: if a refill does not give the rest,
-- the file has ended.
unfoldable pub read_ahead : Reader → ℕ → Option (List ℕ) × Reader
unfolding fill
read_ahead r n =
    if leb n (length r.ahead)
    then (some (take n r.ahead), record r { ahead = drop n r.ahead })
    else let r' = fill r in
      let rest = n - length r.ahead in
      if leb rest (length r'.ahead)
      then (some (r.ahead ++ take rest r'.ahead), record r' { ahead = drop rest r'.ahead })
      else (none, record r' { ahead = [] })
