-- ===== src/Wal/Reads.antt =====
-- src/core/wal.rs: `open`, `read_frame`, `read_all_frames` and `refresh_frame_count`.
use jasonisnthappy.Base.{
  ℕ, zero, suc, ◌+◌, ◌-◌, ◌/◌, Option, none, some, List, [], ◌∷◌, length, ltb, leb, ◌==◌,
  if◌then◌else◌,
}
use jasonisnthappy.Base.Error.{Result, ok, err, other, wal_checksum_fail, ◌>>=◌}
use jasonisnthappy.Wal.Disk.{seek, flush, write_all, read_exact}
use jasonisnthappy.Wal.Frame.{
  WalHeader, WalFrame, wal_header_size, wal_frame_size, wal_magic, header_bytes, parse_header,
  parse_frame, calculate_checksum,
}
use jasonisnthappy.Wal.Log.{
  WalInner, Wal, released, wal_poisoned, unexpected_eof, offset_of, recount,
}

unfoldable pub write_header : WalInner → WalInner
write_header w =
    let bytes = header_bytes w.header in
    let d = flush (write_all (seek (flush w.disk) 0) bytes) in
    record w { disk = d; file_position = some (length bytes) }

unfoldable pub read_header : WalInner → Result WalHeader × WalInner
read_header w =
    let (read, d) = read_exact (seek w.disk 0) wal_header_size in
    elim read [
      | none ↦ (unexpected_eof, record w { disk = d })
      | some bytes ↦
          (parse_header bytes, record w { disk = d; file_position = some (length bytes) })
    ]

-- `open`: `file` holds the bytes of the log file, if it exists, and the salts are the clock's
abbrev pub fresh_header : ℕ → ℕ → WalHeader
fresh_header salt1 salt2 = record { magic = wal_magic; version = 1; salt1 = salt1; salt2 = salt2 }

abbrev pub unopened : List ℕ → WalHeader → WalInner
unopened bytes header = record {
  disk = record { bytes = bytes; position = 0; buffer = [] };
  header = header;
  frame_num = 0;
  cached_file_size = 0;
  cache_timestamp = none;
  file_position = none;
}

abbrev adopt : Result WalHeader × WalInner → Result Wal
adopt (ok h, w) = ok (released (recount (record w { header = h })))
adopt (err e, w) = err e

unfoldable pub open_log : Option (List ℕ) → ℕ → ℕ → Result Wal
open_log none salt1 salt2 = ok (released (write_header (unopened [] (fresh_header salt1 salt2))))
open_log (some bytes) salt1 salt2 = adopt (read_header (unopened bytes (fresh_header salt1 salt2)))

-- the checks on a frame that was read: `parse_frame` and the checksum
unfoldable pub check_frame : List ℕ → Result WalFrame
check_frame bytes = do
  f ← parse_frame bytes
  if f.checksum == calculate_checksum f then ok f else err wal_checksum_fail

-- under the lock
unfoldable pub read_inner : WalInner → ℕ → Result WalFrame × WalInner
read_inner w frame_num =
    if leb w.frame_num frame_num
    then (err (other "EOF"), w)
    else let offset = offset_of frame_num in
      let (read, d) = read_exact (seek w.disk offset) wal_frame_size in
      elim read [
        | none ↦ (unexpected_eof, record w { disk = d })
        | some bytes ↦
            (check_frame bytes, record w { disk = d; file_position = some (offset + length bytes) })
      ]

unfoldable pub read_frame : Wal → ℕ → Result WalFrame × Wal
read_frame wal frame_num =
    if wal.poisoned
    then (wal_poisoned, wal)
    else let (r, w) = read_inner wal.value frame_num in (r, released w)

abbrev push_front : WalFrame → Result (List WalFrame) × Wal → Result (List WalFrame) × Wal
push_front f (ok fs, wal) = (ok (f ∷ fs), wal)
push_front f (err e, wal) = (err e, wal)

-- the loop of `read_all_frames` from frame `i` on; an error ends it
unfoldable pub read_from : ℕ → Wal → ℕ → Result (List WalFrame) × Wal
read_from zero wal i = (ok [], wal)
read_from (suc left) wal i =
    let (r, wal') = read_frame wal i in
    elim r [ ok f ↦ push_front f (read_from left wal' (i + 1)) | err e ↦ (err e, wal') ]

unfoldable pub read_all_frames : Wal → Result (List WalFrame) × Wal
read_all_frames wal =
    if wal.poisoned then (wal_poisoned, wal) else read_from wal.value.frame_num wal 0

-- `STAT_CACHE_TTL`
abbrev pub stat_cache_ttl : ℕ
stat_cache_ttl = 100

abbrev file_frames : ℕ → ℕ
file_frames size = (size - wal_header_size) / wal_frame_size

-- what follows a look at the metadata of the file
unfoldable pub refresh_from_file : WalInner → ℕ → WalInner
refresh_from_file w now =
    let size = length w.disk.bytes in
    let w' = record w { cached_file_size = size; cache_timestamp = some now } in
    if ltb size wal_header_size
    then w'
    else if ltb w.frame_num (file_frames size)
    then recount w'
    else w'

-- while the cached size is fresh
unfoldable pub refresh_from_cache : WalInner → ℕ → WalInner
refresh_from_cache w now =
    if ltb w.cached_file_size wal_header_size
    then w
    else if ltb w.frame_num (file_frames w.cached_file_size)
    then recount (record w { cached_file_size = length w.disk.bytes; cache_timestamp = some now })
    else w

unfoldable pub refresh_inner : WalInner → ℕ → WalInner
unfolding refresh_from_file refresh_from_cache
refresh_inner w now = elim w.cache_timestamp [
  | none ↦ refresh_from_file w now
  | some cache_time ↦
      if ltb (now - cache_time) stat_cache_ttl
      then refresh_from_cache w now
      else refresh_from_file w now
]

unfoldable pub refresh_frame_count : Wal → ℕ → Result (Unit {0}) × Wal
refresh_frame_count wal now =
    if wal.poisoned then (wal_poisoned, wal) else (ok tt, released (refresh_inner wal.value now))
