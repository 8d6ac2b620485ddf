-- ===== src/Wal/Log.antt =====
-- src/core/wal.rs: `WAL` and `WALInner`. The mutex is a `Lock`; each method returns its result
-- beside the log that it leaves. The clock is an argument `now`, in milliseconds. Metrics are left
-- out: they read nothing that the log keeps.
use jasonisnthappy.Base.{
  ℕ, zero, suc, ◌+◌, ◌-◌, ◌*◌, ◌/◌, Bool, false, ◌&&◌, not, Option, none, some, List, length,
  replicate, ltb, ◌==◌, if◌then◌else◌,
}
use jasonisnthappy.Base.Error.{Result, ok, err, Lock, lock_poisoned, invalid_page_size, io}
use jasonisnthappy.Wal.Disk.{Disk, seek, flush, write_all, read_exact}
use jasonisnthappy.Wal.Frame.{
  WalHeader, WalFrame, page_size, wal_header_size, wal_frame_size, serialize_frame_into,
  parse_frame, calculate_checksum,
}

-- `file_position` is `none` where the source has -1: unknown.
pub record WalInner : Type 0 where
  pub disk : Disk
  pub header : WalHeader
  pub frame_num : ℕ
  pub cached_file_size : ℕ
  pub cache_timestamp : Option ℕ
  pub file_position : Option ℕ

abbrev pub Wal : Type 0
Wal = Lock WalInner

abbrev pub released : WalInner → Wal
released w = record { value = w; poisoned = false }

abbrev pub wal_poisoned {ℓ} : {A : Type ℓ} → Result A
wal_poisoned = err (lock_poisoned "wal.inner")

abbrev pub unexpected_eof {ℓ} : {A : Type ℓ} → Result A
unexpected_eof = err (io "failed to fill whole buffer")

unfoldable pub offset_of : ℕ → ℕ
offset_of frame_num = wal_header_size + frame_num * wal_frame_size

-- `inner.file_position != offset`, turned round
unfoldable pub is_at : Option ℕ → ℕ → Bool
is_at none offset = false
is_at (some p) offset = p == offset

-- the frame that `write_frame` builds: first with checksum 0, then with its own
unfoldable pub new_frame : WalHeader → ℕ → ℕ → List ℕ → WalFrame
new_frame h tx_id page_num page_data =
    let frame : WalFrame = record {
      tx_id = tx_id;
      page_num = page_num;
      page_data = page_data;
      checksum = 0;
      salt1 = h.salt1;
      salt2 = h.salt2;
    } in
    record frame { checksum = calculate_checksum frame }

-- from the serialization on, under the lock
unfoldable pub append_frame : WalInner → ℕ → WalFrame → WalInner
append_frame w now frame =
    let data_bytes = serialize_frame_into frame (replicate wal_frame_size 0) in
    let offset = offset_of w.frame_num in
    let d = if is_at w.file_position offset then w.disk else seek (flush w.disk) offset in
    record w {
      disk = write_all d data_bytes;
      file_position = some (offset + wal_frame_size);
      frame_num = w.frame_num + 1;
      cached_file_size = w.cached_file_size + wal_frame_size;
      cache_timestamp = some now;
    }

unfoldable pub write_frame : Wal → ℕ → ℕ → ℕ → List ℕ → Result (Unit {0}) × Wal
write_frame wal now tx_id page_num page_data =
    if not (length page_data == page_size)
    then (err invalid_page_size, wal)
    else if wal.poisoned
    then (wal_poisoned, wal)
    else let w = wal.value in
      (ok tt, released (append_frame w now (new_frame w.header tx_id page_num page_data)))

unfoldable pub sync : Wal → Result (Unit {0}) × Wal
sync wal =
    if wal.poisoned
    then (wal_poisoned, wal)
    else (ok tt, released (record wal.value { disk = flush wal.value.disk }))

unfoldable pub frame_count : Wal → ℕ
frame_count wal = if wal.poisoned then 0 else wal.value.frame_num

-- the test on a frame that `count_frames` has read
unfoldable pub is_valid_frame : WalHeader → WalFrame → Bool
is_valid_frame h f =
    (f.salt1 == h.salt1 && f.salt2 == h.salt2) && f.checksum == calculate_checksum f

-- what one round of `count_frames` does with the bytes that it has read, with `none` for `break`
unfoldable pub accept_frame : WalHeader → List ℕ → Option WalFrame
unfolding is_valid_frame
accept_frame h bytes = elim (parse_frame bytes) [
  | ok f ↦ if is_valid_frame h f then some f else none
  | err _ ↦ none
]

-- the loop of `count_frames` from frame `i` on, with the frames that the file has room for left
unfoldable pub count_from : ℕ → WalInner → ℕ → ℕ → ℕ × WalInner
count_from zero w i valid = (valid, w)
count_from (suc left) w i valid =
    let (read, d) = read_exact (seek w.disk (offset_of i)) wal_frame_size in
    elim read [
      | none ↦ (valid, record w { disk = d })
      | some bytes ↦
          let w' = record w { disk = d; file_position = some (offset_of i + wal_frame_size) } in
          elim (accept_frame w.header bytes) [
            | none ↦ (valid, w')
            | some _ ↦ count_from left w' (i + 1) (valid + 1)
          ]
    ]

unfoldable pub count_frames : WalInner → ℕ × WalInner
count_frames w =
    let size = length w.disk.bytes in
    if ltb size wal_header_size
    then (0, w)
    else count_from ((size - wal_header_size) / wal_frame_size) w 0 0

-- `inner.frame_num = inner.count_frames()`
unfoldable pub recount : WalInner → WalInner
recount w = let (n, w') = count_frames w in record w' { frame_num = n }
