-- ===== src/Wal/Opened.antt =====
-- src/core/wal.rs: `open`, and a log from its creation over writes and `sync` to its next opening.
use jasonisnthappy.Base.{
  ℕ, ◌<◌, ◌≡◌, refl, ap, ◌∙◌, inl, inr, none, some, List, [], ◌++◌, length, length-append,
  append-nil, arith, All, u32_mod,
}
use jasonisnthappy.Base.Bytes.{slice, slice-append}
use jasonisnthappy.Base.Error.{ok}
use jasonisnthappy.Wal.Disk.{Disk, seek, write_all}
use jasonisnthappy.Wal.Appends.{flush-joined, joined, write_all-Appended}
use jasonisnthappy.Wal.Frame.{WalHeader, WalFrame, wal_header_size, header_bytes}
use jasonisnthappy.Wal.Codec.{IsHeader, length-header_bytes, parse-header_bytes}
use jasonisnthappy.Wal.Log.{WalInner, released, recount}
use jasonisnthappy.Wal.Reads.{write_header, read_header, fresh_header, unopened, open_log}
use jasonisnthappy.Wal.Logged.{IsLogFrame, Logged, encode, encode-nil, some-eq}
use jasonisnthappy.Wal.ReadBack.{read_exact-some}
use jasonisnthappy.Wal.Recovery.{IsTorn, count_frames-Recorded, Recounted-Logged}

fresh_header-IsHeader :
    (salt1 salt2 : ℕ) → salt1 < u32_mod → salt2 < u32_mod → IsHeader (fresh_header salt1 salt2)
fresh_header-IsHeader salt1 salt2 p q = record {
  magic = refl;
  version = omega arith;
  salt1 = p;
  salt2 = q;
}

-- A new log holds no frames, and its header is in the file.
pub open_log-new :
    (salt1 salt2 : ℕ)
    → salt1 < u32_mod
    → salt2 < u32_mod
    → (w : WalInner) × (open_log none salt1 salt2 ≡ ok (released w))
      × Logged w []
      × (w.header ≡ fresh_header salt1 salt2)
unfolding open_log write_header seek
open_log-new salt1 salt2 p q =
    let h = fresh_header salt1 salt2 in
    let i = fresh_header-IsHeader salt1 salt2 p q in
    let size = length-header_bytes h i in
    let blank : Disk = record { bytes = []; position = 0; buffer = [] } in
    let written = write_all blank (header_bytes h) in
    let a =
      write_all-Appended blank (header_bytes h) (record { at = refl }) (omega (arith, size)) in
    let flushed = flush-joined written (inr a.end) in
    (
      record (unopened [] h) {
        disk = joined written;
        file_position = some (length (header_bytes h));
      },
      ap
          (λ (d : Disk). ok (
            released (record (unopened [] h) {
              disk = d;
              file_position = some (length (header_bytes h));
            })))
          (rw (flush-joined blank (inl refl)) flushed),
      record {
        header = i;
        frames = tt;
        content =
            append-nil (written.bytes ++ written.buffer)
            ∙ (a.grown ∙ simp (encode-nil, append-nil));
        held = inl refl;
        tracked = λ n e. omega (
          arith,
          some-eq n _ e,
          a.end.at,
          ap (λ (b : List ℕ). length b) a.grown,
          length-append written.bytes written.buffer,
        );
        counted = refl;
      },
      refl,
    )

-- the log that `open` counts the frames of
abbrev behind_header : WalHeader → List ℕ → WalInner
behind_header h file = record {
  disk = record { bytes = file; position = wal_header_size; buffer = [] };
  header = h;
  frame_num = 0;
  cached_file_size = 0;
  cache_timestamp = none;
  file_position = some (length (header_bytes h));
}

read_header-file :
    (h h' : WalHeader) (rest : List ℕ)
    → IsHeader h
    → read_header (unopened (header_bytes h ++ rest) h')
      ≡ (ok h, record (behind_header h (header_bytes h ++ rest)) { header = h' })
unfolding read_header seek
read_header-file h h' rest i =
    let file = header_bytes h ++ rest in
    let size = length-header_bytes h i in
    let d : Disk = record { bytes = file; position = 0; buffer = [] } in
    let read =
      read_exact-some d wal_header_size
        (omega (arith, size, length-append (header_bytes h) rest)) in
    let front : slice file 0 wal_header_size ≡ header_bytes h =
      slice-append 0 wal_header_size [] (header_bytes h) rest refl size in
    ground (arith, read, front, parse-header_bytes h i)

-- An existing file that begins with a header and the frames `fs`, and goes on with fewer bytes than
-- a frame, or with a frame whose salts or checksum are wrong and anything behind it, is opened with exactly those frames; the file is left as it is. If
-- nothing follows the frames, the log can be written on.
pub open_log-recovers :
    (h : WalHeader) (fs : List WalFrame) (junk : List ℕ) (salt1 salt2 : ℕ)
    → IsHeader h
    → All (IsLogFrame h) fs
    → IsTorn h junk
    → (w : WalInner) × (open_log (some (header_bytes h ++ (encode fs ++ junk))) salt1 salt2
        ≡ ok (released w))
      × (w.frame_num ≡ length fs)
      × (w.header ≡ h)
      × (w.disk.bytes ≡ header_bytes h ++ (encode fs ++ junk))
      × (w.disk.buffer ≡ [])
      × (junk ≡ [] → Logged w fs)
unfolding open_log recount
open_log-recovers h fs junk salt1 salt2 i a torn =
    let file = header_bytes h ++ (encode fs ++ junk) in
    let size = length-header_bytes h i in
    let w1 = behind_header h file in
    let (w', counted, kept) =
      count_frames-Recorded w1 fs junk (record { header = i; frames = a; content = refl }) refl
        (λ p e. ground (arith, size)) torn in
    let opened : recount w1 ≡ record w' { frame_num = length fs } = rw counted in
    (
      record w' { frame_num = length fs },
      rw (read_header-file h (fresh_header salt1 salt2) (encode fs ++ junk) i)
          (ap (λ (w : WalInner). ok (released w)) opened),
      refl,
      kept.header,
      kept.bytes,
      kept.buffer,
      λ clean.
          Recounted-Logged w1 w' fs junk (record { header = i; frames = a; content = refl }) clean
            kept,
    )
