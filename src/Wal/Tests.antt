-- ===== src/Wal/Tests.antt =====
-- src/core/wal.rs: the theorems at concrete logs.
use jasonisnthappy.Base.{
  ℕ, ◌+◌, ◌<◌, ◌≡◌, refl, inr, some, none, List, [], ◌∷◌, ◌++◌, length, replicate, length-replicate,
  arith, All, ◌==◌, if◌then◌else◌, append_assoc, append-nil,
}
use jasonisnthappy.Base.Map
use jasonisnthappy.Base.Map.{Map}
use jasonisnthappy.Base.Error.{Error, Result, ok, err}
use jasonisnthappy.Wal.Frame.{
  WalHeader, WalFrame, page_size, wal_frame_size, header_bytes, serialize_frame_into, parse_frame,
}
use jasonisnthappy.Wal.Log.{WalInner, Wal, released, new_frame, write_frame, sync, offset_of}
use jasonisnthappy.Wal.Reads.{fresh_header, open_log, read_all_frames, read_frame}
use jasonisnthappy.Wal.Checkpoint.{collect, checkpoint}
use jasonisnthappy.Wal.Codec.{IsHeader, layout, length-layout, serialize-layout, parse-layout}
use jasonisnthappy.Wal.Logged.{
  IsLogFrame, Logged, encode, encode-cons, encode-nil, length-content, write_frame-Logged,
  sync-Logged,
}
use jasonisnthappy.Wal.Recovery.{short}
use jasonisnthappy.Wal.Opened.{open_log-new, open_log-recovers}
use jasonisnthappy.Wal.Durability.{Write, IsWrite, write_frames, frames_of, file_of, reopen-sync}
use jasonisnthappy.Wal.SharedOffset.{sync-read_frame_short}
use jasonisnthappy.Wal.Pages.{last_of, get-collect}
use jasonisnthappy.Wal.Checkpoints.{checkpoint-Logged}
use jasonisnthappy.Wal.Checksum.{crc32_ieee}
use jasonisnthappy.Wal.Serial.{crc32_serial, crc32_ieee-serial}

abbrev blank_page : List ℕ
blank_page = replicate page_size 0

blank_page_size : length blank_page ≡ page_size
blank_page_size = length-replicate page_size 0

abbrev calls : List Write
calls =
    record { tx_id = 1; page_num = 5; page_data = blank_page }
    ∷ record { tx_id = 1; page_num = 6; page_data = blank_page }
    ∷ []

calls-IsWrite : All IsWrite calls
calls-IsWrite = (
  record { tx_id = omega arith; page_num = omega arith; page_data = blank_page_size },
  (record { tx_id = omega arith; page_num = omega arith; page_data = blank_page_size }, tt),
)

reopen-sync_example :
    (fresh reopened last : Wal) × (open_log none 7 9 ≡ ok fresh)
    × (open_log (some (file_of (sync (write_frames fresh 0 calls)).1)) 11 13 ≡ ok reopened)
    × (read_all_frames reopened ≡ (ok (frames_of (fresh_header 7 9) calls), last))
reopen-sync_example = reopen-sync 7 9 11 13 0 calls (omega arith) (omega arith) calls-IsWrite

-- a new log, and one frame in it
abbrev header : WalHeader
header = fresh_header 7 9

header-IsHeader : IsHeader header
header-IsHeader = record {
  magic = refl;
  version = omega arith;
  salt1 = omega arith;
  salt2 = omega arith;
}

abbrev fresh_log :
    (w : WalInner) × (open_log none 7 9 ≡ ok (released w)) × Logged w [] × (w.header ≡ header)
fresh_log = open_log-new 7 9 (omega arith) (omega arith)

abbrev frame : WalFrame
frame = new_frame fresh_log.0.header 1 5 blank_page

abbrev written :
    (w' : WalInner) × (write_frame (released fresh_log.0) 0 1 5 blank_page ≡ (ok tt, released w'))
    × Logged w' (frame ∷ [])
    × (w'.header ≡ fresh_log.0.header)
written =
    write_frame-Logged fresh_log.0 [] 0 1 5 blank_page fresh_log.2 (omega arith) (omega arith)
      blank_page_size

write_frame-Logged_example :
    (w' : WalInner) × (write_frame (released fresh_log.0) 0 1 5 blank_page ≡ (ok tt, released w'))
    × Logged w' (frame ∷ [])
    × (w'.header ≡ fresh_log.0.header)
write_frame-Logged_example =
    write_frame-Logged fresh_log.0 [] 0 1 5 blank_page fresh_log.2 (omega arith) (omega arith)
      blank_page_size

frame-IsLogFrame : IsLogFrame written.0.header frame
frame-IsLogFrame = written.2.frames.0

parse-layout_example : parse_frame (layout frame) ≡ ok frame
parse-layout_example = parse-layout frame frame-IsLogFrame.fits

serialize-layout_example : serialize_frame_into frame (replicate wal_frame_size 0) ≡ layout frame
serialize-layout_example =
    serialize-layout frame frame-IsLogFrame.fits (replicate wal_frame_size 0)
      (length-replicate wal_frame_size 0)

abbrev junk : List ℕ
junk = 1 ∷ 2 ∷ []

-- a file with one frame and a torn second one
open_log-recovers_example :
    (w : WalInner) × (open_log
        (some (header_bytes written.0.header ++ (encode (frame ∷ []) ++ junk)))
        0
        0
      ≡ ok (released w))
    × (w.frame_num ≡ 1)
    × (w.header ≡ written.0.header)
    × (w.disk.bytes ≡ header_bytes written.0.header ++ (encode (frame ∷ []) ++ junk))
    × (w.disk.buffer ≡ [])
    × (junk ≡ [] → Logged w (frame ∷ []))
open_log-recovers_example =
    open_log-recovers written.0.header (frame ∷ []) (junk) 0 0 written.2.header written.2.frames
      (short (omega arith))

abbrev synced :
    (w' : WalInner) × (sync (released written.0) ≡ (ok tt, released w'))
    × Logged w' (frame ∷ [])
    × (w'.disk.buffer ≡ [])
    × (w'.disk.bytes ≡ header_bytes written.0.header ++ encode (frame ∷ []))
    × (w'.header ≡ written.0.header)
synced = sync-Logged written.0 (frame ∷ []) written.2

-- a log with two frames in its file and a third held back
abbrev two_frames : List ℕ
two_frames = header_bytes written.0.header ++ encode (frame ∷ frame ∷ [])

abbrev holding : WalInner
holding = record {
  disk = record { bytes = two_frames; position = length two_frames; buffer = layout frame };
  header = written.0.header;
  frame_num = 3;
  cached_file_size = 0;
  cache_timestamp = none;
  file_position = none;
}

one_more :
    (before : List ℕ) (f : WalFrame)
    → (before ++ encode (f ∷ f ∷ [])) ++ layout f ≡ before ++ encode (f ∷ f ∷ f ∷ [])
one_more before f = simp (append_assoc, encode-cons, encode-nil, append-nil)

holding-Logged : Logged holding (frame ∷ frame ∷ frame ∷ [])
holding-Logged = record {
  header = written.2.header;
  frames = (frame-IsLogFrame, (frame-IsLogFrame, (frame-IsLogFrame, tt)));
  content = one_more (header_bytes written.0.header) frame;
  held = inr (record { at = refl });
  tracked = λ p h. cc;
  counted = refl;
}

two_frames_size : length two_frames ≡ offset_of 2
two_frames_size =
    length-content written.0.header (frame ∷ frame ∷ []) written.2.header
      (frame-IsLogFrame, (frame-IsLogFrame, tt))

room_behind_first : offset_of 0 + wal_frame_size < length two_frames
room_behind_first = rw two_frames_size (unfold offset_of in omega arith)

sync-read_frame_short_example :
    (w' : WalInner) × (read_frame (released holding) 0 ≡ (ok frame, released w'))
    × (length (file_of (sync (released w')).1)
        < length (header_bytes holding.header ++ encode (frame ∷ frame ∷ frame ∷ [])))
sync-read_frame_short_example =
    sync-read_frame_short holding [] frame (frame ∷ frame ∷ []) holding-Logged
      (record { at = refl }) (rw (length-layout frame frame-IsLogFrame.fits) (omega arith))
      room_behind_first

-- a pager that keeps the pages it is given, and one that fails
abbrev keep : Map (List ℕ) → Map (List ℕ) → Result (Map (List ℕ))
keep pages pager = ok pages

checkpoint-Logged_example :
    ((pager' : Map (List ℕ))
      → keep (collect [] (frame ∷ [])) [] ≡ ok pager'
      → (w' : WalInner) × (checkpoint keep (released synced.0) [] 0 ≡ (ok pager', released w'))
        × Logged w' []
        × (w'.disk.bytes ≡ header_bytes synced.0.header))
    × ((e : Error)
        → keep (collect [] (frame ∷ [])) [] ≡ err e
        → (w' : WalInner) × (checkpoint keep (released synced.0) [] 0 ≡ (err e, released w'))
          × Logged w' (frame ∷ []))
checkpoint-Logged_example = checkpoint-Logged keep synced.0 (frame ∷ []) [] 0 synced.2 synced.3

get-collect_example :
    Map.get (collect [] (frame ∷ frame ∷ [])) 5
    ≡ (if 5 == 0 then none else last_of 5 (frame ∷ frame ∷ []))
get-collect_example = get-collect (frame ∷ frame ∷ []) 5

crc32_ieee-serial_example : crc32_ieee (0x61 ∷ 0x62 ∷ []) ≡ crc32_serial (0x61 ∷ 0x62 ∷ [])
crc32_ieee-serial_example = crc32_ieee-serial (0x61 ∷ 0x62 ∷ []) (omega arith, (omega arith, tt))
