-- ===== src/Wal/Checkpoint.antt =====
-- src/core/wal.rs: `checkpoint`. The pager is the caller's: `store` stands for
-- `write_pages_direct` followed by `flush`, on a state `P`, and may fail.
use jasonisnthappy.Base.{ℕ, zero, suc, ◌&&◌, Option, none, some, List, [], ◌∷◌, ◌==◌, if◌then◌else◌}
use jasonisnthappy.Base.Map
use jasonisnthappy.Base.Map.{Map}
use jasonisnthappy.Base.Error.{Result, ok, err}
use jasonisnthappy.Wal.Disk.{Reader, seek, set_len, read_ahead}
use jasonisnthappy.Wal.Frame.{
  WalHeader, WalFrame, wal_header_size, wal_frame_size, parse_frame, calculate_checksum,
}
use jasonisnthappy.Wal.Log.{WalInner, Wal, released, wal_poisoned, recount}

-- a frame that the first loop keeps: it parses and has the salts of the log
unfoldable pub accept_raw : WalHeader → List ℕ → Option WalFrame
accept_raw h bytes = elim (parse_frame bytes) [
  | ok f ↦ if f.salt1 == h.salt1 && f.salt2 == h.salt2 then some f else none
  | err _ ↦ none
]

abbrev push_raw : WalFrame → List WalFrame × Reader → List WalFrame × Reader
push_raw f (fs, r) = (f ∷ fs, r)

-- the first loop, with the rounds left: `raw_frames`, and the reader that is dropped behind it
unfoldable pub read_raw : ℕ → WalHeader → Reader → List WalFrame × Reader
read_raw zero h r = ([], r)
read_raw (suc left) h r =
    let (read, r') = read_ahead r wal_frame_size in
    elim read [
      | none ↦ ([], r')
      | some bytes ↦ elim (accept_raw h bytes) [
        | none ↦ ([], r')
        | some f ↦ push_raw f (read_raw left h r')
      ]
    ]

-- the second loop: the frames up to the first with a wrong checksum
unfoldable pub validate : List WalFrame → List WalFrame
validate [] = []
validate (f ∷ fs) =
    let rest = validate fs in if f.checksum == calculate_checksum f then f ∷ rest else []

-- the third loop: the last frame of a page wins, and page 0 is left out
unfoldable pub collect : Map (List ℕ) → List WalFrame → Map (List ℕ)
collect pages [] = pages
collect pages (f ∷ fs) =
    collect (if f.page_num == 0 then pages else Map.insert pages f.page_num f.page_data) fs

-- the pages that are handed to the pager, and the log at that moment
unfoldable pub gather : WalInner → Map (List ℕ) × WalInner
gather w0 =
    let w = recount w0 in
    let d = seek w.disk wal_header_size in
    let (raw, r) = read_raw w.frame_num w.header (record { ahead = []; disk = d }) in
    (collect [] (validate raw), record w { disk = r.disk; file_position = none })

-- the log behind `set_len`
unfoldable pub emptied : WalInner → ℕ → WalInner
emptied w now = record w {
  disk = set_len w.disk wal_header_size;
  frame_num = 0;
  cached_file_size = wal_header_size;
  cache_timestamp = some now;
  file_position = none;
}

module _ {P : Type 0} (store : Map (List ℕ) → P → Result P) where
  unfoldable pub checkpoint : Wal → P → ℕ → Result P × Wal
  unfolding gather emptied
  checkpoint wal pager now =
      if wal.poisoned
      then (wal_poisoned, wal)
      else let (pages, w) = gather wal.value in
        elim (store pages pager) [
          | ok pager' ↦ (ok pager', released (emptied w now))
          | err e ↦ (err e, released w)
        ]
