-- ===== src/Wal/Checkpoints.antt =====
-- src/core/wal.rs: a checkpoint of a synced log.
use jasonisnthappy.Base.{
  ℕ, ◌-◌, ◌≡◌, refl, ap, ◌∙◌, inl, none, some, List, [], ◌∷◌, ◌++◌, length, length-append,
  append-nil, arith, All, take, take-append, drop-append, replicate,
}
use jasonisnthappy.Base.Map.{Map}
use jasonisnthappy.Base.Error.{Error, Result, ok, err}
use jasonisnthappy.Wal.Disk.{Reader, seek, set_len}
use jasonisnthappy.Wal.Readers.{ahead_of, read_ahead-Reads}
use jasonisnthappy.Wal.Frame.{WalHeader, WalFrame, wal_header_size, wal_frame_size, header_bytes}
use jasonisnthappy.Wal.Codec.{length-header_bytes, layout, length-layout, parse-layout}
use jasonisnthappy.Wal.Log.{WalInner, released, recount, is_valid_frame}
use jasonisnthappy.Wal.Logged.{
  IsLogFrame, IsLogFrame-is_valid_frame, Logged, encode, encode-cons, encode-nil,
}
use jasonisnthappy.Wal.ReadBack.{synced-content}
use jasonisnthappy.Wal.Recovery.{short, Recorded, count_frames-Recorded, Recounted-Logged}
use jasonisnthappy.Wal.Checkpoint.{accept_raw, read_raw, collect, gather, checkpoint}
use jasonisnthappy.Wal.Pages.{validate-All}

accept_raw-layout :
    (h : WalHeader) (f : WalFrame) → IsLogFrame h f → accept_raw h (layout f) ≡ some f
unfolding accept_raw is_valid_frame
accept_raw-layout h f v = ground (arith, parse-layout f v.fits, IsLogFrame-is_valid_frame h f v)

-- The first loop reads every frame that stands ahead.
read_raw-frames :
    (h : WalHeader) (fs : List WalFrame) (r : Reader)
    → All (IsLogFrame h) fs
    → ahead_of r ≡ encode fs
    → (r' : Reader) × (read_raw (length fs) h r ≡ (fs, r'))
      × (r'.disk.bytes ≡ r.disk.bytes)
      × (r'.disk.buffer ≡ r.disk.buffer)
unfolding read_raw
read_raw-frames h [] r a e = (r, refl, refl, refl)
read_raw-frames h (f ∷ fs) r (v, vs) e =
    let size = length-layout f v.fits in
    let e' : ahead_of r ≡ layout f ++ encode fs = e ∙ encode-cons f fs in
    let (r₁, step) =
      read_ahead-Reads r wal_frame_size
        (omega
          (arith, size, ap (λ (b : List ℕ). length b) e', length-append (layout f) (encode fs)))
        (omega arith) in
    let first : take wal_frame_size (ahead_of r) ≡ layout f =
      rw e' (take-append wal_frame_size (layout f) (encode fs) size) in
    let rest : ahead_of r₁ ≡ encode fs =
      step.left ∙ rw e' (drop-append wal_frame_size (layout f) (encode fs) size) in
    let (r', others, same, held) = read_raw-frames h fs r₁ vs rest in
    (
      r',
      ground (arith, step.given, first, accept_raw-layout h f v, others),
      same ∙ step.bytes,
      held ∙ step.buffer,
    )

-- truncation to the size of the header leaves the header
set_len-header :
    (w : WalInner) (fs : List WalFrame)
    → Logged w fs
    → w.disk.buffer ≡ []
    → (set_len w.disk wal_header_size).bytes ≡ header_bytes w.header
unfolding set_len
set_len-header w fs l b =
    let content = synced-content w fs l b in
    let size = length-header_bytes w.header l.header in
    let long : wal_header_size - length w.disk.bytes ≡ 0 = omega (
      arith,
      size,
      ap (λ (b : List ℕ). length b) content,
      length-append (header_bytes w.header) (encode fs ++ []),
    ) in
    rw (long, content, take-append wal_header_size (header_bytes w.header) (encode fs ++ []) size)
      (unfold replicate in append-nil (header_bytes w.header))

-- What a checkpoint hands to the pager, and the log at that moment.
gather-Logged :
    (w : WalInner) (fs : List WalFrame)
    → Logged w fs
    → w.disk.buffer ≡ []
    → (w' : WalInner) × (gather w ≡ (collect [] fs, w'))
      × Logged w' fs
      × (w'.disk.buffer ≡ [])
      × (w'.header ≡ w.header)
unfolding gather seek
gather-Logged w fs l b =
    let whole = synced-content w fs l b in
    let recorded : Recorded w fs [] = record {
      header = l.header;
      frames = l.frames;
      content = whole;
    } in
    let tracked : (p : ℕ) → w.file_position ≡ some p → p ≡ w.disk.position =
      λ p h. l.tracked p h ∙ rw b (omega arith) in
    let (w₁, counted, kept) =
      count_frames-Recorded w fs [] recorded b tracked (short (omega arith)) in
    let w₂ : WalInner = record w₁ { frame_num = length fs } in
    let l₂ = Recounted-Logged w w₁ fs [] recorded refl kept in
    let recounted : recount w ≡ w₂ = unfold recount in rw counted in
    let r : Reader = record { ahead = []; disk = record w₁.disk { position = wal_header_size } } in
    let content₂ = synced-content w₂ fs l₂ kept.buffer in
    let e : ahead_of r ≡ encode fs =
      rw (content₂, append-nil (encode fs))
        (drop-append wal_header_size (header_bytes w₁.header) (encode fs)
          (length-header_bytes w₁.header l₂.header)) in
    let (r', raw, same, held) = read_raw-frames w₁.header fs r l₂.frames e in
    let empty : r'.disk.buffer ≡ [] = held ∙ kept.buffer in
    let w' : WalInner = record w₂ { disk = r'.disk; file_position = none } in
    (
      w',
      rw recounted (simp (raw, validate-All w₁.header fs l₂.frames)),
      record {
        header = l₂.header;
        frames = l₂.frames;
        content = simp (same, empty) (append-nil w₁.disk.bytes ∙ (content₂ ∙ simp append-nil));
        held = inl empty;
        tracked = λ p h. cc;
        counted = refl;
      },
      empty,
      kept.header,
    )

-- A checkpoint of a synced log hands the pager the pages collected from all its frames. If the
-- pager takes them, the log is empty afterwards: its file is the header alone, it holds no frames,
-- and it can be written on. If the pager fails, its error is returned and the log still holds the
-- same frames.
pub checkpoint-Logged :
    {P : Type 0} (store : Map (List ℕ) → P → Result P) (w : WalInner) (fs : List WalFrame)
    (pager : P) (now : ℕ)
    → Logged w fs
    → w.disk.buffer ≡ []
    → ((pager' : P)
        → store (collect [] fs) pager ≡ ok pager'
        → (w' : WalInner) × (checkpoint store (released w) pager now ≡ (ok pager', released w'))
          × Logged w' []
          × (w'.disk.bytes ≡ header_bytes w.header))
      × ((e : Error)
          → store (collect [] fs) pager ≡ err e
          → (w' : WalInner) × (checkpoint store (released w) pager now ≡ (err e, released w'))
            × Logged w' fs)
unfolding checkpoint
checkpoint-Logged store w fs pager now l b =
    let (w₁, gathered, l₁, b₁, h₁) = gather-Logged w fs l b in
    let cut = set_len-header w₁ fs l₁ b₁ in
    let held : (set_len w₁.disk wal_header_size).buffer ≡ [] = unfold set_len in b₁ in
    (
      λ pager' taken. (
        record w₁ {
          disk = set_len w₁.disk wal_header_size;
          frame_num = 0;
          cached_file_size = wal_header_size;
          cache_timestamp = some now;
          file_position = none;
        },
        ground (arith, gathered, taken),
        record {
          header = l₁.header;
          frames = tt;
          content = simp (cut, held, encode-nil);
          held = inl held;
          tracked = λ p h. cc;
          counted = refl;
        },
        cut ∙ ap header_bytes h₁,
      ),
      λ e failed. (w₁, ground (arith, gathered, failed), l₁),
    )
