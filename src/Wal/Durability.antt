-- ===== src/Wal/Durability.antt =====
-- src/core/wal.rs: frames written and synced are the frames of the log when it is opened again.
use jasonisnthappy.Base.{
  ℕ, ◌<◌, ◌≡◌, refl, ap, ◌∙◌, none, some, List, [], ◌∷◌, ◌++◌, length, append_assoc, append-nil,
  arith, All, map, u32_mod, u64_mod,
}
use jasonisnthappy.Base.Error.{Result, ok}
use jasonisnthappy.Wal.Frame.{WalHeader, WalFrame, page_size, header_bytes}
use jasonisnthappy.Wal.Log.{WalInner, Wal, released, new_frame, write_frame, sync}
use jasonisnthappy.Wal.Reads.{fresh_header, open_log, read_all_frames}
use jasonisnthappy.Wal.Logged.{Logged, encode, write_frame-Logged, sync-Logged}
use jasonisnthappy.Wal.Recovery.{short}
use jasonisnthappy.Wal.ReadBack.{read_all_frames-Logged}
use jasonisnthappy.Wal.Opened.{open_log-new, open_log-recovers}

-- the arguments of a call of `write_frame`
pub record Write : Type 0 where
  pub tx_id : ℕ
  pub page_num : ℕ
  pub page_data : List ℕ

pub record IsWrite (c : Write) : Type 0 where
  pub tx_id : c.tx_id < u64_mod
  pub page_num : c.page_num < u64_mod
  pub page_data : length c.page_data ≡ page_size

-- the calls of `write_frame`, one after the other; the results are dropped
unfoldable pub write_frames : Wal → ℕ → List Write → Wal
write_frames wal now [] = wal
write_frames wal now (c ∷ cs) =
    write_frames (write_frame wal now c.tx_id c.page_num c.page_data).1 now cs

-- the frames that these calls append
abbrev pub frames_of : WalHeader → List Write → List WalFrame
frames_of h cs = map (λ c. new_frame h c.tx_id c.page_num c.page_data) cs

pub write_frames-Logged :
    (cs : List Write) (w : WalInner) (fs : List WalFrame) (now : ℕ)
    → Logged w fs
    → All IsWrite cs
    → (w' : WalInner) × (write_frames (released w) now cs ≡ released w')
      × Logged w' (fs ++ frames_of w.header cs)
      × (w'.header ≡ w.header)
unfolding write_frames
write_frames-Logged [] w fs now l v = (w, refl, rw (append-nil fs) l, refl)
write_frames-Logged (c ∷ cs) w fs now l (v, vs) =
    let f = new_frame w.header c.tx_id c.page_num c.page_data in
    let (w₁, written, l₁, h₁) =
      write_frame-Logged w fs now c.tx_id c.page_num c.page_data l v.tx_id v.page_num v.page_data in
    let (w', rest, l', h') = write_frames-Logged cs w₁ (fs ++ f ∷ []) now l₁ vs in
    let regroup : (fs ++ f ∷ []) ++ frames_of w.header cs ≡ fs ++ (f ∷ frames_of w.header cs) =
      append_assoc fs (f ∷ []) (frames_of w.header cs) in
    (
      w',
      ap (λ (r : Result (Unit {0}) × Wal). write_frames r.1 now cs) written ∙ rest,
      rw regroup at (rw h₁ at l'),
      h' ∙ h₁,
    )

-- the bytes of the log's file
abbrev pub file_of : Wal → List ℕ
file_of wal = wal.value.disk.bytes

-- Durability: create a log, write frames, `sync`, and open the file again, whatever salts the
-- second `open` draws. It succeeds, and reading all frames returns exactly the frames written, in
-- the order of the calls.
pub reopen-sync :
    (salt1 salt2 salt1' salt2' now : ℕ) (cs : List Write)
    → salt1 < u32_mod
    → salt2 < u32_mod
    → All IsWrite cs
    → (fresh reopened last : Wal) × (open_log none salt1 salt2 ≡ ok fresh)
      × (open_log (some (file_of (sync (write_frames fresh now cs)).1)) salt1' salt2' ≡ ok reopened)
      × (read_all_frames reopened ≡ (ok (frames_of (fresh_header salt1 salt2) cs), last))
reopen-sync salt1 salt2 salt1' salt2' now cs p q v =
    let h = fresh_header salt1 salt2 in
    let (w, opened, l, eh) = open_log-new salt1 salt2 p q in
    let (w₁, written, l₁, h₁) = write_frames-Logged cs w [] now l v in
    let (w₂, synced, l₂, empty, bytes, h₂) = sync-Logged w₁ (frames_of w.header cs) l₁ in
    let fs = frames_of w.header cs in
    let (w₃, again, n, h₃, b₃, held, logged) =
      open_log-recovers w₁.header fs [] salt1' salt2' l₁.header l₁.frames (short (omega arith)) in
    let (w₄, read, l₄) = read_all_frames-Logged w₃ fs (logged refl) held in
    let file : file_of (sync (write_frames (released w) now cs)).1
        ≡ header_bytes w₁.header ++ (encode fs ++ []) =
      ap (λ (wal : Wal). file_of (sync wal).1) written
      ∙ (ap (λ (r : Result (Unit {0}) × Wal). file_of r.1) synced ∙ (bytes ∙ simp append-nil)) in
    (
      released w,
      released w₃,
      released w₄,
      opened,
      ap (λ (bytes : List ℕ). open_log (some bytes) salt1' salt2') file ∙ again,
      read ∙ ap (λ (h : WalHeader). (ok (frames_of h cs), released w₄)) eh,
    )
