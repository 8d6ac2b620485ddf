-- ===== src/Wal/ReadBack.antt =====
-- src/core/wal.rs: `read_frame` and `read_all_frames` give back what was written and synced.
use jasonisnthappy.Base.{
  ℕ, ◌+◌, ◌*◌, ◌≤◌, ◌≡◌, refl, ap, sym, ◌∙◌, inl, true, false, some, List, [], ◌∷◌, ◌++◌, length,
  length-append, append_assoc, append-nil, arith, leb, All,
}
use jasonisnthappy.Base.Bytes.{slice, slice-append}
use jasonisnthappy.Base.Error.{ok}
use jasonisnthappy.Wal.Disk.{Disk, seek, read_exact}
use jasonisnthappy.Wal.Frame.{WalHeader, WalFrame, wal_header_size, wal_frame_size, header_bytes}
use jasonisnthappy.Wal.Codec.{IsHeader, length-header_bytes, layout, length-layout, parse-layout}
use jasonisnthappy.Wal.Log.{WalInner, released, offset_of, is_valid_frame, accept_frame}
use jasonisnthappy.Wal.Reads.{check_frame, read_inner, read_frame, read_from, read_all_frames}
use jasonisnthappy.Wal.Logged.{
  IsLogFrame-is_valid_frame, IsLogFrame, Logged, encode, encode-cons, encode-append, length-encode,
}

-- The prefix of a list of frames, and the frame behind it.
pub All-prefix :
    (h : WalHeader) (pre : List WalFrame) (f : WalFrame) (post : List WalFrame)
    → All (IsLogFrame h) (pre ++ f ∷ post)
    → All (IsLogFrame h) pre × IsLogFrame h f
All-prefix h [] f post a = (tt, a.0)
All-prefix h (g ∷ pre) f post a = let r = All-prefix h pre f post a.1 in ((a.0, r.0), r.1)

-- Where a frame stands in a file that begins with the header and the frames.
pub record Stands (bytes : List ℕ) (i : ℕ) (f : WalFrame) : Type 0 where
  pub there : slice bytes (offset_of i) wal_frame_size ≡ layout f
  pub room : offset_of i + wal_frame_size ≤ length bytes

pub frame-Stands :
    (h : WalHeader) (pre : List WalFrame) (f : WalFrame) (post : List WalFrame)
    (junk bytes : List ℕ)
    → IsHeader h
    → All (IsLogFrame h) (pre ++ f ∷ post)
    → bytes ≡ header_bytes h ++ (encode (pre ++ f ∷ post) ++ junk)
    → Stands bytes (length pre) f
unfolding offset_of
frame-Stands h pre f post junk bytes i a e =
    let split = All-prefix h pre f post a in
    let before = header_bytes h ++ encode pre in
    let size = length-layout f split.1.fits in
    let n : length before ≡ wal_header_size + length pre * wal_frame_size = omega (
      arith,
      length-append (header_bytes h) (encode pre),
      length-header_bytes h i,
      length-encode h pre split.0,
    ) in
    let e' : bytes ≡ before ++ (layout f ++ (encode post ++ junk)) =
      e ∙ (simp (encode-append pre (f ∷ post), append_assoc, encode-cons f post)) in
    rw e' (record {
      there = slice-append _ wal_frame_size before (layout f) (encode post ++ junk) n size;
      room = omega (
        arith,
        n,
        size,
        length-append before (layout f ++ (encode post ++ junk)),
        length-append (layout f) (encode post ++ junk),
      );
    })

pub read_exact-some :
    (d : Disk) (n : ℕ)
    → d.position + n ≤ length d.bytes
    → read_exact d n ≡ (some (slice d.bytes d.position n), record d { position = d.position + n })
unfolding read_exact
read_exact-some d n h =
    let e : leb (d.position + n) (length d.bytes) ≡ true = ground arith in simp e

pub check_frame-layout :
    (h : WalHeader) (f : WalFrame) → IsLogFrame h f → check_frame (layout f) ≡ ok f
unfolding check_frame is_valid_frame
check_frame-layout h f v =
    rw (parse-layout f v.fits) (ground (arith, IsLogFrame-is_valid_frame h f v))

pub accept_frame-layout :
    (h : WalHeader) (f : WalFrame) → IsLogFrame h f → accept_frame h (layout f) ≡ some f
unfolding accept_frame
accept_frame-layout h f v =
    rw (parse-layout f v.fits, accept_frame) (rw (IsLogFrame-is_valid_frame h f v))

pub synced-content :
    (w : WalInner) (fs : List WalFrame)
    → Logged w fs
    → w.disk.buffer ≡ []
    → w.disk.bytes ≡ header_bytes w.header ++ (encode fs ++ [])
synced-content w fs l b =
    let e : w.disk.bytes ++ w.disk.buffer ≡ w.disk.bytes = simp b (append-nil w.disk.bytes) in
    sym e ∙ (l.content ∙ simp append-nil)

-- A frame that the synced log holds is read, and the log still holds the same frames.
pub read_inner-Logged :
    (w : WalInner) (pre : List WalFrame) (f : WalFrame) (post : List WalFrame)
    → Logged w (pre ++ f ∷ post)
    → w.disk.buffer ≡ []
    → (w' : WalInner) × (read_inner w (length pre) ≡ (ok f, w'))
      × Logged w' (pre ++ f ∷ post)
      × (w'.disk.buffer ≡ [])
unfolding read_inner seek
read_inner-Logged w pre f post l b =
    let i = length pre in
    let whole : w.disk.bytes ≡ header_bytes w.header ++ (encode (pre ++ f ∷ post) ++ []) =
      synced-content w (pre ++ f ∷ post) l b in
    let st = frame-Stands w.header pre f post [] w.disk.bytes l.header l.frames whole in
    let v = (All-prefix w.header pre f post l.frames).1 in
    let d' : Disk = record w.disk { position = offset_of i + wal_frame_size } in
    let w' : WalInner = record w {
      disk = d';
      file_position = some (offset_of i + length (layout f));
    } in
    let within : leb w.frame_num i ≡ false =
      ground (arith, l.counted, length-append pre (f ∷ post)) in
    let read = read_exact-some (seek w.disk (offset_of i)) wal_frame_size st.room in
    (
      w',
      ground (arith, within, read, st.there, check_frame-layout w.header f v),
      record {
        header = l.header;
        frames = l.frames;
        content = l.content;
        held = inl b;
        tracked = λ p h. ground (arith, b, length-layout f v.fits);
        counted = l.counted;
      },
      b,
    )

read_frame-inner :
    (w : WalInner) (i : ℕ) (f : WalFrame) (w' : WalInner)
    → read_inner w i ≡ (ok f, w')
    → read_frame (released w) i ≡ (ok f, released w')
unfolding read_frame
read_frame-inner w i f w' e = rw e

pub read_from-Logged :
    (post pre : List WalFrame) (w : WalInner)
    → Logged w (pre ++ post)
    → w.disk.buffer ≡ []
    → (w' : WalInner) × (read_from (length post) (released w) (length pre) ≡ (ok post, released w'))
      × Logged w' (pre ++ post)
      × (w'.disk.buffer ≡ [])
unfolding read_from
read_from-Logged [] pre w l b = (w, refl, l, b)
read_from-Logged (f ∷ post) pre w l b =
    let (w', e, l', b') = read_inner-Logged w pre f post l b in
    let regroup : (pre ++ f ∷ []) ++ post ≡ pre ++ f ∷ post = append_assoc pre (f ∷ []) post in
    let (w'', e'', l'', b'') = read_from-Logged post (pre ++ f ∷ []) w' (rw regroup l') b' in
    let index : length (pre ++ f ∷ []) ≡ length pre + 1 =
      omega (arith, length-append pre (f ∷ [])) in
    let step = read_frame-inner w (length pre) f w' e in
    let rest : read_from (length post) (released w') (length pre + 1) ≡ (ok post, released w'') =
      rw index at e'' in
    (w'', ground (arith, step, rest), rw regroup at l'', b'')

-- Reading all frames of a synced log returns the frames that it holds, in order.
pub read_all_frames-Logged :
    (w : WalInner) (fs : List WalFrame)
    → Logged w fs
    → w.disk.buffer ≡ []
    → (w' : WalInner) × (read_all_frames (released w) ≡ (ok fs, released w')) × Logged w' fs
unfolding read_all_frames
read_all_frames-Logged w fs l b =
    let (w', e, l', b') = read_from-Logged fs [] w l b in
    (w', ap (λ (n : ℕ). read_from n (released w) 0) l.counted ∙ e, l')
