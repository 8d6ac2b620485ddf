-- ===== src/Wal/Recovery.antt =====
-- src/core/wal.rs: `open` on an existing file counts the frames up to the first that is torn,
-- foreign or damaged.
use jasonisnthappy.Base.{
  ℕ, zero, suc, ◌+◌, ◌-◌, ◌*◌, ◌/◌, ◌≤◌, ◌<◌, ◌≡◌, ◌≢◌, refl, ap, sym, ◌∙◌, ◌⊎◌, inl, inr, false,
  none, some, List, [], ◌∷◌, ◌++◌, length, length-append, append_assoc, append-nil, arith, ltb, All,
}
use jasonisnthappy.Base.Bytes.{slice, slice-skip}
use jasonisnthappy.Wal.Disk.{seek}
use jasonisnthappy.Wal.Frame.{
  WalHeader, WalFrame, wal_header_size, wal_frame_size, header_bytes, parse_frame,
  calculate_checksum,
}
use Prim.Native.Nat.add
use native.Mathlib.Nat.{suc-add}
use jasonisnthappy.Wal.Codec.{IsHeader, length-header_bytes}
use jasonisnthappy.Wal.Log.{
  WalInner, offset_of, accept_frame, count_from, count_frames, is_valid_frame,
}
use jasonisnthappy.Base.Error.{ok}
use jasonisnthappy.Wal.Logged.{IsLogFrame, Logged, encode, length-encode, length-content}
use jasonisnthappy.Wal.ReadBack.{
  Stands, frame-Stands, read_exact-some, accept_frame-layout, All-prefix,
}

-- `junk` is cut off, or begins with a frame that is not one of the log.
pub data IsTorn (h : WalHeader) (junk : List ℕ) : Type 0 where
  short : length junk < wal_frame_size → IsTorn h junk
  -- a frame of another log, or one whose bytes were changed
  invalid :
      {f : WalFrame}
      → parse_frame (slice junk 0 wal_frame_size) ≡ ok f
      → (f.salt1 ≢ h.salt1) ⊎ ((f.salt2 ≢ h.salt2) ⊎ (f.checksum ≢ calculate_checksum f))
      → IsTorn h junk

invalid-accept_frame :
    (h : WalHeader) (bytes : List ℕ) (f : WalFrame)
    → parse_frame bytes ≡ ok f
    → (f.salt1 ≢ h.salt1) ⊎ ((f.salt2 ≢ h.salt2) ⊎ (f.checksum ≢ calculate_checksum f))
    → accept_frame h bytes ≡ none
unfolding accept_frame is_valid_frame
invalid-accept_frame h bytes f e (inl wrong) = ground (arith, e)
invalid-accept_frame h bytes f e (inr (inl wrong)) = ground (arith, e)
invalid-accept_frame h bytes f e (inr (inr wrong)) = ground (arith, e)

-- A file that begins with the header and the frames `fs`.
pub record Recorded (w : WalInner) (fs : List WalFrame) (junk : List ℕ) : Type 0 where
  pub header : IsHeader w.header
  pub frames : All (IsLogFrame w.header) fs
  pub content : w.disk.bytes ≡ header_bytes w.header ++ (encode fs ++ junk)

-- What counting leaves of a log whose writer holds nothing back.
pub record Recounted (w w' : WalInner) : Type 0 where
  pub header : w'.header ≡ w.header
  pub bytes : w'.disk.bytes ≡ w.disk.bytes
  pub buffer : w'.disk.buffer ≡ []
  pub tracked : (p : ℕ) → w'.file_position ≡ some p → p ≡ w'.disk.position

-- the log behind a round that has read frame `i`
abbrev after_read : WalInner → ℕ → WalInner
after_read w i = record w {
  disk = record w.disk { position = offset_of i + wal_frame_size };
  file_position = some (offset_of i + wal_frame_size);
}

after_read-Recounted : (w : WalInner) (i : ℕ) → w.disk.buffer ≡ [] → Recounted w (after_read w i)
after_read-Recounted w i b = record {
  header = refl;
  bytes = refl;
  buffer = b;
  tracked = λ p h. ground arith;
}

-- one round at a frame that the file holds
count_from-step :
    (left : ℕ) (w : WalInner) (i valid : ℕ) (f : WalFrame)
    → IsLogFrame w.header f
    → Stands w.disk.bytes i f
    → count_from (suc left) w i valid ≡ count_from left (after_read w i) (i + 1) (valid + 1)
unfolding count_from seek
count_from-step left w i valid f v st =
    let read = read_exact-some (seek w.disk (offset_of i)) wal_frame_size st.room in
    ground (arith, read, st.there, accept_frame-layout w.header f v)

-- the round that finds no valid frame
count_from-stop :
    (left : ℕ) (w : WalInner) (i valid : ℕ)
    → offset_of i + wal_frame_size ≤ length w.disk.bytes
    → accept_frame w.header (slice w.disk.bytes (offset_of i) wal_frame_size) ≡ none
    → count_from (suc left) w i valid ≡ (valid, after_read w i)
unfolding count_from seek
count_from-stop left w i valid room torn =
    let read = read_exact-some (seek w.disk (offset_of i)) wal_frame_size room in
    ground (arith, read, torn)

-- where the frames end, the rest of the file gives no frame
count_from-torn :
    (extra : ℕ) (w : WalInner) (fs : List WalFrame) (junk : List ℕ)
    → Recorded w fs junk
    → w.disk.buffer ≡ []
    → ((p : ℕ) → w.file_position ≡ some p → p ≡ w.disk.position)
    → extra * wal_frame_size ≤ length junk
    → IsTorn w.header junk
    → (w' : WalInner) × (count_from extra w (length fs) (length fs) ≡ (length fs, w'))
      × Recounted w w'
count_from-torn zero w fs junk r b t room torn =
    (w, unfold count_from in refl, record { header = refl; bytes = refl; buffer = b; tracked = t })
count_from-torn (suc extra) w fs junk r b t room (short small) = absurd (omega arith)
count_from-torn (suc extra) w fs junk r b t room (invalid {f} parsed wrong) =
    let damaged = invalid-accept_frame w.header (slice junk 0 wal_frame_size) f parsed wrong in
    let before = header_bytes w.header ++ encode fs in
    let n = length-content w.header fs r.header r.frames in
    let e : w.disk.bytes ≡ before ++ junk =
      r.content ∙ sym (append_assoc (header_bytes w.header) (encode fs) junk) in
    let same : slice w.disk.bytes (offset_of (length fs)) wal_frame_size
        ≡ slice junk 0 wal_frame_size =
      rw e (slice-skip (offset_of (length fs)) wal_frame_size before junk n) in
    (
      after_read w (length fs),
      count_from-stop extra w (length fs) (length fs)
          (omega (arith, n, ap (λ (b : List ℕ). length b) e, length-append before junk))
          (rw same damaged),
      after_read-Recounted w (length fs) b,
    )

-- The loop counts every frame that the file holds and stops behind the last.
count_from-Recorded :
    (post pre : List WalFrame) (extra : ℕ) (w : WalInner) (junk : List ℕ)
    → Recorded w (pre ++ post) junk
    → w.disk.buffer ≡ []
    → ((p : ℕ) → w.file_position ≡ some p → p ≡ w.disk.position)
    → extra * wal_frame_size ≤ length junk
    → IsTorn w.header junk
    → (w' : WalInner) × (count_from (length post + extra) w (length pre) (length pre)
        ≡ (length (pre ++ post), w'))
      × Recounted w w'
count_from-Recorded [] pre extra w junk r b t room torn =
    rw (add.zero extra, append-nil pre)
      (count_from-torn extra w pre junk (rw (append-nil pre) at r) b t room torn)
count_from-Recorded (f ∷ post) pre extra w junk r b t room torn =
    let v = (All-prefix w.header pre f post r.frames).1 in
    let st = frame-Stands w.header pre f post junk w.disk.bytes r.header r.frames r.content in
    let step = count_from-step (length post + extra) w (length pre) (length pre) f v st in
    let regroup : (pre ++ f ∷ []) ++ post ≡ pre ++ f ∷ post = append_assoc pre (f ∷ []) post in
    let index : length (pre ++ f ∷ []) ≡ length pre + 1 =
      omega (arith, length-append pre (f ∷ [])) in
    let w₁ = after_read w (length pre) in
    let r₁ : Recorded w₁ (pre ++ f ∷ post) junk = record {
      header = r.header;
      frames = r.frames;
      content = r.content;
    } in
    let (w', counted, kept) =
      count_from-Recorded post (pre ++ f ∷ []) extra w₁ junk (rw regroup r₁) b
        (after_read-Recounted w (length pre) b).tracked room torn in
    (
      w',
      ap (λ (n : ℕ). count_from n w (length pre) (length pre)) (suc-add (length post) extra)
          ∙ (step ∙ rw (index, regroup) at counted),
      record {
        header = kept.header;
        bytes = kept.bytes;
        buffer = kept.buffer;
        tracked = kept.tracked;
      },
    )

-- Counting the frames of such a file finds exactly `fs`.
pub count_frames-Recorded :
    (w : WalInner) (fs : List WalFrame) (junk : List ℕ)
    → Recorded w fs junk
    → w.disk.buffer ≡ []
    → ((p : ℕ) → w.file_position ≡ some p → p ≡ w.disk.position)
    → IsTorn w.header junk
    → (w' : WalInner) × (count_frames w ≡ (length fs, w')) × Recounted w w'
unfolding count_frames
count_frames-Recorded w fs junk r b t torn =
    let size : length w.disk.bytes ≡ wal_header_size + (length fs * wal_frame_size + length junk) =
      rw r.content (
        omega (
          arith,
          length-append (header_bytes w.header) (encode fs ++ junk),
          length-append (encode fs) junk,
          length-header_bytes w.header r.header,
          length-encode w.header fs r.frames,
        )) in
    let (w', counted, kept) =
      count_from-Recorded fs [] (length junk / wal_frame_size) w junk r b t (omega arith) torn in
    let rounds : (length w.disk.bytes - wal_header_size) / wal_frame_size
        ≡ length fs + length junk / wal_frame_size =
      omega (arith, size) in
    let big : ltb (length w.disk.bytes) wal_header_size ≡ false = ground (arith, size) in
    (w', simp (big, rounds) counted, kept)

-- A log that was counted, with nothing behind its frames, holds the frames.
pub Recounted-Logged :
    (w w' : WalInner) (fs : List WalFrame) (junk : List ℕ)
    → Recorded w fs junk
    → junk ≡ []
    → Recounted w w'
    → Logged (record w' { frame_num = length fs }) fs
Recounted-Logged w w' fs junk r clean k = record {
  header = rw k.header r.header;
  frames = rw k.header r.frames;
  content = simp (k.bytes, k.buffer, k.header, r.content, clean, append-nil);
  held = inl k.buffer;
  tracked = λ p h. k.tracked p h ∙ rw k.buffer (omega arith);
  counted = refl;
}
