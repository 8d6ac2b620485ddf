-- ===== src/Wal/SharedOffset.antt =====
-- src/core/wal.rs: the reading handle and the buffered writer share one offset, so a frame read
-- between `write_frame` and `sync` moves the place where the held back frames are written.
use jasonisnthappy.Base.{
  ℕ, ◌+◌, ◌-◌, ◌≤◌, ◌<◌, ◌≡◌, ap, sym, ◌∙◌, some, List, [], ◌∷◌, ◌++◌, length, length-append,
  length-take, length-drop, append-nil, arith, take, drop, replicate, length-replicate, leb, false,
}
use jasonisnthappy.Base.Bytes.{slice, take-append_le, drop-append_le}
use jasonisnthappy.Base.Error.{ok}
use jasonisnthappy.Wal.Disk.{Disk, seek, flush, write_at}
use jasonisnthappy.Wal.Appends.{IsAtEnd}
use jasonisnthappy.Wal.Frame.{WalFrame, wal_frame_size, header_bytes}
use jasonisnthappy.Wal.Codec.{layout}
use jasonisnthappy.Wal.Log.{WalInner, released, offset_of, sync}
use jasonisnthappy.Wal.Reads.{read_inner, read_frame}
use jasonisnthappy.Wal.Logged.{Logged, encode}
use jasonisnthappy.Wal.ReadBack.{frame-Stands, All-prefix, read_exact-some, check_frame-layout}
use jasonisnthappy.Wal.Durability.{file_of}

length-write_at-lt :
    (bytes : List ℕ) (i : ℕ) (more : List ℕ)
    → i < length bytes
    → 0 < length more
    → length (write_at bytes i more) < length bytes + length more
unfolding write_at
length-write_at-lt bytes i [] h k = absurd (omega arith)
length-write_at-lt bytes i (b ∷ bs) h k =
    let gap : List ℕ = replicate (i - length bytes) 0 in
    let tail = drop (i + length (b ∷ bs)) bytes in
    omega (
      arith,
      length-append (take i bytes) (gap ++ ((b ∷ bs) ++ tail)),
      length-append gap ((b ∷ bs) ++ tail),
      length-append (b ∷ bs) tail,
      length-take i bytes,
      length-drop (i + length (b ∷ bs)) bytes,
      length-replicate {A = ℕ} (i - length bytes) 0,
    )

slice-prefix : (i n : ℕ) (xs ys : List ℕ) → i + n ≤ length xs → slice (xs ++ ys) i n ≡ slice xs i n
unfolding slice
slice-prefix i n xs ys h =
    rw (drop-append_le i xs ys (omega arith))
      (take-append_le n (drop i xs) ys (omega (arith, length-drop i xs)))

-- Suppose that the log holds back bytes, and that the frame `f` stands in its file with another
-- behind it. Reading `f` succeeds; a `sync` after it succeeds too, and leaves a file that is
-- shorter than the frames that were written, so that they are not all in it.
pub sync-read_frame_short :
    (w : WalInner) (pre : List WalFrame) (f : WalFrame) (post : List WalFrame)
    → Logged w (pre ++ f ∷ post)
    → IsAtEnd w.disk
    → 0 < length w.disk.buffer
    → offset_of (length pre) + wal_frame_size < length w.disk.bytes
    → (w' : WalInner) × (read_frame (released w) (length pre) ≡ (ok f, released w'))
      × (length (file_of (sync (released w')).1)
          < length (header_bytes w.header ++ encode (pre ++ f ∷ post)))
unfolding read_frame read_inner seek
sync-read_frame_short w pre f post l e held room =
    let i = length pre in
    let content : w.disk.bytes ++ w.disk.buffer
        ≡ header_bytes w.header ++ (encode (pre ++ f ∷ post) ++ []) =
      l.content ∙ simp append-nil in
    let st =
      frame-Stands w.header pre f post [] (w.disk.bytes ++ w.disk.buffer) l.header l.frames
        content in
    let v = (All-prefix w.header pre f post l.frames).1 in
    let there : slice w.disk.bytes (offset_of i) wal_frame_size ≡ layout f =
      sym (slice-prefix (offset_of i) wal_frame_size w.disk.bytes w.disk.buffer (omega arith))
      ∙ st.there in
    let d' : Disk = record w.disk { position = offset_of i + wal_frame_size } in
    let w' : WalInner = record w {
      disk = d';
      file_position = some (offset_of i + length (layout f));
    } in
    let within : leb w.frame_num i ≡ false =
      ground (arith, l.counted, length-append pre (f ∷ post)) in
    let read = read_exact-some (seek w.disk (offset_of i)) wal_frame_size (omega arith) in
    (
      w',
      ground (arith, within, read, there, check_frame-layout w.header f v),
      unfold sync flush in
          omega (
            arith,
            length-write_at-lt w.disk.bytes (offset_of i + wal_frame_size) w.disk.buffer room held,
            ap (λ (b : List ℕ). length b) l.content,
            length-append w.disk.bytes w.disk.buffer,
          ),
    )
