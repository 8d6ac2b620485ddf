-- ===== src/Wal/Logged.antt =====
-- src/core/wal.rs: what the log holds, and that writing a frame and `sync` keep it.
use jasonisnthappy.Base.{
  ℕ, ◌+◌, ◌*◌, ◌<◌, ◌≡◌, refl, ap, ◌∙◌, ◌⊎◌, inl, inr, true, Option, none, some, List, [], ◌∷◌,
  ◌++◌, length, length-append, length-replicate, append_assoc, append-nil, arith, Bool-cases,
  replicate, if◌then◌else◌, u64_mod, All, All-append,
}
use jasonisnthappy.Base.Bits.{bit_xor-lt}
use jasonisnthappy.Base.Error.{ok}
use jasonisnthappy.Wal.Checksum.{crc32_ieee-lt}
use jasonisnthappy.Wal.Disk.{Disk, seek, flush, write_all}
use jasonisnthappy.Wal.Appends.{IsAtEnd, flush-joined, joined, write_all-Appended}
use jasonisnthappy.Wal.Frame.{
  WalHeader, WalFrame, page_size, wal_frame_size, header_bytes, calculate_checksum,
}
use jasonisnthappy.Wal.Codec.{
  IsHeader, length-header_bytes, IsFrame, layout, length-layout, serialize-layout,
}
use jasonisnthappy.Wal.Log.{
  WalInner, released, offset_of, is_at, new_frame, append_frame, write_frame, sync, is_valid_frame,
}

-- A frame of the log: it fits its layout, has the log's salts and its own checksum.
pub record IsLogFrame (h : WalHeader) (f : WalFrame) : Type 0 where
  pub fits : IsFrame f
  pub salt1 : f.salt1 ≡ h.salt1
  pub salt2 : f.salt2 ≡ h.salt2
  pub checksum : f.checksum ≡ calculate_checksum f

pub IsLogFrame-is_valid_frame :
    (h : WalHeader) (f : WalFrame) → IsLogFrame h f → is_valid_frame h f ≡ true
unfolding is_valid_frame
IsLogFrame-is_valid_frame h f v = ground (arith, v.salt1, v.salt2, v.checksum)

unfoldable pub encode : List WalFrame → List ℕ
encode [] = []
encode (f ∷ fs) = layout f ++ encode fs

pub encode-append : (fs gs : List WalFrame) → encode (fs ++ gs) ≡ encode fs ++ encode gs
unfolding encode
encode-append [] gs = refl
encode-append (f ∷ fs) gs = simp (encode-append fs gs, append_assoc)

pub encode-nil : encode [] ≡ []
unfolding encode
encode-nil = refl

pub encode-cons : (f : WalFrame) (fs : List WalFrame) → encode (f ∷ fs) ≡ layout f ++ encode fs
unfolding encode
encode-cons f fs = refl

encode-single : (f : WalFrame) → encode (f ∷ []) ≡ layout f
unfolding encode
encode-single f = append-nil (layout f)

pub length-encode :
    (h : WalHeader) (fs : List WalFrame)
    → All (IsLogFrame h) fs
    → length (encode fs) ≡ length fs * wal_frame_size
unfolding encode
length-encode h [] a = refl
length-encode h (f ∷ fs) (a, as') =
    omega
      (arith, length-append (layout f) (encode fs), length-layout f a.fits, length-encode h fs as')

-- The log holds the frames `fs`: the file, with what the writer holds back behind it, is the
-- header and the frames; where the offset may matter it is known.
pub record Logged (w : WalInner) (fs : List WalFrame) : Type 0 where
  pub header : IsHeader w.header
  pub frames : All (IsLogFrame w.header) fs
  pub content : w.disk.bytes ++ w.disk.buffer ≡ header_bytes w.header ++ encode fs
  pub held : (w.disk.buffer ≡ []) ⊎ IsAtEnd w.disk
  pub tracked : (p : ℕ) → w.file_position ≡ some p → p ≡ w.disk.position + length w.disk.buffer
  pub counted : w.frame_num ≡ length fs

-- the frame that `write_frame` builds is one of the log
new_frame-IsLogFrame :
    (h : WalHeader) (tx_id page_num : ℕ) (page_data : List ℕ)
    → IsHeader h
    → tx_id < u64_mod
    → page_num < u64_mod
    → length page_data ≡ page_size
    → IsLogFrame h (new_frame h tx_id page_num page_data)
unfolding new_frame calculate_checksum
new_frame-IsLogFrame h tx_id page_num page_data i p q r = record {
  fits = record {
    tx_id = p;
    page_num = q;
    page_data = r;
    checksum = bit_xor-lt 32 _ h.salt2 (bit_xor-lt 32 _ h.salt1 (crc32_ieee-lt _) i.salt1) i.salt2;
    salt1 = i.salt1;
    salt2 = i.salt2;
  };
  salt1 = refl;
  salt2 = refl;
  checksum = refl;
}

pub length-content :
    (h : WalHeader) (fs : List WalFrame)
    → IsHeader h
    → All (IsLogFrame h) fs
    → length (header_bytes h ++ encode fs) ≡ offset_of (length fs)
unfolding offset_of
length-content h fs i a = omega (
  arith,
  length-append (header_bytes h) (encode fs),
  length-header_bytes h i,
  length-encode h fs a,
)

offset-content :
    (w : WalInner) (fs : List WalFrame)
    → Logged w fs
    → length (w.disk.bytes ++ w.disk.buffer) ≡ offset_of w.frame_num
offset-content w fs l = rw (l.content, l.counted) (length-content w.header fs l.header l.frames)

-- the disk that `append_frame` writes to
abbrev placed : WalInner → Disk
placed w =
    if is_at w.file_position (offset_of w.frame_num)
    then w.disk
    else seek (flush w.disk) (offset_of w.frame_num)

-- It stands at its end, with the same content.
record IsPlaced (w : WalInner) (d : Disk) : Type 0 where
  end : IsAtEnd d
  same : d.bytes ++ d.buffer ≡ w.disk.bytes ++ w.disk.buffer

is_at-some : (o : Option ℕ) (offset : ℕ) → is_at o offset ≡ true → o ≡ some offset
unfolding is_at
is_at-some none offset h = cc
is_at-some (some p) offset h = ground arith

placed-IsPlaced : (w : WalInner) (fs : List WalFrame) → Logged w fs → IsPlaced w (placed w)
placed-IsPlaced w fs l = elim (Bool-cases (is_at w.file_position (offset_of w.frame_num))) [
  | inl there ↦
      let e = l.tracked _ (is_at-some w.file_position (offset_of w.frame_num) there) in
      simp there (record {
        end = record {
          at = omega (arith, offset-content w fs l, e, length-append w.disk.bytes w.disk.buffer);
        };
        same = refl;
      })
  | inr away ↦
      simp (away, flush-joined w.disk l.held)
        (unfold seek in
          record {
            end = record { at = omega (arith, offset-content w fs l) };
            same = append-nil (w.disk.bytes ++ w.disk.buffer);
          })
]

pub some-eq : (p q : ℕ) → some q ≡ some p → p ≡ q
some-eq p q h = ground arith

append_frame-Logged :
    (w : WalInner) (fs : List WalFrame) (now : ℕ) (f : WalFrame)
    → Logged w fs
    → IsLogFrame w.header f
    → Logged (append_frame w now f) (fs ++ f ∷ [])
unfolding append_frame
append_frame-Logged w fs now f l v =
    let blank : List ℕ = replicate wal_frame_size 0 in
    let e = serialize-layout f v.fits blank (length-replicate wal_frame_size 0) in
    let pl = placed-IsPlaced w fs l in
    let size = length-layout f v.fits in
    let a = write_all-Appended (placed w) (layout f) pl.end (omega (arith, size)) in
    let d' = write_all (placed w) (layout f) in
    let grown : d'.bytes ++ d'.buffer ≡ (w.disk.bytes ++ w.disk.buffer) ++ layout f =
      a.grown ∙ ap (λ (b : List ℕ). b ++ layout f) pl.same in
    rw e (record {
      header = l.header;
      frames = All-append (IsLogFrame w.header) fs (f ∷ []) l.frames (v, tt);
      content = simp (grown, l.content, encode-append fs (f ∷ []), append_assoc, encode-single f);
      held = inr a.end;
      tracked = λ p h. omega (
        arith,
        some-eq p _ h,
        a.end.at,
        ap (λ (b : List ℕ). length b) grown,
        offset-content w fs l,
        length-append d'.bytes d'.buffer,
        length-append (w.disk.bytes ++ w.disk.buffer) (layout f),
        size,
      );
      counted = omega (arith, l.counted, length-append fs (f ∷ []));
    })

-- Writing a frame appends it to what the log holds, whether or not the buffer had to be flushed
-- or the offset moved back first.
pub write_frame-Logged :
    (w : WalInner) (fs : List WalFrame) (now tx_id page_num : ℕ) (page_data : List ℕ)
    → Logged w fs
    → tx_id < u64_mod
    → page_num < u64_mod
    → length page_data ≡ page_size
    → (w' : WalInner) × (write_frame (released w) now tx_id page_num page_data
        ≡ (ok tt, released w'))
      × Logged w' (fs ++ new_frame w.header tx_id page_num page_data ∷ [])
      × (w'.header ≡ w.header)
unfolding write_frame
write_frame-Logged w fs now tx_id page_num page_data l p q r =
    let f = new_frame w.header tx_id page_num page_data in
    (
      append_frame w now f,
      simp r,
      append_frame-Logged w fs now f l
          (new_frame-IsLogFrame w.header tx_id page_num page_data l.header p q r),
      unfold append_frame in refl,
    )

-- `sync` leaves nothing held back, and the same frames in the file.
pub sync-Logged :
    (w : WalInner) (fs : List WalFrame)
    → Logged w fs
    → (w' : WalInner) × (sync (released w) ≡ (ok tt, released w'))
      × Logged w' fs
      × (w'.disk.buffer ≡ [])
      × (w'.disk.bytes ≡ header_bytes w.header ++ encode fs)
      × (w'.header ≡ w.header)
unfolding sync
sync-Logged w fs l = (
  record w { disk = joined w.disk },
  rw (flush-joined w.disk l.held),
  record {
    header = l.header;
    frames = l.frames;
    content = append-nil (w.disk.bytes ++ w.disk.buffer) ∙ l.content;
    held = inl refl;
    tracked = λ p h. l.tracked p h ∙ omega arith;
    counted = l.counted;
  },
  refl,
  l.content,
  refl,
)
