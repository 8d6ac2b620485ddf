-- ===== src/Wal/Codec.antt =====
-- src/core/wal.rs: what is written of a header or a frame is read back.
use jasonisnthappy.Base.{
  ℕ, ◌+◌, ◌≤◌, ◌<◌, ◌^◌, ◌≡◌, refl, sym, ap, List, [], ◌++◌, length, replicate, length-append,
  length-drop, arith, append_assoc, append-nil, u32_mod, u64_mod, drop, ==_refl,
}
use jasonisnthappy.Base.Bytes.{
  sizes, slice, to_le, length-to_le, from_le-to_le, copy_at-append, slice-append, slice-end,
  drop_all,
}
use jasonisnthappy.Base.Error.{ok}
use jasonisnthappy.Wal.Frame.{
  WalHeader, WalFrame, page_size, wal_frame_size, wal_header_size, wal_magic, header_bytes,
  parse_header, serialize_frame_into, read_le, parse_frame,
}

-- Every field fits its width, and the page is whole.
pub record IsFrame (f : WalFrame) : Type 0 where
  pub tx_id : f.tx_id < u64_mod
  pub page_num : f.page_num < u64_mod
  pub page_data : length f.page_data ≡ page_size
  pub checksum : f.checksum < u32_mod
  pub salt1 : f.salt1 < u32_mod
  pub salt2 : f.salt2 < u32_mod

-- The six fields, one behind the other.
unfoldable pub layout : WalFrame → List ℕ
layout f =
    to_le 8 f.tx_id
    ++ (to_le 8 f.page_num
        ++ (to_le 4 f.salt1 ++ (to_le 4 f.salt2 ++ (f.page_data ++ to_le 4 f.checksum))))

read_le-to_le :
    (bytes : List ℕ) (i n value : ℕ)
    → slice bytes i n ≡ to_le n value
    → value < 256 ^ n
    → read_le bytes i n ≡ ok value
unfolding read_le
read_le-to_le bytes i n value s h = simp (s, length-to_le, ==_refl, from_le-to_le n value h)

module _ (f : WalFrame) (v : IsFrame f) where
  pub length-layout : length (layout f) ≡ wal_frame_size
  unfolding layout
  length-layout = simp (length-append, length-to_le) (omega (arith, v.page_data))

  -- A buffer of the size of a frame is overwritten whole.
  pub serialize-layout :
      (buf : List ℕ) → length buf ≡ wal_frame_size → serialize_frame_into f buf ≡ layout f
  unfolding serialize_frame_into layout
  serialize-layout buf h =
      let a = to_le 8 f.tx_id in
      let b = to_le 8 f.page_num in
      let c = to_le 4 f.salt1 in
      let d = to_le 4 f.salt2 in
      let p = f.page_data in
      let e = to_le 4 f.checksum in
      let w2 = a ++ b in
      let w3 = w2 ++ c in
      let w4 = w3 ++ d in
      let w5 = w4 ++ p in
      let r1 = drop (length a) buf in
      let r2 = drop (length b) r1 in
      let r3 = drop (length c) r2 in
      let r4 = drop (length d) r3 in
      let r5 = drop (length p) r4 in
      let short : length r5 ≤ length e = simp (length-drop, sizes) (omega (arith, v.page_data)) in
      rw
        (
          copy_at-append 0 [] buf a refl,
          copy_at-append 8 a r1 b (simp sizes),
          copy_at-append 16 w2 r2 c (simp sizes),
          copy_at-append 20 w3 r3 d (simp sizes),
          copy_at-append 24 w4 r4 p (simp sizes),
          copy_at-append (24 + page_size) w5 r5 e (simp sizes (omega (arith, v.page_data))),
          drop_all (length e) r5 short,
        )
        (simp (append_assoc, append-nil))

  -- Reading the bytes of a frame gives the frame.
  pub parse-layout : parse_frame (layout f) ≡ ok f
  unfolding parse_frame layout
  parse-layout =
      let a = to_le 8 f.tx_id in
      let b = to_le 8 f.page_num in
      let c = to_le 4 f.salt1 in
      let d = to_le 4 f.salt2 in
      let p = f.page_data in
      let e = to_le 4 f.checksum in
      let joined : layout f ≡ a ++ (b ++ (c ++ (d ++ (p ++ e)))) = unfold layout in refl in
      let s1 : slice (layout f) 0 8 ≡ a = slice-append 0 8 [] a _ refl (length-to_le 8 f.tx_id) in
      let s2 : slice (layout f) 8 8 ≡ b =
        slice-append 8 8 a b _ (length-to_le 8 f.tx_id) (length-to_le 8 f.page_num) in
      let s3 : slice (layout f) 16 4 ≡ c =
        rw append_assoc at
          (slice-append 16 4 (a ++ b) c (d ++ (p ++ e)) (simp sizes) (simp sizes)) in
      let s4 : slice (layout f) 20 4 ≡ d =
        simp append_assoc at
          (slice-append 20 4 (a ++ (b ++ c)) d (p ++ e) (simp sizes) (simp sizes)) in
      let s5 : slice (layout f) 24 page_size ≡ p =
        simp append_assoc at
          (slice-append 24 page_size (a ++ (b ++ (c ++ d))) p e (simp sizes) v.page_data) in
      let s6 : slice (layout f) (24 + page_size) 4 ≡ e = simp append_assoc at (
        slice-end (24 + page_size) 4 (a ++ (b ++ (c ++ (d ++ p)))) e
          (simp sizes (omega (arith, v.page_data))) (simp sizes)) in
      rw (
        read_le-to_le (layout f) 0 8 f.tx_id s1 v.tx_id,
        read_le-to_le (layout f) 8 8 f.page_num s2 v.page_num,
        read_le-to_le (layout f) 16 4 f.salt1 s3 v.salt1,
        read_le-to_le (layout f) 20 4 f.salt2 s4 v.salt2,
        read_le-to_le (layout f) (24 + page_size) 4 f.checksum s6 v.checksum,
        s5,
      )

-- A header of this log: its magic, and integers that fit their width.
pub record IsHeader (h : WalHeader) : Type 0 where
  pub magic : h.magic ≡ wal_magic
  pub version : h.version < u32_mod
  pub salt1 : h.salt1 < u32_mod
  pub salt2 : h.salt2 < u32_mod

module _ (h : WalHeader) (v : IsHeader h) where
  -- the four fields, and sixteen bytes that stay 0
  header-layout :
      header_bytes h
      ≡ h.magic
        ++ (to_le 4 h.version
            ++ (to_le 4 h.salt1 ++ (to_le 4 h.salt2 ++ drop 16 (replicate wal_header_size 0))))
  unfolding header_bytes
  header-layout =
      let m = h.magic in
      let a = to_le 4 h.version in
      let b = to_le 4 h.salt1 in
      let c = to_le 4 h.salt2 in
      let blank : List ℕ = replicate wal_header_size 0 in
      let four : length m ≡ 4 = rw v.magic in
      let rest : drop 4 (drop 4 (drop 4 (drop 4 blank))) ≡ drop 16 blank =
        unfold drop replicate in refl in
      rw
        (
          copy_at-append 0 [] blank m refl,
          copy_at-append 4 m (drop (length m) blank) a four,
          four,
          copy_at-append 8 (m ++ a) (drop (length a) (drop 4 blank)) b
              (simp sizes (omega (arith, four))),
          copy_at-append 12 ((m ++ a) ++ b) (drop (length b) (drop (length a) (drop 4 blank))) c
              (simp sizes (omega (arith, four))),
        )
        (simp (length-to_le, rest, append_assoc))

  pub length-header_bytes : length (header_bytes h) ≡ wal_header_size
  length-header_bytes = rw header-layout (simp (sizes, v.magic) (unfold drop replicate in refl))

  -- Reading the bytes of a header gives the header.
  pub parse-header_bytes : parse_header (header_bytes h) ≡ ok h
  unfolding parse_header
  parse-header_bytes =
      let m = h.magic in
      let a = to_le 4 h.version in
      let b = to_le 4 h.salt1 in
      let c = to_le 4 h.salt2 in
      let z : List ℕ = drop 16 (replicate wal_header_size 0) in
      let four : length m ≡ 4 = rw v.magic in
      let s1 : slice (header_bytes h) 0 4 ≡ m =
        rw header-layout (slice-append 0 4 [] m _ refl four) in
      let s2 : slice (header_bytes h) 4 4 ≡ a =
        rw header-layout (slice-append 4 4 m a _ four (length-to_le 4 h.version)) in
      let s3 : slice (header_bytes h) 8 4 ≡ b = rw header-layout (
        simp append_assoc at
          (slice-append 8 4 (m ++ a) b (c ++ z) (simp sizes (omega (arith, four))) (simp sizes))) in
      let s4 : slice (header_bytes h) 12 4 ≡ c = rw header-layout (
        simp append_assoc at (
          slice-append 12 4 (m ++ (a ++ b)) c z (simp sizes (omega (arith, four))) (simp sizes))) in
      simp
        (
          s1,
          s2,
          s3,
          s4,
          v.magic,
          from_le-to_le 4 h.version v.version,
          from_le-to_le 4 h.salt1 v.salt1,
          from_le-to_le 4 h.salt2 v.salt2,
        )
        (ap (λ (magic : List ℕ). ok (record h { magic = magic })) (sym v.magic))
