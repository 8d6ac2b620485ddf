-- ===== src/Document/Overflow.antt =====
-- src/core/document.rs: an overflow page, piece by piece.
use jasonisnthappy.Base.{
  ℕ, ◌-◌, ◌≤◌, ◌<◌, ◌≡◌, refl, sym, ap, ◌∙◌, List, [], ◌++◌, length, take, drop, replicate, arith,
  append_assoc, length-append, length-take, length-drop, length-replicate, take-append, drop-append,
  u64_mod,
}
use jasonisnthappy.Base.Bytes.{
  slice-append, copy_at, copy_at-append, to_le, length-to_le, from_le-to_le, take-append_ge,
}
use jasonisnthappy.Wal.Frame.{page_size}
use jasonisnthappy.Document.Bytes.{max_overflow_data, pointer_of, overflow_page}

module _ (chunk : List ℕ) where
  abbrev rest : List ℕ
  rest = drop (length chunk) (replicate page_size 0)

  abbrev padding : List ℕ
  padding = take (max_overflow_data - length chunk) rest

  abbrev tail : List ℕ
  tail = drop page_size (chunk ++ rest)

module _ (chunk : List ℕ) (fits : length chunk ≤ max_overflow_data) where
  length-padding : length (chunk ++ padding chunk) ≡ max_overflow_data
  length-padding = omega (
    arith,
    fits,
    length-append chunk (padding chunk),
    length-take (max_overflow_data - length chunk) (rest chunk),
    length-drop {A = ℕ} (length chunk) (replicate page_size 0),
    length-replicate {A = ℕ} page_size 0,
  )

  overflow_page-split :
      (q : ℕ) → overflow_page chunk q ≡ (chunk ++ padding chunk) ++ (to_le 8 q ++ tail chunk)
  unfolding copy_at
  overflow_page-split q =
      let filled : copy_at (replicate page_size 0) 0 chunk ≡ chunk ++ rest chunk =
        unfold drop in copy_at-append 0 [] (replicate page_size 0) chunk refl in
      let front : take max_overflow_data (chunk ++ rest chunk) ≡ chunk ++ padding chunk =
        take-append_ge max_overflow_data chunk (rest chunk) fits in
      rw (filled, front, length-to_le 8 q) refl

  pub length-overflow_page : (q : ℕ) → length (overflow_page chunk q) ≡ page_size
  length-overflow_page q = rw (overflow_page-split q) (
      omega (
        arith,
        fits,
        length-append (chunk ++ padding chunk) (to_le 8 q ++ tail chunk),
        length-append (to_le 8 q) (tail chunk),
        length-to_le 8 q,
        length-padding,
        length-drop page_size (chunk ++ rest chunk),
        length-append chunk (rest chunk),
        length-drop {A = ℕ} (length chunk) (replicate page_size 0),
        length-replicate {A = ℕ} page_size 0,
      ))

  -- The data of the page stand at its front.
  pub take-overflow_page : (q : ℕ) → take (length chunk) (overflow_page chunk q) ≡ chunk
  take-overflow_page q =
      rw (overflow_page-split q, append_assoc)
        (take-append (length chunk) chunk (padding chunk ++ (to_le 8 q ++ tail chunk)) refl)

  -- The pointer is read back.
  pub pointer_of-overflow_page : (q : ℕ) → q < u64_mod → pointer_of (overflow_page chunk q) ≡ q
  pointer_of-overflow_page q small =
      rw
        (
          overflow_page-split q,
          slice-append max_overflow_data 8 (chunk ++ padding chunk) (to_le 8 q) (tail chunk)
              length-padding (length-to_le 8 q),
        )
        (from_le-to_le 8 q small)

  -- The pointer is set.
  pub copy_at-overflow_page :
      (q r : ℕ)
      → copy_at (overflow_page chunk q) max_overflow_data (to_le 8 r) ≡ overflow_page chunk r
  copy_at-overflow_page q r =
      let w = chunk ++ padding chunk in
      let over : drop (length (to_le 8 r)) (to_le 8 q ++ tail chunk) ≡ tail chunk =
        rw (length-to_le 8 r) (drop-append 8 (to_le 8 q) (tail chunk) (length-to_le 8 q)) in
      ap (λ (x : List ℕ). copy_at x max_overflow_data (to_le 8 r)) (overflow_page-split q)
      ∙ copy_at-append max_overflow_data w (to_le 8 q ++ tail chunk) (to_le 8 r) length-padding
      ∙ ap (λ (x : List ℕ). (w ++ to_le 8 r) ++ x) over
      ∙ append_assoc w (to_le 8 r) (tail chunk)
      ∙ sym (overflow_page-split r)
