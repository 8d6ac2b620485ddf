-- ===== src/Document/FirstPage.antt =====
-- src/core/document.rs: the first page of a versioned document, field by field.
use jasonisnthappy.Base.{
  ℕ, ◌+◌, ◌-◌, ◌≤◌, ◌≡◌, refl, sym, ap, ◌∙◌, List, [], ◌++◌, length, take, drop, replicate, min,
  arith, append_assoc, length-append, length-take, length-drop, length-replicate, drop-append,
}
use jasonisnthappy.Base.Bytes.{sizes, copy_at, copy_at-append, to_le, length-to_le, drop-drop}
use jasonisnthappy.Wal.Frame.{page_size}
use jasonisnthappy.Btree.Node.{Key}
use jasonisnthappy.Document.Versioned.{head_size, begun, Progress}

abbrev blank : List ℕ
blank = replicate page_size 0

-- A copy right behind what is written on a blank page.
put_on :
    (w x : List ℕ) (n : ℕ)
    → length w ≡ n
    → copy_at (w ++ drop (length w) blank) n x ≡ (w ++ x) ++ drop (length (w ++ x)) blank
put_on w x n h =
    copy_at-append n w (drop (length w) blank) x h
    ∙ ap (λ (r : List ℕ). (w ++ x) ++ r)
        (sym (drop-drop (length w) (length x) blank)
          ∙ ap (λ (k : ℕ). drop k blank) (sym (length-append w x)))

module _ (doc_id : Key) (content : List ℕ) (xmin xmax : ℕ) where
  -- the part of the data on the first page
  abbrev pub first_size : ℕ
  first_size = min (page_size - head_size (length doc_id)) (length content)

  -- what stands in front of the pointer
  abbrev pub front : List ℕ
  front =
      to_le 8 xmin
      ++ (to_le 8 xmax
          ++ (to_le 2 (length doc_id)
              ++ (doc_id ++ (to_le 4 (length content) ++ take first_size content))))

  pub length-front : length front ≡ 22 + length doc_id + first_size
  length-front = simp sizes (omega (arith, length-take first_size content))

  -- the first page, with a pointer and what stands behind it
  abbrev pub paged : ℕ → List ℕ → List ℕ
  paged q z = front ++ (to_le 8 q ++ z)

  -- the bytes behind the pointer
  abbrev pub spare : List ℕ
  spare = drop (length front + 8) blank

  -- The page before it is linked.
  pub first_data-paged :
      (p : ℕ) → Progress.first_data (begun p doc_id content xmin xmax) ≡ paged 0 spare
  unfolding replicate drop
  first_data-paged p =
      let a = to_le 8 xmin in
      let b = to_le 8 xmax in
      let c = to_le 2 (length doc_id) in
      let d = doc_id in
      let e = to_le 4 (length content) in
      let f = take first_size content in
      let g = to_le 8 0 in
      let w2 = a ++ b in
      let w3 = w2 ++ c in
      let w4 = w3 ++ d in
      let w5 = w4 ++ e in
      let w6 = w5 ++ f in
      let start : copy_at blank 0 a ≡ a ++ drop (length a) blank = put_on [] a 0 refl in
      let nested : w6 ≡ front = simp append_assoc in
      let size = length-front in
      let at_pointer : length w6 ≡ 22 + length doc_id + first_size =
        ap (λ (x : List ℕ). length x) nested ∙ size in
      let behind : length (front ++ g) ≡ length front + 8 = simp sizes in
      rw
        (
          start,
          put_on a b 8 (simp sizes),
          put_on w2 c 16 (simp sizes),
          put_on w3 d 18 (simp sizes),
          put_on w4 e (18 + length doc_id) (simp sizes (omega arith)),
          put_on w5 f (22 + length doc_id) (simp sizes (omega arith)),
          put_on w6 g (22 + length doc_id + first_size) at_pointer,
          nested,
          behind,
        )
        (append_assoc front g spare)

  -- The pointer is set.
  pub copy_at-paged :
      (q r : ℕ) (z : List ℕ)
      → copy_at (paged q z) (22 + length doc_id + first_size) (to_le 8 r) ≡ paged r z
  copy_at-paged q r z =
      let set =
        copy_at-append (22 + length doc_id + first_size) front (to_le 8 q ++ z) (to_le 8 r)
          length-front in
      let over : drop (length (to_le 8 r)) (to_le 8 q ++ z) ≡ z =
        rw (length-to_le 8 r) (drop-append 8 (to_le 8 q) z (length-to_le 8 q)) in
      rw (set, over) (append_assoc front (to_le 8 r) z)

  pub length-paged : (q : ℕ) → length doc_id ≤ 255 → length (paged q spare) ≡ page_size
  length-paged q short = omega (
    arith,
    short,
    length-front,
    length-append front (to_le 8 q ++ spare),
    length-append (to_le 8 q) spare,
    length-to_le 8 q,
    length-drop {A = ℕ} (length front + 8) blank,
    length-replicate {A = ℕ} page_size 0,
  )
