-- ===== src/Pager/Files.antt =====
-- src/core/pager.rs: pages in the file, as `seek` and `write_all` or `read_exact` see them.
use jasonisnthappy.Base.{
  ℕ, ◌+◌, ◌-◌, ◌*◌, ◌≤◌, ◌<◌, ◌≡◌, ◌≢◌, refl, sym, ap, ◌∙◌, inl, inr, Option, none, some, List, [],
  ◌∷◌, ◌++◌, length, take, drop, replicate, leb, if◌then◌else◌, length-append, length-take,
  length-drop, length-replicate, arith, Bool-cases, true, take-append-drop, append-nil, take-append,
  append_assoc,
}
use jasonisnthappy.Base.Bytes.{
  slice, slice-append, drop-append_add, drop-drop, drop-append_le, drop-append_ge, take-append_le,
}
use jasonisnthappy.Wal.Disk.{write_at}
use jasonisnthappy.Wal.Frame.{page_size}

-- what stands in front of bytes that are written at `i`
front : List ℕ → ℕ → List ℕ
front bytes i = take i bytes ++ replicate (i - length bytes) 0

length-front : (bytes : List ℕ) (i : ℕ) → length (front bytes i) ≡ i
unfolding front
length-front bytes i = simp (length-append, length-take, length-replicate) (omega arith)

write_at-split :
    (bytes d : List ℕ) (i : ℕ)
    → 0 < length d
    → write_at bytes i d ≡ front bytes i ++ (d ++ drop (i + length d) bytes)
unfolding write_at front
write_at-split bytes [] i h = absurd (omega arith)
write_at-split bytes (b ∷ d) i h = simp append_assoc

pub length-write_at :
    (bytes d : List ℕ) (i : ℕ)
    → 0 < length d
    → length (write_at bytes i d) ≡ i + length d + (length bytes - (i + length d))
length-write_at bytes d i h =
    rw (write_at-split bytes d i h)
      (simp (length-append, length-drop, length-front) (omega (arith, length-front bytes i)))

-- The bytes that are written are read.
pub slice-write_at :
    (bytes d : List ℕ) (i n : ℕ) → 0 < length d → length d ≡ n → slice (write_at bytes i d) i n ≡ d
slice-write_at bytes d i n h k =
    rw (write_at-split bytes d i h)
      (slice-append i n (front bytes i) d (drop (i + length d) bytes) (length-front bytes i) k)

none_missing : (k n : ℕ) → replicate {A = ℕ} (k - (k + n)) 0 ≡ []
unfolding replicate
none_missing k n = let e : k - (k + n) ≡ 0 = omega arith in ap (λ (j : ℕ). replicate {A = ℕ} j 0) e

-- Two writes, the second right behind the first, are one.
pub write_at-append :
    (bytes d e : List ℕ) (i : ℕ)
    → 0 < length d
    → write_at bytes i (d ++ e) ≡ write_at (write_at bytes i d) (i + length d) e
write_at-append bytes d [] i h = rw (append-nil {A = ℕ}) (unfold write_at in refl)
write_at-append bytes d (b ∷ e) i h =
    let t = b ∷ e in
    let w = front bytes i ++ d in
    let k = i + length d in
    let size : length w ≡ k =
      omega (arith, length-append (front bytes i) d, length-front bytes i) in
    let first : write_at bytes i d ≡ w ++ drop k bytes =
      rw (write_at-split bytes d i h) (simp append_assoc) in
    let ahead : front (w ++ drop k bytes) k ≡ w =
      unfold front in
      rw
        (
          take-append k w (drop k bytes) size,
          length-append w (drop k bytes),
          size,
          none_missing k (length (drop k bytes)),
        )
        (append-nil w) in
    let after : drop (k + length t) (w ++ drop k bytes) ≡ drop (i + length (d ++ t)) bytes =
      drop-append_add k (length t) w (drop k bytes) size
      ∙ (sym (drop-drop k (length t) bytes)
          ∙ ap (λ (j : ℕ). drop j bytes) (omega (arith, length-append d t))) in
    rw
      (
        write_at-split bytes (d ++ t) i (omega (arith, length-append d t)),
        write_at-split (write_at bytes i d) t k (omega arith),
        first,
        ahead,
        after,
      )
      (simp append_assoc)

slice-prefix : (xs ys : List ℕ) (j n : ℕ) → j + n ≤ length xs → slice (xs ++ ys) j n ≡ slice xs j n
unfolding slice
slice-prefix xs ys j n h =
    rw (drop-append_le j xs ys (omega (arith, h)))
      (take-append_le n (drop j xs) ys (omega (arith, length-drop j xs, h)))

-- A slice in front of them is as before,
slice-write_at_before :
    (bytes d : List ℕ) (i j n : ℕ)
    → 0 < length d
    → j + n ≤ i
    → j + n ≤ length bytes
    → slice (write_at bytes i d) j n ≡ slice bytes j n
slice-write_at_before bytes d i j n h before within =
    let inside : j + n ≤ length (take i bytes) = omega (arith, length-take i bytes) in
    let whole = ap (λ (xs : List ℕ). slice xs j n) (take-append-drop i bytes) in
    rw
      (
        write_at-split bytes d i h,
        slice-prefix (front bytes i) (d ++ drop (i + length d) bytes) j n
            (omega (arith, length-front bytes i)),
      )
      (unfold front in
        slice-prefix (take i bytes) (replicate (i - length bytes) 0) j n inside
        ∙ (sym (slice-prefix (take i bytes) (drop i bytes) j n inside) ∙ whole))

-- and so is one behind them.
slice-write_at_behind :
    (bytes d : List ℕ) (i j n : ℕ)
    → 0 < length d
    → i + length d ≤ j
    → slice (write_at bytes i d) j n ≡ slice bytes j n
unfolding slice
slice-write_at_behind bytes d i j n h behind =
    let w = front bytes i ++ d in
    let size : length w ≡ i + length d =
      omega (arith, length-append (front bytes i) d, length-front bytes i) in
    let skipped : drop j (w ++ drop (i + length d) bytes) ≡ drop j bytes =
      drop-append_ge j w (drop (i + length d) bytes) (omega (arith, size))
      ∙ (sym (drop-drop (i + length d) (j - length w) bytes)
          ∙ ap (λ (k : ℕ). drop k bytes) (omega (arith, size))) in
    rw (write_at-split bytes d i h) (rw (← append_assoc) (rw skipped refl))

-- page `p` of the file, if the file has it
unfoldable pub page_at : List ℕ → ℕ → Option (List ℕ)
page_at bytes p =
    if leb (p * page_size + page_size) (length bytes)
    then some (slice bytes (p * page_size) page_size)
    else none

module _ (bytes d : List ℕ) (p : ℕ) (whole : length d ≡ page_size) where
  -- A page that is written is read,
  pub page_at-write_at : page_at (write_at bytes (p * page_size) d) p ≡ some d
  unfolding page_at
  page_at-write_at =
      let size = length-write_at bytes d (p * page_size) (omega arith) in
      let within : leb (p * page_size + page_size) (length (write_at bytes (p * page_size) d))
          ≡ true =
        ground (arith, size) in
      rw (within, slice-write_at bytes d (p * page_size) page_size (omega arith) whole)

  -- and any other page that the file had is as before.
  pub page_at-write_at_other :
      (q : ℕ) (e : List ℕ)
      → q ≢ p
      → page_at bytes q ≡ some e
      → page_at (write_at bytes (p * page_size) d) q ≡ some e
  unfolding page_at
  page_at-write_at_other q e ne k =
      elim (Bool-cases (leb (q * page_size + page_size) (length bytes))) [
        | inr out ↦ cc (rw out at k)
        | inl inside ↦
            let size = length-write_at bytes d (p * page_size) (omega arith) in
            let within : leb (q * page_size + page_size) (length (write_at bytes (p * page_size) d))
                ≡ true =
              ground (arith, size) in
            let same : slice (write_at bytes (p * page_size) d) (q * page_size) page_size
                ≡ slice bytes (q * page_size) page_size =
              elim (Bool-cases (leb p q)) [
                | inl above ↦
                    slice-write_at_behind bytes d (p * page_size) (q * page_size) page_size
                      (omega arith) (ground arith)
                | inr below ↦
                    slice-write_at_before bytes d (p * page_size) (q * page_size) page_size
                      (omega arith) (ground arith) (ground arith)
              ] in
            rw within (ap some same ∙ rw inside at k)
      ]
