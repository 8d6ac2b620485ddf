-- ===== src/Base/Bytes.antt =====
-- Byte buffers: slices, `copy_from_slice`, and integers as little-endian bytes.
use Prim.Native.Nat.{ℕ, zero, suc, ◌+◌, ◌-◌, ◌*◌, ◌/◌, ◌%◌, ◌^◌, ◌≤◌, ◌<◌}
use mathlib.Core.Path.{◌≡◌, refl, ap, ◌∙◌, sym}
use mathlib.Core.List.{List, [], ◌∷◌, ◌++◌, append_assoc, append-nil}
use native.Mathlib.Omega.{arith}
use native.Mathlib.Nat.{pow-suc}
use mathlib.Core.Bool.{Bool, true, false, ◌&&◌}
use jasonisnthappy.Base.Tests.{◌==◌}
use jasonisnthappy.Base.Lists.{length, take, drop, take-append, drop-append, length-append}

-- `data[i..i + n]`
unfoldable pub slice : List ℕ → ℕ → ℕ → List ℕ
slice xs i n = take n (drop i xs)

-- `data[i..i + bytes.len()].copy_from_slice(bytes)`
unfoldable pub copy_at : List ℕ → ℕ → List ℕ → List ℕ
copy_at xs i bytes = take i xs ++ (bytes ++ drop (i + length bytes) xs)

-- `v.to_le_bytes()` for an integer of `n` bytes
unfoldable pub to_le : ℕ → ℕ → List ℕ
to_le zero v = []
to_le (suc n) v = (v % 256) ∷ to_le n (v / 256)

-- `from_le_bytes`
unfoldable pub from_le : List ℕ → ℕ
from_le [] = 0
from_le (b ∷ bs) = b + 256 * from_le bs

-- `==` of two byte slices
abbrev pub bytes_eq : List ℕ → List ℕ → Bool
bytes_eq [] [] = true
bytes_eq [] (b ∷ bs) = false
bytes_eq (a ∷ as') [] = false
bytes_eq (a ∷ as') (b ∷ bs) = a == b && bytes_eq as' bs

pub length-to_le : (n v : ℕ) → length (to_le n v) ≡ n
unfolding to_le
length-to_le zero v = refl
length-to_le (suc n) v = ap suc (length-to_le n (v / 256))

pub ruleset sizes = (length-append, length-to_le)

-- An integer that fits its width is read back.
pub from_le-to_le : (n v : ℕ) → v < 256 ^ n → from_le (to_le n v) ≡ v
unfolding to_le from_le
from_le-to_le zero v h = omega arith
from_le-to_le (suc n) v h =
    let k : v < 256 ^ n * 256 = rw pow-suc at h in
    omega (arith, from_le-to_le n (v / 256) (omega arith))

module _ {ℓ} {A : Type ℓ} where
  pub drop-append_add :
      (n m : ℕ) (xs ys : List A) → length xs ≡ n → drop (n + m) (xs ++ ys) ≡ drop m ys
  unfolding drop
  drop-append_add n m [] ys h = ap (λ (k : ℕ). drop k ys) (omega arith)
  drop-append_add n m (x ∷ xs) ys h =
      let e : n + m ≡ suc (length xs + m) = omega arith in
      ap (λ (k : ℕ). drop k (x ∷ (xs ++ ys))) e ∙ drop-append_add (length xs) m xs ys refl

  pub drop_all : (n : ℕ) (xs : List A) → length xs ≤ n → drop n xs ≡ []
  unfolding drop
  drop_all zero [] h = refl
  drop_all zero (x ∷ xs) h = absurd (omega arith)
  drop_all (suc n) [] h = refl
  drop_all (suc n) (x ∷ xs) h = drop_all n xs (omega arith)

  pub take_all : (n : ℕ) (xs : List A) → length xs ≤ n → take n xs ≡ xs
  unfolding take
  take_all zero [] h = refl
  take_all zero (x ∷ xs) h = absurd (omega arith)
  take_all (suc n) [] h = refl
  take_all (suc n) (x ∷ xs) h = ap (◌∷◌ x) (take_all n xs (omega arith))

-- A copy right behind what is written takes the place of the next bytes.
pub copy_at-append :
    (n : ℕ) (written rest bytes : List ℕ)
    → length written ≡ n
    → copy_at (written ++ rest) n bytes ≡ (written ++ bytes) ++ drop (length bytes) rest
unfolding copy_at
copy_at-append n written rest bytes h =
    simp
      (take-append n written rest h, drop-append_add n (length bytes) written rest h, append_assoc)

-- A slice that begins behind a prefix.
pub slice-append :
    (i n : ℕ) (xs ys zs : List ℕ)
    → length xs ≡ i
    → length ys ≡ n
    → slice (xs ++ (ys ++ zs)) i n ≡ ys
unfolding slice
slice-append i n xs ys zs h k = rw (drop-append i xs (ys ++ zs) h) (take-append n ys zs k)

pub slice-end :
    (i n : ℕ) (xs ys : List ℕ) → length xs ≡ i → length ys ≡ n → slice (xs ++ ys) i n ≡ ys
slice-end i n xs ys h k = rw append-nil at (slice-append i n xs ys [] h k)

pub slice-skip : (i n : ℕ) (xs ys : List ℕ) → length xs ≡ i → slice (xs ++ ys) i n ≡ slice ys 0 n
unfolding slice
slice-skip i n xs ys h = rw (drop-append i xs ys h) (unfold drop in refl)

module _ {ℓ} {A : Type ℓ} where
  pub take-append_le : (n : ℕ) (xs ys : List A) → n ≤ length xs → take n (xs ++ ys) ≡ take n xs
  unfolding take
  take-append_le zero xs ys h = refl
  take-append_le (suc n) [] ys h = absurd (omega arith)
  take-append_le (suc n) (x ∷ xs) ys h = ap (◌∷◌ x) (take-append_le n xs ys (omega arith))

  pub drop-append_le :
      (n : ℕ) (xs ys : List A) → n ≤ length xs → drop n (xs ++ ys) ≡ drop n xs ++ ys
  unfolding drop
  drop-append_le zero xs ys h = refl
  drop-append_le (suc n) [] ys h = absurd (omega arith)
  drop-append_le (suc n) (x ∷ xs) ys h = drop-append_le n xs ys (omega arith)

  pub take-append_ge :
      (n : ℕ) (xs ys : List A) → length xs ≤ n → take n (xs ++ ys) ≡ xs ++ take (n - length xs) ys
  unfolding take
  take-append_ge n [] ys h = ap (λ (k : ℕ). take k ys) (omega arith)
  take-append_ge zero (x ∷ xs) ys h = absurd (omega arith)
  take-append_ge (suc n) (x ∷ xs) ys h =
      let e : suc n - suc (length xs) ≡ n - length xs = omega arith in
      rw e (ap (◌∷◌ x) (take-append_ge n xs ys (omega arith)))

  pub drop-append_ge :
      (n : ℕ) (xs ys : List A) → length xs ≤ n → drop n (xs ++ ys) ≡ drop (n - length xs) ys
  unfolding drop
  drop-append_ge n [] ys h = ap (λ (k : ℕ). drop k ys) (omega arith)
  drop-append_ge zero (x ∷ xs) ys h = absurd (omega arith)
  drop-append_ge (suc n) (x ∷ xs) ys h =
      let e : suc n - suc (length xs) ≡ n - length xs = omega arith in
      rw e (drop-append_ge n xs ys (omega arith))

  pub drop-drop : (i j : ℕ) (xs : List A) → drop (i + j) xs ≡ drop j (drop i xs)
  unfolding drop
  drop-drop zero j xs = ap (λ (k : ℕ). drop k xs) (omega arith)
  drop-drop (suc i) j [] = drop_all (suc i + j) [] (omega arith) ∙ sym (drop_all j [] (omega arith))
  drop-drop (suc i) j (x ∷ xs) =
      let e : suc i + j ≡ suc (i + j) = omega arith in
      ap (λ (k : ℕ). drop k (x ∷ xs)) e ∙ drop-drop i j xs

  -- what is taken, and the rest behind as many as were taken
  pub take-append-rest : (k : ℕ) (xs : List A) → take k xs ++ drop (length (take k xs)) xs ≡ xs
  unfolding take drop
  take-append-rest zero xs = refl
  take-append-rest (suc k) [] = refl
  take-append-rest (suc k) (x ∷ xs) = ap (◌∷◌ x) (take-append-rest k xs)
