-- ===== src/Base/Bits.antt =====
-- The width and the laws of an exclusive or.
use Prim.Native.Nat.{
  ℕ, zero, suc, ◌+◌, ◌-◌, ◌*◌, ◌/◌, ◌%◌, ◌^◌, ◌≤◌, ◌<◌, bit_xor, digits, differ, bit_xor-bitwise,
}
use mathlib.Core.Path.{◌≡◌, refl, sym, ap, ◌∙◌}
use mathlib.Core.Logic.{inl, inr}
use jasonisnthappy.Base.Tests.{◌==◌, Bool-cases}
use native.Mathlib.Omega.{arith}
use native.Mathlib.Nat.{pow-suc, pow-succ', mul_assoc, div-div-eq-div-mul}

differ-le : (a b : ℕ) → a < 2 → b < 2 → differ a b ≤ 1
differ-le zero b h k = omega arith
differ-le (suc a) zero h k = omega arith
differ-le (suc zero) (suc zero) h k = omega arith
differ-le (suc zero) (suc (suc b)) h k = absurd (omega arith)
differ-le (suc (suc a)) (suc b) h k = absurd (omega arith)

xor_digits-lt : (n k a b : ℕ) → a < 2 ^ k → b < 2 ^ k → digits (λ b. b) differ n a b < 2 ^ k
xor_digits-lt zero k a b p q = q
xor_digits-lt (suc n) k zero b p q = q
xor_digits-lt (suc n) zero (suc a) b p q = absurd (omega arith)
xor_digits-lt (suc n) (suc k) (suc a) b p q =
    let p' : suc a < 2 ^ k * 2 = rw pow-suc at p in
    let q' : b < 2 ^ k * 2 = rw pow-suc at q in
    rw pow-suc (
      omega (
        arith,
        xor_digits-lt n k (suc a / 2) (b / 2) (omega arith) (omega arith),
        differ-le (suc a % 2) (b % 2) (omega arith) (omega arith),
      ))

-- An exclusive or is no wider than its two arguments.
pub bit_xor-lt : (k a b : ℕ) → a < 2 ^ k → b < 2 ^ k → bit_xor a b < 2 ^ k
bit_xor-lt k a b p q = rw bit_xor-bitwise (xor_digits-lt a k a b p q)

xor_digits-fuel :
    (n m a b : ℕ) → a ≤ n → a ≤ m → digits (λ b. b) differ n a b ≡ digits (λ b. b) differ m a b
xor_digits-fuel zero zero a b p q = refl
xor_digits-fuel zero (suc m) zero b p q = refl
xor_digits-fuel zero (suc m) (suc a) b p q = absurd (omega arith)
xor_digits-fuel (suc n) zero zero b p q = refl
xor_digits-fuel (suc n) zero (suc a) b p q = absurd (omega arith)
xor_digits-fuel (suc n) (suc m) zero b p q = refl
xor_digits-fuel (suc n) (suc m) (suc a) b p q =
    omega (arith, xor_digits-fuel n m (suc a / 2) (b / 2) (omega arith) (omega arith))

pub zero-bit_xor : (b : ℕ) → bit_xor 0 b ≡ b
zero-bit_xor b = bit_xor-bitwise 0 b

-- the lowest digit, and the others
pub bit_xor_step : (a b : ℕ) → bit_xor a b ≡ bit_xor (a / 2) (b / 2) * 2 + differ (a % 2) (b % 2)
bit_xor_step zero b = omega (arith, zero-bit_xor b, zero-bit_xor (b / 2))
bit_xor_step (suc a) b = omega (
  arith,
  bit_xor-bitwise (suc a) b,
  bit_xor-bitwise (suc a / 2) (b / 2),
  xor_digits-fuel a (suc a / 2) (suc a / 2) (b / 2) (omega arith) (omega arith),
)

differ-low : (a b : ℕ) → differ (a % 2) (b % 2) ≤ 1
differ-low a b = differ-le (a % 2) (b % 2) (omega arith) (omega arith)

pub bit_xor-half : (a b : ℕ) → bit_xor a b / 2 ≡ bit_xor (a / 2) (b / 2)
bit_xor-half a b = omega (arith, bit_xor_step a b, differ-low a b)

pub bit_xor-low : (a b : ℕ) → bit_xor a b % 2 ≡ differ (a % 2) (b % 2)
bit_xor-low a b = omega (arith, bit_xor_step a b, differ-low a b)

pub differ-zero : (a : ℕ) → differ a 0 ≡ a
differ-zero zero = refl
differ-zero (suc a) = refl

pub differ-same : (a : ℕ) → differ a a ≡ 0
differ-same zero = refl
differ-same (suc a) = differ-same a

pub differ-other : (a b : ℕ) → a < 2 → b < 2 → (a ≡ b → ⊥) → differ a b ≡ 1
differ-other zero zero p q h = absurd (h refl)
differ-other zero (suc b) p q h = omega arith
differ-other (suc a) zero p q h = omega arith
differ-other (suc a) (suc b) p q h = absurd (h (omega arith))

differ_swap : (a b c : ℕ) → a < 2 → b < 2 → c < 2 → differ (differ a b) c ≡ differ (differ a c) b
differ_swap zero zero zero p q r = refl
differ_swap zero zero (suc zero) p q r = refl
differ_swap zero (suc zero) zero p q r = refl
differ_swap zero (suc zero) (suc zero) p q r = refl
differ_swap (suc zero) zero zero p q r = refl
differ_swap (suc zero) zero (suc zero) p q r = refl
differ_swap (suc zero) (suc zero) zero p q r = refl
differ_swap (suc zero) (suc zero) (suc zero) p q r = refl
differ_swap (suc (suc a)) b c p q r = absurd (omega arith)
differ_swap a (suc (suc b)) c p q r = absurd (omega arith)
differ_swap a b (suc (suc c)) p q r = absurd (omega arith)

bit_xor_swap-fuel :
    (n a b c : ℕ) → a ≤ n → b ≤ n → c ≤ n → bit_xor (bit_xor a b) c ≡ bit_xor (bit_xor a c) b
bit_xor_swap-fuel zero zero zero zero p q r = refl
bit_xor_swap-fuel zero (suc a) b c p q r = absurd (omega arith)
bit_xor_swap-fuel zero a (suc b) c p q r = absurd (omega arith)
bit_xor_swap-fuel zero a b (suc c) p q r = absurd (omega arith)
bit_xor_swap-fuel (suc n) a b c p q r =
    let ih =
      bit_xor_swap-fuel n (a / 2) (b / 2) (c / 2) (omega arith) (omega arith) (omega arith) in
    let low = differ_swap (a % 2) (b % 2) (c % 2) (omega arith) (omega arith) (omega arith) in
    rw
      (
        bit_xor_step (bit_xor a b) c,
        bit_xor-half a b,
        bit_xor-low a b,
        ih,
        low,
        ← bit_xor-half a c,
        ← bit_xor-low a c,
      )
      (sym (bit_xor_step (bit_xor a c) b))

-- The order of what is combined does not matter.
pub bit_xor_swap : (a b c : ℕ) → bit_xor (bit_xor a b) c ≡ bit_xor (bit_xor a c) b
bit_xor_swap a b c = bit_xor_swap-fuel (a + b + c) a b c (omega arith) (omega arith) (omega arith)

pub bit_xor_comm : (a b : ℕ) → bit_xor a b ≡ bit_xor b a
bit_xor_comm a b =
    sym (ap (λ (x : ℕ). bit_xor x b) (zero-bit_xor a))
    ∙ (bit_xor_swap 0 a b ∙ ap (λ (x : ℕ). bit_xor x a) (zero-bit_xor b))

pub bit_xor-zero : (a : ℕ) → bit_xor a 0 ≡ a
bit_xor-zero a = bit_xor_comm a 0 ∙ zero-bit_xor a

pub twice-pow : (a n : ℕ) → a * 2 ^ suc n ≡ a * 2 ^ n * 2
twice-pow a n = ap (λ (k : ℕ). a * k) (pow-suc 2 n) ∙ sym (mul_assoc a (2 ^ n) 2)

half-pow : (a n : ℕ) → a / 2 ^ suc n ≡ a / 2 / 2 ^ n
half-pow a n = ap (λ (k : ℕ). a / k) (pow-succ' 2 n) ∙ sym (div-div-eq-div-mul a 2 (2 ^ n))

-- Only the high digits of the first are left above those of the second.
pub bit_xor-above : (n a b : ℕ) → b < 2 ^ n → bit_xor a b / 2 ^ n ≡ a / 2 ^ n
bit_xor-above zero a b h =
    let none : b ≡ 0 = omega (arith, h) in
    ap (λ (k : ℕ). k / 2 ^ 0) (ap (λ (k : ℕ). bit_xor a k) none ∙ bit_xor-zero a)
bit_xor-above (suc n) a b h =
    let h' : b < 2 ^ n * 2 = rw pow-suc at h in
    half-pow (bit_xor a b) n
    ∙ (ap (λ (k : ℕ). k / 2 ^ n) (bit_xor-half a b)
        ∙ (bit_xor-above n (a / 2) (b / 2) (omega arith) ∙ sym (half-pow a n)))

-- Digits that do not meet are put side by side.
pub bit_xor-apart : (n low high : ℕ) → low < 2 ^ n → bit_xor low (high * 2 ^ n) ≡ low + high * 2 ^ n
bit_xor-apart zero low high h =
    let none : low ≡ 0 = omega (arith, h) in rw none (zero-bit_xor (high * 1) ∙ omega arith)
bit_xor-apart (suc n) low high h =
    let h' : low < 2 ^ n * 2 = rw pow-suc at h in
    let m = high * 2 ^ n in
    let twice : high * 2 ^ suc n ≡ m * 2 = twice-pow high n in
    let half : m * 2 / 2 ≡ m = omega arith in
    let bit : m * 2 % 2 ≡ 0 = omega arith in
    rw
      (
        twice,
        bit_xor_step low (m * 2),
        half,
        bit,
        bit_xor-apart n (low / 2) high (omega arith),
        differ-zero (low % 2),
      )
      (omega arith)

-- Turning all digits over is the subtraction from all ones.
pub bit_xor-ones : (n r : ℕ) → r < 2 ^ n → bit_xor r (2 ^ n - 1) ≡ 2 ^ n - 1 - r
bit_xor-ones zero r h = let none : r ≡ 0 = omega (arith, h) in rw none refl
bit_xor-ones (suc n) r h =
    let h' : r < 2 ^ n * 2 = rw pow-suc at h in
    let half : (2 ^ n * 2 - 1) / 2 ≡ 2 ^ n - 1 = omega arith in
    let bit : (2 ^ n * 2 - 1) % 2 ≡ 1 = omega arith in
    rw (pow-suc, bit_xor_step r (2 ^ n * 2 - 1), half, bit, bit_xor-ones n (r / 2) (omega arith))
      (elim (Bool-cases (r % 2 == 0)) [
        | inl even ↦
            let e : r % 2 ≡ 0 = ground (arith, even) in
            omega (arith, e, ap (λ (k : ℕ). differ k 1) e)
        | inr odd ↦
            let e : r % 2 ≡ 1 = ground (arith, odd) in
            omega (arith, e, ap (λ (k : ℕ). differ k 1) e)
      ])
