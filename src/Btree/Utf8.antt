-- ===== src/Btree/Utf8.antt =====
-- `String::from_utf8`, as src/core/btree.rs uses it: which bytes are UTF-8.
use jasonisnthappy.Base.{
  ℕ, zero, suc, ◌&&◌, Bool, true, false, Option, none, some, List, [], ◌∷◌, leb, ltb, ◌==◌,
  if◌then◌else◌,
}

-- Between characters, or within one: the range of the next byte and the number of bytes behind it.
pub data Pending : Type 0 where
  boundary : Pending
  expects : ℕ → ℕ → ℕ → Pending

abbrev within : ℕ → ℕ → ℕ → Bool
within lo hi b = leb lo b && leb b hi

-- the first byte of a character
abbrev first_byte : ℕ → Option Pending
first_byte b =
    if ltb b 128
    then some boundary
    else if within 194 223 b
    then some (expects 128 191 0)
    else if b == 224
    then some (expects 160 191 1)
    else if b == 237
    then some (expects 128 159 1)
    else if within 225 239 b
    then some (expects 128 191 1)
    else if b == 240
    then some (expects 144 191 2)
    else if within 241 243 b
    then some (expects 128 191 2)
    else if b == 244
    then some (expects 128 143 2)
    else none

abbrev after_byte : ℕ → Pending
after_byte zero = boundary
after_byte (suc n) = expects 128 191 n

unfoldable step : Pending → ℕ → Option Pending
step boundary b = first_byte b
step (expects lo hi n) b = if within lo hi b then some (after_byte n) else none

unfoldable ends_well : List ℕ → Option Pending → Bool
unfolding step
ends_well bytes none = false
ends_well [] (some boundary) = true
ends_well [] (some (expects lo hi n)) = false
ends_well (b ∷ bytes) (some p) = ends_well bytes (step p b)

unfoldable pub is_utf8 : List ℕ → Bool
unfolding ends_well
is_utf8 bytes = ends_well bytes (some boundary)
