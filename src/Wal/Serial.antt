-- ===== src/Wal/Serial.antt =====
-- src/core/wal.rs: `crc32_ieee`, driven by its table, against the register that takes the message bit
-- by bit.
use Prim.Native.Nat.{bit_xor, differ}
use jasonisnthappy.Base.{
  ℕ, zero, suc, ◌+◌, ◌*◌, ◌/◌, ◌%◌, ◌^◌, ◌<◌, ◌≡◌, refl, sym, ap, ◌∙◌, inl, inr, List, [], ◌∷◌,
  ◌++◌, ◌==◌, if◌then◌else◌, arith, All, Bool-cases,
}
use jasonisnthappy.Base.Bits.{
  bit_xor-half, bit_xor-low, bit_xor_swap, bit_xor_comm, bit_xor-zero, bit_xor-apart, bit_xor-above,
  bit_xor-ones, twice-pow, differ-zero, differ-same, differ-other,
}
use native.Mathlib.Nat.{pow-suc}
use jasonisnthappy.Wal.Checksum.{
  crc_rounds, table_from, generate_crc32_table, entry, crc_step, crc_bytes, crc_bytes-lt,
  crc32_ieee,
}

-- The register of CRC-32 (IEEE 802.3), reflected: it moves by one place, and the polynomial is added
-- if the bit that leaves differs from the bit of the message.
unfoldable pub serial_bit : ℕ → ℕ → ℕ
serial_bit register bit =
    if register % 2 == bit then register / 2 else bit_xor (register / 2) 0xEDB88320

unfoldable pub serial_bits : ℕ → List ℕ → ℕ
unfolding serial_bit
serial_bits register [] = register
serial_bits register (bit ∷ bits) = serial_bits (serial_bit register bit) bits

-- the `n` lowest bits, the lowest one first
unfoldable pub bits_of : ℕ → ℕ → List ℕ
bits_of zero byte = []
bits_of (suc n) byte = (byte % 2) ∷ bits_of n (byte / 2)

unfoldable pub message_bits : List ℕ → List ℕ
unfolding bits_of
message_bits [] = []
message_bits (byte ∷ bytes) = bits_of 8 byte ++ message_bits bytes

-- All ones at the start, and all bits turned over at the end.
unfoldable pub crc32_serial : List ℕ → ℕ
unfolding serial_bits message_bits
crc32_serial bytes = bit_xor (serial_bits 0xFFFFFFFF (message_bits bytes)) 0xFFFFFFFF

abbrev poly : ℕ
poly = 0xEDB88320

-- a round, by the bit that leaves
round_even : (n crc : ℕ) → crc % 2 ≡ 0 → crc_rounds (suc n) crc ≡ crc_rounds n (crc / 2)
unfolding crc_rounds
round_even n crc h = rw h refl

round_odd :
    (n crc : ℕ) → crc % 2 ≡ 1 → crc_rounds (suc n) crc ≡ crc_rounds n (bit_xor (crc / 2) poly)
unfolding crc_rounds
round_odd n crc h = rw h refl

-- Bits above those that leave pass through the rounds.
crc_rounds-above : (n x y : ℕ) → crc_rounds n (bit_xor x (y * 2 ^ n)) ≡ bit_xor (crc_rounds n x) y
crc_rounds-above zero x y = unfold crc_rounds in ap (λ (z : ℕ). bit_xor x z) (omega arith)
crc_rounds-above (suc n) x y =
    let m = y * 2 ^ n in
    let twice : y * 2 ^ suc n ≡ m * 2 = twice-pow y n in
    let v = bit_xor x (m * 2) in
    let none : m * 2 % 2 ≡ 0 = omega arith in
    let back : m * 2 / 2 ≡ m = omega arith in
    let low : v % 2 ≡ x % 2 =
      bit_xor-low x (m * 2) ∙ (ap (λ (b : ℕ). differ (x % 2) b) none ∙ differ-zero (x % 2)) in
    let half : v / 2 ≡ bit_xor (x / 2) m =
      bit_xor-half x (m * 2) ∙ ap (λ (k : ℕ). bit_xor (x / 2) k) back in
    rw twice (elim (Bool-cases (x % 2 == 0)) [
      | inl even ↦
          let e : x % 2 ≡ 0 = ground (arith, even) in
          rw (round_even n v (low ∙ e), half, round_even n x e) (crc_rounds-above n (x / 2) y)
      | inr odd ↦
          let e : x % 2 ≡ 1 = ground (arith, odd) in
          rw (round_odd n v (low ∙ e), half, round_odd n x e, bit_xor_swap (x / 2) m poly)
            (crc_rounds-above n (bit_xor (x / 2) poly) y)
    ])

-- A bit of the message is added to the bit that leaves.
serial_bit-round :
    (n crc m : ℕ)
    → crc_rounds n (bit_xor (serial_bit crc (m % 2)) (m / 2)) ≡ crc_rounds (suc n) (bit_xor crc m)
unfolding serial_bit
serial_bit-round n crc m = elim (Bool-cases (crc % 2 == m % 2)) [
  | inl same ↦
      let e : crc % 2 ≡ m % 2 = ground (arith, same) in
      let low : bit_xor crc m % 2 ≡ 0 =
        bit_xor-low crc m ∙ (ap (λ (b : ℕ). differ b (m % 2)) e ∙ differ-same (m % 2)) in
      rw (same, round_even n (bit_xor crc m) low, bit_xor-half crc m) refl
  | inr other ↦
      let low : bit_xor crc m % 2 ≡ 1 =
        bit_xor-low crc m
        ∙ differ-other (crc % 2) (m % 2) (omega arith) (omega arith)
            (λ e. ground (arith, other, e)) in
      rw
        (
          other,
          round_odd n (bit_xor crc m) low,
          bit_xor-half crc m,
          bit_xor_swap (crc / 2) poly (m / 2),
        )
        refl
]

-- Taking `n` bits of a message one by one is adding them all and then `n` rounds.
serial_bits-rounds :
    (n crc m : ℕ) (rest : List ℕ)
    → m < 2 ^ n
    → serial_bits crc (bits_of n m ++ rest) ≡ serial_bits (crc_rounds n (bit_xor crc m)) rest
unfolding serial_bits bits_of
serial_bits-rounds zero crc m rest h =
    let none : m ≡ 0 = omega (arith, h) in
    let same : crc_rounds 0 (bit_xor crc m) ≡ crc =
      unfold crc_rounds in (ap (λ (k : ℕ). bit_xor crc k) none ∙ bit_xor-zero crc) in
    ap (λ (k : ℕ). serial_bits k rest) (sym same)
serial_bits-rounds (suc n) crc m rest h =
    let h' : m < 2 ^ n * 2 = rw pow-suc at h in
    let v = bit_xor crc m in
    let next = serial_bit crc (m % 2) in
    let ih = serial_bits-rounds n next (m / 2) rest (omega arith) in
    ih ∙ ap (λ (k : ℕ). serial_bits k rest) (serial_bit-round n crc m)

-- The rounds of a whole byte, by the table.
entry-table_from : (n i j : ℕ) → j < n → entry (table_from n i) j ≡ crc_rounds 8 (i + j)
unfolding entry table_from
entry-table_from zero i j h = absurd (omega arith)
entry-table_from (suc n) i zero h = ap (λ (k : ℕ). crc_rounds 8 k) (omega arith)
entry-table_from (suc n) i (suc j) h =
    entry-table_from n (i + 1) j (omega (arith, h)) ∙ ap (λ (k : ℕ). crc_rounds 8 k) (omega arith)

crc_step-rounds : (crc byte : ℕ) → byte < 256 → crc_step crc byte ≡ crc_rounds 8 (bit_xor crc byte)
unfolding crc_step generate_crc32_table
crc_step-rounds crc byte h =
    let v = bit_xor crc byte in
    let apart : v ≡ bit_xor (v % 256) (v / 256 * 2 ^ 8) =
      omega (arith, bit_xor-apart 8 (v % 256) (v / 256) (omega arith)) in
    let plain : 0 + v % 256 ≡ v % 256 = omega arith in
    let looked_up =
      entry-table_from 256 0 (v % 256) (omega arith) ∙ ap (λ (k : ℕ). crc_rounds 8 k) plain in
    let above = crc_rounds-above 8 (v % 256) (v / 256) in
    let same : bit_xor crc byte / 256 ≡ crc / 256 = bit_xor-above 8 crc byte h in
    ap (λ (k : ℕ). bit_xor (crc / 2 ^ 8) k) looked_up
    ∙ (bit_xor_comm (crc / 256) (crc_rounds 8 (v % 256))
        ∙ (ap (λ (k : ℕ). bit_xor (crc_rounds 8 (v % 256)) k) (sym same)
            ∙ (sym above ∙ ap (λ (k : ℕ). crc_rounds 8 k) (sym apart))))

crc_bytes-serial :
    (crc : ℕ) (bytes : List ℕ)
    → All (λ b. b < 256) bytes
    → crc_bytes crc bytes ≡ serial_bits crc (message_bits bytes)
unfolding crc_bytes message_bits
crc_bytes-serial crc [] h = unfold serial_bits in refl
crc_bytes-serial crc (byte ∷ bytes) h =
    crc_bytes-serial (crc_step crc byte) bytes h.1
    ∙ (ap (λ (k : ℕ). serial_bits k (message_bits bytes)) (crc_step-rounds crc byte h.0)
        ∙ sym (serial_bits-rounds 8 crc byte (message_bits bytes) h.0))

-- For every sequence of bytes, `crc32_ieee`, which looks a byte up in the table of 256 entries, is the
-- CRC-32 of IEEE 802.3: the register of the reflected polynomial 0xEDB88320, all ones at the start, that
-- takes the bits of the message one by one, the lowest of each byte first, with all its bits turned
-- over at the end.
pub crc32_ieee-serial :
    (bytes : List ℕ) → All (λ b. b < 256) bytes → crc32_ieee bytes ≡ crc32_serial bytes
unfolding crc32_ieee crc32_serial
crc32_ieee-serial bytes h =
    let same = crc_bytes-serial 0xFFFFFFFF bytes h in
    rw (← same) (
      sym (
        bit_xor-ones 32 (crc_bytes 0xFFFFFFFF bytes) (crc_bytes-lt 0xFFFFFFFF bytes (omega arith))))
