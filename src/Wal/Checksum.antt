-- ===== src/Wal/Checksum.antt =====
-- src/core/wal.rs: `crc32_ieee` and its table.
use Prim.Native.Nat.{bit_xor}
use jasonisnthappy.Base.{
  ℕ, zero, suc, ◌+◌, ◌-◌, ◌/◌, ◌%◌, ◌^◌, ◌<◌, ◌≡◌, refl, Bool, true, ◌&&◌, List, [], ◌∷◌, ltb, ◌==◌,
  if◌then◌else◌, arith, u32_mod, length,
}
use jasonisnthappy.Base.Bits.{bit_xor-lt}

-- the inner `while j < 8` of `generate_crc32_table`, with the rounds left
unfoldable pub crc_rounds : ℕ → ℕ → ℕ
crc_rounds zero crc = crc
crc_rounds (suc left) crc =
    crc_rounds left (if crc % 2 == 0 then crc / 2 else bit_xor (crc / 2) 0xEDB88320)

-- the outer `while i < 256`, with the rounds left
unfoldable pub table_from : ℕ → ℕ → List ℕ
unfolding crc_rounds
table_from zero i = []
table_from (suc left) i = crc_rounds 8 i ∷ table_from left (i + 1)

unfoldable pub generate_crc32_table : List ℕ
unfolding table_from
generate_crc32_table = table_from 256 0

-- `table[index]`; an index out of range does not occur
unfoldable pub entry : List ℕ → ℕ → ℕ
entry [] i = 0
entry (x ∷ xs) zero = x
entry (x ∷ xs) (suc i) = entry xs i

unfoldable pub crc_step : ℕ → ℕ → ℕ
unfolding entry generate_crc32_table
crc_step crc byte = bit_xor (crc / 2 ^ 8) (entry generate_crc32_table (bit_xor crc byte % 256))

-- the loop over the bytes
unfoldable pub crc_bytes : ℕ → List ℕ → ℕ
unfolding crc_step
crc_bytes crc [] = crc
crc_bytes crc (byte ∷ rest) = crc_bytes (crc_step crc byte) rest

-- `!crc` of a `u32` is `u32::MAX - crc`
unfoldable pub crc32_ieee : List ℕ → ℕ
unfolding crc_bytes
crc32_ieee bytes = 0xFFFFFFFF - crc_bytes 0xFFFFFFFF bytes

all_lt : ℕ → List ℕ → Bool
all_lt n [] = true
all_lt n (x ∷ xs) = ltb x n && all_lt n xs

entry-lt : (n : ℕ) (xs : List ℕ) (i : ℕ) → 0 < n → all_lt n xs ≡ true → entry xs i < n
unfolding entry all_lt
entry-lt n [] i h k = h
entry-lt n (x ∷ xs) zero h k = ground arith
entry-lt n (x ∷ xs) (suc i) h k = ground (arith, entry-lt n xs i)

table_fits : all_lt u32_mod generate_crc32_table ≡ true
unfolding all_lt generate_crc32_table
table_fits = refl

length-table : length generate_crc32_table ≡ 256
unfolding generate_crc32_table
length-table = refl

pub crc_step-lt : (crc byte : ℕ) → crc < u32_mod → crc_step crc byte < u32_mod
unfolding crc_step
crc_step-lt crc byte h =
    let table = generate_crc32_table in
    bit_xor-lt 32 (crc / 2 ^ 8) _ (omega arith)
      (entry-lt u32_mod table (bit_xor crc byte % 256) (omega arith) table_fits)

pub crc_bytes-lt : (crc : ℕ) (bytes : List ℕ) → crc < u32_mod → crc_bytes crc bytes < u32_mod
unfolding crc_bytes
crc_bytes-lt crc [] h = h
crc_bytes-lt crc (byte ∷ rest) h = crc_bytes-lt (crc_step crc byte) rest (crc_step-lt crc byte h)

pub crc32_ieee-lt : (bytes : List ℕ) → crc32_ieee bytes < u32_mod
unfolding crc32_ieee
crc32_ieee-lt bytes = omega arith

-- the check value of CRC-32/ISO-HDLC: "123456789"
check_value :
    crc32_ieee (0x31 ∷ 0x32 ∷ 0x33 ∷ 0x34 ∷ 0x35 ∷ 0x36 ∷ 0x37 ∷ 0x38 ∷ 0x39 ∷ []) ≡ 0xCBF43926
unfolding crc32_ieee
check_value = refl
