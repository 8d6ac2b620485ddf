-- ===== src/Wal/Frame.antt =====
-- src/core/wal.rs: the header and the frames of the log, as bytes.
use Prim.Native.Nat.{bit_xor}
use jasonisnthappy.Base.{ℕ, ◌+◌, List, [], ◌∷◌, ◌++◌, length, replicate, ◌==◌, if◌then◌else◌}
use jasonisnthappy.Base.Bytes.{slice, copy_at, to_le, from_le, bytes_eq}
use jasonisnthappy.Base.Error.{Result, ok, err, wal_corrupted, data_corruption, ◌>>=◌}
use jasonisnthappy.Wal.Checksum.{crc32_ieee}

-- src/core/constants.rs
abbrev pub page_size : ℕ
page_size = 4096

abbrev pub wal_header_size : ℕ
wal_header_size = 32

abbrev pub wal_frame_size : ℕ
wal_frame_size = page_size + 28

-- "WLOG"
abbrev pub wal_magic : List ℕ
wal_magic = b'W' ∷ b'L' ∷ b'O' ∷ b'G' ∷ []

pub record WalHeader : Type 0 where
  pub magic : List ℕ
  pub version : ℕ
  pub salt1 : ℕ
  pub salt2 : ℕ

pub record WalFrame : Type 0 where
  pub tx_id : ℕ
  pub page_num : ℕ
  pub page_data : List ℕ
  pub checksum : ℕ
  pub salt1 : ℕ
  pub salt2 : ℕ

-- the buffer that `write_header` fills
unfoldable pub header_bytes : WalHeader → List ℕ
header_bytes h =
    let d0 = replicate wal_header_size 0 in
    let d1 = copy_at d0 0 h.magic in
    let d2 = copy_at d1 4 (to_le 4 h.version) in
    let d3 = copy_at d2 8 (to_le 4 h.salt1) in copy_at d3 12 (to_le 4 h.salt2)

-- what `read_header` makes of the 32 bytes that it has read
unfoldable pub parse_header : List ℕ → Result WalHeader
parse_header bytes =
    if bytes_eq (slice bytes 0 4) wal_magic
    then ok (record {
      magic = slice bytes 0 4;
      version = from_le (slice bytes 4 4);
      salt1 = from_le (slice bytes 8 4);
      salt2 = from_le (slice bytes 12 4);
    })
    else err wal_corrupted

unfoldable pub serialize_frame_into : WalFrame → List ℕ → List ℕ
serialize_frame_into f d0 =
    let d1 = copy_at d0 0 (to_le 8 f.tx_id) in
    let d2 = copy_at d1 8 (to_le 8 f.page_num) in
    let d3 = copy_at d2 16 (to_le 4 f.salt1) in
    let d4 = copy_at d3 20 (to_le 4 f.salt2) in
    let d5 = copy_at d4 24 f.page_data in copy_at d5 (24 + page_size) (to_le 4 f.checksum)

-- The integer in the `n` bytes from `i` on: `data[i..i + n].try_into()?`. The buffers that are
-- parsed have the size of a frame, so the slice is never short.
unfoldable pub read_le : List ℕ → ℕ → ℕ → Result ℕ
read_le bytes i n =
    let s = slice bytes i n in
    if length s == n then ok (from_le s) else err (data_corruption "failed to parse binary data")

-- `parse_frame`, and `parse_frame_header`, which has the same fields
unfoldable pub parse_frame : List ℕ → Result WalFrame
parse_frame bytes = do
  tx_id ← read_le bytes 0 8
  page_num ← read_le bytes 8 8
  salt1 ← read_le bytes 16 4
  salt2 ← read_le bytes 20 4
  checksum ← read_le bytes (24 + page_size) 4
  ok (record {
    tx_id = tx_id;
    page_num = page_num;
    page_data = slice bytes 24 page_size;
    checksum = checksum;
    salt1 = salt1;
    salt2 = salt2;
  })

-- The bytes that the checksum covers: `checksum_buf[..16 + PAGE_SIZE]` once it is filled.
unfoldable pub calculate_checksum : WalFrame → ℕ
calculate_checksum f =
    let crc = crc32_ieee (to_le 8 f.tx_id ++ (to_le 8 f.page_num ++ f.page_data)) in
    bit_xor (bit_xor crc f.salt1) f.salt2
