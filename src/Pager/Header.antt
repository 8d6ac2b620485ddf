-- ===== src/Pager/Header.antt =====
-- src/core/pager.rs: `Header` as the bytes of page 0.
use jasonisnthappy.Base.{
  ℕ, zero, suc, ◌+◌, List, [], ◌∷◌, length, replicate, ltb, ◌==◌, if◌then◌else◌,
}
use jasonisnthappy.Base.Bytes.{slice, copy_at, to_le, from_le, bytes_eq}
use jasonisnthappy.Base.Error.{
  Result, ok, err, data_corruption, invalid_magic, invalid_version, invalid_page_size, ◌>>=◌,
}
use jasonisnthappy.Wal.Frame.{page_size}
use Prim.Native.String.{String}

-- "DEVI"
abbrev pub magic_bytes : List ℕ
magic_bytes = b'D' ∷ b'E' ∷ b'V' ∷ b'I' ∷ []

abbrev pub format_version : ℕ
format_version = 1

pub record Header : Type 0 where
  pub magic : List ℕ
  pub version : ℕ
  pub page_size : ℕ
  pub num_pages : ℕ
  pub free_count : ℕ
  pub metadata_page : ℕ
  pub next_tx_id : ℕ
  pub free_list : List ℕ

-- the loop of `serialize`, which ends where the page is full
unfoldable pub fill_free_list : List ℕ → ℕ → List ℕ → List ℕ
fill_free_list buf offset [] = buf
fill_free_list buf offset (page_num ∷ rest) =
    let filled = fill_free_list (copy_at buf offset (to_le 8 page_num)) (offset + 8) rest in
    if ltb page_size (offset + 8) then buf else filled

unfoldable pub serialize : Header → List ℕ
serialize h =
    let d0 = replicate page_size 0 in
    let d1 = copy_at d0 0 h.magic in
    let d2 = copy_at d1 4 (to_le 4 h.version) in
    let d3 = copy_at d2 8 (to_le 4 h.page_size) in
    let d4 = copy_at d3 12 (to_le 8 h.num_pages) in
    let d5 = copy_at d4 20 (to_le 4 h.free_count) in
    let d6 = copy_at d5 24 (to_le 8 h.metadata_page) in
    let d7 = copy_at d6 32 (to_le 8 h.next_tx_id) in fill_free_list d7 40 h.free_list

-- `from_le_bytes(data[i..i + n].try_into().map_err(..)?)`
unfoldable pub read_field : String → List ℕ → ℕ → ℕ → Result ℕ
read_field details bytes i n =
    let s = slice bytes i n in
    if length s == n then ok (from_le s) else err (data_corruption details)

-- the loop of `deserialize`, with the entries left to read
unfoldable pub read_free_list : ℕ → List ℕ → ℕ → Result (List ℕ)
read_free_list zero bytes offset = ok []
read_free_list (suc left) bytes offset =
    let entry = read_field "failed to parse free_list entry from header" bytes offset 8 in
    let rest = read_free_list left bytes (offset + 8) in
    if ltb page_size (offset + 8)
    then ok []
    else (entry >>= λ page_num. rest >>= λ free_list. ok (page_num ∷ free_list))

-- the fields behind the version and the page size
unfoldable pub read_rest : List ℕ → Result Header
read_rest bytes = do
  num_pages ← read_field "failed to parse num_pages from header" bytes 12 8
  free_count ← read_field "failed to parse free_count from header" bytes 20 4
  metadata_page ← read_field "failed to parse metadata_page from header" bytes 24 8
  next_tx_id ← read_field "failed to parse next_tx_id from header" bytes 32 8
  free_list ← read_free_list free_count bytes 40
  ok (record {
    magic = slice bytes 0 4;
    version = format_version;
    page_size = page_size;
    num_pages = num_pages;
    free_count = free_count;
    metadata_page = metadata_page;
    next_tx_id = next_tx_id;
    free_list = free_list;
  })

unfoldable pub deserialize : List ℕ → Result Header
unfolding read_rest
deserialize bytes =
    if ltb (length bytes) page_size
    then err invalid_page_size
    else if bytes_eq (slice bytes 0 4) magic_bytes
    then (read_field "failed to parse version from header" bytes 4 4 >>= λ version.
        if version == format_version
        then (read_field "failed to parse page_size from header" bytes 8 4 >>= λ size.
            if size == page_size then read_rest bytes else err invalid_page_size)
        else err invalid_version)
    else err invalid_magic
