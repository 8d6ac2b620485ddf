-- ===== src/Pager/State.antt =====
-- src/core/pager.rs: the state of `Pager` and the operations on its header fields. No operation
-- panics while it holds a lock, so no lock is ever poisoned and the locks leave no trace; the
-- counters of `Metrics` are left out. Reads and writes of the open file fail only where it ends.
use jasonisnthappy.Base.{
  ℕ, ◌+◌, ◌*◌, ◌%◌, Bool, true, false, not, ◌&&◌, List, [], ◌∷◌, ◌++◌, length, ltb, leb, ◌==◌,
  if◌then◌else◌, Option, none, some, u32_mod, u64_mod,
}
use jasonisnthappy.Base.Bytes.{slice}
use jasonisnthappy.Base.Error.{Result, ok, err, data_corruption, io, other, ◌>>=◌}
use jasonisnthappy.Wal.Disk.{write_at}
use jasonisnthappy.Wal.Frame.{page_size}
use jasonisnthappy.Lru.Arena.{LruCacheInner}
use jasonisnthappy.Lru.Cache.{new_cache, remove}
use jasonisnthappy.Pager.Header.{Header, magic_bytes, format_version, serialize, deserialize}

pub record Pager : Type 0 where
  pub file : List ℕ
  pub cache : LruCacheInner
  pub num_pages : ℕ
  pub metadata_page : ℕ
  pub next_tx_id : ℕ
  pub free_list : List ℕ
  pub read_only : Bool

-- check 4 of `read_header`
unfoldable pub check_entries : ℕ → List ℕ → Result (Unit {0})
check_entries num_pages [] = ok tt
check_entries num_pages (page_num ∷ rest) =
    let checked = check_entries num_pages rest in
    if leb num_pages page_num
    then err (data_corruption "invalid free_list entry")
    else if page_num == 0
    then err (data_corruption "page 0 (header page) cannot be free")
    else checked

abbrev pub contains : List ℕ → ℕ → Bool
contains [] p = false
contains (q ∷ qs) p = if q == p then true else contains qs p

-- check 5: the pages that were seen, or an error at the first that comes twice
unfoldable pub check_duplicates : List ℕ → List ℕ → Result (List ℕ)
check_duplicates seen [] = ok seen
check_duplicates seen (page_num ∷ rest) =
    let checked = check_duplicates (page_num ∷ seen) rest in
    if contains seen page_num then err (data_corruption "duplicate page in free_list") else checked

-- The six checks of `read_header`. The product of check 2 wraps around, as in a release build.
unfoldable pub validate_header : ℕ → Header → Result (Unit {0})
validate_header file_size h =
    if ltb h.num_pages 1
    then err (data_corruption "invalid num_pages")
    else if ltb file_size (h.num_pages * page_size % u64_mod)
    then err (data_corruption "file truncated")
    else if not (h.metadata_page == 0) && leb h.num_pages h.metadata_page
    then err (data_corruption "invalid metadata_page")
    else (check_entries h.num_pages h.free_list >>= λ _.
        check_duplicates [] h.free_list >>= λ seen_pages.
        if not (h.metadata_page == 0) && contains seen_pages h.metadata_page
        then err (data_corruption "metadata_page is in free_list")
        else ok tt)

-- the fields that `read_header` takes over
abbrev pub adopt : Header → Pager → Pager
adopt h s = record s {
  num_pages = h.num_pages;
  metadata_page = h.metadata_page;
  next_tx_id = h.next_tx_id;
  free_list = h.free_list;
}

unfoldable pub read_header : Pager → Result Pager
unfolding validate_header
read_header s =
    if ltb (length s.file) page_size
    then err (io "failed to fill whole buffer")
    else (deserialize (slice s.file 0 page_size) >>= λ h.
        validate_header (length s.file) h >>= λ _. ok (adopt h s))

abbrev pub header_of : Pager → Header
header_of s = record {
  magic = magic_bytes;
  version = format_version;
  page_size = page_size;
  num_pages = s.num_pages;
  free_count = length s.free_list % u32_mod;
  metadata_page = s.metadata_page;
  next_tx_id = s.next_tx_id;
  free_list = s.free_list;
}

unfoldable pub get_header_data : Pager → List ℕ
get_header_data s = serialize (header_of s)

-- `write_header`, and `write_header_no_sync`, which writes the same
unfoldable pub write_header : Pager → Result Pager
unfolding get_header_data
write_header s =
    if s.read_only
    then err (other "cannot write header: database is read-only")
    else ok (record s { file = write_at s.file 0 (get_header_data s) })

-- `open` of a file that is there, with its bytes, or of one that is not there
unfoldable pub open_pager : Option (List ℕ) → ℕ → Bool → Result Pager
open_pager existing cache_size read_only = elim existing [
  | some file ↦ read_header (record {
    file = file;
    cache = new_cache cache_size;
    num_pages = 1;
    metadata_page = 0;
    next_tx_id = 1;
    free_list = [];
    read_only = read_only;
  })
  | none ↦
      if read_only
      then err (io "entity not found")
      else write_header (record {
        file = [];
        cache = new_cache cache_size;
        num_pages = 1;
        metadata_page = 0;
        next_tx_id = 1;
        free_list = [];
        read_only = read_only;
      })
]

-- an entry of the free list, when the loop is through with those behind it
abbrev pub pop_behind : ℕ → ℕ → Option ℕ × List ℕ → Option ℕ × List ℕ
pop_behind min_page page_num (some taken, left) = (some taken, page_num ∷ left)
pop_behind min_page page_num (none, left) =
    if leb min_page page_num then (some page_num, []) else (none, [])

-- the loop over `free_list.pop()`: the page that is taken, and the list that is left
unfoldable pub pop_minimum : ℕ → List ℕ → Option ℕ × List ℕ
pop_minimum min_page [] = (none, [])
pop_minimum min_page (page_num ∷ rest) = pop_behind min_page page_num (pop_minimum min_page rest)

-- a page off the free list, or a fresh one
abbrev pub grant : Pager → Option ℕ × List ℕ → ℕ × Pager
grant s (some page_num, left) = (page_num, record s { free_list = left })
grant s (none, left) =
    (s.num_pages, record s { free_list = left; num_pages = (s.num_pages + 1) % u64_mod })

unfoldable pub alloc_page_minimum : ℕ → Pager → Result (ℕ × Pager)
unfolding pop_minimum
alloc_page_minimum min_page s =
    if s.read_only
    then err (other "cannot allocate page: database is read-only")
    else ok (grant s (pop_minimum min_page s.free_list))

abbrev pub alloc_page : Pager → Result (ℕ × Pager)
alloc_page s = alloc_page_minimum 0 s

-- `none` is a panic of the cache
unfoldable pub free_page : ℕ → Pager → Option (Result Pager)
free_page page_num s =
    if s.read_only
    then some (err (other "cannot free page: database is read-only"))
    else elim (remove page_num s.cache) [
      | none ↦ none
      | some cache ↦
          some (ok (record s { free_list = s.free_list ++ (page_num ∷ []); cache = cache }))
    ]

unfoldable pub allocate_transaction_id : Pager → ℕ × Pager
allocate_transaction_id s = (s.next_tx_id, record s { next_tx_id = (s.next_tx_id + 1) % u64_mod })

unfoldable pub set_next_transaction_id : ℕ → Pager → Pager
set_next_transaction_id tx_id s = record s { next_tx_id = tx_id }

unfoldable pub set_num_pages : ℕ → Pager → Pager
set_num_pages n s = record s { num_pages = n }

unfoldable pub set_metadata_page : ℕ → Pager → Pager
set_metadata_page page_num s = record s { metadata_page = page_num }
