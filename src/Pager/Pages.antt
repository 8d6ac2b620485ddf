-- ===== src/Pager/Pages.antt =====
-- src/core/pager.rs: pages that are read, written and flushed. `none` is a panic of the cache.
use jasonisnthappy.Base.{
  ℕ, ◌+◌, ◌*◌, ◌%◌, Option, none, some, List, [], ◌∷◌, length, leb, ◌==◌, if◌then◌else◌, u64_mod,
}
use jasonisnthappy.Base.Bytes.{slice}
use jasonisnthappy.Base.Error.{Result, ok, err, invalid_page_size, io, other}
use jasonisnthappy.Wal.Disk.{write_at}
use jasonisnthappy.Wal.Frame.{page_size}
use jasonisnthappy.Lru.Arena.{LruCacheInner}
use jasonisnthappy.Lru.Cache.{
  get_page, get_read_only, put, put_dirty_atomic, mark_dirty, get_all_dirty, clear_all_dirty,
}
use jasonisnthappy.Pager.State.{Pager, write_header}

-- `page_num * PAGE_SIZE as u64`, which wraps around in a release build. The operating system takes no
-- offset of 2^63 or more: there the seek fails, which the model leaves out.
abbrev pub offset : ℕ → ℕ
offset page_num = page_num * page_size % u64_mod

-- a cache that an operation leaves, in the place of the pager's
abbrev pub with_cache {ℓ} :
    {A : Type ℓ} → A → Pager → Option LruCacheInner → Option (Result A × Pager)
with_cache result s none = none
with_cache result s (some cache) = some (ok result, record s { cache = cache })

-- a cache miss: the page is read from the file and kept
unfoldable pub read_missing : ℕ → Pager → Option (Result (List ℕ) × Pager)
read_missing page_num s =
    let buf = slice s.file (offset page_num) page_size in
    if leb (offset page_num + page_size) (length s.file)
    then with_cache buf s (put page_num buf s.cache)
    else some (err (io "failed to fill whole buffer"), s)

abbrev pub read_found :
    ℕ → Pager → Option (Option (List ℕ) × LruCacheInner) → Option (Result (List ℕ) × Pager)
read_found page_num s none = none
read_found page_num s (some (some page_data, cache)) =
    some (ok page_data, record s { cache = cache })
read_found page_num s (some (none, cache)) = read_missing page_num (record s { cache = cache })

unfoldable pub read_page : ℕ → Pager → Option (Result (List ℕ) × Pager)
read_page page_num s = read_found page_num s (get_page s.cache page_num)

-- `read_page_shared` does not move the page to the front.
abbrev pub read_shared : ℕ → Pager → Option (Option (List ℕ)) → Option (Result (List ℕ) × Pager)
read_shared page_num s none = none
read_shared page_num s (some (some page_data)) = some (ok page_data, s)
read_shared page_num s (some none) = read_missing page_num s

unfoldable pub read_page_shared : ℕ → Pager → Option (Result (List ℕ) × Pager)
read_page_shared page_num s = read_shared page_num s (get_read_only s.cache page_num)

abbrev pub read_only_error {ℓ} : {A : Type ℓ} → Pager → Option (Result A × Pager)
read_only_error s = some (err (other "cannot write page: database is read-only"), s)

-- `put`, and the mark behind it
abbrev pub put_then_mark : ℕ → List ℕ → LruCacheInner → Option LruCacheInner
put_then_mark page_num page_data cache = elim (put page_num page_data cache) [
  | none ↦ none
  | some cache' ↦ some (mark_dirty page_num cache')
]

unfoldable pub write_page : ℕ → List ℕ → Pager → Option (Result (Unit {0}) × Pager)
write_page page_num page_data s =
    if s.read_only
    then read_only_error s
    else if length page_data == page_size
    then with_cache tt s (put_then_mark page_num page_data s.cache)
    else some (err invalid_page_size, s)

unfoldable pub write_page_transfer : ℕ → List ℕ → Pager → Option (Result (Unit {0}) × Pager)
write_page_transfer page_num page_data s =
    if s.read_only
    then read_only_error s
    else if length page_data == page_size
    then with_cache tt s (put_dirty_atomic page_num page_data s.cache)
    else some (err invalid_page_size, s)

-- `sort_unstable`
abbrev pub sort_in : ℕ → List ℕ → List ℕ
sort_in p [] = p ∷ []
sort_in p (q ∷ qs) = let rest = sort_in p qs in if leb p q then p ∷ q ∷ qs else q ∷ rest

unfoldable pub sort : List ℕ → List ℕ
sort [] = []
sort (p ∷ ps) = sort_in p (sort ps)

-- the loop of `flush`: the file with the pages written
unfoldable pub flush_pages : LruCacheInner → List ℕ → List ℕ → Option (List ℕ)
flush_pages cache [] file = some file
flush_pages cache (page_num ∷ rest) file = elim (get_read_only cache page_num) [
  | none ↦ none
  | some none ↦ flush_pages cache rest file
  | some (some page_data) ↦ flush_pages cache rest (write_at file (offset page_num) page_data)
]

-- the state when the loop is through
abbrev pub flushed : Pager → Option (List ℕ) → Option (Result (Unit {0}) × Pager)
flushed s none = none
flushed s (some file) = some (ok tt, record s { file = file; cache = clear_all_dirty s.cache })

unfoldable pub flush : Pager → Option (Result (Unit {0}) × Pager)
flush s =
    if s.read_only
    then some (ok tt, s)
    else flushed s (flush_pages s.cache (sort (get_all_dirty s.cache)) s.file)

unfoldable pub flush_no_sync : Pager → Option (Result (Unit {0}) × Pager)
flush_no_sync s =
    if s.read_only
    then some (ok tt, s)
    else flushed s (flush_pages s.cache (get_all_dirty s.cache) s.file)

-- `close`: the dirty pages, then the header
abbrev pub closed : Option (Result (Unit {0}) × Pager) → Option (Result Pager)
closed none = none
closed (some (err e, s)) = some (err e)
closed (some (ok _, s)) = some (write_header s)

unfoldable pub close : Pager → Option (Result Pager)
close s = if s.read_only then some (ok s) else closed (flush s)
