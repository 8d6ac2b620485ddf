-- ===== src/Lru/Cache.antt =====
-- src/core/lru_cache.rs: the operations of `LRUCacheInner` and of `LRUCache`. `recover_poison` takes
-- a poisoned lock as it is, so the lock leaves no trace.
use jasonisnthappy.Base.{
  ℕ, zero, suc, ◌+◌, Bool, true, false, Option, none, some, List, [], length, get_elem?, ltb, ◌==◌,
  if◌then◌else◌,
}
use jasonisnthappy.Base.Map
use jasonisnthappy.Lru.Arena.{
  Node, LruCacheInner, new_inner, ◌>>=◌, update_node, set_data, push_front, move_to_front,
  remove_node, allocate_node,
}

-- `LRUCache::new`: 0 means 1000
abbrev pub new_cache : ℕ → LruCacheInner
new_cache capacity = new_inner (if capacity == 0 then 1000 else capacity)

-- the data of a slot
abbrev pub data_of : Option (Option Node) → Option (Option (List ℕ))
data_of none = none
data_of (some none) = some none
data_of (some (some node)) = some (some node.page_data)

unfoldable pub get_read_only : LruCacheInner → ℕ → Option (Option (List ℕ))
get_read_only s page_num = elim (Map.get s.cache page_num) [
  | none ↦ some none
  | some idx ↦ data_of (get_elem? s.nodes idx)
]

unfoldable pub get_page : LruCacheInner → ℕ → Option (Option (List ℕ) × LruCacheInner)
get_page s page_num = elim (Map.get s.cache page_num) [
  | none ↦ some (none, s)
  | some idx ↦ move_to_front idx s >>= λ s₁.
      data_of (get_elem? s₁.nodes idx) >>= λ page_data. some (page_data, s₁)
]

unfoldable pub is_dirty : LruCacheInner → ℕ → Bool
is_dirty s page_num = elim (Map.get s.dirty page_num) [ none ↦ false | some b ↦ b ]

-- The loop of `evict`, which looks at `checks` nodes at most: whether it has evicted one.
unfoldable pub evict_from : ℕ → Option ℕ → LruCacheInner → Option (Bool × LruCacheInner)
evict_from zero current s = some (false, s)
evict_from (suc checks) none s = some (false, s)
evict_from (suc checks) (some idx) s = elim (get_elem? s.nodes idx) [
  | none ↦ none
  | some none ↦ some (false, s)
  | some (some node) ↦ elim (is_dirty s node.page_num) [
    | true ↦ evict_from checks node.prev s
    | false ↦ remove_node idx (record s { cache = Map.remove s.cache node.page_num }) >>= λ s₁.
        some (true, record s₁ { failed_evictions = 0 })
  ]
]

abbrev pub count_failure : Bool × LruCacheInner → LruCacheInner
count_failure (true, s) = s
count_failure (false, s) = record s { failed_evictions = s.failed_evictions + 1 }

unfoldable pub evict : LruCacheInner → Option LruCacheInner
evict s = evict_from (length s.cache) s.tail s >>= λ r. some (count_failure r)

abbrev pub evict_over : LruCacheInner → Option LruCacheInner
evict_over s = if ltb s.capacity (length s.cache) then evict s else some s

-- a new page at the front
unfoldable pub add_page : ℕ → List ℕ → LruCacheInner → Option LruCacheInner
add_page page_num page_data s = allocate_node page_num page_data s >>= λ (idx, s₁).
    push_front idx (record s₁ { cache = Map.insert s₁.cache page_num idx })

-- a page that the cache has, with other data
unfoldable pub replace_page : ℕ → List ℕ → LruCacheInner → Option LruCacheInner
replace_page idx page_data s = move_to_front idx s >>= λ s₁. update_node (set_data page_data) idx s₁

unfoldable pub put : ℕ → List ℕ → LruCacheInner → Option LruCacheInner
put page_num page_data s = elim (Map.get s.cache page_num) [
  | some idx ↦ replace_page idx page_data s
  | none ↦ add_page page_num page_data s >>= evict_over
]

abbrev pub mark_dirty : ℕ → LruCacheInner → LruCacheInner
mark_dirty page_num s = record s { dirty = Map.insert s.dirty page_num true }

unfoldable pub put_dirty_atomic : ℕ → List ℕ → LruCacheInner → Option LruCacheInner
put_dirty_atomic page_num page_data s = elim (Map.get s.cache page_num) [
  | some idx ↦ replace_page idx page_data s >>= λ s₁. some (mark_dirty page_num s₁)
  | none ↦ add_page page_num page_data s >>= λ s₁. evict_over (mark_dirty page_num s₁)
]

abbrev pub clear_dirty : ℕ → LruCacheInner → LruCacheInner
clear_dirty page_num s = record s { dirty = Map.remove s.dirty page_num }

abbrev pub get_all_dirty : LruCacheInner → List ℕ
get_all_dirty s = Map.keys s.dirty

abbrev pub clear_all_dirty : LruCacheInner → LruCacheInner
clear_all_dirty s = record s { dirty = [] }

unfoldable pub remove : ℕ → LruCacheInner → Option LruCacheInner
remove page_num s = elim (Map.get s.cache page_num) [
  | none ↦ some s
  | some idx ↦ remove_node idx (record s { cache = Map.remove s.cache page_num }) >>= λ s₁.
      some (record s₁ { dirty = Map.remove s₁.dirty page_num })
]

abbrev pub len : LruCacheInner → ℕ
len s = length s.cache
