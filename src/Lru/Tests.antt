-- ===== src/Lru/Tests.antt =====
-- src/core/lru_cache.rs: the theorems at concrete caches.
use jasonisnthappy.Base.{◌≡◌, ℕ, zero, suc, refl, true, none, some, List, [], ◌∷◌, get_elem?, arith}
use jasonisnthappy.Base.Map
use jasonisnthappy.Lru.Arena.{LruCacheInner}
use jasonisnthappy.Lru.Cache.{new_cache, evict, put, put_dirty_atomic, get_page, remove}
use jasonisnthappy.Lru.Links.{SlotLinks}
use jasonisnthappy.Lru.Valid.{IsValid, HoldsPage}
use jasonisnthappy.Lru.Evict.{KeepsDirty, evict-KeepsDirty}
use jasonisnthappy.Lru.Put.{StoresDirty, put_dirty_atomic-StoresDirty, Stores, put-Stores}
use jasonisnthappy.Lru.Calls.{Reads, get_page-Reads}
use jasonisnthappy.Lru.Sequences.{
  Removes, remove-Removes, Call, get_call, remove_call, put_call, put_dirty_call, run,
  run-new_cache,
}

-- page 1 at the tail, dirty, and page 2 at the head, in a cache for one page
abbrev full : LruCacheInner
full = record {
  capacity = 1;
  cache = (1, 0) ∷ (2, 1) ∷ [];
  nodes =
      some (record { page_num = 1; page_data = 10 ∷ []; prev = some 1; next = none })
      ∷ some (record { page_num = 2; page_data = 20 ∷ []; prev = none; next = some 0 })
      ∷ [];
  head = some 1;
  tail = some 0;
  free_list = [];
  dirty = (1, true) ∷ [];
  failed_evictions = 0;
}

full_links : (i : ℕ) → SlotLinks 2 (get_elem? full.nodes i)
full_links zero = (omega arith, tt)
full_links (suc zero) = (tt, omega arith)
full_links (suc (suc i)) = tt

full-IsValid : IsValid full
full-IsValid = record {
  linked = record { head = omega arith; tail = omega arith; links = full_links };
  indexed = λ p idx e.
      Map.Entries-get (λ k i. HoldsPage k (get_elem? full.nodes i)) full.cache p idx
        ((10 ∷ [], refl), ((20 ∷ [], refl), tt)) e;
  free = tt;
  distinct = tt;
}

evict-KeepsDirty_example : KeepsDirty full (evict full)
evict-KeepsDirty_example = evict-KeepsDirty full full-IsValid

put_dirty_atomic-StoresDirty_example :
    StoresDirty full 3 (30 ∷ []) (put_dirty_atomic 3 (30 ∷ []) full)
put_dirty_atomic-StoresDirty_example = put_dirty_atomic-StoresDirty full 3 (30 ∷ []) full-IsValid

put-Stores_example : Stores full 1 (11 ∷ []) (put 1 (11 ∷ []) full)
put-Stores_example = put-Stores full 1 (11 ∷ []) full-IsValid

get_page-Reads_example : Reads full 1 (get_page full 1)
get_page-Reads_example = get_page-Reads full 1 full-IsValid

remove-Removes_example : Removes full 2 (remove 2 full)
remove-Removes_example = remove-Removes full 2 full-IsValid

abbrev calls : List Call
calls =
    put_call 1 (10 ∷ [])
    ∷ put_dirty_call 2 (20 ∷ [])
    ∷ put_call 3 (30 ∷ [])
    ∷ get_call 2
    ∷ remove_call 2
    ∷ put_call 4 (40 ∷ [])
    ∷ []

run-new_cache_example : (s : LruCacheInner) × (run calls (new_cache 2) ≡ some s) × IsValid s
run-new_cache_example = run-new_cache 2 calls
