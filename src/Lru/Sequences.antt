-- ===== src/Lru/Sequences.antt =====
-- src/core/lru_cache.rs: `remove`, and any sequence of calls on a new cache.
use jasonisnthappy.Base.{
  ℕ, ◌≡◌, ◌≢◌, refl, ◌∙◌, inl, inr, Bool, Option, none, some, List, [], ◌∷◌, get_elem?,
  Option-cases,
}
use jasonisnthappy.Base.Map
use jasonisnthappy.Lru.Arena.{LruCacheInner, ◌>>=◌, remove_node}
use jasonisnthappy.Lru.Cache.{
  new_cache, get_read_only, get_page, put, put_dirty_atomic, remove, mark_dirty, clear_dirty,
  clear_all_dirty,
}
use jasonisnthappy.Lru.Valid.{
  IsValid, content-some, get_elem?-lt, get_read_only-same, get_read_only-none,
}
use jasonisnthappy.Lru.Removal.{Takes, forget, remove_node-Takes}
use jasonisnthappy.Lru.Put.{put-Stores, put_dirty_atomic-StoresDirty}
use jasonisnthappy.Lru.Calls.{get_page-Reads}

-- What removing a page promises.
pub record Removes (s : LruCacheInner) (p : ℕ) (r : Option LruCacheInner) : Type 0 where
  pub after : LruCacheInner
  pub returned : r ≡ some after
  pub valid : IsValid after
  pub gone : get_read_only after p ≡ some none
  pub others : (q : ℕ) → q ≢ p → get_read_only after q ≡ get_read_only s q

-- other dirty flags
abbrev pub soiled : Map.Map Bool → LruCacheInner → LruCacheInner
soiled dirty s = record s { dirty = dirty }

pub soiled-IsValid :
    (dirty : Map.Map Bool) (s : LruCacheInner) → IsValid s → IsValid (soiled dirty s)
soiled-IsValid dirty s v = record {
  linked = record { head = v.linked.head; tail = v.linked.tail; links = v.linked.links };
  indexed = v.indexed;
  free = v.free;
  distinct = v.distinct;
}

pub soiled-get_read_only :
    (dirty : Map.Map Bool) (s : LruCacheInner) (q : ℕ)
    → get_read_only (soiled dirty s) q ≡ get_read_only s q
soiled-get_read_only dirty s q = get_read_only-same s (soiled dirty s) q refl (λ idx e. refl)

-- `remove` does not panic and keeps the invariant of the cache; the page is gone, and every other
-- page reads as before.
pub remove-Removes : (s : LruCacheInner) (p : ℕ) → IsValid s → Removes s p (remove p s)
unfolding remove
remove-Removes s p v = elim (Option-cases (Map.get s.cache p)) [
  | inl absent ↦
      rw (absent, remove)
        (record {
          after = s;
          returned = refl;
          valid = v;
          gone = get_read_only-none s p absent;
          others = λ q ne. refl;
        })
  | inr (idx, there) ↦
      let (d, holds) = v.indexed p idx there in
      let (node, e, of_p) = content-some (get_elem? s.nodes idx) p d holds in
      let t : Takes s p (remove_node idx (forget p s)) =
        rw of_p at (remove_node-Takes s idx node v (get_elem?-lt s.nodes idx (some node) e) e) in
      let dirty = Map.remove t.after.dirty p in
      rw (there, t.returned, remove)
        (record {
          after = soiled dirty t.after;
          returned = refl;
          valid = soiled-IsValid dirty t.after t.valid;
          gone = soiled-get_read_only dirty t.after p ∙ t.gone;
          others = λ q ne. soiled-get_read_only dirty t.after q ∙ t.others q ne;
        })
]

-- The calls of `LRUCache` that change it.
pub data Call : Type 0 where
  get_call remove_call mark_call clear_call : ℕ → Call
  put_call put_dirty_call : ℕ → List ℕ → Call
  clear_all_call : Call

unfoldable pub perform : Call → LruCacheInner → Option LruCacheInner
perform (get_call p) s = get_page s p >>= λ r. some r.1
perform (remove_call p) s = remove p s
perform (mark_call p) s = some (mark_dirty p s)
perform (clear_call p) s = some (clear_dirty p s)
perform (put_call p d) s = put p d s
perform (put_dirty_call p d) s = put_dirty_atomic p d s
perform clear_all_call s = some (clear_all_dirty s)

unfoldable pub run : List Call → LruCacheInner → Option LruCacheInner
run [] s = some s
run (c ∷ cs) s = perform c s >>= λ s₁. run cs s₁

-- A result that is a cache, with its invariant.
abbrev Sound : Option LruCacheInner → Type 0
Sound r = (s : LruCacheInner) × (r ≡ some s) × IsValid s

perform-Sound : (c : Call) (s : LruCacheInner) → IsValid s → Sound (perform c s)
unfolding perform
perform-Sound (get_call p) s v =
    let r = get_page-Reads s p v in (r.after, rw r.returned refl, r.valid)
perform-Sound (remove_call p) s v = let r = remove-Removes s p v in (r.after, r.returned, r.valid)
perform-Sound (mark_call p) s v = (mark_dirty p s, refl, soiled-IsValid _ s v)
perform-Sound (clear_call p) s v = (clear_dirty p s, refl, soiled-IsValid _ s v)
perform-Sound (put_call p d) s v = let r = put-Stores s p d v in (r.after, r.returned, r.valid)
perform-Sound (put_dirty_call p d) s v =
    let r = put_dirty_atomic-StoresDirty s p d v in (r.after, r.returned, r.valid)
perform-Sound clear_all_call s v = (clear_all_dirty s, refl, soiled-IsValid _ s v)

run-Sound : (cs : List Call) (s : LruCacheInner) → IsValid s → Sound (run cs s)
unfolding run
run-Sound [] s v = (s, refl, v)
run-Sound (c ∷ cs) s v =
    let (s₁, e, v₁) = perform-Sound c s v in
    let (s₂, k, v₂) = run-Sound cs s₁ v₁ in (s₂, rw (e, run) k, v₂)

pub new_cache-IsValid : (capacity : ℕ) → IsValid (new_cache capacity)
unfolding Map.get
new_cache-IsValid capacity = record {
  linked = record { head = tt; tail = tt; links = λ i. tt };
  indexed = λ p idx e. absurd (cc e);
  free = tt;
  distinct = tt;
}

-- No sequence of calls on a new cache, of any capacity, panics: no link, no entry of the map and no
-- entry of the free list leads out of the nodes. The cache it ends with has the invariant.
pub run-new_cache :
    (capacity : ℕ) (cs : List Call)
    → (s : LruCacheInner) × (run cs (new_cache capacity) ≡ some s) × IsValid s
run-new_cache capacity cs = run-Sound cs (new_cache capacity) (new_cache-IsValid capacity)
