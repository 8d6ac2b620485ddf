-- ===== src/Lru/Evict.antt =====
-- src/core/lru_cache.rs: `evict` takes at most one page out, and never a dirty one.
use jasonisnthappy.Base.{
  ℕ, zero, suc, ◌+◌, ◌≡◌, refl, ap, inl, inr, Bool, true, false, Option, none, some, length,
  get_elem?, ◌==◌, ◌⊎◌, arith, Bool-cases, Option-cases,
}
use jasonisnthappy.Lru.Arena.{LruCacheInner, ◌>>=◌}
use jasonisnthappy.Lru.Cache.{get_read_only, is_dirty, evict_from, evict, count_failure}
use jasonisnthappy.Lru.Links.{SlotLinks, InRange, get_elem?-range}
use jasonisnthappy.Lru.Removal.{Takes, remove_node-Takes, Takes-counting}
use jasonisnthappy.Lru.Valid.{IsValid, counting, counting-IsValid, counting-get_read_only}

-- What the loop does: it finds no clean page and changes nothing, or takes a clean page out.
pub data Evicts (s : LruCacheInner) : Option (Bool × LruCacheInner) → Type 0 where
  found_none : Evicts s (some (false, s))
  took :
      {s' : LruCacheInner} (p : ℕ)
      → is_dirty s p ≡ false
      → Takes s p (some s')
      → Evicts s (some (true, s'))

evict_from-Evicts :
    (checks : ℕ) (current : Option ℕ) (s : LruCacheInner)
    → IsValid s
    → InRange (length s.nodes) current
    → Evicts s (evict_from checks current s)
unfolding evict_from
evict_from-Evicts zero current s v h = found_none
evict_from-Evicts (suc checks) none s v h = found_none
evict_from-Evicts (suc checks) (some idx) s v h =
    let (slot, e) = get_elem?-range s.nodes idx h in
    elim (Option-cases slot) [
      | inl empty ↦ rw (e, empty, evict_from) found_none
      | inr (node, k) ↦
          let here : get_elem? s.nodes idx ≡ some (some node) = rw (e, k) refl in
          let own : SlotLinks (length s.nodes) (some (some node)) =
            rw here at (v.linked.links idx) in
          elim (Bool-cases (is_dirty s node.page_num)) [
            | inl soiled ↦
                rw (here, soiled, evict_from) (evict_from-Evicts checks node.prev s v own.0)
            | inr clean ↦
                let t = remove_node-Takes s idx node v h here in
                rw (here, clean, t.returned, evict_from)
                  (took node.page_num clean (Takes-counting 0 s node.page_num _ t))
          ]
    ]

-- Page `q` reads as before, or is no longer in the cache.
abbrev pub SameOrGone : LruCacheInner → LruCacheInner → ℕ → Type 0
SameOrGone s s' q = (get_read_only s' q ≡ get_read_only s q) ⊎ (get_read_only s' q ≡ some none)

-- A run that keeps the invariant, the dirty pages and their data.
pub record KeepsDirty (s : LruCacheInner) (r : Option LruCacheInner) : Type 0 where
  pub after : LruCacheInner
  pub returned : r ≡ some after
  pub valid : IsValid after
  pub dirty : after.dirty ≡ s.dirty
  pub kept : (q : ℕ) → is_dirty s q ≡ true → get_read_only after q ≡ get_read_only s q
  pub shrunk : (q : ℕ) → SameOrGone s after q

Evicts-KeepsDirty :
    (s : LruCacheInner) (r : Option (Bool × LruCacheInner))
    → IsValid s
    → Evicts s r
    → KeepsDirty s (r >>= λ x. some (count_failure x))
Evicts-KeepsDirty s _ v found_none = record {
  after = counting (s.failed_evictions + 1) s;
  returned = refl;
  valid = counting-IsValid _ s v;
  dirty = refl;
  kept = λ q d. counting-get_read_only _ s q;
  shrunk = λ q. inl (counting-get_read_only _ s q);
}
Evicts-KeepsDirty s _ v (took p clean t) = record {
  after = t.after;
  returned = t.returned;
  valid = t.valid;
  dirty = t.dirty;
  kept = λ q d. t.others q (λ e. cc (ap (is_dirty s) e, d, clean));
  shrunk = λ q. elim (Bool-cases (q == p)) [
    | inl same ↦ let at : q ≡ p = ground arith in inr (rw at t.gone)
    | inr other ↦ inl (t.others q (λ e. ground arith))
  ];
}

-- An eviction does not panic and keeps the invariant of the cache; every page that is marked dirty
-- stays in the cache with its data, and stays dirty.
pub evict-KeepsDirty : (s : LruCacheInner) → IsValid s → KeepsDirty s (evict s)
unfolding evict
evict-KeepsDirty s v =
    Evicts-KeepsDirty s _ v (evict_from-Evicts (length s.cache) s.tail s v v.linked.tail)
