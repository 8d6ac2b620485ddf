-- ===== src/Lru/Put.antt =====
-- src/core/lru_cache.rs: `put_dirty_atomic` and `put` against what they promise.
use jasonisnthappy.Base.{
  ℕ, ◌≡◌, ◌≢◌, refl, ◌∙◌, ◌⊎◌, inl, inr, true, Option, none, some, List, length, ltb, ◌==◌, ==_refl,
  arith, Bool-cases, Option-cases,
}
use jasonisnthappy.Base.Map
use jasonisnthappy.Lru.Arena.{LruCacheInner}
use jasonisnthappy.Lru.Cache.{
  get_read_only, is_dirty, mark_dirty, evict_over, put, put_dirty_atomic,
}
use jasonisnthappy.Lru.Valid.{IsValid, get_read_only-same}
use jasonisnthappy.Lru.Evict.{KeepsDirty, SameOrGone, evict-KeepsDirty}
use jasonisnthappy.Lru.Replace.{Writes, replace_page-Writes}
use jasonisnthappy.Lru.Add.{add_page-Writes}

is_dirty-mark_dirty_self : (p : ℕ) (s : LruCacheInner) → is_dirty (mark_dirty p s) p ≡ true
unfolding is_dirty
is_dirty-mark_dirty_self p s =
    let now : Map.get (Map.insert s.dirty p true) p ≡ some true =
      Map.get-insert s.dirty p true p ∙ rw (==_refl p) refl in
    rw (now, is_dirty) refl

is_dirty-mark_dirty :
    (p q : ℕ) (s : LruCacheInner) → is_dirty s q ≡ true → is_dirty (mark_dirty p s) q ≡ true
unfolding is_dirty
is_dirty-mark_dirty p q s h = elim (Bool-cases (p == q)) [
  | inl same ↦
      let now : Map.get (Map.insert s.dirty p true) q ≡ some true =
        Map.get-insert s.dirty p true q ∙ rw same refl in
      rw (now, is_dirty) refl
  | inr other ↦
      let now : Map.get (Map.insert s.dirty p true) q ≡ Map.get s.dirty q =
        Map.get-insert s.dirty p true q ∙ rw other refl in
      rw (now, is_dirty) h
]

is_dirty-mark_dirty_other :
    (p q : ℕ) (s : LruCacheInner) → q ≢ p → is_dirty (mark_dirty p s) q ≡ is_dirty s q
unfolding is_dirty
is_dirty-mark_dirty_other p q s ne = elim (Bool-cases (p == q)) [
  | inl same ↦ absurd (ne (ground arith))
  | inr other ↦
      let now : Map.get (Map.insert s.dirty p true) q ≡ Map.get s.dirty q =
        Map.get-insert s.dirty p true q ∙ rw other refl in
      rw (now, is_dirty) refl
]

SameOrGone-trans :
    (s m s' : LruCacheInner) (q : ℕ)
    → get_read_only m q ≡ get_read_only s q
    → SameOrGone m s' q
    → SameOrGone s s' q
SameOrGone-trans s m s' q e (inl same) = inl (same ∙ e)
SameOrGone-trans s m s' q e (inr gone) = inr gone

marked-IsValid : (p : ℕ) (s : LruCacheInner) → IsValid s → IsValid (mark_dirty p s)
marked-IsValid p s v = record {
  linked = record { head = v.linked.head; tail = v.linked.tail; links = v.linked.links };
  indexed = v.indexed;
  free = v.free;
  distinct = v.distinct;
}

marked-get_read_only :
    (p : ℕ) (s : LruCacheInner) (q : ℕ) → get_read_only (mark_dirty p s) q ≡ get_read_only s q
marked-get_read_only p s q = get_read_only-same s (mark_dirty p s) q refl (λ idx e. refl)

evict_over-KeepsDirty : (s : LruCacheInner) → IsValid s → KeepsDirty s (evict_over s)
evict_over-KeepsDirty s v = elim (Bool-cases (ltb s.capacity (length s.cache))) [
  | inl over ↦ rw over (evict-KeepsDirty s v)
  | inr room ↦ rw room (record {
    after = s;
    returned = refl;
    valid = v;
    dirty = refl;
    kept = λ q d. refl;
    shrunk = λ q. inl refl;
  })
]

-- What storing a dirty page promises.
pub record StoresDirty (s : LruCacheInner) (p : ℕ) (d : List ℕ) (r : Option LruCacheInner)
    : Type 0 where
  pub after : LruCacheInner
  pub returned : r ≡ some after
  pub valid : IsValid after
  pub there : get_read_only after p ≡ some (some d)
  pub dirty : is_dirty after p ≡ true
  pub kept : (q : ℕ) → q ≢ p → is_dirty s q ≡ true → get_read_only after q ≡ get_read_only s q
  pub kept_dirty : (q : ℕ) → is_dirty s q ≡ true → is_dirty after q ≡ true
  pub other_dirty : (q : ℕ) → q ≢ p → is_dirty after q ≡ is_dirty s q
  pub shrunk : (q : ℕ) → q ≢ p → SameOrGone s after q

is_dirty-same : (s s' : LruCacheInner) (q : ℕ) → s'.dirty ≡ s.dirty → is_dirty s' q ≡ is_dirty s q
unfolding is_dirty
is_dirty-same s s' q e = rw e refl

marked-StoresDirty :
    (s : LruCacheInner) (p : ℕ) (d : List ℕ) (run r : Option LruCacheInner)
    → (w : Writes s p d run) → KeepsDirty (mark_dirty p w.after) r
    → StoresDirty s p d r
marked-StoresDirty s p d run r w k =
    let m = mark_dirty p w.after in
    let soiled : (q : ℕ) → is_dirty s q ≡ true → is_dirty m q ≡ true =
      λ q h. is_dirty-mark_dirty p q w.after (is_dirty-same s w.after q w.dirty ∙ h) in
    record {
      after = k.after;
      returned = k.returned;
      valid = k.valid;
      there =
          k.kept p (is_dirty-mark_dirty_self p w.after)
          ∙ (marked-get_read_only p w.after p ∙ w.there);
      dirty = is_dirty-same m k.after p k.dirty ∙ is_dirty-mark_dirty_self p w.after;
      kept = λ q ne h. k.kept q (soiled q h) ∙ (marked-get_read_only p w.after q ∙ w.others q ne);
      kept_dirty = λ q h. is_dirty-same m k.after q k.dirty ∙ soiled q h;
      other_dirty = λ q ne.
          is_dirty-same m k.after q k.dirty
          ∙ (is_dirty-mark_dirty_other p q w.after ne ∙ is_dirty-same s w.after q w.dirty);
      shrunk = λ q ne.
          SameOrGone-trans s m k.after q (marked-get_read_only p w.after q ∙ w.others q ne)
            (k.shrunk q);
    }

-- Storing a dirty page does not panic and keeps the invariant of the cache. The page then reads as
-- stored and is dirty, whatever the capacity; every other page that was dirty reads as before, and
-- all dirty pages stay dirty.
pub put_dirty_atomic-StoresDirty :
    (s : LruCacheInner) (p : ℕ) (d : List ℕ)
    → IsValid s
    → StoresDirty s p d (put_dirty_atomic p d s)
unfolding put_dirty_atomic
put_dirty_atomic-StoresDirty s p d v = elim (Option-cases (Map.get s.cache p)) [
  | inl absent ↦
      let w = add_page-Writes s p d v in
      rw (absent, w.returned, put_dirty_atomic)
        (marked-StoresDirty s p d _ _ w
          (evict_over-KeepsDirty (mark_dirty p w.after) (marked-IsValid p w.after w.valid)))
  | inr (idx, there) ↦
      let w = replace_page-Writes s idx p d v there in
      rw (there, w.returned, put_dirty_atomic)
        (marked-StoresDirty s p d _ _ w (record {
          after = mark_dirty p w.after;
          returned = refl;
          valid = marked-IsValid p w.after w.valid;
          dirty = refl;
          kept = λ q h. refl;
          shrunk = λ q. inl refl;
        }))
]

-- What storing a page promises.
pub record Stores (s : LruCacheInner) (p : ℕ) (d : List ℕ) (r : Option LruCacheInner) : Type 0 where
  pub after : LruCacheInner
  pub returned : r ≡ some after
  pub valid : IsValid after
  pub there : is_dirty s p ≡ true → get_read_only after p ≡ some (some d)
  pub kept : (q : ℕ) → q ≢ p → is_dirty s q ≡ true → get_read_only after q ≡ get_read_only s q
  pub dirty : after.dirty ≡ s.dirty
  pub shrunk : (q : ℕ) → q ≢ p → SameOrGone s after q
  pub own : (get_read_only after p ≡ some (some d)) ⊎ (get_read_only after p ≡ some none)

shrunk-own :
    (s s' : LruCacheInner) (p : ℕ) (r : Option (Option (List ℕ)))
    → get_read_only s p ≡ r
    → SameOrGone s s' p
    → (get_read_only s' p ≡ r) ⊎ (get_read_only s' p ≡ some none)
shrunk-own s s' p r e (inl same) = inl (same ∙ e)
shrunk-own s s' p r e (inr gone) = inr gone

written-Stores :
    (s : LruCacheInner) (p : ℕ) (d : List ℕ) (run r : Option LruCacheInner)
    → (w : Writes s p d run) → KeepsDirty w.after r
    → Stores s p d r
written-Stores s p d run r w k = record {
  after = k.after;
  returned = k.returned;
  valid = k.valid;
  there = λ h. k.kept p (is_dirty-same s w.after p w.dirty ∙ h) ∙ w.there;
  kept = λ q ne h. k.kept q (is_dirty-same s w.after q w.dirty ∙ h) ∙ w.others q ne;
  dirty = k.dirty ∙ w.dirty;
  shrunk = λ q ne. SameOrGone-trans s w.after k.after q (w.others q ne) (k.shrunk q);
  own = shrunk-own w.after k.after p (some (some d)) w.there (k.shrunk p);
}

-- Storing a page does not panic, keeps the invariant of the cache and changes no dirty flag. If the
-- page is dirty it then reads as stored, and every other dirty page reads as before.
pub put-Stores : (s : LruCacheInner) (p : ℕ) (d : List ℕ) → IsValid s → Stores s p d (put p d s)
unfolding put
put-Stores s p d v = elim (Option-cases (Map.get s.cache p)) [
  | inl absent ↦
      let w = add_page-Writes s p d v in
      rw (absent, w.returned, put)
        (written-Stores s p d _ _ w (evict_over-KeepsDirty w.after w.valid))
  | inr (idx, there) ↦
      let w = replace_page-Writes s idx p d v there in
      rw (there, w.returned, put)
        (written-Stores s p d _ _ w (record {
          after = w.after;
          returned = refl;
          valid = w.valid;
          dirty = refl;
          kept = λ q h. refl;
          shrunk = λ q. inl refl;
        }))
]
