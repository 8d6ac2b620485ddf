-- ===== src/Lru/Calls.antt =====
-- src/core/lru_cache.rs: `get`, `remove`, and any sequence of calls on a new cache.
use jasonisnthappy.Base.{
  ℕ, ◌≡◌, refl, ap, ◌∙◌, inl, inr, Option, none, some, List, get_elem?, Option-cases,
}
use jasonisnthappy.Base.Map
use jasonisnthappy.Lru.Arena.{LruCacheInner}
use jasonisnthappy.Lru.Cache.{get_read_only, get_page, data_of}
use jasonisnthappy.Lru.Moves.{Relinks-run, move_to_front-Relinks}
use jasonisnthappy.Lru.Valid.{
  IsValid, data_of-content, data_in, content-some, get_elem?-lt, get_read_only-some,
  get_read_only-none, SamePages-IsValid, SamePages-get_read_only,
}

-- What reading a page promises.
pub record Reads (s : LruCacheInner) (p : ℕ) (r : Option (Option (List ℕ) × LruCacheInner))
    : Type 0 where
  pub page : Option (List ℕ)
  pub after : LruCacheInner
  pub returned : r ≡ some (page, after)
  pub same_as : get_read_only s p ≡ some page
  pub valid : IsValid after
  pub kept : (q : ℕ) → get_read_only after q ≡ get_read_only s q
  pub dirty : after.dirty ≡ s.dirty

-- `get` does not panic, keeps the invariant of the cache, returns what `get_read_only` returns, and
-- changes neither what any page reads nor which pages are dirty.
pub get_page-Reads : (s : LruCacheInner) (p : ℕ) → IsValid s → Reads s p (get_page s p)
unfolding get_page
get_page-Reads s p v = elim (Option-cases (Map.get s.cache p)) [
  | inl absent ↦
      rw (absent, get_page)
        (record {
          page = none;
          after = s;
          returned = refl;
          same_as = get_read_only-none s p absent;
          valid = v;
          kept = λ q. refl;
          dirty = refl;
        })
  | inr (idx, there) ↦
      let (d, holds) = v.indexed p idx there in
      let (node, e, _) = content-some (get_elem? s.nodes idx) p d holds in
      let (s₁, ran, l₁, same) =
        Relinks-run s _
          (move_to_front-Relinks idx s v.linked (get_elem?-lt s.nodes idx (some node) e)) in
      let found : data_of (get_elem? s₁.nodes idx) ≡ some (some d) =
        data_of-content (get_elem? s₁.nodes idx) ∙ ap data_in (same.slots idx ∙ holds) in
      rw (there, ran, found, get_page)
        (record {
          page = some d;
          after = s₁;
          returned = refl;
          same_as = get_read_only-some s p idx there ∙ ap data_in holds;
          valid = SamePages-IsValid s s₁ v l₁ same;
          kept = λ q. SamePages-get_read_only s s₁ q same;
          dirty = same.dirty;
        })
]
