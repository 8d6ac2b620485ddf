-- ===== src/Lru/Replace.antt =====
-- src/core/lru_cache.rs: a page that is in the cache gets other data.
use jasonisnthappy.Base.{
  ℕ, ◌≡◌, ◌≢◌, refl, ap, sym, ◌∙◌, inl, inr, Option, some, List, length, get_elem?, set, length-set,
  get_elem?-set_self, get_elem?-set_ne, arith, ◌==◌, Bool-cases,
}
use jasonisnthappy.Base.Map
use jasonisnthappy.Lru.Arena.{Node, LruCacheInner, update_node, set_data}
use jasonisnthappy.Lru.Cache.{get_read_only, replace_page}
use jasonisnthappy.Lru.Links.{SlotLinks, content, SamePages}
use jasonisnthappy.Lru.Moves.{Relinks-run, move_to_front-Relinks}
use jasonisnthappy.Lru.Valid.{
  IsValid, All-map, page_of, content-some, data_in, get_read_only-some, get_read_only-same,
  SamePages-IsValid, SamePages-get_read_only, get_elem?-lt,
}

-- The run puts `d` into page `p`: it does not panic, keeps the invariant, and every other page reads
-- as before.
pub record Writes (s : LruCacheInner) (p : ℕ) (d : List ℕ) (r : Option LruCacheInner) : Type 0 where
  pub after : LruCacheInner
  pub returned : r ≡ some after
  pub valid : IsValid after
  pub there : get_read_only after p ≡ some (some d)
  pub others : (q : ℕ) → q ≢ p → get_read_only after q ≡ get_read_only s q
  pub dirty : after.dirty ≡ s.dirty

-- the cache with other data in a slot
abbrev rewritten : ℕ → List ℕ → Node → LruCacheInner → LruCacheInner
rewritten idx d node s = record s { nodes = set s.nodes idx (some (set_data d node)) }

module _ (s : LruCacheInner) (v : IsValid s) (idx p : ℕ) (d : List ℕ) (node : Node)
    (there : Map.get s.cache p ≡ some idx) (e : get_elem? s.nodes idx ≡ some (some node))
    (of_p : node.page_num ≡ p) where
  own_slot :
      get_elem? (set s.nodes idx (some (set_data d node))) idx ≡ some (some (set_data d node))
  own_slot =
      get_elem?-set_self s.nodes idx (some (set_data d node))
        (get_elem?-lt s.nodes idx (some node) e)

  other_slot :
      (i : ℕ)
      → i ≢ idx
      → get_elem? (set s.nodes idx (some (set_data d node))) i ≡ get_elem? s.nodes i
  other_slot i ne = get_elem?-set_ne s.nodes idx i (some (set_data d node)) (λ k. ne (sym k))

  -- only `p` leads to the slot
  only_page : (q i : ℕ) → Map.get s.cache q ≡ some i → i ≡ idx → q ≡ p
  only_page q i k at =
      let (d', holds) = v.indexed q i k in
      ap page_of (sym holds ∙ (ap (λ (j : ℕ). content (get_elem? s.nodes j)) at ∙ ap content e))
      ∙ of_p

  rewritten-IsValid : IsValid (rewritten idx d node s)
  rewritten-IsValid =
      let size = length-set s.nodes idx (some (set_data d node)) in
      let own : SlotLinks (length s.nodes) (some (some node)) = rw e at (v.linked.links idx) in
      record {
        linked = record {
          head = rw size v.linked.head;
          tail = rw size v.linked.tail;
          links = λ i. elim (Bool-cases (i == idx)) [
            | inl here ↦ let at : i ≡ idx = ground arith in rw (size, at, own_slot) own
            | inr away ↦ rw (size, other_slot i (λ k. ground arith)) (v.linked.links i)
          ];
        };
        indexed = λ q i k. elim (Bool-cases (i == idx)) [
          | inl here ↦
              let at : i ≡ idx = ground arith in
              (d, rw (at, own_slot, of_p, only_page q i k at) refl)
          | inr away ↦
              let (d', holds) = v.indexed q i k in
              (d', ap content (other_slot i (λ k. ground arith)) ∙ holds)
        ];
        free =
            All-map _ _ s.free_list
              (λ i k.
                ap content (
                  other_slot i
                    (λ at. cc (ap (λ (j : ℕ). content (get_elem? s.nodes j)) at, k, ap content e)))
                ∙ k)
              v.free;
        distinct = v.distinct;
      }

  rewritten-Writes : Writes s p d (some (rewritten idx d node s))
  rewritten-Writes = record {
    after = rewritten idx d node s;
    returned = refl;
    valid = rewritten-IsValid;
    there =
        get_read_only-some (rewritten idx d node s) p idx there
        ∙ ap (λ (x : Option (Option Node)). data_in (content x)) own_slot;
    others = λ q ne.
        get_read_only-same s (rewritten idx d node s) q refl
          (λ i k. ap content (other_slot i (λ at. ne (only_page q i k at))));
    dirty = refl;
  }

pub Writes-behind :
    (s s₁ : LruCacheInner) (p : ℕ) (d : List ℕ) (r : Option LruCacheInner)
    → SamePages s s₁
    → Writes s₁ p d r
    → Writes s p d r
Writes-behind s s₁ p d r same w = record {
  after = w.after;
  returned = w.returned;
  valid = w.valid;
  there = w.there;
  others = λ q ne. w.others q ne ∙ SamePages-get_read_only s s₁ q same;
  dirty = w.dirty ∙ same.dirty;
}

pub replace_page-Writes :
    (s : LruCacheInner) (idx p : ℕ) (d : List ℕ)
    → IsValid s
    → Map.get s.cache p ≡ some idx
    → Writes s p d (replace_page idx d s)
unfolding replace_page update_node
replace_page-Writes s idx p d v there =
    let (d₀, holds) = v.indexed p idx there in
    let (node₀, e₀, _) = content-some (get_elem? s.nodes idx) p d₀ holds in
    let (s₁, ran, l₁, same) =
      Relinks-run s _
        (move_to_front-Relinks idx s v.linked (get_elem?-lt s.nodes idx (some node₀) e₀)) in
    let (node, e, of_p) = content-some (get_elem? s₁.nodes idx) p d₀ (same.slots idx ∙ holds) in
    let there₁ : Map.get s₁.cache p ≡ some idx =
      ap (λ (m : Map.Map ℕ). Map.get m p) same.cache ∙ there in
    rw (ran, e, replace_page)
      (Writes-behind s s₁ p d _ same
        (rewritten-Writes s₁ (SamePages-IsValid s s₁ v l₁ same) idx p d node there₁ e of_p))
