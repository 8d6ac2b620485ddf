-- ===== src/Lru/Valid.antt =====
-- src/core/lru_cache.rs: the invariant of the page cache, and what it reads.
use jasonisnthappy.Base.{
  zero, suc, arith, ◌<◌, length, ℕ, ◌≡◌, ◌≢◌, refl, ap, sym, ◌∙◌, inl, inr, Option, none, some,
  List, [], ◌∷◌, get_elem?, All, Option-cases,
}
use jasonisnthappy.Base.Map
use jasonisnthappy.Lru.Arena.{Node, LruCacheInner}
use jasonisnthappy.Lru.Cache.{get_read_only, data_of}
use jasonisnthappy.Lru.Links.{IsLinked, content, SamePages}

abbrev pub Distinct : List ℕ → Type 0
Distinct [] = Unit
Distinct (i ∷ is) = All (λ j. i ≢ j) is × Distinct is

-- `slot` holds page `p`.
abbrev pub HoldsPage : ℕ → Option (Option Node) → Type 0
HoldsPage p slot = (d : List ℕ) × (content slot ≡ some (some (p, d)))

-- Every link leads to a slot, the map leads from each page to its own slot, and the free slots are
-- empty and listed once.
pub record IsValid (s : LruCacheInner) : Type 0 where
  pub linked : IsLinked s
  pub indexed : (p idx : ℕ) → Map.get s.cache p ≡ some idx → HoldsPage p (get_elem? s.nodes idx)
  pub free : All (λ i. content (get_elem? s.nodes i) ≡ some none) s.free_list
  pub distinct : Distinct s.free_list

-- what `get_read_only` makes of a page in a slot
abbrev pub data_in : Option (Option (ℕ × List ℕ)) → Option (Option (List ℕ))
data_in none = none
data_in (some none) = some none
data_in (some (some (p, d))) = some (some d)

pub data_of-content : (slot : Option (Option Node)) → data_of slot ≡ data_in (content slot)
data_of-content none = refl
data_of-content (some none) = refl
data_of-content (some (some node)) = refl

-- the page that is read is the one in the slot that the map leads to
pub get_read_only-some :
    (s : LruCacheInner) (p idx : ℕ)
    → Map.get s.cache p ≡ some idx
    → get_read_only s p ≡ data_in (content (get_elem? s.nodes idx))
unfolding get_read_only
get_read_only-some s p idx e = rw (e, get_read_only) (data_of-content (get_elem? s.nodes idx))

pub get_read_only-none :
    (s : LruCacheInner) (p : ℕ) → Map.get s.cache p ≡ none → get_read_only s p ≡ some none
unfolding get_read_only
get_read_only-none s p e = rw (e, get_read_only) refl

-- a page is read alike in two caches that lead to slots with the same content
pub get_read_only-same :
    (s s' : LruCacheInner) (p : ℕ)
    → Map.get s'.cache p ≡ Map.get s.cache p
    → ((idx : ℕ)
        → Map.get s.cache p ≡ some idx
        → content (get_elem? s'.nodes idx) ≡ content (get_elem? s.nodes idx))
    → get_read_only s' p ≡ get_read_only s p
get_read_only-same s s' p e f = elim (Option-cases (Map.get s.cache p)) [
  | inl absent ↦ get_read_only-none s' p (e ∙ absent) ∙ sym (get_read_only-none s p absent)
  | inr (idx, k) ↦
      get_read_only-some s' p idx (e ∙ k)
      ∙ (ap data_in (f idx k) ∙ sym (get_read_only-some s p idx k))
]

pub All-map :
    {A : Type 0} (P Q : A → Type 0) (xs : List A) → ((x : A) → P x → Q x) → All P xs → All Q xs
All-map P Q [] f h = tt
All-map P Q (x ∷ xs) f h = (f x h.0, All-map P Q xs f h.1)

pub All-zip :
    {A : Type 0} (P Q R : A → Type 0) (xs : List A)
    → ((x : A) → P x → Q x → R x)
    → All P xs
    → All Q xs
    → All R xs
All-zip P Q R [] f h k = tt
All-zip P Q R (x ∷ xs) f h k = (f x h.0 k.0, All-zip P Q R xs f h.1 k.1)

-- Relinking keeps the invariant,
pub SamePages-IsValid :
    (s s' : LruCacheInner) → IsValid s → IsLinked s' → SamePages s s' → IsValid s'
SamePages-IsValid s s' v l p = record {
  linked = l;
  indexed = λ q idx e.
      let (d, k) = v.indexed q idx (ap (λ (m : Map.Map ℕ). Map.get m q) (sym p.cache) ∙ e) in
      (d, p.slots idx ∙ k);
  free = rw p.free_list (All-map _ _ s.free_list (λ i e. p.slots i ∙ e) v.free);
  distinct = rw p.free_list v.distinct;
}

-- and every page reads as before.
pub SamePages-get_read_only :
    (s s' : LruCacheInner) (p : ℕ) → SamePages s s' → get_read_only s' p ≡ get_read_only s p
SamePages-get_read_only s s' q p =
    get_read_only-same s s' q (ap (λ (m : Map.Map ℕ). Map.get m q) p.cache) (λ idx e. p.slots idx)

-- The counter of failed evictions plays no part.
abbrev pub counting : ℕ → LruCacheInner → LruCacheInner
counting n s = record s { failed_evictions = n }

pub counting-IsValid : (n : ℕ) (s : LruCacheInner) → IsValid s → IsValid (counting n s)
counting-IsValid n s v = record {
  linked = record { head = v.linked.head; tail = v.linked.tail; links = v.linked.links };
  indexed = v.indexed;
  free = v.free;
  distinct = v.distinct;
}

pub counting-get_read_only :
    (n : ℕ) (s : LruCacheInner) (p : ℕ) → get_read_only (counting n s) p ≡ get_read_only s p
counting-get_read_only n s p = get_read_only-same s (counting n s) p refl (λ idx e. refl)

abbrev pub page_of : Option (Option (ℕ × List ℕ)) → ℕ
page_of (some (some (p, d))) = p
page_of _ = 0

-- a slot that holds a page holds a node of it
pub content-some :
    (slot : Option (Option Node)) (p : ℕ) (d : List ℕ)
    → content slot ≡ some (some (p, d))
    → (node : Node) × (slot ≡ some (some node)) × (node.page_num ≡ p)
content-some none p d e = cc
content-some (some none) p d e = ground (arith, e)
content-some (some (some node)) p d e = (node, refl, ap page_of e)

pub get_elem?-lt :
    {A : Type 0} (xs : List A) (i : ℕ) (a : A) → get_elem? xs i ≡ some a → i < length xs
get_elem?-lt [] i a e = cc
get_elem?-lt (x ∷ xs) zero a e = omega arith
get_elem?-lt (x ∷ xs) (suc i) a e = omega (arith, get_elem?-lt xs i a e)
