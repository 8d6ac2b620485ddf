-- ===== src/Lru/Add.antt =====
-- src/core/lru_cache.rs: a page that is not in the cache gets a node at the front.
use jasonisnthappy.Base.{
  ℕ, zero, suc, ◌≤◌, ◌≡◌, ◌≢◌, refl, ap, sym, ◌∙◌, inl, inr, Option, none, some, List, [], ◌∷◌,
  ◌++◌, length, get_elem?, set, All, length-append, length-set, get_elem?-set_self,
  get_elem?-set_ne, arith, ◌==◌, Bool-cases, ==_refl,
}
use jasonisnthappy.Base.Map
use jasonisnthappy.Lru.Arena.{Node, LruCacheInner, fresh_node, allocate_node}
use jasonisnthappy.Lru.Cache.{add_page}
use jasonisnthappy.Lru.Links.{SlotLinks, InRange, content, Relinks}
use jasonisnthappy.Lru.Moves.{Relinks-run, push_front-Relinks}
use jasonisnthappy.Lru.Valid.{
  IsValid, Distinct, All-map, data_in, get_read_only-some, get_read_only-same, All-zip,
  SamePages-IsValid, SamePages-get_read_only, get_elem?-lt,
}
use jasonisnthappy.Lru.Replace.{Writes}

InRange-mono : (n m : ℕ) (o : Option ℕ) → n ≤ m → InRange n o → InRange m o
InRange-mono n m none h r = tt
InRange-mono n m (some i) h r = omega arith

SlotLinks-mono :
    (n m : ℕ) (slot : Option (Option Node)) → n ≤ m → SlotLinks n slot → SlotLinks m slot
SlotLinks-mono n m none h r = tt
SlotLinks-mono n m (some none) h r = tt
SlotLinks-mono n m (some (some node)) h r =
    (InRange-mono n m node.prev h r.0, InRange-mono n m node.next h r.1)

-- what an allocation for page `p` does to the nodes and the free list
record Allocates (s : LruCacheInner) (p : ℕ) (d : List ℕ) (idx : ℕ) (nodes : List (Option Node))
    (free_list : List ℕ) : Type 0 where
  at : get_elem? nodes idx ≡ some (some (fresh_node p d))
  grown : length s.nodes ≤ length nodes
  rest : (i : ℕ) → i ≢ idx → get_elem? nodes i ≡ get_elem? s.nodes i
  vacant : (q : ℕ) (d : List ℕ) → content (get_elem? s.nodes idx) ≢ some (some (q, d))
  free : All (λ i. content (get_elem? s.nodes i) ≡ some none) free_list
  apart : All (λ i. i ≢ idx) free_list
  distinct : Distinct free_list

-- the cache with the new node, before it is linked
abbrev placed : ℕ → ℕ → List (Option Node) → List ℕ → LruCacheInner → LruCacheInner
placed p idx nodes free_list s = record s {
  cache = Map.insert s.cache p idx;
  nodes = nodes;
  free_list = free_list;
}

module _ (s : LruCacheInner) (v : IsValid s) (p : ℕ) (d : List ℕ) (idx : ℕ)
    (nodes : List (Option Node)) (free_list : List ℕ)
    (a : Allocates s p d idx nodes free_list) where
  -- another page keeps its slot
  elsewhere : (q i : ℕ) → Map.get s.cache q ≡ some i → i ≢ idx
  elsewhere q i k at =
      let (d', holds) = v.indexed q i k in
      a.vacant q d' (ap (λ (j : ℕ). content (get_elem? s.nodes j)) (sym at) ∙ holds)

  get-placed : (q : ℕ) → q ≢ p → Map.get (Map.insert s.cache p idx) q ≡ Map.get s.cache q
  get-placed q ne = elim (Bool-cases (p == q)) [
    | inl same ↦ absurd (ne (ground arith))
    | inr other ↦ Map.get-insert s.cache p idx q ∙ rw other refl
  ]

  get-placed_self : Map.get (Map.insert s.cache p idx) p ≡ some idx
  get-placed_self = Map.get-insert s.cache p idx p ∙ rw (==_refl p) refl

  placed-IsValid : IsValid (placed p idx nodes free_list s)
  placed-IsValid = record {
    linked = record {
      head = InRange-mono _ _ s.head a.grown v.linked.head;
      tail = InRange-mono _ _ s.tail a.grown v.linked.tail;
      links = λ i. elim (Bool-cases (i == idx)) [
        | inl here ↦ let same : i ≡ idx = ground arith in rw (same, a.at) (tt, tt)
        | inr away ↦
            rw (a.rest i (λ k. ground arith))
              (SlotLinks-mono _ _ (get_elem? s.nodes i) a.grown (v.linked.links i))
      ];
    };
    indexed = λ q i k. elim (Bool-cases (q == p)) [
      | inl here ↦
          let same : q ≡ p = ground arith in
          let slot : some idx ≡ some i =
            sym get-placed_self
            ∙ (ap (λ (j : ℕ). Map.get (Map.insert s.cache p idx) j) (sym same) ∙ k) in
          let at : i ≡ idx = ground (arith, slot) in (d, rw (at, a.at, same) refl)
      | inr away ↦
          let before = sym (get-placed q (λ e. ground arith)) ∙ k in
          let (d', holds) = v.indexed q i before in
          (d', ap content (a.rest i (elsewhere q i before)) ∙ holds)
    ];
    free = All-zip _ _ _ free_list (λ i ne e. ap content (a.rest i ne) ∙ e) a.apart a.free;
    distinct = a.distinct;
  }

  placed-Writes : Writes s p d (some (placed p idx nodes free_list s))
  placed-Writes = record {
    after = placed p idx nodes free_list s;
    returned = refl;
    valid = placed-IsValid;
    there =
        get_read_only-some (placed p idx nodes free_list s) p idx get-placed_self
        ∙ ap (λ (x : Option (Option Node)). data_in (content x)) a.at;
    others = λ q ne.
        get_read_only-same s (placed p idx nodes free_list s) q (get-placed q ne)
          (λ i k. ap content (a.rest i (elsewhere q i k)));
    dirty = refl;
  }

Writes-Relinks :
    (s : LruCacheInner) (p : ℕ) (d : List ℕ) (u : LruCacheInner) (r : Option LruCacheInner)
    → (w : Writes s p d (some u)) → Relinks w.after r
    → Writes s p d r
Writes-Relinks s p d u r w h =
    let (s', ran, l, same) = Relinks-run w.after r h in
    record {
      after = s';
      returned = ran;
      valid = SamePages-IsValid w.after s' w.valid l same;
      there = SamePages-get_read_only w.after s' p same ∙ w.there;
      others = λ q ne. SamePages-get_read_only w.after s' q same ∙ w.others q ne;
      dirty = same.dirty ∙ w.dirty;
    }

at_end : {A : Type 0} (xs : List A) (a : A) → get_elem? (xs ++ (a ∷ [])) (length xs) ≡ some a
at_end [] a = refl
at_end (x ∷ xs) a = at_end xs a

before_end :
    {A : Type 0} (xs : List A) (a : A) (i : ℕ)
    → i ≢ length xs
    → get_elem? (xs ++ (a ∷ [])) i ≡ get_elem? xs i
before_end [] a zero ne = absurd (ne refl)
before_end [] a (suc i) ne = refl
before_end (x ∷ xs) a zero ne = refl
before_end (x ∷ xs) a (suc i) ne = before_end xs a i (λ e. ne (ap suc e))

behind_end : {A : Type 0} (xs : List A) → get_elem? xs (length xs) ≡ none
behind_end [] = refl
behind_end (x ∷ xs) = behind_end xs

content-none : (slot : Option (Option Node)) → content slot ≡ some none → slot ≡ some none
content-none none e = cc
content-none (some none) e = refl
content-none (some (some node)) e = ground (arith, e)

abbrev Allocated : LruCacheInner → ℕ → List ℕ → Type 0
Allocated s p d =
    (idx : ℕ) × (nodes : List (Option Node)) × (free_list : List ℕ) × (allocate_node p d s
      ≡ some (idx, record s { nodes = nodes; free_list = free_list }))
    × Allocates s p d idx nodes free_list

allocate_node-Allocated :
    (s : LruCacheInner) (p : ℕ) (d : List ℕ) (free_list : List ℕ)
    → IsValid s
    → s.free_list ≡ free_list
    → Allocated s p d
unfolding allocate_node
allocate_node-Allocated s p d [] v e = (
  length s.nodes,
  s.nodes ++ (some (fresh_node p d) ∷ []),
  [],
  rw (e, allocate_node)
      (ap
        (λ (fl : List ℕ). some (
          length s.nodes,
          record s { nodes = s.nodes ++ (some (fresh_node p d) ∷ []); free_list = fl },
        ))
        e),
  record {
    at = at_end s.nodes (some (fresh_node p d));
    grown = omega (arith, length-append s.nodes (some (fresh_node p d) ∷ []));
    rest = λ i ne. before_end s.nodes (some (fresh_node p d)) i ne;
    vacant = λ q d' holds. cc (holds, ap content (behind_end s.nodes));
    free = tt;
    apart = tt;
    distinct = tt;
  },
)
allocate_node-Allocated s p d (idx ∷ free_list) v e =
    let free : All (λ i. content (get_elem? s.nodes i) ≡ some none) (idx ∷ free_list) =
      rw e at v.free in
    let distinct : Distinct (idx ∷ free_list) = rw e at v.distinct in
    let here = content-none (get_elem? s.nodes idx) free.0 in
    (
      idx,
      set s.nodes idx (some (fresh_node p d)),
      free_list,
      rw (e, here, allocate_node) refl,
      record {
        at =
            get_elem?-set_self s.nodes idx (some (fresh_node p d))
              (get_elem?-lt s.nodes idx none here);
        grown = omega (arith, length-set s.nodes idx (some (fresh_node p d)));
        rest = λ i ne. get_elem?-set_ne s.nodes idx i (some (fresh_node p d)) (λ k. ne (sym k));
        vacant = λ q d' holds. ground (arith, holds, free.0);
        free = free.1;
        apart = All-map _ _ free_list (λ i ne k. ne (sym k)) distinct.0;
        distinct = distinct.1;
      },
    )

pub add_page-Writes :
    (s : LruCacheInner) (p : ℕ) (d : List ℕ) → IsValid s → Writes s p d (add_page p d s)
unfolding add_page placed-Writes
add_page-Writes s p d v =
    let (idx, nodes, free_list, ran, a) = allocate_node-Allocated s p d s.free_list v refl in
    let w = placed-Writes s v p d idx nodes free_list a in
    rw (ran, add_page)
      (Writes-Relinks s p d (placed p idx nodes free_list s) _ w (
        push_front-Relinks idx (placed p idx nodes free_list s) w.valid.linked
          (get_elem?-lt nodes idx _ a.at)))
