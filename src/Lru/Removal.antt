-- ===== src/Lru/Removal.antt =====
-- src/core/lru_cache.rs: `remove_node` takes one page out of the cache.
use jasonisnthappy.Base.{
  ℕ, ◌<◌, ◌≡◌, ◌≢◌, refl, ap, sym, ◌∙◌, inl, inr, Option, none, some, ◌∷◌, length, get_elem?, set,
  length-set, get_elem?-set_self, get_elem?-set_ne, arith, ◌==◌, ==_refl, Bool-cases,
}
use jasonisnthappy.Base.Map
use jasonisnthappy.Lru.Arena.{Node, LruCacheInner, tail_before, head_behind, remove_node}
use jasonisnthappy.Lru.Cache.{get_read_only}
use jasonisnthappy.Lru.Links.{IsLinked, SlotLinks, content, SamePages}
use jasonisnthappy.Lru.Moves.{
  unlink-Relinks, Relinks-run, tail_before-IsLinked, head_behind-IsLinked,
}
use jasonisnthappy.Lru.Valid.{
  page_of, IsValid, All-map, get_read_only-same, get_read_only-none, counting, counting-IsValid,
  counting-get_read_only,
}

-- The run takes page `p` out: it does not panic, keeps the invariant, and every other page reads as
-- before.
pub record Takes (s : LruCacheInner) (p : ℕ) (r : Option LruCacheInner) : Type 0 where
  pub after : LruCacheInner
  pub returned : r ≡ some after
  pub valid : IsValid after
  pub gone : get_read_only after p ≡ some none
  pub others : (q : ℕ) → q ≢ p → get_read_only after q ≡ get_read_only s q
  pub dirty : after.dirty ≡ s.dirty

-- the state behind `remove_node`
abbrev emptied_slot : ℕ → LruCacheInner → LruCacheInner
emptied_slot idx s = record s { nodes = set s.nodes idx none; free_list = idx ∷ s.free_list }

-- the cache without the entry of page `p`
abbrev pub forget : ℕ → LruCacheInner → LruCacheInner
forget p s = record s { cache = Map.remove s.cache p }

-- the entries that stay
get-forget :
    (s : LruCacheInner) (p q : ℕ) → q ≢ p → Map.get (Map.remove s.cache p) q ≡ Map.get s.cache q
get-forget s p q ne = elim (Bool-cases (p == q)) [
  | inl same ↦ absurd (ne (ground arith))
  | inr other ↦ Map.get-remove s.cache p q ∙ rw other refl
]

get-forget_self : (s : LruCacheInner) (p : ℕ) → Map.get (Map.remove s.cache p) p ≡ none
get-forget_self s p = Map.get-remove s.cache p p ∙ rw (==_refl p) refl

module _ (s : LruCacheInner) (v : IsValid s) (idx : ℕ) (node : Node)
    (e : get_elem? s.nodes idx ≡ some (some node)) (s₁ : LruCacheInner) (l : IsLinked s₁)
    (same : SamePages (forget node.page_num s) s₁) (h : idx < length s.nodes) where
  content-emptied :
      (i : ℕ)
      → i ≢ idx
      → content (get_elem? (set s₁.nodes idx none) i) ≡ content (get_elem? s.nodes i)
  content-emptied i ne = rw (get_elem?-set_ne s₁.nodes idx i none (λ k. ne (sym k))) (same.slots i)

  own_content : content (get_elem? s.nodes idx) ≡ some (some (node.page_num, node.page_data))
  own_content = rw e refl

  -- another page stands in another slot
  apart : (q i : ℕ) → q ≢ node.page_num → Map.get s.cache q ≡ some i → i ≢ idx
  apart q i ne k at =
      let (d, there) = v.indexed q i k in
      ne (ap page_of (sym there ∙ (ap (λ (j : ℕ). content (get_elem? s.nodes j)) at ∙ own_content)))

  free_apart : (i : ℕ) → content (get_elem? s.nodes i) ≡ some none → idx ≢ i
  free_apart i k at = cc (ap (λ (j : ℕ). content (get_elem? s.nodes j)) at, k, own_content)

  get-after : (q : ℕ) → Map.get s₁.cache q ≡ Map.get (Map.remove s.cache node.page_num) q
  get-after q = ap (λ (m : Map.Map ℕ). Map.get m q) same.cache

  -- an entry that is left is of another page
  other_page : (q i : ℕ) → Map.get s₁.cache q ≡ some i → q ≢ node.page_num
  other_page q i k at = cc (
    ap (λ (j : ℕ). Map.get s₁.cache j) at,
    k,
    get-after node.page_num,
    get-forget_self s node.page_num,
  )

  emptied-IsValid : IsValid (emptied_slot idx s₁)
  emptied-IsValid =
      let size = length-set s₁.nodes idx none in
      record {
        linked = record {
          head = rw size l.head;
          tail = rw size l.tail;
          links = λ i. elim (Bool-cases (idx == i)) [
            | inl here ↦
                let at : idx ≡ i = ground arith in
                rw (← at, get_elem?-set_self s₁.nodes idx none (omega (arith, h, same.size))) tt
            | inr away ↦
                rw (size, get_elem?-set_ne s₁.nodes idx i none (λ e. ground arith)) (l.links i)
          ];
        };
        indexed = λ q i k.
            let ne = other_page q i k in
            let before = sym (get-forget s node.page_num q ne) ∙ (sym (get-after q) ∙ k) in
            let (d, there) = v.indexed q i before in
            (d, content-emptied i (apart q i ne before) ∙ there);
        free = (
          ap content (get_elem?-set_self s₁.nodes idx none (omega (arith, h, same.size))),
          rw same.free_list (
              All-map _ _ s.free_list (λ i k. content-emptied i (λ at. free_apart i k (sym at)) ∙ k)
                v.free),
        );
        distinct = (
          rw same.free_list (All-map _ _ s.free_list (λ i k. free_apart i k) v.free),
          rw same.free_list v.distinct,
        );
      }

  emptied-Takes : Takes s node.page_num (some (emptied_slot idx s₁))
  emptied-Takes = record {
    after = emptied_slot idx s₁;
    returned = refl;
    valid = emptied-IsValid;
    gone =
        get_read_only-none (emptied_slot idx s₁) node.page_num
          (get-after node.page_num ∙ get-forget_self s node.page_num);
    others = λ q ne.
        get_read_only-same s (emptied_slot idx s₁) q (get-after q ∙ get-forget s node.page_num q ne)
          (λ i k. content-emptied i (apart q i ne k));
    dirty = same.dirty;
  }

-- The node of a page is taken out, behind the page's entry.
pub remove_node-Takes :
    (s : LruCacheInner) (idx : ℕ) (node : Node)
    → IsValid s
    → idx < length s.nodes
    → get_elem? s.nodes idx ≡ some (some node)
    → Takes s node.page_num (remove_node idx (forget node.page_num s))
unfolding remove_node
remove_node-Takes s idx node v h e =
    let u = tail_before idx node (head_behind idx node (forget node.page_num s)) in
    let own : SlotLinks (length s.nodes) (some (some node)) = rw e at (v.linked.links idx) in
    let start : IsLinked (forget node.page_num s) = record {
      head = v.linked.head;
      tail = v.linked.tail;
      links = v.linked.links;
    } in
    let l =
      tail_before-IsLinked idx node (head_behind idx node (forget node.page_num s))
        (head_behind-IsLinked idx node (forget node.page_num s) start own.1) own.0 in
    let (s₁, ran, l₁, p₁) = Relinks-run u _ (unlink-Relinks node u l own) in
    let same : SamePages (forget node.page_num s) s₁ = record {
      size = p₁.size;
      slots = p₁.slots;
      cache = p₁.cache;
      dirty = p₁.dirty;
      free_list = p₁.free_list;
    } in
    rw (e, ran, remove_node) (emptied-Takes s v idx node e s₁ l₁ same h)

pub Takes-counting :
    (n : ℕ) (s : LruCacheInner) (p : ℕ) (r : Option LruCacheInner) (t : Takes s p r)
    → Takes s p (some (counting n t.after))
Takes-counting n s p r t = record {
  after = counting n t.after;
  returned = refl;
  valid = counting-IsValid n t.after t.valid;
  gone = counting-get_read_only n t.after p ∙ t.gone;
  others = λ q ne. counting-get_read_only n t.after q ∙ t.others q ne;
  dirty = t.dirty;
}
