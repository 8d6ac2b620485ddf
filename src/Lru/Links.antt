-- ===== src/Lru/Links.antt =====
-- src/core/lru_cache.rs: the links stay within the nodes, and relinking changes no page.
use jasonisnthappy.Base.{
  ℕ, zero, suc, ◌<◌, ◌≡◌, refl, ◌∙◌, inl, inr, Option, none, some, List, [], ◌∷◌, length, get_elem?,
  set, length-set, get_elem?-set_self, get_elem?-set_ne, arith, ◌==◌, Bool-cases, Option-cases,
}
use jasonisnthappy.Lru.Arena.{Node, LruCacheInner, ◌>>=◌, update_node, update_link}

-- a link that leads to one of `n` nodes, or nowhere
abbrev pub InRange : ℕ → Option ℕ → Type 0
InRange n none = Unit
InRange n (some i) = i < n

abbrev pub SlotLinks : ℕ → Option (Option Node) → Type 0
SlotLinks n none = Unit
SlotLinks n (some none) = Unit
SlotLinks n (some (some node)) = InRange n node.prev × InRange n node.next

-- Every link leads to a slot.
pub record IsLinked (s : LruCacheInner) : Type 0 where
  pub head : InRange (length s.nodes) s.head
  pub tail : InRange (length s.nodes) s.tail
  pub links : (i : ℕ) → SlotLinks (length s.nodes) (get_elem? s.nodes i)

-- the page in a slot
abbrev pub content : Option (Option Node) → Option (Option (ℕ × List ℕ))
content none = none
content (some none) = some none
content (some (some node)) = some (some (node.page_num, node.page_data))

-- Only links differ.
pub record SamePages (s s' : LruCacheInner) : Type 0 where
  pub size : length s'.nodes ≡ length s.nodes
  pub slots : (i : ℕ) → content (get_elem? s'.nodes i) ≡ content (get_elem? s.nodes i)
  pub cache : s'.cache ≡ s.cache
  pub dirty : s'.dirty ≡ s.dirty
  pub free_list : s'.free_list ≡ s.free_list

pub SamePages-trans :
    (s s' s'' : LruCacheInner) → SamePages s s' → SamePages s' s'' → SamePages s s''
SamePages-trans s s' s'' p q = record {
  size = q.size ∙ p.size;
  slots = λ i. q.slots i ∙ p.slots i;
  cache = q.cache ∙ p.cache;
  dirty = q.dirty ∙ p.dirty;
  free_list = q.free_list ∙ p.free_list;
}

pub SamePages-refl : (s : LruCacheInner) → SamePages s s
SamePages-refl s = record {
  size = refl;
  slots = λ i. refl;
  cache = refl;
  dirty = refl;
  free_list = refl;
}

-- A run that does not panic and changes links only.
pub data Relinks (s : LruCacheInner) : Option LruCacheInner → Type 0 where
  relinked : {s' : LruCacheInner} → IsLinked s' → SamePages s s' → Relinks s (some s')

pub Relinks-trans :
    (s s' : LruCacheInner) (r : Option LruCacheInner) → SamePages s s' → Relinks s' r → Relinks s r
Relinks-trans s s' none p h = elim h [ ]
Relinks-trans s s' (some s'') p (relinked l q) = relinked l (SamePages-trans s s' s'' p q)

pub bind-Relinks :
    (s : LruCacheInner) (r : Option LruCacheInner) (rest : LruCacheInner → Option LruCacheInner)
    → Relinks s r
    → ((s' : LruCacheInner) → IsLinked s' → SamePages s s' → Relinks s' (rest s'))
    → Relinks s (r >>= rest)
bind-Relinks s none rest h f = elim h [ ]
bind-Relinks s (some s') rest (relinked l p) f = Relinks-trans s s' _ p (f s' l p)

pub get_elem?-range :
    {A : Type 0} (xs : List A) (i : ℕ) → i < length xs → (a : A) × (get_elem? xs i ≡ some a)
get_elem?-range [] i h = absurd (omega arith)
get_elem?-range (x ∷ xs) zero h = (x, refl)
get_elem?-range (x ∷ xs) (suc i) h = get_elem?-range xs i (omega arith)

-- A change of a node that keeps its page, and leads to slots of `n` nodes.
pub record Relinking (n : ℕ) (change : Node → Node) : Type 0 where
  pub leads :
      (node : Node)
      → InRange n node.prev
      → InRange n node.next
      → InRange n (change node).prev × InRange n (change node).next
  pub page_num : (node : Node) → (change node).page_num ≡ node.page_num
  pub page_data : (node : Node) → (change node).page_data ≡ node.page_data

module _ (change : Node → Node) (idx : ℕ) (s : LruCacheInner) (l : IsLinked s)
    (c : Relinking (length s.nodes) change) where
  changed-Relinks :
      (node : Node)
      → get_elem? s.nodes idx ≡ some (some node)
      → idx < length s.nodes
      → Relinks s (some (record s { nodes = set s.nodes idx (some (change node)) }))
  changed-Relinks node e h =
      let size = length-set s.nodes idx (some (change node)) in
      let here = get_elem?-set_self s.nodes idx (some (change node)) h in
      let own : SlotLinks (length s.nodes) (some (some node)) = rw e at (l.links idx) in
      relinked
        (record {
          head = rw size l.head;
          tail = rw size l.tail;
          links = λ i. elim (Bool-cases (idx == i)) [
            | inl same ↦
                let at : idx ≡ i = ground arith in rw (size, ← at, here) (c.leads node own.0 own.1)
            | inr other ↦
                rw (size, get_elem?-set_ne s.nodes idx i (some (change node)) (λ e. ground arith))
                  (l.links i)
          ];
        })
        (record {
          size = size;
          slots = λ i. elim (Bool-cases (idx == i)) [
            | inl same ↦
                let at : idx ≡ i = ground arith in
                rw (← at, here, e, c.page_num node, c.page_data node) refl
            | inr other ↦
                rw (get_elem?-set_ne s.nodes idx i (some (change node)) (λ e. ground arith)) refl
          ];
          cache = refl;
          dirty = refl;
          free_list = refl;
        })

  pub update_node-Relinks : idx < length s.nodes → Relinks s (update_node change idx s)
  unfolding update_node
  update_node-Relinks h =
      let (slot, e) = get_elem?-range s.nodes idx h in
      elim (Option-cases slot) [
        | inl empty ↦ rw (e, empty, update_node) (relinked l (SamePages-refl s))
        | inr (node, k) ↦ rw (e, k, update_node) (changed-Relinks node (rw (e, k) refl) h)
      ]

pub update_link-Relinks :
    (change : Node → Node) (link : Option ℕ) (s : LruCacheInner)
    → IsLinked s
    → Relinking (length s.nodes) change
    → InRange (length s.nodes) link
    → Relinks s (update_link change link s)
update_link-Relinks change none s l c h = relinked l (SamePages-refl s)
update_link-Relinks change (some idx) s l c h = update_node-Relinks change idx s l c h
