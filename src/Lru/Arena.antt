-- ===== src/Lru/Arena.antt =====
-- src/core/lru_cache.rs: the nodes of `LRUCacheInner` and their links. An index that the source
-- takes out of range would panic; `none` stands for that.
use jasonisnthappy.Base.{
  ℕ, Bool, false, Option, none, some, List, [], ◌∷◌, ◌++◌, length, get_elem?, set, ◌==◌,
  if◌then◌else◌,
}
use jasonisnthappy.Base.Map.{Map}

pub record Node : Type 0 where
  pub page_num : ℕ
  pub page_data : List ℕ
  pub prev : Option ℕ
  pub next : Option ℕ

-- `free_list` with its top first
pub record LruCacheInner : Type 0 where
  pub capacity : ℕ
  pub cache : Map ℕ
  pub nodes : List (Option Node)
  pub head : Option ℕ
  pub tail : Option ℕ
  pub free_list : List ℕ
  pub dirty : Map Bool
  pub failed_evictions : ℕ

abbrev pub new_inner : ℕ → LruCacheInner
new_inner capacity = record {
  capacity = capacity;
  cache = [];
  nodes = [];
  head = none;
  tail = none;
  free_list = [];
  dirty = [];
  failed_evictions = 0;
}

infixl 5 ◌>>=◌
-- what follows, unless there was a panic
abbrev pub ◌>>=◌ : {A B : Type 0} → Option A → (A → Option B) → Option B
none >>= rest = none
some a >>= rest = rest a

-- `Some(idx) == link`
abbrev pub is_link : ℕ → Option ℕ → Bool
is_link idx none = false
is_link idx (some i) = idx == i

-- `if let Some(node) = &mut self.nodes[idx] { change(node) }`
abbrev pub update_slot :
    (Node → Node) → ℕ → LruCacheInner → Option (Option Node) → Option LruCacheInner
update_slot change idx s none = none
update_slot change idx s (some none) = some s
update_slot change idx s (some (some node)) =
    some (record s { nodes = set s.nodes idx (some (change node)) })

unfoldable pub update_node : (Node → Node) → ℕ → LruCacheInner → Option LruCacheInner
update_node change idx s = update_slot change idx s (get_elem? s.nodes idx)

-- the same at the end of a link, if there is one
abbrev pub update_link : (Node → Node) → Option ℕ → LruCacheInner → Option LruCacheInner
update_link change none s = some s
update_link change (some idx) s = update_node change idx s

abbrev pub set_prev : Option ℕ → Node → Node
set_prev link node = record node { prev = link }

abbrev pub set_next : Option ℕ → Node → Node
set_next link node = record node { next = link }

abbrev pub set_links : Option ℕ → Option ℕ → Node → Node
set_links prev next_ node = record node { prev = prev; next = next_ }

abbrev pub set_data : List ℕ → Node → Node
set_data page_data node = record node { page_data = page_data }

abbrev pub unless_empty : ℕ → LruCacheInner → LruCacheInner
unless_empty idx s = elim s.tail [ none ↦ record s { tail = some idx } | some _ ↦ s ]

-- what `move_to_front`, `put` and `put_dirty_atomic` do to put a node at the front
unfoldable pub push_front : ℕ → LruCacheInner → Option LruCacheInner
push_front idx s = update_node (set_links none s.head) idx s >>= λ s₁.
    update_link (set_prev (some idx)) s₁.head s₁ >>= λ s₂.
    some (unless_empty idx (record s₂ { head = some idx }))

-- the neighbours of a node that is taken out are joined
unfoldable pub unlink : Node → LruCacheInner → Option LruCacheInner
unlink node s = update_link (set_next node.next) node.prev s >>= λ s₁.
    update_link (set_prev node.prev) node.next s₁

abbrev pub tail_before : ℕ → Node → LruCacheInner → LruCacheInner
tail_before idx node s = record s { tail = if is_link idx s.tail then node.prev else s.tail }

abbrev pub head_behind : ℕ → Node → LruCacheInner → LruCacheInner
head_behind idx node s = record s { head = if is_link idx s.head then node.next else s.head }

abbrev pub move_slot : ℕ → LruCacheInner → Option (Option Node) → Option LruCacheInner
move_slot idx s none = none
move_slot idx s (some none) = some s
move_slot idx s (some (some node)) =
    unlink node s >>= λ s₁. push_front idx (tail_before idx node s₁)

unfoldable pub move_to_front : ℕ → LruCacheInner → Option LruCacheInner
move_to_front idx s = if is_link idx s.head then some s else move_slot idx s (get_elem? s.nodes idx)

abbrev pub remove_slot : ℕ → LruCacheInner → Option (Option Node) → Option LruCacheInner
remove_slot idx s none = none
remove_slot idx s (some none) = some s
remove_slot idx s (some (some node)) =
    unlink node (tail_before idx node (head_behind idx node s)) >>= λ s₁.
    some (record s₁ { nodes = set s₁.nodes idx none; free_list = idx ∷ s₁.free_list })

unfoldable pub remove_node : ℕ → LruCacheInner → Option LruCacheInner
remove_node idx s = remove_slot idx s (get_elem? s.nodes idx)

abbrev pub fresh_node : ℕ → List ℕ → Node
fresh_node page_num page_data = record {
  page_num = page_num;
  page_data = page_data;
  prev = none;
  next = none;
}

-- into the slot on top of the free list, or a new slot
unfoldable pub allocate_node : ℕ → List ℕ → LruCacheInner → Option (ℕ × LruCacheInner)
allocate_node page_num page_data s = elim s.free_list [
  | [] ↦
      some (
        length s.nodes,
        record s { nodes = s.nodes ++ (some (fresh_node page_num page_data) ∷ []) },
      )
  | idx ∷ free_list ↦ elim (get_elem? s.nodes idx) [
    | none ↦ none
    | some _ ↦ some (
      idx,
      record s {
        nodes = set s.nodes idx (some (fresh_node page_num page_data));
        free_list = free_list;
      },
    )
  ]
]
