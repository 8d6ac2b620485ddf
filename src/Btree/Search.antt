-- ===== src/Btree/Search.antt =====
-- src/core/btree.rs: `search` against the entries of the tree in order.
use jasonisnthappy.Base.{
  ℕ, zero, suc, ◌<◌, ◌≡◌, refl, sym, ap, ◌∙◌, Option, some, List, length, get_elem?, arith, ◌==◌,
  false,
}
use jasonisnthappy.Base.Error.{Result, ok}
use jasonisnthappy.Btree.Node.{Key, LeafEntry, BTreeNode, deserialize_node}
use jasonisnthappy.Btree.Store.{PageStore}
use jasonisnthappy.Btree.Tree.{
  BTreeInner, BTree, child_index, find_child, find_entry, get_root_page,
}
use jasonisnthappy.Btree.Operations.{actual_page, read_node, descend, search}
use jasonisnthappy.Lru.Valid.{get_elem?-lt}
use jasonisnthappy.Btree.Represented.{Represents, child_index-Chosen}

module _ {S : Type 0} (store : PageStore S) where
  -- The page that is read for number `q` holds a node.
  abbrev pub NodeAt : BTree S → ℕ → BTreeNode → Type 0
  NodeAt t q node =
      (page : List ℕ) × (store.pages t.pager (actual_page store t.inner q) ≡ some page)
      × (deserialize_node (actual_page store t.inner q) page ≡ ok node)

  -- The tree has the same pages, and differs in what the store keeps of them.
  pub record SamePages (t t' : BTree S) : Type 0 where
    pub good : store.IsGood t'.pager
    pub inner : t'.inner ≡ t.inner
    pub pages : (p : ℕ) → store.pages t'.pager p ≡ store.pages t.pager p

  -- a result, and a tree with the same pages
  abbrev pub Gives : {A : Type 0} → BTree S → A → Option (Result A × BTree S) → Type 0
  Gives t a r = (t' : BTree S) × (r ≡ some (ok a, t')) × SamePages t t'

  pub read_node-Gives :
      (t t' : BTree S) (q : ℕ) (node : BTreeNode)
      → SamePages t t'
      → NodeAt t q node
      → Gives t node (read_node store q t')
  unfolding read_node
  read_node-Gives t t' q node same (page, there, parsed) =
      let p = actual_page store t.inner q in
      let at : actual_page store t'.inner q ≡ p =
        ap (λ (i : BTreeInner). actual_page store i q) same.inner in
      let (s, ran, good, kept) = store.reads t'.pager p page same.good (same.pages p ∙ there) in
      (
        record { pager = s; inner = t'.inner },
        rw (at, ran, parsed) refl,
        record { good = good; inner = same.inner; pages = λ r. kept r ∙ same.pages r },
      )

find_child-some :
    (node : BTreeNode) (key : Key) (c : ℕ)
    → get_elem? node.children (child_index node.keys key) ≡ some c
    → find_child node key ≡ ok c
unfolding find_child
find_child-some node key c e =
    let i = child_index node.keys key in
    let filled : length node.children == 0 ≡ false =
      ground (arith, get_elem?-lt node.children i c e) in
    rw (filled, e) refl

module _ {S : Type 0} (store : PageStore S) (t : BTree S) where
  -- the leaf that the descent ends at has what the tree has under the key
  abbrev Arrives : Key → List LeafEntry → Option (Result BTreeNode × BTree S) → Type 0
  Arrives key es r =
      (leaf : BTreeNode) × Gives store t leaf r × (find_entry leaf.entries key ≡ find_entry es key)

  descend-Arrives :
      (height fuel : ℕ) (key : Key) (node : BTreeNode) (es : List LeafEntry) (t' : BTree S)
      → height < fuel
      → Represents (NodeAt store t) height node es
      → SamePages store t t'
      → Arrives key es (descend store fuel key node t')
  unfolding descend
  descend-Arrives height zero key node es t' h v same = elim h [ ]
  descend-Arrives zero (suc fuel) key node es t' h (kind, e) same =
      rw (kind, descend) (node, (t', refl, same), ap (λ (xs : List LeafEntry). find_entry xs key) e)
  descend-Arrives (suc height) (suc fuel) key node es t' h (kind, children) same =
      let c = child_index-Chosen _ node.keys node.children es key children in
      let chosen = find_child-some node key c.child c.at in
      let (child, there, below) = c.holds in
      let (t₁, ran, same₁) = read_node-Gives store t t' c.child child same there in
      let (leaf, (t₂, arrived, same₂), found) =
        descend-Arrives height fuel key child c.entries t₁ (omega arith) below same₁ in
      rw (kind, chosen, ran, arrived, descend) (leaf, (t₂, refl, same₂), found ∙ sym c.same)

  -- The pages from the root on make a tree of the entries, of a given height.
  pub record HoldsTree (height : ℕ) (es : List LeafEntry) : Type 0 where
    pub root : BTreeNode
    pub at : NodeAt store t (get_root_page t.inner) root
    pub tree : Represents (NodeAt store t) height root es
    pub good : store.IsGood t.pager

  abbrev pub Answers : {A : Type 0} → Result A → Option (Result A × BTree S) → Type 0
  Answers answer r = (t' : BTree S) × (r ≡ some (answer, t')) × SamePages store t t'

  -- On pages that make a tree, with a fuel above its height, `search` ends without a panic. It
  -- returns what a walk over all entries of the tree in order finds first under the key, or the
  -- error that there is none, and changes no page.
  pub search-Answers :
      (height fuel : ℕ) (key : Key) (es : List LeafEntry)
      → HoldsTree height es
      → height < fuel
      → Answers (find_entry es key) (search store fuel key t)
  unfolding search
  search-Answers height fuel key es v h =
      let same : SamePages store t t = record { good = v.good; inner = refl; pages = λ p. refl } in
      let (t₁, ran, same₁) = read_node-Gives store t t (get_root_page t.inner) v.root same v.at in
      let (leaf, (t₂, arrived, same₂), found) =
        descend-Arrives height fuel key v.root es t₁ h v.tree same₁ in
      rw (ran, arrived) (t₂, ap (λ (r : Result ℕ). some (r, t₂)) found, same₂)
