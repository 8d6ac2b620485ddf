-- ===== src/Btree/Operations.antt =====
-- src/core/btree.rs: the methods of `BTree` that read and write nodes.
use jasonisnthappy.Base.{
  ℕ, zero, suc, true, false, Option, none, some, List, [], ◌∷◌, ◌==◌, if◌then◌else◌,
}
use jasonisnthappy.Base.Map
use jasonisnthappy.Base.Error.{Result, ok, err}
use jasonisnthappy.Btree.Node.{
  internal_node, leaf_node, Key, BTreeNode, new_leaf, new_internal, node_page, deserialize_node,
}
use jasonisnthappy.Btree.Store.{PageStore}
use jasonisnthappy.Btree.Tree.{
  BTreeInner, BTree, Method, ◌>>=◌, ◌>>◌, result, expect, get_root_page, find_child, find_entry,
}

module _ {S : Type 0} (store : PageStore S) where
  -- calls of the pager
  abbrev with_pager :
      {A : Type 0} → BTreeInner → Option (Result A × S) → Option (Result A × BTree S)
  with_pager inner none = none
  with_pager inner (some (r, s)) = some (r, record { pager = s; inner = inner })

  abbrev allocated : BTree S → Result (ℕ × S) → Option (Result ℕ × BTree S)
  allocated t (err e) = some (err e, t)
  allocated t (ok (p, s)) = some (ok p, record t { pager = s })

  abbrev pub alloc : Method S ℕ
  alloc t = allocated t (store.alloc_page t.pager)

  abbrev pub update : (BTreeInner → BTreeInner) → Method S (Unit {0})
  update f t = some (ok tt, record t { inner = f t.inner })

  -- the copy of a page that the transaction has made, or the page itself
  abbrev copy_or : ℕ → Option ℕ → ℕ
  copy_or p none = p
  copy_or p (some copy) = copy

  abbrev pub actual_page : BTreeInner → ℕ → ℕ
  actual_page inner p = if inner.tx_active then copy_or p (Map.get inner.cow_pages p) else p

  abbrev pub deserialized : ℕ → Result (List ℕ) → Result BTreeNode
  deserialized p (err e) = err e
  deserialized p (ok page) = deserialize_node p page

  -- a node that was read, by the number of its page
  abbrev node_of : ℕ → Option (Result (List ℕ) × BTree S) → Option (Result BTreeNode × BTree S)
  node_of p none = none
  node_of p (some (r, t)) = some (deserialized p r, t)

  unfoldable pub read_node : ℕ → Method S BTreeNode
  read_node page_num t =
      let p = actual_page t.inner page_num in
      node_of p (with_pager t.inner (store.read_page p t.pager))

  -- a page is copied when it is first written
  abbrev copied : ℕ → ℕ → ℕ → BTreeInner → BTreeInner
  copied page_num root_page new_page inner = record inner {
    cow_pages = Map.insert inner.cow_pages page_num new_page;
    new_pages = Map.insert inner.new_pages new_page true;
    modified_root = if page_num == root_page then new_page else inner.modified_root;
  }

  abbrev copy_of : ℕ → ℕ → Option ℕ → Method S ℕ
  copy_of page_num root_page (some existing) = result (ok existing)
  copy_of page_num root_page none = do
    new_page ← alloc
    update (copied page_num root_page new_page)
    result (ok new_page)

  -- the page that `write_node` writes to
  unfoldable pub page_to_write : ℕ → Method S ℕ
  page_to_write page_num t =
      if t.inner.tx_active
      then if Map.contains_key t.inner.new_pages page_num
        then some (ok page_num, t)
        else copy_of page_num (get_root_page t.inner) (Map.get t.inner.cow_pages page_num) t
      else some (ok page_num, t)

  abbrev write_to : ℕ → List ℕ → Method S (Unit {0})
  write_to p page t = with_pager t.inner (store.write_page p page t.pager)

  unfoldable pub write_node : BTreeNode → Method S (Unit {0})
  unfolding page_to_write
  write_node node = do
    page_num ← page_to_write node.page_num
    page ← expect (node_page node)
    write_to page_num page

  -- a page that a transaction has made
  abbrev pub note_new : ℕ → BTreeInner → BTreeInner
  note_new p inner =
      if inner.tx_active
      then record inner { new_pages = Map.insert inner.new_pages p true }
      else inner

  -- `BTree::new`, without the tree that it is about to make
  unfoldable pub new_tree : S → Option (Result (Unit {0}) × BTree S)
  unfolding write_node
  new_tree s =
      let inner : BTreeInner = record {
        root_page = 0;
        tx_active = false;
        cow_pages = [];
        new_pages = [];
        modified_root = 0;
      } in
      (do
        root_page ← alloc
        update (λ i. record i { root_page = root_page })
        write_node (new_leaf root_page))
        (record { pager = s; inner = inner })

  -- the descent of `search`
  unfoldable pub descend : ℕ → Key → BTreeNode → Method S BTreeNode
  unfolding read_node
  descend zero key node t = none
  descend (suc fuel) key node t = elim node.node_type [
    | leaf_node ↦ some (ok node, t)
    | internal_node ↦
        (result (find_child node key) >>= λ child. read_node child >>= λ n. descend fuel key n) t
  ]

  unfoldable pub search : ℕ → Key → Method S ℕ
  unfolding descend read_node
  search fuel doc_id t =
      (do
        root ← read_node (get_root_page t.inner)
        leaf ← descend fuel doc_id root
        result (find_entry leaf.entries doc_id))
        t

  unfoldable pub find_leaf : ℕ → BTreeNode → Key → List ℕ → Method S (BTreeNode × List ℕ)
  unfolding read_node
  find_leaf zero node key path t = none
  find_leaf (suc fuel) node key path t = elim node.node_type [
    | leaf_node ↦ some (ok (node, path), t)
    | internal_node ↦
        (do
          child_page ← result (find_child node key)
          child ← read_node child_page
          find_leaf fuel child key (child_page ∷ path))
          t
  ]

  -- the root takes the place of the old one
  abbrev rooted : ℕ → BTreeInner → BTreeInner
  rooted p inner =
      if inner.tx_active then record inner { modified_root = p } else record inner { root_page = p }

  unfoldable pub create_new_root : ℕ → Key → ℕ → Method S (Unit {0})
  unfolding write_node
  create_new_root left_child key right_child = do
    new_root_page ← alloc
    update (note_new new_root_page)
    write_node (record (new_internal new_root_page) {
      num_keys = 1;
      keys = key ∷ [];
      children = left_child ∷ right_child ∷ [];
    })
    update (rooted new_root_page)
