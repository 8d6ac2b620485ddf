-- ===== src/Btree/Changes.antt =====
-- src/core/btree.rs: insertion with its splits, deletion, and the transaction of a tree.
use jasonisnthappy.Base.{
  ℕ, ◌+◌, ◌/◌, ◌%◌, Bool, true, false, Option, none, some, List, [], ◌∷◌, length, get_elem?, take,
  drop, ltb, if◌then◌else◌, u16_mod,
}
use jasonisnthappy.Base.Map
use jasonisnthappy.Base.Map.{Map}
use jasonisnthappy.Base.Error.{Result, ok, err, not_found}
use jasonisnthappy.Btree.Node.{Key, LeafEntry, BTreeNode, new_leaf, new_internal}
use jasonisnthappy.Btree.Store.{PageStore}
use jasonisnthappy.Btree.Tree.{
  btree_order, BTreeInner, BTree, Method, ◌>>=◌, ◌>>◌, result, expect, get_root_page, child_index,
  insert_into_leaf, with_entries, remove_entry, insert_at, split_off, replace_child, relink,
}
use jasonisnthappy.Btree.Operations.{
  alloc, update, read_node, write_node, note_new, find_leaf, create_new_root,
}

-- the two halves of a leaf that is too long; the right one stands on a new page
unfoldable pub halve_leaf : BTreeNode → ℕ → BTreeNode × BTreeNode
halve_leaf leaf new_page =
    let mid = length leaf.entries / 2 in
    let right = drop mid leaf.entries in
    (
      record (with_entries leaf (take mid leaf.entries)) { next_leaf = new_page },
      record (with_entries (new_leaf new_page) right) { next_leaf = leaf.next_leaf },
    )

abbrev pub first_key : List LeafEntry → Option Key
first_key [] = none
first_key (e ∷ es) = some e.key

abbrev pub with_keys : BTreeNode → List Key → List ℕ → BTreeNode
with_keys node keys children = record node {
  keys = keys;
  children = children;
  num_keys = length keys % u16_mod;
}

-- the halves of an internal node, and the key between them
unfoldable pub halve_internal : BTreeNode → ℕ → Option (BTreeNode × Key × BTreeNode)
halve_internal node new_page =
    let mid = length node.keys / 2 in
    elim (get_elem? node.keys mid) [
      | none ↦ none
      | some promote_key ↦ elim (split_off (mid + 1) node.children) [
        | none ↦ none
        | some (left, right) ↦ some (
          with_keys node (take mid node.keys) left,
          promote_key,
          with_keys (new_internal new_page) (drop (mid + 1) node.keys) right,
        )
      ]
    ]

-- a key and the child behind it
unfoldable pub place_key : BTreeNode → Key → ℕ → Option BTreeNode
place_key parent key right_child =
    let idx = child_index parent.keys key in
    elim (insert_at idx key parent.keys) [
      | none ↦ none
      | some keys ↦ elim (insert_at (idx + 1) right_child parent.children) [
        | none ↦ none
        | some children ↦ some (with_keys parent keys children)
      ]
    ]

module _ {S : Type 0} (store : PageStore S) where
  -- The right half is handed to the parent, if there is one. `above` puts a key and a page into it.
  abbrev pub hand_up :
      (BTreeNode → Key → ℕ → Method S (Unit {0})) → ℕ → ℕ → List ℕ → Key → ℕ → Method S (Unit {0})
  hand_up above own_page written_page [] key new_page =
      create_new_root store written_page key new_page
  hand_up above own_page written_page (parent_page ∷ up) key new_page =
      read_node store parent_page >>= λ parent.
      above (relink own_page written_page parent) key new_page

  unfoldable pub split_internal :
      (BTreeNode → Key → ℕ → Method S (Unit {0})) → BTreeNode → ℕ → List ℕ → Method S (Unit {0})
  split_internal above node own_page up = do
    new_page ← alloc store
    update store (note_new store new_page)
    (left, promote_key, right) ← expect (halve_internal node new_page)
    write_node store left
    write_node store right
    hand_up above own_page node.page_num up promote_key new_page

  unfoldable pub insert_into_parent : List ℕ → BTreeNode → Key → ℕ → Method S (Unit {0})
  unfolding split_internal
  insert_into_parent [] parent key right_child = expect none
  insert_into_parent (own_page ∷ up) parent key right_child =
      expect (place_key parent key right_child) >>= λ node.
      if ltb btree_order (length node.keys)
      then split_internal (insert_into_parent up) node own_page up
      else write_node store node

  unfoldable pub split_leaf : BTreeNode → List ℕ → Method S (Unit {0})
  unfolding insert_into_parent
  split_leaf leaf [] = expect none
  split_leaf leaf (own_page ∷ up) = do
    new_page ← alloc store
    update store (note_new store new_page)
    let (left, right) = halve_leaf leaf new_page
    write_node store left
    write_node store right
    promote_key ← expect (first_key right.entries)
    hand_up (insert_into_parent up) own_page leaf.page_num up promote_key new_page

  -- the parent, if the child was copied
  abbrev relinked : BTreeNode → ℕ → Option ℕ → Method S (Unit {0})
  relinked parent old none = result (ok tt)
  relinked parent old (some new) = elim (replace_child old new parent.children) [
    | none ↦ result (ok tt)
    | some children ↦ write_node store (record parent { children = children })
  ]

  unfoldable pub update_path : ℕ → List ℕ → Method S (Unit {0})
  update_path child [] = result (ok tt)
  update_path child (parent_page ∷ up) = read_node store parent_page >>= λ parent.
      (λ t. relinked parent child (Map.get t.inner.cow_pages child) t) >>= λ _.
      update_path parent_page up

  abbrev update_path_after_modification : List ℕ → Method S (Unit {0})
  update_path_after_modification [] = result (ok tt)
  update_path_after_modification (leaf ∷ up) = update_path leaf up

  -- the leaf, with the new entry
  unfoldable pub store_leaf : BTreeNode → List ℕ → Method S (Unit {0})
  unfolding split_leaf update_path
  store_leaf leaf path =
      if ltb btree_order (length leaf.entries)
      then split_leaf leaf path
      else (write_node store leaf >> update_path_after_modification path)

  unfoldable pub insert : ℕ → Key → ℕ → Method S (Unit {0})
  unfolding store_leaf
  insert fuel doc_id page_num t =
      let root = get_root_page t.inner in
      (do
        node ← read_node store root
        (leaf, path) ← find_leaf store fuel node doc_id (root ∷ [])
        store_leaf (insert_into_leaf leaf (record { key = doc_id; value = page_num })) path)
        t

  abbrev write_without : BTreeNode → Option (List LeafEntry) → Method S (Unit {0})
  write_without leaf none = result (err not_found)
  write_without leaf (some entries) = write_node store (with_entries leaf entries)

  unfoldable pub delete : ℕ → Key → Method S (Unit {0})
  delete fuel doc_id t =
      let root = get_root_page t.inner in
      (do
        node ← read_node store root
        (leaf, path) ← find_leaf store fuel node doc_id (root ∷ [])
        write_without leaf (remove_entry doc_id leaf.entries))
        t

  abbrev cleared : Bool → BTreeInner → BTreeInner
  cleared active inner = record inner {
    tx_active = active;
    cow_pages = [];
    new_pages = [];
    modified_root = 0;
  }

  unfoldable pub begin_transaction : BTree S → BTree S
  begin_transaction t = record t { inner = cleared true t.inner }

  unfoldable pub commit_transaction : BTree S → BTree S
  commit_transaction t = record t {
    inner = cleared false (record t.inner { root_page = get_root_page t.inner });
  }

  -- the state behind a page that was freed, or that could not be freed
  abbrev freed : S → Result S → S
  freed s (err e) = s
  freed s (ok s') = s'

  unfoldable pub free_pages : List ℕ → S → Option S
  free_pages [] s = some s
  free_pages (p ∷ ps) s = elim (store.free_page p s) [
    | none ↦ none
    | some r ↦ free_pages ps (freed s r)
  ]

  unfoldable pub rollback_transaction : BTree S → Option (BTree S)
  unfolding free_pages
  rollback_transaction t = elim (free_pages (Map.values t.inner.cow_pages) t.pager) [
    | none ↦ none
    | some s ↦ some (record { pager = s; inner = cleared false t.inner })
  ]
