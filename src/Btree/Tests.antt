-- ===== src/Btree/Tests.antt =====
-- src/core/btree.rs: the theorems at a concrete tree, on the pages of a pager.
use jasonisnthappy.Base.{
  ℕ, ◌*◌, ◌<◌, ◌≡◌, refl, sym, ◌∙◌, false, none, some, List, [], ◌∷◌, ◌++◌, length, drop, replicate,
  length-append, length-drop, length-replicate, arith, u64_mod,
}
use jasonisnthappy.Base.Map
use jasonisnthappy.Base.Bytes.{to_le}
use jasonisnthappy.Base.Text.{text_cmp}
use jasonisnthappy.Base.Error.{ok}
use jasonisnthappy.Wal.Frame.{page_size}
use jasonisnthappy.Wal.Disk.{write_at}
use jasonisnthappy.Lru.Cache.{new_cache, get_read_only, is_dirty}
use jasonisnthappy.Lru.Sequences.{new_cache-IsValid}
use jasonisnthappy.Pager.State.{Pager}
use jasonisnthappy.Pager.Files.{page_at, page_at-write_at, page_at-write_at_other, length-write_at}
use jasonisnthappy.Pager.Views.{view}
use jasonisnthappy.Btree.Utf8.{is_utf8}
use jasonisnthappy.Btree.Node.{
  LeafEntry, BTreeNode, new_leaf, new_internal, node_page, deserialize_node,
}
use jasonisnthappy.Btree.Written.{node_layout, node_page-fits}
use jasonisnthappy.Btree.RoundTrip.{IsNode, deserialize_node-node_page}
use jasonisnthappy.Btree.PagerStore.{pager_store, IsGood}
use jasonisnthappy.Btree.Tree.{BTree, find_entry, get_root_page, insert_into_leaf}
use jasonisnthappy.Btree.Operations.{search}
use jasonisnthappy.Btree.Search.{HoldsTree, Answers, search-Answers, NodeAt, Gives}
use jasonisnthappy.Btree.Counting.{HasLeaves, counted, count-Gives}
use jasonisnthappy.Btree.Iterator.{count}
use jasonisnthappy.Btree.Leaves.{Inserts, insert_into_leaf-Inserts}

abbrev entry_a : LeafEntry
entry_a = record { key = b'a' ∷ []; value = 10 }

abbrev entry_c : LeafEntry
entry_c = record { key = b'c' ∷ []; value = 30 }

-- two leaves, and the root over them
abbrev left : BTreeNode
left = record (new_leaf 1) { num_keys = 1; entries = entry_a ∷ []; next_leaf = 2 }

abbrev right : BTreeNode
right = record (new_leaf 2) { num_keys = 1; entries = entry_c ∷ [] }

abbrev root : BTreeNode
root = record (new_internal 3) { num_keys = 1; keys = (b'b' ∷ []) ∷ []; children = 1 ∷ 2 ∷ [] }

left-IsNode : IsNode left
unfolding is_utf8 to_le
left-IsNode = record {
  num_keys = omega arith;
  parent = omega arith;
  body = record {
    few = omega arith;
    entries =
        (record { key = record { short = omega arith; text = refl }; value = omega arith }, tt);
    next_leaf = omega arith;
    keys = refl;
    children = refl;
  };
  fits = omega arith;
}

right-IsNode : IsNode right
unfolding is_utf8 to_le
right-IsNode = record {
  num_keys = omega arith;
  parent = omega arith;
  body = record {
    few = omega arith;
    entries =
        (record { key = record { short = omega arith; text = refl }; value = omega arith }, tt);
    next_leaf = omega arith;
    keys = refl;
    children = refl;
  };
  fits = omega arith;
}

root-IsNode : IsNode root
unfolding is_utf8 to_le
root-IsNode = record {
  num_keys = omega arith;
  parent = omega arith;
  body = record {
    few = omega arith;
    children = (omega arith, (omega arith, tt));
    num_keys = refl;
    matching = refl;
    keys = (record { short = omega arith; text = refl }, tt);
    entries = refl;
    next_leaf = refl;
  };
  fits = omega arith;
}

deserialize_node-node_page_example :
    (page : List ℕ) × (node_page root ≡ some page)
    × (deserialize_node 3 page ≡ ok (record root { page_num = 3 }))
deserialize_node-node_page_example = deserialize_node-node_page root 3 root-IsNode

abbrev bytes_of : BTreeNode → List ℕ
bytes_of node = node_layout node ++ drop (length (node_layout node)) (replicate page_size 0)

length-bytes_of : (node : BTreeNode) → IsNode node → length (bytes_of node) ≡ page_size
length-bytes_of node v =
    let z : List ℕ = replicate page_size 0 in
    omega (
      arith,
      v.fits,
      length-append (node_layout node) (drop (length (node_layout node)) z),
      length-drop (length (node_layout node)) z,
      length-replicate {A = ℕ} page_size 0,
    )

read-bytes_of :
    (node : BTreeNode) (p : ℕ)
    → IsNode node
    → deserialize_node p (bytes_of node) ≡ ok (record node { page_num = p })
read-bytes_of node p v =
    let (page, written, read) = deserialize_node-node_page node p v in
    let both : some page ≡ some (bytes_of node) = sym written ∙ node_page-fits node v.fits in
    let same : page ≡ bytes_of node = ground (arith, both) in rw same at read

abbrev file1 : List ℕ
file1 = write_at [] (1 * page_size) (bytes_of left)

abbrev file2 : List ℕ
file2 = write_at file1 (2 * page_size) (bytes_of right)

abbrev file3 : List ℕ
file3 = write_at file2 (3 * page_size) (bytes_of root)

file_page1 : page_at file3 1 ≡ some (bytes_of left)
file_page1 =
    page_at-write_at_other file2 (bytes_of root) 3 (length-bytes_of root root-IsNode) 1 _
      (λ e. omega (arith, e))
      (page_at-write_at_other file1 (bytes_of right) 2 (length-bytes_of right right-IsNode) 1 _
        (λ e. omega (arith, e))
        (page_at-write_at [] (bytes_of left) 1 (length-bytes_of left left-IsNode)))

file_page2 : page_at file3 2 ≡ some (bytes_of right)
file_page2 =
    page_at-write_at_other file2 (bytes_of root) 3 (length-bytes_of root root-IsNode) 2 _
      (λ e. omega (arith, e))
      (page_at-write_at file1 (bytes_of right) 2 (length-bytes_of right right-IsNode))

file_page3 : page_at file3 3 ≡ some (bytes_of root)
file_page3 = page_at-write_at file2 (bytes_of root) 3 (length-bytes_of root root-IsNode)

abbrev pager : Pager
pager = record {
  file = file3;
  cache = new_cache 1;
  num_pages = 4;
  metadata_page = 0;
  next_tx_id = 1;
  free_list = [];
  read_only = false;
}

get_new : (q : ℕ) → get_read_only (new_cache 1) q ≡ some none
unfolding get_read_only Map.get
get_new q = refl

clean_new : (q : ℕ) → is_dirty (new_cache 1) q ≡ false
unfolding is_dirty Map.get
clean_new q = refl

short_file : length file3 < u64_mod
short_file =
    let a = length-bytes_of left left-IsNode in
    let b = length-bytes_of right right-IsNode in
    let c = length-bytes_of root root-IsNode in
    omega (
      arith,
      a,
      b,
      c,
      length-write_at [] (bytes_of left) (1 * page_size) (omega (arith, a)),
      length-write_at file1 (bytes_of right) (2 * page_size) (omega (arith, b)),
      length-write_at file2 (bytes_of root) (3 * page_size) (omega (arith, c)),
    )

pager-IsGood : IsGood pager
pager-IsGood = (
  record {
    valid = new_cache-IsValid 1;
    whole = λ q d e. cc (get_new q, e);
    clean = λ q d e k. cc (get_new q, e);
    dirty = λ q h. cc (clean_new q, h);
  },
  short_file,
)

abbrev tree : BTree Pager
tree = record {
  pager = pager;
  inner = record {
    root_page = 3;
    tx_active = false;
    cow_pages = [];
    new_pages = [];
    modified_root = 0;
  };
}

in_view : (q : ℕ) (d : List ℕ) → page_at file3 q ≡ some d → view pager q ≡ some d
in_view q d e = rw (get_new q) e

left_at : NodeAt pager_store tree 1 left
left_at = (bytes_of left, in_view 1 _ file_page1, read-bytes_of left 1 left-IsNode)

right_at : NodeAt pager_store tree 2 right
right_at = (bytes_of right, in_view 2 _ file_page2, read-bytes_of right 2 right-IsNode)

root_at : NodeAt pager_store tree 3 root
root_at = (bytes_of root, in_view 3 _ file_page3, read-bytes_of root 3 root-IsNode)

abbrev all_entries : List LeafEntry
all_entries = entry_a ∷ entry_c ∷ []

tree-HoldsTree : HoldsTree pager_store tree 1 all_entries
unfolding get_root_page text_cmp
tree-HoldsTree = record {
  root = root;
  at = root_at;
  tree = (
    refl,
    (
      entry_a ∷ [],
      entry_c ∷ [],
      refl,
      (refl, tt),
      (refl, tt),
      (left, left_at, (refl, refl)),
      (right, right_at, (refl, refl)),
    ),
  );
  good = pager-IsGood;
}

search-Answers_example :
    Answers pager_store tree
      (find_entry all_entries (b'c' ∷ []))
      (search pager_store 2 (b'c' ∷ []) tree)
search-Answers_example =
    search-Answers pager_store tree 1 2 (b'c' ∷ []) all_entries tree-HoldsTree (omega arith)

tree-HasLeaves : HasLeaves pager_store tree 1 left ((entry_c ∷ []) ∷ [])
unfolding get_root_page
tree-HasLeaves = record {
  root = root;
  at = root_at;
  first = (refl, (1, 2 ∷ [], left, refl, left_at, (refl, refl)));
  chain = ((λ e. omega (arith, e)), (right, right_at, refl, refl));
  good = pager-IsGood;
}

count-Gives_example :
    Gives pager_store tree (counted (left.entries ∷ (entry_c ∷ []) ∷ [])) (count pager_store 3 tree)
count-Gives_example =
    count-Gives pager_store tree 1 3 left ((entry_c ∷ []) ∷ []) tree-HasLeaves (omega arith)
      (omega arith)

insert_into_leaf-Inserts_example : Inserts entry_c left (insert_into_leaf left entry_c)
insert_into_leaf-Inserts_example = insert_into_leaf-Inserts entry_c left (tt, tt)
