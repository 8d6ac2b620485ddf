-- ===== src/Btree/Iterator.antt =====
-- src/core/btree.rs: `BTreeIterator`, and `count`.
use jasonisnthappy.Base.{
  ℕ, zero, suc, ◌+◌, Bool, true, false, Option, none, some, List, [], ◌∷◌, length, get_elem?, ltb,
  ◌==◌, if◌then◌else◌,
}
use jasonisnthappy.Base.Error.{Result, ok, err, other}
use jasonisnthappy.Btree.Node.{internal_node, leaf_node, Key, BTreeNode}
use jasonisnthappy.Btree.Store.{PageStore}
use jasonisnthappy.Btree.Tree.{BTree, Method, ◌>>=◌, result, get_root_page}
use jasonisnthappy.Btree.Operations.{read_node}

pub record BTreeIterator : Type 0 where
  pub current_leaf : BTreeNode
  pub index : ℕ
  pub started : Bool

abbrev pub first_child : List ℕ → Result ℕ
first_child [] = err (other "internal node has no children")
first_child (c ∷ cs) = ok c

-- `entry`
unfoldable pub entry : BTreeIterator → Key × ℕ
entry i = elim (get_elem? i.current_leaf.entries i.index) [
  | none ↦ ([], 0)
  | some e ↦ (e.key, e.value)
]

module _ {S : Type 0} (store : PageStore S) where
  -- the descent to the first leaf
  unfoldable pub first_leaf : ℕ → BTreeNode → Method S BTreeNode
  first_leaf zero node t = none
  first_leaf (suc fuel) node t = elim node.node_type [
    | leaf_node ↦ some (ok node, t)
    | internal_node ↦
        (result (first_child node.children) >>= λ child.
        read_node store child >>= λ n. first_leaf fuel n)
          t
  ]

  unfoldable pub iterator : ℕ → Method S BTreeIterator
  unfolding first_leaf
  iterator fuel t =
      (read_node store (get_root_page t.inner) >>= λ node. first_leaf fuel node >>= λ leaf.
      result (ok (record { current_leaf = leaf; index = 0; started = false })))
        t

  -- Whether there is an entry, the iterator, and the tree.
  abbrev pub Step : Type 0
  Step = Bool × BTreeIterator × BTree S

  -- behind the last entry of a leaf; an error of `read_node` ends the iteration
  abbrev entered : BTreeIterator → Option (Result BTreeNode × BTree S) → Option Step
  entered i none = none
  entered i (some (err e, t)) = some (false, i, t)
  entered i (some (ok leaf, t)) =
      some (ltb 0 (length leaf.entries), record i { current_leaf = leaf; index = 0 }, t)

  -- an iterator whose index was moved on
  unfoldable pub moved : BTreeIterator → BTree S → Option Step
  moved i t =
      if ltb i.index (length i.current_leaf.entries)
      then some (true, i, t)
      else if i.current_leaf.next_leaf == 0
      then some (false, i, t)
      else entered i (read_node store i.current_leaf.next_leaf t)

  -- `next`
  unfoldable pub advance : BTreeIterator → BTree S → Option Step
  unfolding moved
  advance i t =
      if i.started
      then moved (record i { index = i.index + 1 }) t
      else some (ltb 0 (length i.current_leaf.entries), record i { started = true }, t)

  -- the loop of `count`
  unfoldable pub count_from : ℕ → ℕ → BTreeIterator → BTree S → Option (Result ℕ × BTree S)
  unfolding advance
  count_from zero n i t = none
  count_from (suc fuel) n i t = elim (advance i t) [
    | none ↦ none
    | some (found, i', t') ↦ elim found [
      | true ↦ count_from fuel (n + 1) i' t'
      | false ↦ some (ok n, t')
    ]
  ]

  unfoldable pub count : ℕ → Method S ℕ
  unfolding iterator count_from
  count fuel t = (iterator fuel >>= λ i. count_from fuel 0 i) t
