-- ===== src/Btree/Counting.antt =====
-- src/core/btree.rs: what `count` counts.
use jasonisnthappy.Base.{
  ℕ, zero, suc, ◌+◌, ◌-◌, ◌<◌, ◌≡◌, ◌≢◌, refl, ap, ◌∙◌, inl, inr, true, false, Option, some, List,
  [], ◌∷◌, length, ltb, ◌==◌, if◌then◌else◌, arith, Bool-cases, ltb→lt, ltb→le,
}
use jasonisnthappy.Base.Error.{Result, ok}
use jasonisnthappy.Btree.Node.{internal_node, leaf_node, LeafEntry, BTreeNode}
use jasonisnthappy.Btree.Store.{PageStore}
use jasonisnthappy.Btree.Tree.{BTree, get_root_page}
use jasonisnthappy.Btree.Iterator.{
  BTreeIterator, first_leaf, iterator, moved, advance, count_from, count,
}
use jasonisnthappy.Btree.Search.{NodeAt, SamePages, Gives, read_node-Gives}

-- The entries of the leaves, up to the first leaf that has none.
abbrev pub counted : List (List LeafEntry) → ℕ
counted [] = 0
counted (es ∷ rest) = if length es == 0 then 0 else length es + counted rest

-- The leaves behind a leaf, as `next_leaf` links them.
abbrev pub Chain : (ℕ → BTreeNode → Type 0) → BTreeNode → List (List LeafEntry) → Type 0
Chain At leaf [] = leaf.next_leaf ≡ 0
Chain At leaf (es ∷ rest) =
    (leaf.next_leaf ≢ 0)
    × ((right : BTreeNode) × At leaf.next_leaf right × (right.entries ≡ es) × Chain At right rest)

-- The descent by first children.
abbrev pub FirstLeaf : (ℕ → BTreeNode → Type 0) → ℕ → BTreeNode → BTreeNode → Type 0
FirstLeaf At zero node leaf = (node.node_type ≡ leaf_node) × (node ≡ leaf)
FirstLeaf At (suc height) node leaf =
    (node.node_type ≡ internal_node)
    × ((c : ℕ) × (cs : List ℕ) × (child : BTreeNode) × (node.children ≡ c ∷ cs)
        × At c child
        × FirstLeaf At height child leaf)

Gives-eq :
    {S : Type 0} (store : PageStore S) (t : BTree S) {a b : ℕ} (r : Option (Result ℕ × BTree S))
    → a ≡ b
    → Gives store t a r
    → Gives store t b r
Gives-eq store t r e (t', ran, same) = (t', ran ∙ ap (λ (n : ℕ). some (ok n, t')) e, same)

module _ {S : Type 0} (store : PageStore S) (t : BTree S) where
  -- an iterator that stands on an entry
  abbrev on_entry : BTreeNode → ℕ → BTreeIterator
  on_entry leaf j = record { current_leaf = leaf; index = j; started = true }

  count_from-counted :
      (fuel n j : ℕ) (leaf : BTreeNode) (rest : List (List LeafEntry)) (t' : BTree S)
      → SamePages store t t'
      → j < length leaf.entries
      → Chain (NodeAt store t) leaf rest
      → length leaf.entries - suc j + counted rest < fuel
      → Gives store t
          (n + (length leaf.entries - suc j + counted rest))
          (count_from store fuel n (on_entry leaf j) t')
  unfolding count_from advance moved
  count_from-counted zero n j leaf rest t' same on c h = elim h [ ]
  count_from-counted (suc fuel) n j leaf [] t' same on c h =
      elim (Bool-cases (ltb (j + 1) (length leaf.entries))) [
        | inl further ↦
            rw (further, count_from)
              (Gives-eq store t _ (omega (arith, ltb→lt (j + 1) (length leaf.entries) further)) (
                count_from-counted fuel (n + 1) (j + 1) leaf [] t' same (ground arith) c
                  (ground arith)))
        | inr ended ↦
            let last : leaf.next_leaf == 0 ≡ true = ground (arith, c) in
            rw (ended, last, count_from)
              (Gives-eq store t _ (omega (arith, ltb→le (j + 1) (length leaf.entries) ended))
                (t', refl, same))
      ]
  count_from-counted (suc fuel) n j leaf (es ∷ rest) t' same on (more_leaves, (right, there, e, c))
        h =
      elim (Bool-cases (ltb (j + 1) (length leaf.entries))) [
        | inl further ↦
            rw (further, count_from)
              (Gives-eq store t _ (omega (arith, ltb→lt (j + 1) (length leaf.entries) further)) (
                count_from-counted fuel (n + 1) (j + 1) leaf (es ∷ rest) t' same (ground arith)
                  (more_leaves, (right, there, e, c))
                  (omega (arith, h, ltb→lt (j + 1) (length leaf.entries) further))))
        | inr ended ↦
            let linked : leaf.next_leaf == 0 ≡ false = ground (arith, more_leaves) in
            let (t₁, ran, same₁) = read_node-Gives store t t' leaf.next_leaf right same there in
            let size = ap (λ (xs : List LeafEntry). length xs) e in
            let done = ltb→le (j + 1) (length leaf.entries) ended in
            elim (Bool-cases (length es == 0)) [
              | inl empty ↦
                  let no_entry : ltb 0 (length right.entries) ≡ false =
                    ground (arith, size, empty) in
                  rw (ended, linked, ran, no_entry, empty, count_from)
                    (Gives-eq store t _ (omega (arith, done)) (t₁, refl, same₁))
              | inr filled ↦
                  let has_entry : ltb 0 (length right.entries) ≡ true =
                    ground (arith, size, filled) in
                  let positive : 0 < length es = ground (arith, filled) in
                  let left : length leaf.entries - suc j + (length es + counted rest) < suc fuel =
                    rw filled at h in
                  rw (ended, linked, ran, has_entry, filled, count_from)
                    (Gives-eq store t _ (omega (arith, done, size, positive)) (
                      count_from-counted fuel (n + 1) 0 right rest t₁ same₁
                        (omega (arith, size, positive)) c
                        (omega (arith, left, size, positive, done))))
            ]
      ]

  -- the first step, which stays where it is
  start-counted :
      (fuel : ℕ) (leaf : BTreeNode) (rest : List (List LeafEntry)) (t' : BTree S)
      → SamePages store t t'
      → Chain (NodeAt store t) leaf rest
      → counted (leaf.entries ∷ rest) < fuel
      → Gives store t
          (counted (leaf.entries ∷ rest))
          (count_from store fuel 0 (record { current_leaf = leaf; index = 0; started = false }) t')
  unfolding count_from advance
  start-counted zero leaf rest t' same c h = elim h [ ]
  start-counted (suc fuel) leaf rest t' same c h = elim (Bool-cases (length leaf.entries == 0)) [
    | inl empty ↦
        let no_entry : ltb 0 (length leaf.entries) ≡ false = ground (arith, empty) in
        rw (no_entry, empty, count_from) (t', refl, same)
    | inr filled ↦
        let has_entry : ltb 0 (length leaf.entries) ≡ true = ground (arith, filled) in
        let positive : 0 < length leaf.entries = ground (arith, filled) in
        let left : length leaf.entries + counted rest < suc fuel = rw filled at h in
        rw (has_entry, filled, count_from)
          (Gives-eq store t _ (omega (arith, positive)) (
            count_from-counted fuel 1 0 leaf rest t' same positive c
              (omega (arith, left, positive))))
  ]

  first_leaf-Gives :
      (height fuel : ℕ) (node leaf : BTreeNode) (t' : BTree S)
      → height < fuel
      → FirstLeaf (NodeAt store t) height node leaf
      → SamePages store t t'
      → Gives store t leaf (first_leaf store fuel node t')
  unfolding first_leaf
  first_leaf-Gives height zero node leaf t' h v same = elim h [ ]
  first_leaf-Gives zero (suc fuel) node leaf t' h (kind, e) same =
      rw (kind, first_leaf) (t', ap (λ (n : BTreeNode). some (ok n, t')) e, same)
  first_leaf-Gives (suc height) (suc fuel) node leaf t' h (kind, (p, cs, child, cut, there, below))
        same =
      let (t₁, ran, same₁) = read_node-Gives store t t' p child same there in
      rw (kind, cut, ran, first_leaf)
        (first_leaf-Gives height fuel child leaf t₁ (omega arith) below same₁)

  -- The leaves of a tree of a given height, from the first on.
  pub record HasLeaves (height : ℕ) (leaf : BTreeNode) (rest : List (List LeafEntry)) : Type 0 where
    pub root : BTreeNode
    pub at : NodeAt store t (get_root_page t.inner) root
    pub first : FirstLeaf (NodeAt store t) height root leaf
    pub chain : Chain (NodeAt store t) leaf rest
    pub good : store.IsGood t.pager

  -- On pages whose leaves are linked one behind the other, with a fuel above the height of the tree
  -- and above the number of entries, `count` ends without a panic. It returns the number of entries
  -- of the leaves up to the first leaf that is empty, and changes no page.
  pub count-Gives :
      (height fuel : ℕ) (leaf : BTreeNode) (rest : List (List LeafEntry))
      → HasLeaves height leaf rest
      → height < fuel
      → counted (leaf.entries ∷ rest) < fuel
      → Gives store t (counted (leaf.entries ∷ rest)) (count store fuel t)
  unfolding count iterator
  count-Gives height fuel leaf rest v h room =
      let same : SamePages store t t = record { good = v.good; inner = refl; pages = λ p. refl } in
      let (t₁, ran, same₁) = read_node-Gives store t t (get_root_page t.inner) v.root same v.at in
      let (t₂, found, same₂) = first_leaf-Gives height fuel v.root leaf t₁ h v.first same₁ in
      rw (ran, found) (start-counted fuel leaf rest t₂ same₂ v.chain room)
