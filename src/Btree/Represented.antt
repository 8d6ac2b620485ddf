-- ===== src/Btree/Represented.antt =====
-- src/core/btree.rs: the pages that make a tree of entries.
use jasonisnthappy.Base.{
  ℕ, zero, suc, ◌≡◌, refl, sym, ap, ◌∙◌, inl, inr, Bool, true, false, some, List, [], ◌∷◌, ◌++◌,
  All, Bool-cases, not, get_elem?,
}
use jasonisnthappy.Base.Text.{text_eq, text_eq_sound}
use jasonisnthappy.Base.Error.{err, not_found}
use jasonisnthappy.Btree.Node.{internal_node, leaf_node, Key, LeafEntry, BTreeNode}
use jasonisnthappy.Btree.Tree.{key_lt, child_index, find_entry}

-- Children that hold the entries between them, `R c es` for child `c` with entries `es`: the keys of
-- the node keep the entries of neighbours apart.
abbrev pub Children : (ℕ → List LeafEntry → Type 0) → List Key → List ℕ → List LeafEntry → Type 0
Children R [] (c ∷ []) es = R c es
Children R (k ∷ ks) (c ∷ cs) es =
    (front : List LeafEntry) × (behind : List LeafEntry) × (es ≡ front ++ behind)
    × All (λ e. key_lt e.key k ≡ true) front
    × All (λ e. key_lt e.key k ≡ false) behind
    × R c front
    × Children R ks cs behind
Children R _ _ es = ⊥

-- A node of a given height over its leaves, where `At p node` says which node a page holds.
abbrev pub Represents : (ℕ → BTreeNode → Type 0) → ℕ → BTreeNode → List LeafEntry → Type 0
Represents At zero node es = (node.node_type ≡ leaf_node) × (node.entries ≡ es)
Represents At (suc height) node es =
    (node.node_type ≡ internal_node)
    × Children (λ c xs. (child : BTreeNode) × At c child × Represents At height child xs) node.keys
        node.children es

-- no entry has the key
abbrev Lacks : Key → List LeafEntry → Type 0
Lacks key es = All (λ e. text_eq e.key key ≡ false) es

find_entry-Lacks :
    (key : Key) (es : List LeafEntry) → Lacks key es → find_entry es key ≡ err not_found
unfolding find_entry
find_entry-Lacks key [] h = refl
find_entry-Lacks key (e ∷ es) h = rw h.0 (find_entry-Lacks key es h.1)

find_entry-behind :
    (key : Key) (xs ys : List LeafEntry)
    → Lacks key xs
    → find_entry (xs ++ ys) key ≡ find_entry ys key
unfolding find_entry
find_entry-behind key [] ys h = refl
find_entry-behind key (x ∷ xs) ys h = rw h.0 (find_entry-behind key xs ys h.1)

find_entry-front :
    (key : Key) (xs ys : List LeafEntry)
    → Lacks key ys
    → find_entry (xs ++ ys) key ≡ find_entry xs key
unfolding find_entry
find_entry-front key [] ys h = find_entry-Lacks key ys h
find_entry-front key (x ∷ xs) ys h = elim (Bool-cases (text_eq x.key key)) [
  | inl here ↦ rw here refl
  | inr other ↦ rw other (find_entry-front key xs ys h)
]

not_same : (b : Bool) → b ≡ not b → ⊥
not_same true e = cc
not_same false e = cc

-- Keys on different sides of a third differ.
apart :
    (a b k : Key) (side : Bool) → key_lt a k ≡ side → key_lt b k ≡ not side → text_eq a b ≡ false
apart a b k side h g = elim (Bool-cases (text_eq a b)) [
  | inl same ↦
      let e = text_eq_sound a b same in
      absurd (not_same side (sym h ∙ (ap (λ (x : Key). key_lt x k) e ∙ g)))
  | inr other ↦ other
]

Lacks-apart :
    (key k : Key) (side : Bool) (es : List LeafEntry)
    → All (λ e. key_lt e.key k ≡ side) es
    → key_lt key k ≡ not side
    → Lacks key es
Lacks-apart key k side [] h g = tt
Lacks-apart key k side (e ∷ es) h g =
    (apart e.key key k side h.0 g, Lacks-apart key k side es h.1 g)

-- The child that is chosen has the entry, if any child has it.
pub record Chosen (R : ℕ → List LeafEntry → Type 0) (children : List ℕ) (key : Key) (idx : ℕ)
    (es : List LeafEntry) : Type 0 where
  pub child : ℕ
  pub at : get_elem? children idx ≡ some child
  pub entries : List LeafEntry
  pub holds : R child entries
  pub same : find_entry es key ≡ find_entry entries key

pub child_index-Chosen :
    (R : ℕ → List LeafEntry → Type 0) (ks : List Key) (cs : List ℕ) (es : List LeafEntry)
    (key : Key)
    → Children R ks cs es
    → Chosen R cs key (child_index ks key) es
unfolding child_index
child_index-Chosen R [] [] es key h = absurd h
child_index-Chosen R [] (c ∷ d ∷ cs) es key h = absurd h
child_index-Chosen R [] (c ∷ []) es key h = record {
  child = c;
  at = refl;
  entries = es;
  holds = h;
  same = refl;
}
child_index-Chosen R (k ∷ ks) [] es key h = absurd h
child_index-Chosen R (k ∷ ks) (c ∷ cs) es key (front, behind, e, below, above, r, rest) =
    elim (Bool-cases (key_lt key k)) [
      | inl lower ↦ rw lower (record {
        child = c;
        at = refl;
        entries = front;
        holds = r;
        same =
            ap (λ (xs : List LeafEntry). find_entry xs key) e
            ∙ find_entry-front key front behind (Lacks-apart key k false behind above lower);
      })
      | inr upper ↦
          let h = child_index-Chosen R ks cs behind key rest in
          rw upper (record {
            child = h.child;
            at = h.at;
            entries = h.entries;
            holds = h.holds;
            same =
                ap (λ (xs : List LeafEntry). find_entry xs key) e
                ∙ (find_entry-behind key front behind (Lacks-apart key k true front below upper)
                    ∙ h.same);
          })
    ]
