-- ===== src/Btree/Tree.antt =====
-- src/core/btree.rs: `BTree` over the pages of a store. A path lists its pages from the leaf up, the
-- other way round than the code's. `none` is a panic, or a recursion deeper than the fuel.
use jasonisnthappy.Base.{
  ℕ, zero, suc, Bool, true, false, Option, none, some, List, [], ◌∷◌, length, get_elem?, take, drop,
  leb, ◌==◌, if◌then◌else◌, u16_mod, ◌%◌,
}
use Prim.Native.Nat.{Ordering}
use jasonisnthappy.Base.Text.{text_cmp, text_eq}
use jasonisnthappy.Base.Map.{Map}
use jasonisnthappy.Base.Error.{Result, ok, err, corruption, not_found}
use jasonisnthappy.Btree.Node.{Key, LeafEntry, BTreeNode}

-- `BTREE_ORDER`
abbrev pub btree_order : ℕ
btree_order = 50

pub record BTreeInner : Type 0 where
  pub root_page : ℕ
  pub tx_active : Bool
  pub cow_pages : Map ℕ
  pub new_pages : Map Bool
  pub modified_root : ℕ

pub record BTree (S : Type 0) : Type 0 where
  pub pager : S
  pub inner : BTreeInner

-- a method: its result and the tree behind it
abbrev pub Method : Type 0 → Type 0 → Type 0
Method S A = BTree S → Option (Result A × BTree S)

module _ {S A B : Type 0} where
  -- the `?` operator
  abbrev pub continue : (A → Method S B) → Option (Result A × BTree S) → Option (Result B × BTree S)
  continue f none = none
  continue f (some (err e, t)) = some (err e, t)
  continue f (some (ok a, t)) = f a t

  infixl 5 ◌>>=◌
  abbrev pub ◌>>=◌ : Method S A → (A → Method S B) → Method S B
  (m >>= f) t = continue f (m t)

module _ {S : Type 0} where
  infixl 5 ◌>>◌
  abbrev pub ◌>>◌ : {A : Type 0} → Method S (Unit {0}) → Method S A → Method S A
  m >> k = m >>= λ _. k

  abbrev pub result : {A : Type 0} → Result A → Method S A
  result r t = some (r, t)

  -- a value that is there, or a panic
  abbrev pub expect : {A : Type 0} → Option A → Method S A
  expect none t = none
  expect (some a) t = some (ok a, t)

unfoldable pub get_root_page : BTreeInner → ℕ
get_root_page inner = if inner.modified_root == 0 then inner.root_page else inner.modified_root

abbrev pub is_less : Ordering → Bool
is_less Ordering.lt = true
is_less _ = false

abbrev pub key_lt : Key → Key → Bool
key_lt a b = is_less (text_cmp a b)

-- the index that the loop of `find_child` ends with
unfoldable pub child_index : List Key → Key → ℕ
child_index [] key = 0
child_index (k ∷ ks) key = let rest = child_index ks key in if key_lt key k then 0 else suc rest

abbrev pub child_or_error : ℕ → Option ℕ → Result ℕ
child_or_error page_num none = err (corruption "btree" page_num "child index out of range")
child_or_error page_num (some child) = ok child

unfoldable pub find_child : BTreeNode → Key → Result ℕ
unfolding child_index
find_child node key =
    if length node.children == 0
    then err (corruption "btree" node.page_num "internal node has no children")
    else child_or_error node.page_num (get_elem? node.children (child_index node.keys key))

-- the loop over the entries of a leaf
unfoldable pub find_entry : List LeafEntry → Key → Result ℕ
find_entry [] doc_id = err not_found
find_entry (e ∷ es) doc_id =
    let rest = find_entry es doc_id in if text_eq e.key doc_id then ok e.value else rest

-- a value for a key that the leaf has
unfoldable pub replace_value : LeafEntry → List LeafEntry → Option (List LeafEntry)
replace_value entry [] = none
replace_value entry (e ∷ es) = elim (text_eq e.key entry.key) [
  | true ↦ some (record e { value = entry.value } ∷ es)
  | false ↦ elim (replace_value entry es) [ none ↦ none | some rest ↦ some (e ∷ rest) ]
]

-- in front of the first greater key
unfoldable pub insert_entry : LeafEntry → List LeafEntry → List LeafEntry
insert_entry entry [] = entry ∷ []
insert_entry entry (e ∷ es) =
    let rest = insert_entry entry es in if key_lt entry.key e.key then entry ∷ e ∷ es else e ∷ rest

abbrev pub with_entries : BTreeNode → List LeafEntry → BTreeNode
with_entries leaf entries = record leaf { entries = entries; num_keys = length entries % u16_mod }

unfoldable pub insert_into_leaf : BTreeNode → LeafEntry → BTreeNode
insert_into_leaf leaf entry = elim (replace_value entry leaf.entries) [
  | some entries ↦ record leaf { entries = entries }
  | none ↦ with_entries leaf (insert_entry entry leaf.entries)
]

unfoldable pub remove_entry : Key → List LeafEntry → Option (List LeafEntry)
remove_entry doc_id [] = none
remove_entry doc_id (e ∷ es) = elim (text_eq e.key doc_id) [
  | true ↦ some es
  | false ↦ elim (remove_entry doc_id es) [ none ↦ none | some rest ↦ some (e ∷ rest) ]
]

-- `Vec::insert`, which panics behind the end
unfoldable pub insert_at : {A : Type 0} → ℕ → A → List A → Option (List A)
insert_at zero a xs = some (a ∷ xs)
insert_at (suc i) a [] = none
insert_at (suc i) a (x ∷ xs) = elim (insert_at i a xs) [ none ↦ none | some rest ↦ some (x ∷ rest) ]

-- `Vec::split_off`, which panics behind the end
unfoldable pub split_off : {A : Type 0} → ℕ → List A → Option (List A × List A)
split_off i xs = if leb i (length xs) then some (take i xs, drop i xs) else none

-- the first child `old` gets the number `new`
unfoldable pub replace_child : ℕ → ℕ → List ℕ → Option (List ℕ)
replace_child old new [] = none
replace_child old new (c ∷ cs) = elim (c == old) [
  | true ↦ some (new ∷ cs)
  | false ↦ elim (replace_child old new cs) [ none ↦ none | some rest ↦ some (c ∷ rest) ]
]

-- a child that was copied gets its new number, before the node is split
unfoldable pub relink : ℕ → ℕ → BTreeNode → BTreeNode
relink old new parent =
    if old == new then parent else elim (replace_child old new parent.children) [
      | none ↦ parent
      | some children ↦ record parent { children = children }
    ]
