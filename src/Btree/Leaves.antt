-- ===== src/Btree/Leaves.antt =====
-- src/core/btree.rs: an entry put into a leaf, and a leaf that is halved.
use jasonisnthappy.Base.{
  ◌≡◌, refl, sym, ap, ◌∙◌, inl, inr, Bool, true, false, none, some, List, [], ◌∷◌, All,
  if◌then◌else◌, Bool-cases, Option-cases,
}
use Prim.Native.Nat.{Ordering}
use jasonisnthappy.Base.Text.{
  text_eq, text_cmp, text_eq_sound, text_eq_refl, text_cmp_swap, text_cmp_eq, text_cmp_trans,
  swap_ordering,
}
use jasonisnthappy.Base.Error.{ok}
use jasonisnthappy.Lru.Valid.{All-map}
use jasonisnthappy.Btree.Node.{Key, LeafEntry, BTreeNode}
use jasonisnthappy.Btree.Tree.{
  is_less, key_lt, find_entry, replace_value, insert_entry, insert_into_leaf,
}

-- The keys rise strictly.
abbrev pub IsSorted : List LeafEntry → Type 0
IsSorted [] = Unit
IsSorted (e ∷ es) = All (λ f. key_lt e.key f.key ≡ true) es × IsSorted es

is_less-eq : (o : Ordering) → is_less o ≡ true → o ≡ Ordering.lt
is_less-eq Ordering.lt h = refl
is_less-eq Ordering.eq h = cc
is_less-eq Ordering.gt h = cc

key_lt_trans : (a b c : Key) → key_lt a b ≡ true → key_lt b c ≡ true → key_lt a c ≡ true
key_lt_trans a b c h k =
    ap is_less (text_cmp_trans a b c (is_less-eq (text_cmp a b) h) (is_less-eq (text_cmp b c) k))

-- of two orderings of different keys, one is less
other_way :
    (o : Ordering) → is_less o ≡ false → (o ≡ Ordering.eq → ⊥) → is_less (swap_ordering o) ≡ true
other_way Ordering.lt h ne = cc
other_way Ordering.eq h ne = absurd (ne refl)
other_way Ordering.gt h ne = refl

-- A key that is neither less nor equal is greater.
key_gt : (a b : Key) → key_lt a b ≡ false → text_eq b a ≡ false → key_lt b a ≡ true
key_gt a b h ne =
    ap is_less (text_cmp_swap a b)
    ∙ other_way (text_cmp a b) h (λ e.
      let same = text_cmp_eq a b e in cc (ap (λ (x : Key). text_eq x a) same, text_eq_refl a, ne))

-- What a walk finds behind an insertion.
abbrev Finds : List LeafEntry → List LeafEntry → LeafEntry → Type 0
Finds after before entry =
    (key : Key)
    → find_entry after key
      ≡ (if text_eq entry.key key then ok entry.value else find_entry before key)

different : (a b key : Key) → b ≡ key → text_eq b a ≡ false → text_eq a key ≡ false
different a b key at ne = elim (Bool-cases (text_eq a key)) [
  | inl same ↦
      let e : a ≡ b = text_eq_sound a key same ∙ sym at in
      cc (ap (λ (x : Key). text_eq b x) e, text_eq_refl b, ne)
  | inr other ↦ other
]

either-both :
    {A : Type 0} (b : Bool) (x y z : A)
    → (if b then x else z) ≡ (if b then x else if b then y else z)
either-both true x y z = refl
either-both false x y z = refl

module _ (entry : LeafEntry) where
  All-insert_entry :
      (P : LeafEntry → Type 0) (es : List LeafEntry)
      → P entry
      → All P es
      → All P (insert_entry entry es)
  unfolding insert_entry
  All-insert_entry P [] h k = (h, tt)
  All-insert_entry P (e ∷ es) h k = elim (Bool-cases (key_lt entry.key e.key)) [
    | inl lower ↦ rw lower (h, k)
    | inr upper ↦ rw upper (k.0, All-insert_entry P es h k.1)
  ]

  insert_entry-IsSorted :
      (es : List LeafEntry)
      → IsSorted es
      → All (λ e. text_eq e.key entry.key ≡ false) es
      → IsSorted (insert_entry entry es)
  unfolding insert_entry
  insert_entry-IsSorted [] v ne = (tt, tt)
  insert_entry-IsSorted (e ∷ es) v ne = elim (Bool-cases (key_lt entry.key e.key)) [
    | inl lower ↦
        rw lower
          ((lower, All-map _ _ es (λ f h. key_lt_trans entry.key e.key f.key lower h) v.0), v)
    | inr upper ↦ rw upper (
      All-insert_entry (λ f. key_lt e.key f.key ≡ true) es (key_gt entry.key e.key upper ne.0) v.0,
      insert_entry-IsSorted es v.1 ne.1,
    )
  ]

  insert_entry-Finds :
      (es : List LeafEntry)
      → All (λ e. text_eq e.key entry.key ≡ false) es
      → Finds (insert_entry entry es) es entry
  unfolding insert_entry find_entry
  insert_entry-Finds [] ne key = refl
  insert_entry-Finds (e ∷ es) ne key = elim (Bool-cases (key_lt entry.key e.key)) [
    | inl lower ↦ rw lower refl
    | inr upper ↦ elim (Bool-cases (text_eq e.key key)) [
      | inl here ↦
          let at = text_eq_sound e.key key here in
          let other : text_eq entry.key key ≡ false = different entry.key e.key key at ne.0 in
          rw (upper, other, here) refl
      | inr away ↦ rw (upper, away) (insert_entry-Finds es ne.1 key)
    ]
  ]

  replace_value-none :
      (es : List LeafEntry)
      → replace_value entry es ≡ none
      → All (λ e. text_eq e.key entry.key ≡ false) es
  unfolding replace_value
  replace_value-none [] h = tt
  replace_value-none (e ∷ es) h = elim (Bool-cases (text_eq e.key entry.key)) [
    | inl here ↦ cc (rw (here, replace_value) at h)
    | inr away ↦ elim (Option-cases (replace_value entry es)) [
      | inl absent ↦ (away, replace_value-none es absent)
      | inr (rest, there) ↦ cc (rw (away, there, replace_value) at h)
    ]
  ]

  Finds-replaced :
      (e : LeafEntry) (es : List LeafEntry)
      → e.key ≡ entry.key
      → Finds (record e { value = entry.value } ∷ es) (e ∷ es) entry
  unfolding find_entry
  Finds-replaced e es at key = rw at (either-both (text_eq entry.key key) _ _ _)

  Finds-behind :
      (e : LeafEntry) (es rest : List LeafEntry)
      → text_eq e.key entry.key ≡ false
      → Finds rest es entry
      → Finds (e ∷ rest) (e ∷ es) entry
  unfolding find_entry
  Finds-behind e es rest away f key = elim (Bool-cases (text_eq e.key key)) [
    | inl here ↦
        let at = text_eq_sound e.key key here in
        let other : text_eq entry.key key ≡ false = different entry.key e.key key at away in
        rw (here, other) refl
    | inr elsewhere ↦ rw elsewhere (f key)
  ]

  -- Replacing a value keeps the keys, and is found.
  record Replaces (es es' : List LeafEntry) : Type 0 where
    above : (a : Key) → All (λ f. key_lt a f.key ≡ true) es → All (λ f. key_lt a f.key ≡ true) es'
    sorted : IsSorted es → IsSorted es'
    finds : Finds es' es entry

  replace_value-Replaces :
      (es es' : List LeafEntry) → replace_value entry es ≡ some es' → Replaces es es'
  unfolding replace_value
  replace_value-Replaces [] es' h = cc
  replace_value-Replaces (e ∷ es) es' h = elim (Bool-cases (text_eq e.key entry.key)) [
    | inl here ↦
        let new : es' ≡ record e { value = entry.value } ∷ es =
          cc (rw (here, replace_value) at h) in
        let at = text_eq_sound e.key entry.key here in
        rw new (record { above = λ a k. k; sorted = λ v. v; finds = Finds-replaced e es at })
    | inr away ↦ elim (Option-cases (replace_value entry es)) [
      | inl absent ↦ cc (rw (away, absent, replace_value) at h)
      | inr (rest, there) ↦
          let new : es' ≡ e ∷ rest = cc (rw (away, there, replace_value) at h) in
          let r = replace_value-Replaces es rest there in
          rw new (record {
            above = λ a k. (k.0, r.above a k.1);
            sorted = λ v. (r.above e.key v.0, r.sorted v.1);
            finds = Finds-behind e es rest away r.finds;
          })
    ]
  ]

  -- What putting the entry into a leaf promises.
  pub record Inserts (leaf after : BTreeNode) : Type 0 where
    pub sorted : IsSorted after.entries
    pub finds :
        (key : Key)
        → find_entry after.entries key
          ≡ (if text_eq entry.key key then ok entry.value else find_entry leaf.entries key)
    pub next_leaf : after.next_leaf ≡ leaf.next_leaf
    pub page_num : after.page_num ≡ leaf.page_num

  -- An entry put into a leaf whose keys rise strictly: they still do, the key of the entry has the
  -- new value, every other key has what it had, and the leaf keeps its page and its neighbour.
  pub insert_into_leaf-Inserts :
      (leaf : BTreeNode) → IsSorted leaf.entries → Inserts leaf (insert_into_leaf leaf entry)
  unfolding insert_into_leaf
  insert_into_leaf-Inserts leaf v = elim (Option-cases (replace_value entry leaf.entries)) [
    | inl absent ↦
        let ne = replace_value-none leaf.entries absent in
        rw (absent, insert_into_leaf)
          (record {
            sorted = insert_entry-IsSorted leaf.entries v ne;
            finds = insert_entry-Finds leaf.entries ne;
            next_leaf = refl;
            page_num = refl;
          })
    | inr (entries, there) ↦
        let r = replace_value-Replaces leaf.entries entries there in
        rw (there, insert_into_leaf)
          (record { sorted = r.sorted v; finds = r.finds; next_leaf = refl; page_num = refl })
  ]
