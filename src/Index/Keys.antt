-- ===== src/Index/Keys.antt =====
-- src/core/index_key.rs: index keys, their order, and the field that an index reads. An object lists
-- its members in the order of their keys, so sorting the keys changes nothing.
use Prim.Native.Nat.{Ordering}
use jasonisnthappy.Base.{
  ℕ, Bool, true, false, Option, none, some, List, [], ◌∷◌, ◌++◌, ◌==◌, if◌then◌else◌,
}
use jasonisnthappy.Base.Text.{Text, text_cmp, split}
use jasonisnthappy.Json.{Numbers, Value, Items, Members, member_of}
use jasonisnthappy.Query.Eval.{to_f64}

-- the first difference decides
abbrev pub then_cmp : Ordering → Ordering → Ordering
then_cmp Ordering.lt rest = Ordering.lt
then_cmp Ordering.eq rest = rest
then_cmp Ordering.gt rest = Ordering.gt

abbrev pub bool_cmp : Bool → Bool → Ordering
bool_cmp false true = Ordering.lt
bool_cmp true false = Ordering.gt
bool_cmp _ _ = Ordering.eq

pub record IndexKey (N : Type 0) : Type 0 where
  pub field_value : Value N
  pub doc_id : Text

module _ (n : Numbers) where
  unfoldable pub number_cmp : n.Number → n.Number → Ordering
  number_cmp a b =
      if n.float_lt (to_f64 n a) (to_f64 n b)
      then Ordering.lt
      else if n.float_lt (to_f64 n b) (to_f64 n a)
      then Ordering.gt
      else Ordering.eq

  unfoldable mutual
    pub compare_values : Value n.Number → Value n.Number → Ordering
    compare_values Value.null Value.null = Ordering.eq
    compare_values Value.null _ = Ordering.lt
    compare_values _ Value.null = Ordering.gt
    compare_values (Value.bool a) (Value.bool b) = bool_cmp a b
    compare_values (Value.bool a) _ = Ordering.lt
    compare_values _ (Value.bool b) = Ordering.gt
    compare_values (Value.number a) (Value.number b) = number_cmp a b
    compare_values (Value.number a) _ = Ordering.lt
    compare_values _ (Value.number b) = Ordering.gt
    compare_values (Value.string a) (Value.string b) = text_cmp a b
    compare_values (Value.string a) _ = Ordering.lt
    compare_values _ (Value.string b) = Ordering.gt
    compare_values (Value.array a) (Value.array b) = compare_items a b
    compare_values (Value.array a) _ = Ordering.lt
    compare_values _ (Value.array b) = Ordering.gt
    compare_values (Value.object a) (Value.object b) = compare_members a b

    pub compare_items : Items n.Number → Items n.Number → Ordering
    compare_items Items.end Items.end = Ordering.eq
    compare_items Items.end _ = Ordering.lt
    compare_items _ Items.end = Ordering.gt
    compare_items (Items.item a as_) (Items.item b bs) =
        then_cmp (compare_values a b) (compare_items as_ bs)

    pub compare_members : Members n.Number → Members n.Number → Ordering
    compare_members Members.last Members.last = Ordering.eq
    compare_members Members.last _ = Ordering.lt
    compare_members _ Members.last = Ordering.gt
    compare_members (Members.member k a as_) (Members.member j b bs) =
        then_cmp (text_cmp k j) (then_cmp (compare_values a b) (compare_members as_ bs))

  unfoldable pub compare_index_keys : IndexKey n.Number → IndexKey n.Number → Ordering
  compare_index_keys a b =
      then_cmp (compare_values a.field_value b.field_value) (text_cmp a.doc_id b.doc_id)

  -- the loop of `extract_field_value`
  unfoldable pub extract_from : Value n.Number → List Text → Value n.Number
  extract_from current [] = current
  extract_from (Value.object obj) (part ∷ parts) = elim (member_of n part obj) [
    | none ↦ Value.null
    | some value ↦ extract_from value parts
  ]
  extract_from _ (part ∷ parts) = Value.null

  unfoldable pub extract_field_value : Members n.Number → Text → Value n.Number
  extract_field_value doc field = extract_from (Value.object doc) (split b'.' field)

-- `s.find(c)` and the two slices beside it
abbrev pub found : ℕ → Option (Text × Text) → Option (Text × Text)
found x none = none
found x (some (before, behind)) = some (x ∷ before, behind)

unfoldable pub split_once : ℕ → Text → Option (Text × Text)
split_once c [] = none
split_once c (x ∷ xs) = let rest = split_once c xs in if x == c then some ([], xs) else found x rest

-- The text of a value, and back, which are serde_json's.
pub record Texts (N : Type 0) : Type 0 where
  pub to_string : Value N → Text
  pub from_str : Text → Option (Value N)

module _ {N : Type 0} (t : Texts N) where
  unfoldable pub serialize_index_key : IndexKey N → Text
  serialize_index_key key = t.to_string key.field_value ++ (b'|' ∷ key.doc_id)

  -- an error of the source is `none`
  unfoldable pub deserialize_index_key : Text → Option (IndexKey N)
  deserialize_index_key s = elim (split_once b'|' s) [
    | none ↦ none
    | some (value_str, doc_id) ↦ elim (t.from_str value_str) [
      | none ↦ none
      | some value ↦ some (record { field_value = value; doc_id = doc_id })
    ]
  ]
