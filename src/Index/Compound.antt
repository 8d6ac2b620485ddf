-- ===== src/Index/Compound.antt =====
-- src/core/index_key.rs: the keys of indexes over several fields.
use Prim.Native.Nat.{Ordering, compare}
use jasonisnthappy.Base.{
  ℕ, zero, suc, ◌+◌, Option, none, some, List, [], ◌∷◌, length, drop, ltb, if◌then◌else◌,
}
use jasonisnthappy.Base.Text.{Text, text_cmp, split, join}
use jasonisnthappy.Json.{Numbers, Value, Members}
use jasonisnthappy.Index.Keys.{Texts, then_cmp, compare_values, extract_field_value}

pub record CompoundIndexKey (N : Type 0) : Type 0 where
  pub field_values : List (Value N)
  pub doc_id : Text

module _ {N : Type 0} (t : Texts N) where
  -- the texts of the values, and the document id behind them
  abbrev pub parts_of : List (Value N) → Text → List Text
  parts_of [] doc_id = doc_id ∷ []
  parts_of (v ∷ vs) doc_id = t.to_string v ∷ parts_of vs doc_id

  unfoldable pub serialize_compound_index_key : CompoundIndexKey N → Text
  serialize_compound_index_key key = join b'|' (parts_of key.field_values key.doc_id)

  abbrev put_first : Option (Value N) → Option (List (Value N)) → Option (List (Value N))
  put_first none rest = none
  put_first (some v) none = none
  put_first (some v) (some vs) = some (v ∷ vs)

  -- the loop over the fields
  unfoldable pub read_values : ℕ → List Text → Option (List (Value N))
  read_values zero parts = some []
  read_values (suc k) [] = none
  read_values (suc k) (part ∷ parts) =
      let rest = read_values k parts in put_first (t.from_str part) rest

  -- an error of the source is `none`
  unfoldable pub from_parts : List Text → ℕ → Option (CompoundIndexKey N)
  from_parts parts num_fields =
      if ltb (length parts) (num_fields + 1) then none else elim (read_values num_fields parts) [
        | none ↦ none
        | some field_values ↦
            some
              (record { field_values = field_values; doc_id = join b'|' (drop num_fields parts) })
      ]

  unfoldable pub deserialize_compound_index_key : Text → ℕ → Option (CompoundIndexKey N)
  deserialize_compound_index_key s num_fields = from_parts (split b'|' s) num_fields

module _ (n : Numbers) where
  -- the values that stand side by side
  unfoldable pub compare_fields : List (Value n.Number) → List (Value n.Number) → Ordering
  compare_fields (a ∷ as_) (b ∷ bs) = then_cmp (compare_values n a b) (compare_fields as_ bs)
  compare_fields _ _ = Ordering.eq

  unfoldable pub compare_compound_index_keys :
      CompoundIndexKey n.Number → CompoundIndexKey n.Number → Ordering
  compare_compound_index_keys a b = then_cmp (compare_fields a.field_values b.field_values) (
      then_cmp (compare (length a.field_values) (length b.field_values))
        (text_cmp a.doc_id b.doc_id))

  unfoldable pub extract_field_values : Members n.Number → List Text → List (Value n.Number)
  extract_field_values doc [] = []
  extract_field_values doc (field ∷ fields) =
      extract_field_value n doc field ∷ extract_field_values doc fields
