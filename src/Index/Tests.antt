-- ===== src/Index/Tests.antt =====
-- src/core/index_key.rs: the theorems at concrete keys.
use jasonisnthappy.Base.{
  List, ℕ, ◌≡◌, refl, Option, none, some, [], ◌∷◌, ◌++◌, arith, ltb, ◌==◌, if◌then◌else◌,
}
use jasonisnthappy.Base.Text.{Text, swap_ordering, codes, text_eq}
use jasonisnthappy.Json.{Numbers, Value, Members, member, last}
use jasonisnthappy.Query.Eval.{get_field}
use jasonisnthappy.Index.Keys.{
  IndexKey, Texts, compare_index_keys, extract_field_value, serialize_index_key,
  deserialize_index_key,
}
use jasonisnthappy.Index.Order.{IsAsymmetric, compare_index_keys-swap}
use jasonisnthappy.Index.Extraction.{extract_field_value-get_field}
use jasonisnthappy.Index.RoundTrip.{
  deserialize_index_key-serialize_index_key, serialize_index_key-bar,
}
use jasonisnthappy.Index.Compound.{
  CompoundIndexKey, serialize_compound_index_key, deserialize_compound_index_key,
  compare_compound_index_keys,
}
use jasonisnthappy.Index.CompoundRoundTrip.{IsReadable, deserialize-serialize_compound_index_key}
use jasonisnthappy.Index.CompoundOrder.{compare_compound_index_keys-swap}

-- whole numbers, each its own float
abbrev whole : Numbers
whole = record {
  Number = ℕ;
  Float = ℕ;
  number_eq = λ a b. a == b;
  as_f64 = λ a. some a;
  from_f64 = λ a. some a;
  parse_f64 = λ s. none;
  zero_f64 = 0;
  float_eq = λ a b. a == b;
  float_lt = λ a b. ltb a b;
}

whole_asymmetric : IsAsymmetric whole
whole_asymmetric = λ f g h. ground arith

abbrev key : Value ℕ → IndexKey ℕ
key value = record { field_value = value; doc_id = codes "id|7" }

compare_index_keys-swap_example :
    compare_index_keys whole (key (Value.number 3)) (key (Value.number 5))
    ≡ swap_ordering (compare_index_keys whole (key (Value.number 5)) (key (Value.number 3)))
compare_index_keys-swap_example =
    compare_index_keys-swap whole whole_asymmetric (key (Value.number 5)) (key (Value.number 3))

abbrev document : Members ℕ
document = member (codes "a") (Value.object (member (codes "b") (Value.number 3) last)) last

extract_field_value-get_field_example :
    extract_field_value whole document (codes "a.b") ≡ get_field whole document (codes "a.b")
extract_field_value-get_field_example = extract_field_value-get_field whole document (codes "a.b")

-- the texts of `null` and of the string `x|y`
written : Value ℕ → Text
written (Value.string s) = 34 ∷ (s ++ (34 ∷ []))
written _ = codes "null"

read : Text → Option (Value ℕ)
unfolding text_eq
read s =
    if text_eq s (codes "null")
    then some Value.null
    else if text_eq s (written (Value.string (codes "x|y")))
    then some (Value.string (codes "x|y"))
    else none

abbrev texts : Texts ℕ
texts = record { to_string = written; from_str = read }

deserialize_index_key-serialize_index_key_example :
    deserialize_index_key texts (serialize_index_key texts (key Value.null)) ≡ some (key Value.null)
unfolding written read text_eq
deserialize_index_key-serialize_index_key_example =
    deserialize_index_key-serialize_index_key texts (key Value.null) refl
      ((λ e. ground arith), ((λ e. ground arith), ((λ e. ground arith), ((λ e. ground arith), tt))))

serialize_index_key-bar_example :
    deserialize_index_key texts (serialize_index_key texts (key (Value.string (codes "x|y"))))
    ≡ none
unfolding written read text_eq
serialize_index_key-bar_example =
    serialize_index_key-bar texts (key (Value.string (codes "x|y"))) (34 ∷ codes "x")
      (121 ∷ 34 ∷ []) refl ((λ e. ground arith), ((λ e. ground arith), tt)) refl

null-IsReadable : IsReadable texts Value.null
unfolding written read text_eq
null-IsReadable = (
  ((λ e. ground arith), ((λ e. ground arith), ((λ e. ground arith), ((λ e. ground arith), tt)))),
  refl,
)

abbrev compound : List (Value ℕ) → CompoundIndexKey ℕ
compound values = record { field_values = values; doc_id = codes "id|7" }

deserialize-serialize_compound_index_key_example :
    deserialize_compound_index_key texts
      (serialize_compound_index_key texts (compound (Value.null ∷ Value.null ∷ [])))
      2
    ≡ some (compound (Value.null ∷ Value.null ∷ []))
unfolding written read text_eq
deserialize-serialize_compound_index_key_example =
    deserialize-serialize_compound_index_key texts (compound (Value.null ∷ Value.null ∷ []))
      (null-IsReadable, (null-IsReadable, tt))

compare_compound_index_keys-swap_example :
    compare_compound_index_keys whole (compound []) (compound (Value.number 5 ∷ []))
    ≡ swap_ordering
        (compare_compound_index_keys whole (compound (Value.number 5 ∷ [])) (compound []))
compare_compound_index_keys-swap_example =
    compare_compound_index_keys-swap whole whole_asymmetric (compound (Value.number 5 ∷ []))
      (compound [])
