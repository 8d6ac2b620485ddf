-- ===== src/Index/CompoundOrder.antt =====
-- src/core/index_key.rs: the order of compound keys.
use Prim.Native.Nat.{compare}
use jasonisnthappy.Base.{ℕ, ◌≡◌, refl, List, [], ◌∷◌, length, arith}
use jasonisnthappy.Base.Text.{text_cmp, text_cmp_swap, swap_ordering}
use jasonisnthappy.Json.{Numbers, Value}
use jasonisnthappy.Index.Keys.{compare_values}
use jasonisnthappy.Index.Order.{IsAsymmetric, then_cmp-swap, compare_values-swap}
use jasonisnthappy.Index.Compound.{CompoundIndexKey, compare_fields, compare_compound_index_keys}

compare_swap : (a b : ℕ) → compare b a ≡ swap_ordering (compare a b)
compare_swap a b = ground arith

module _ (n : Numbers) (asymmetric : IsAsymmetric n) where
  compare_fields-swap :
      (as_ bs : List (Value n.Number))
      → compare_fields n bs as_ ≡ swap_ordering (compare_fields n as_ bs)
  unfolding compare_fields
  compare_fields-swap [] [] = refl
  compare_fields-swap [] (b ∷ bs) = refl
  compare_fields-swap (a ∷ as_) [] = refl
  compare_fields-swap (a ∷ as_) (b ∷ bs) =
      then_cmp-swap (compare_values n a b) (compare_values n b a) (compare_fields n as_ bs)
        (compare_fields n bs as_) (compare_values-swap n asymmetric a b)
        (compare_fields-swap as_ bs)

  -- Two compound keys, also of different numbers of fields, compare in one order as they do in the
  -- other, turned around, if `<` of the floats holds in one direction at most.
  pub compare_compound_index_keys-swap :
      (a b : CompoundIndexKey n.Number)
      → compare_compound_index_keys n b a ≡ swap_ordering (compare_compound_index_keys n a b)
  unfolding compare_compound_index_keys
  compare_compound_index_keys-swap a b =
      then_cmp-swap (compare_fields n a.field_values b.field_values)
        (compare_fields n b.field_values a.field_values) _ _
        (compare_fields-swap a.field_values b.field_values)
        (then_cmp-swap (compare (length a.field_values) (length b.field_values))
          (compare (length b.field_values) (length a.field_values)) (text_cmp a.doc_id b.doc_id)
          (text_cmp b.doc_id a.doc_id)
          (compare_swap (length a.field_values) (length b.field_values))
          (text_cmp_swap a.doc_id b.doc_id))
