-- ===== src/Index/Order.antt =====
-- src/core/index_key.rs: the order of index keys.
use Prim.Native.Nat.{Ordering}
use jasonisnthappy.Base.{◌≡◌, refl, inl, inr, Bool, true, false, Bool-cases}
use jasonisnthappy.Base.Text.{text_cmp, text_cmp_swap, swap_ordering}
use jasonisnthappy.Json.{Numbers, Value, Items, Members}
use jasonisnthappy.Query.Eval.{to_f64}
use jasonisnthappy.Index.Keys.{
  IndexKey, then_cmp, bool_cmp, number_cmp, compare_values, compare_items, compare_members,
  compare_index_keys,
}

-- `<` of the floats holds in one direction at most.
abbrev pub IsAsymmetric : Numbers → Type 0
IsAsymmetric n = (f g : n.Float) → n.float_lt f g ≡ true → n.float_lt g f ≡ false

pub then_cmp-swap :
    (a b c d : Ordering)
    → b ≡ swap_ordering a
    → d ≡ swap_ordering c
    → then_cmp b d ≡ swap_ordering (then_cmp a c)
then_cmp-swap Ordering.lt b c d e f = rw e refl
then_cmp-swap Ordering.eq b c d e f = rw e f
then_cmp-swap Ordering.gt b c d e f = rw e refl

bool_cmp-swap : (a b : Bool) → bool_cmp b a ≡ swap_ordering (bool_cmp a b)
bool_cmp-swap true true = refl
bool_cmp-swap true false = refl
bool_cmp-swap false true = refl
bool_cmp-swap false false = refl

module _ (n : Numbers) (asymmetric : IsAsymmetric n) where
  number_cmp-swap : (a b : n.Number) → number_cmp n b a ≡ swap_ordering (number_cmp n a b)
  unfolding number_cmp
  number_cmp-swap a b = elim (Bool-cases (n.float_lt (to_f64 n a) (to_f64 n b))) [
    | inl less ↦ rw (less, asymmetric _ _ less) refl
    | inr other ↦ elim (Bool-cases (n.float_lt (to_f64 n b) (to_f64 n a))) [
      | inl more ↦ rw (other, more) refl
      | inr same ↦ rw (other, same) refl
    ]
  ]

  mutual
    unfolding compare_values

    pub compare_values-swap :
        (a b : Value n.Number) → compare_values n b a ≡ swap_ordering (compare_values n a b)
    compare_values-swap Value.null Value.null = refl
    compare_values-swap Value.null (Value.bool b) = refl
    compare_values-swap Value.null (Value.number b) = refl
    compare_values-swap Value.null (Value.string b) = refl
    compare_values-swap Value.null (Value.array b) = refl
    compare_values-swap Value.null (Value.object b) = refl
    compare_values-swap (Value.bool a) Value.null = refl
    compare_values-swap (Value.bool a) (Value.bool b) = bool_cmp-swap a b
    compare_values-swap (Value.bool a) (Value.number b) = refl
    compare_values-swap (Value.bool a) (Value.string b) = refl
    compare_values-swap (Value.bool a) (Value.array b) = refl
    compare_values-swap (Value.bool a) (Value.object b) = refl
    compare_values-swap (Value.number a) Value.null = refl
    compare_values-swap (Value.number a) (Value.bool b) = refl
    compare_values-swap (Value.number a) (Value.number b) = number_cmp-swap a b
    compare_values-swap (Value.number a) (Value.string b) = refl
    compare_values-swap (Value.number a) (Value.array b) = refl
    compare_values-swap (Value.number a) (Value.object b) = refl
    compare_values-swap (Value.string a) Value.null = refl
    compare_values-swap (Value.string a) (Value.bool b) = refl
    compare_values-swap (Value.string a) (Value.number b) = refl
    compare_values-swap (Value.string a) (Value.string b) = text_cmp_swap a b
    compare_values-swap (Value.string a) (Value.array b) = refl
    compare_values-swap (Value.string a) (Value.object b) = refl
    compare_values-swap (Value.array a) Value.null = refl
    compare_values-swap (Value.array a) (Value.bool b) = refl
    compare_values-swap (Value.array a) (Value.number b) = refl
    compare_values-swap (Value.array a) (Value.string b) = refl
    compare_values-swap (Value.array a) (Value.array b) = compare_items-swap a b
    compare_values-swap (Value.array a) (Value.object b) = refl
    compare_values-swap (Value.object a) Value.null = refl
    compare_values-swap (Value.object a) (Value.bool b) = refl
    compare_values-swap (Value.object a) (Value.number b) = refl
    compare_values-swap (Value.object a) (Value.string b) = refl
    compare_values-swap (Value.object a) (Value.array b) = refl
    compare_values-swap (Value.object a) (Value.object b) = compare_members-swap a b

    compare_items-swap :
        (a b : Items n.Number) → compare_items n b a ≡ swap_ordering (compare_items n a b)
    compare_items-swap Items.end Items.end = refl
    compare_items-swap Items.end (Items.item b bs) = refl
    compare_items-swap (Items.item a as_) Items.end = refl
    compare_items-swap (Items.item a as_) (Items.item b bs) =
        then_cmp-swap (compare_values n a b) (compare_values n b a) (compare_items n as_ bs)
          (compare_items n bs as_) (compare_values-swap a b) (compare_items-swap as_ bs)

    compare_members-swap :
        (a b : Members n.Number) → compare_members n b a ≡ swap_ordering (compare_members n a b)
    compare_members-swap Members.last Members.last = refl
    compare_members-swap Members.last (Members.member j b bs) = refl
    compare_members-swap (Members.member k a as_) Members.last = refl
    compare_members-swap (Members.member k a as_) (Members.member j b bs) =
        then_cmp-swap (text_cmp k j) (text_cmp j k)
          (then_cmp (compare_values n a b) (compare_members n as_ bs))
          (then_cmp (compare_values n b a) (compare_members n bs as_)) (text_cmp_swap k j)
          (then_cmp-swap (compare_values n a b) (compare_values n b a) (compare_members n as_ bs)
            (compare_members n bs as_) (compare_values-swap a b) (compare_members-swap as_ bs))

  -- Two index keys compare in one order as they do in the other, turned around, whatever values they
  -- hold, if `<` of the floats holds in one direction at most. So a key comes before another exactly
  -- if the other comes after it.
  pub compare_index_keys-swap :
      (a b : IndexKey n.Number)
      → compare_index_keys n b a ≡ swap_ordering (compare_index_keys n a b)
  unfolding compare_index_keys
  compare_index_keys-swap a b =
      then_cmp-swap (compare_values n a.field_value b.field_value)
        (compare_values n b.field_value a.field_value) (text_cmp a.doc_id b.doc_id)
        (text_cmp b.doc_id a.doc_id) (compare_values-swap a.field_value b.field_value)
        (text_cmp_swap a.doc_id b.doc_id)
