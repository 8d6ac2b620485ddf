-- ===== src/Query/Eval.antt =====
-- src/core/query/parser.rs: `Node::eval`, the fields of a document and the comparisons of values.
use Prim.Native.Nat.{Ordering}
use jasonisnthappy.Base.{
  Bool, true, false, not, ◌&&◌, ◌||◌, none, some, List, [], ◌∷◌, if◌then◌else◌,
}
use jasonisnthappy.Base.Text.{Text, text_eq, text_cmp, split, codes}
use jasonisnthappy.Json.{Numbers, Value, Items, Members, value_eq, member_of}
use jasonisnthappy.Query.Ast.{Node, binary_op, unary_op, compare_op, exists_op, has_op}

abbrev pub is_lt : Ordering → Bool
is_lt Ordering.lt = true
is_lt _ = false

abbrev pub is_gt : Ordering → Bool
is_gt Ordering.gt = true
is_gt _ = false

abbrev pub any_of : {A : Type 0} → (A → Bool) → List A → Bool
any_of test [] = false
any_of test (x ∷ xs) = test x || any_of test xs

abbrev pub all_of : {A : Type 0} → (A → Bool) → List A → Bool
all_of test [] = true
all_of test (x ∷ xs) = test x && all_of test xs

module _ (n : Numbers) where
  -- `x.as_f64().unwrap_or(0.0)`
  unfoldable pub to_f64 : n.Number → n.Float
  to_f64 x = elim (n.as_f64 x) [ none ↦ n.zero_f64 | some f ↦ f ]

  unfoldable pub compare_equal : Value n.Number → Value n.Number → Bool
  compare_equal (Value.number a) (Value.number b) = n.float_eq (to_f64 a) (to_f64 b)
  compare_equal a b = value_eq n a b

  unfoldable pub compare_greater : Value n.Number → Value n.Number → Bool
  compare_greater (Value.number a) (Value.number b) = n.float_lt (to_f64 b) (to_f64 a)
  compare_greater (Value.string a) (Value.string b) = is_gt (text_cmp a b)
  compare_greater _ _ = false

  unfoldable pub compare_less : Value n.Number → Value n.Number → Bool
  compare_less (Value.number a) (Value.number b) = n.float_lt (to_f64 a) (to_f64 b)
  compare_less (Value.string a) (Value.string b) = is_lt (text_cmp a b)
  compare_less _ _ = false

  -- the loop over the parts of a field's name
  unfoldable pub descend : Value n.Number → List Text → Value n.Number
  descend current [] = current
  descend (Value.object members) (part ∷ parts) = elim (member_of n part members) [
    | none ↦ descend Value.null parts
    | some v ↦ descend v parts
  ]
  descend _ (part ∷ parts) = Value.null

  unfoldable pub get_field : Members n.Number → Text → Value n.Number
  get_field doc field = descend (Value.object doc) (split b'.' field)

  unfoldable pub is_null : Value n.Number → Bool
  is_null Value.null = true
  is_null _ = false

  unfoldable pub any_item : (Value n.Number → Bool) → Items n.Number → Bool
  any_item test Items.end = false
  any_item test (Items.item v rest) = test v || any_item test rest

  unfoldable pub compare_with : Text → Value n.Number → Value n.Number → Bool
  compare_with op field_value value =
      if text_eq op (codes ">")
      then compare_greater field_value value
      else if text_eq op (codes ">=")
      then compare_greater field_value value || compare_equal field_value value
      else if text_eq op (codes "<")
      then compare_less field_value value
      else if text_eq op (codes "<=")
      then compare_less field_value value || compare_equal field_value value
      else if text_eq op (codes "is")
      then compare_equal field_value value
      else if text_eq op (codes "is_not")
      then not (compare_equal field_value value)
      else false

  -- `self.values.first()`
  unfoldable pub has_first : Items n.Number → List (Value n.Number) → Bool
  has_first arr [] = false
  has_first arr (val ∷ _) = any_item (λ v. compare_equal v val) arr

  unfoldable pub has_with : Text → Items n.Number → List (Value n.Number) → Bool
  has_with op arr values =
      if text_eq op (codes "has")
      then has_first arr values
      else if text_eq op (codes "has_any")
      then any_of (λ val. any_item (λ v. compare_equal v val) arr) values
      else if text_eq op (codes "has_all")
      then all_of (λ val. any_item (λ v. compare_equal v val) arr) values
      else false

  unfoldable pub has_in : Value n.Number → Text → List (Value n.Number) → Bool
  has_in (Value.array arr) op values = has_with op arr values
  has_in _ op values = false

  unfoldable pub eval : Node n.Number → Members n.Number → Bool
  eval (binary_op op left right) doc =
      let l = eval left doc in
      let r = eval right doc in
      if text_eq op (codes "and") then l && r else if text_eq op (codes "or") then l || r else false
  eval (unary_op op child) doc =
      let c = eval child doc in if text_eq op (codes "not") then not c else false
  eval (compare_op field op value) doc = compare_with op (get_field doc field) value
  eval (exists_op field not_) doc =
      let exists = not (is_null (get_field doc field)) in if not_ then not exists else exists
  eval (has_op field op values) doc = has_in (get_field doc field) op values
