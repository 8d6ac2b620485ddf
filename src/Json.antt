-- ===== src/Json.antt =====
-- `serde_json::Value`, which documents and queries are made of. Its numbers, and the floats that they
-- become, are the library's: the record `Numbers` stands for them.
use jasonisnthappy.Base.{Bool, true, false, ◌&&◌, Option, none, some, if◌then◌else◌}
use jasonisnthappy.Base.Text.{Text, text_eq}

pub record Numbers : Type 1 where
  pub Number : Type 0
  pub Float : Type 0
  -- the derived `==` of `serde_json::Number`
  pub number_eq : Number → Number → Bool
  -- `Number::as_f64`, `Number::from_f64` and `str::parse::<f64>`
  pub as_f64 : Number → Option Float
  pub from_f64 : Float → Option Number
  pub parse_f64 : Text → Option Float
  -- `0.0`, and `==` and `<` of the floats
  pub zero_f64 : Float
  pub float_eq : Float → Float → Bool
  pub float_lt : Float → Float → Bool

-- An object lists its members in the order of their keys.
mutual
  pub data Value (N : Type 0) : Type 0 where
    null : Value N
    bool : Bool → Value N
    number : N → Value N
    string : Text → Value N
    array : Items N → Value N
    object : Members N → Value N

  pub data Items (N : Type 0) : Type 0 where
    end : Items N
    item : Value N → Items N → Items N

  pub data Members (N : Type 0) : Type 0 where
    last : Members N
    member : Text → Value N → Members N → Members N

abbrev bool_eq : Bool → Bool → Bool
bool_eq true b = b
bool_eq false true = false
bool_eq false false = true

module _ (n : Numbers) where
  -- the derived `==`
  unfoldable mutual
    pub value_eq : Value n.Number → Value n.Number → Bool
    value_eq null null = true
    value_eq (bool a) (bool b) = bool_eq a b
    value_eq (number a) (number b) = n.number_eq a b
    value_eq (string a) (string b) = text_eq a b
    value_eq (array a) (array b) = items_eq a b
    value_eq (object a) (object b) = members_eq a b
    value_eq _ _ = false

    items_eq : Items n.Number → Items n.Number → Bool
    items_eq end end = true
    items_eq (item a as_) (item b bs) = value_eq a b && items_eq as_ bs
    items_eq _ _ = false

    members_eq : Members n.Number → Members n.Number → Bool
    members_eq last last = true
    members_eq (member k a as_) (member j b bs) = text_eq k j && (value_eq a b && members_eq as_ bs)
    members_eq _ _ = false

  -- `Map::get`
  unfoldable pub member_of : Text → Members n.Number → Option (Value n.Number)
  member_of key last = none
  member_of key (member k v rest) = if text_eq k key then some v else member_of key rest
