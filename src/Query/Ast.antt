-- ===== src/Query/Ast.antt =====
-- src/core/query/parser.rs: the nodes of a parsed query, and the state of the parser.
use jasonisnthappy.Base.{ℕ, Bool, List}
use jasonisnthappy.Base.Text.{Text}
use jasonisnthappy.Query.Token.{Token}
use jasonisnthappy.Json.{Value}

pub data Node (N : Type 0) : Type 0 where
  binary_op : (op : Text) (left right : Node N) → Node N
  unary_op : (op : Text) (child : Node N) → Node N
  compare_op : (field op : Text) (value : Value N) → Node N
  exists_op : (field : Text) (not : Bool) → Node N
  has_op : (field op : Text) (values : List (Value N)) → Node N

pub data ParseError : Type 0 where
  empty_query : ParseError
  illegal_token : (pos : ℕ) (value : Text) → ParseError
  expected : (what : Text) (pos : ℕ) → ParseError
  invalid_number not_finite : (text : Text) → ParseError

pub record Parser : Type 0 where
  pub tokens : List Token
  pub pos : ℕ

-- What a step of the parser does: it panics or runs out of fuel, fails, or returns.
pub data Outcome (A : Type 0) : Type 0 where
  stuck : Outcome A
  failed : ParseError → Outcome A
  done : A → Parser → Outcome A

abbrev pub Parse : Type 0 → Type 0
Parse A = Parser → Outcome A
