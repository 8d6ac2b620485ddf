-- ===== src/Query/Tests.antt =====
-- src/core/query: the theorems at concrete queries.
use jasonisnthappy.Base.{
  ◌↔◌, ℕ, ◌+◌, ◌-◌, ◌*◌, ◌≡◌, ◌≢◌, refl, true, false, not, ◌&&◌, Option, none, some, [], ◌∷◌, take,
  drop, ltb, leb, ◌==◌, if◌then◌else◌,
}
use jasonisnthappy.Base.Text.{Text, text_eq, codes}
use jasonisnthappy.Json.{Numbers, Value, Members, member, last}
use jasonisnthappy.Query.Lexer.{
  Unicode, new_lexer, char_at, read_char, peek_char, skip_while, text_between, is_letter, is_digit,
  is_space, lowercase, skip_whitespace, is_ident_char, read_identifier, skip_fraction, read_number,
  in_string, read_string,
}
use jasonisnthappy.Query.Tokenize.{
  tokenize, tokenize_from, next_token, token_at, visible_token, word_token, with_equals,
  lookup_keyword, keyword,
}
use jasonisnthappy.Query.Lexed.{Result, tokenize-Result}
use jasonisnthappy.Query.Ast.{Node, binary_op, compare_op, exists_op, Outcome, stuck, done}
use jasonisnthappy.Query.Parser.{
  current, previous, is_at_end, check, advance, match_token, expect_failed, number_value,
  parse_value, has_values, has_list, parse_has, dotted, compared, bare_field, condition,
  field_condition, or_expr, parse, parse_query,
}
use jasonisnthappy.Query.Parser.Expressions.{parse_query-answers}
use jasonisnthappy.Query.Eval.{get_field}
use jasonisnthappy.Query.Fields.{beneath, get_field-append}
use jasonisnthappy.Query.Orders.{Precedes, holds, compare_with-Precedes}

-- no characters beyond ASCII
abbrev ascii : Unicode
ascii = record {
  is_alphabetic = λ c. false;
  is_numeric = λ c. false;
  is_whitespace = λ c. false;
  to_lowercase = λ c. c ∷ [];
}

unfoldable decimal : ℕ → Text → Option ℕ
decimal acc [] = some acc
decimal acc (c ∷ cs) =
    let rest = decimal (acc * 10 + (c - 48)) cs in if leb 48 c && leb c 57 then rest else none

-- whole numbers, each its own float
abbrev whole : Numbers
whole = record {
  Number = ℕ;
  Float = ℕ;
  number_eq = λ a b. a == b;
  as_f64 = λ a. some a;
  from_f64 = λ a. some a;
  parse_f64 = decimal 0;
  zero_f64 = 0;
  float_eq = λ a b. a == b;
  float_lt = λ a b. ltb a b;
}

tokenize-Result_example :
    Result (codes "age >= 30 and 'x' is a.b") 0 (tokenize ascii (codes "age >= 30 and 'x' is a.b"))
tokenize-Result_example = tokenize-Result ascii (codes "age >= 30 and 'x' is a.b")

parse_query-answers_example :
    parse_query whole ascii (codes "a is 1 or (not b has any [1, 2") ≢ stuck
parse_query-answers_example =
    parse_query-answers whole ascii (codes "a is 1 or (not b has any [1, 2")

abbrev node_of : Outcome (Node ℕ) → Option (Node ℕ)
node_of (done node p) = some node
node_of _ = none

abbrev nested : Members ℕ
nested = member (codes "a") (Value.object (member (codes "b") (Value.number 3) last)) last

get_field-append_example :
    get_field whole nested (codes "a.b")
    ≡ beneath whole (get_field whole nested (codes "a")) (codes "b")
get_field-append_example = get_field-append whole nested (codes "a") (codes "b")

compare_with-Precedes_example :
    ((holds whole (codes "<") (codes "ab") (codes "b") ≡ true) ↔ Precedes (codes "ab") (codes "b"))
    × ((holds whole (codes ">") (codes "ab") (codes "b") ≡ true)
        ↔ Precedes (codes "b") (codes "ab"))
    × (holds whole (codes ">=") (codes "ab") (codes "b")
        ≡ not (holds whole (codes "<") (codes "ab") (codes "b")))
    × (holds whole (codes "<=") (codes "ab") (codes "b")
        ≡ not (holds whole (codes ">") (codes "ab") (codes "b")))
compare_with-Precedes_example = compare_with-Precedes whole (codes "ab") (codes "b")

-- `and` binds closer than `or`, and what follows a whole expression is not read
parsed :
    node_of (parse_query whole ascii (codes "a is 1 or b and c.d exists ignored"))
    ≡ some (
        binary_op (codes "or") (compare_op (codes "a") (codes "is") (Value.number 1)) (
          binary_op
            (codes "and")
            (compare_op (codes "b") (codes "is") (Value.bool true))
            (exists_op (codes "c.d") false)))
unfolding decimal tokenize tokenize_from new_lexer next_token token_at visible_token word_token
    with_equals lookup_keyword keyword char_at read_char peek_char skip_while text_between is_letter
    is_digit is_space lowercase skip_whitespace is_ident_char read_identifier skip_fraction
    read_number in_string read_string text_eq take drop current previous is_at_end check advance
    match_token expect_failed number_value parse_value has_values has_list parse_has dotted compared
    bare_field condition field_condition or_expr parse parse_query
parsed = refl
