-- ===== src/Query/Parser.antt =====
-- src/core/query/parser.rs: `Parser`. An index that the source takes out of range would panic;
-- `stuck` stands for that, and for a loop or a recursion that runs out of its fuel.
pub mod Moves
pub mod Total
pub mod Expressions
use jasonisnthappy.Base.{
  ℕ, zero, suc, ◌+◌, ◌-◌, Bool, true, false, ◌&&◌, ◌||◌, ◌*◌, Option, none, some, List, [], ◌∷◌,
  ◌++◌, length, get_elem?, leb, ltb, ◌==◌, if◌then◌else◌,
}
use jasonisnthappy.Base.Text.{Text, codes}
use jasonisnthappy.Json.{Numbers, Value}
use jasonisnthappy.Query.Token.{TokenType, Token, is_type}
use jasonisnthappy.Query.Lexer.{Unicode}
use jasonisnthappy.Query.Tokenize.{Lexed, lexed, illegal_at, tokenize}
use jasonisnthappy.Query.Ast.{
  Node, binary_op, unary_op, compare_op, exists_op, has_op, ParseError, Parser, Outcome, Parse,
  stuck, failed, done, expected, empty_query, illegal_token, invalid_number, not_finite,
}

abbrev pub ret : {A : Type 0} → A → Parse A
ret a p = done a p

abbrev pub reject : {A : Type 0} → ParseError → Parse A
reject e p = failed e

abbrev pub follow : {A B : Type 0} → (A → Parse B) → Outcome A → Outcome B
follow rest stuck = stuck
follow rest (failed e) = failed e
follow rest (done a p) = rest a p

infixl 5 ◌>>=◌
-- a call, the `?` behind it, and what comes after it
abbrev pub ◌>>=◌ : {A B : Type 0} → Parse A → (A → Parse B) → Parse B
(call >>= rest) p = follow rest (call p)

abbrev of_option : {A : Type 0} → Option A → Parse A
of_option none p = stuck
of_option (some a) p = done a p

unfoldable pub current : Parse Token
current p = elim p.tokens [
  | [] ↦ stuck
  | _ ∷ others ↦
      of_option (get_elem? p.tokens (if ltb p.pos (length p.tokens) then p.pos else length others))
        p
]

unfoldable pub previous : Parse Token
previous p = elim p.pos [ zero ↦ stuck | suc i ↦ of_option (get_elem? p.tokens i) p ]

unfoldable pub is_at_end : Parse Bool
is_at_end = do t ← current; ret (is_type t.token_type TokenType.eof)

unfoldable pub check : TokenType → Parse Bool
check token_type = do
  end ← is_at_end
  elim end [ true ↦ ret false | false ↦ current >>= λ t. ret (is_type t.token_type token_type) ]

abbrev step : Parse Token
step p = previous (record p { pos = suc p.pos })

unfoldable pub advance : Parse Token
advance = do end ← is_at_end; elim end [ true ↦ previous | false ↦ step ]

-- the source calls it with one type each time
unfoldable pub match_token : TokenType → Parse Bool
match_token token_type = do
  found ← check token_type
  elim found [ true ↦ advance >>= λ _. ret true | false ↦ ret false ]

-- an error that names what was expected and the position of the current token
unfoldable pub expect_failed : {A : Type 0} → Text → Parse A
expect_failed what = do t ← current; reject (expected what t.pos)

-- `if self.match_token(&[token_type]) { matched } else { other }`
abbrev pub on_match : {A : Type 0} → TokenType → Parse A → Parse A → Parse A
on_match token_type matched other =
    match_token token_type >>= λ found. elim found [ true ↦ matched | false ↦ other ]

-- the same for `self.check(token_type)`
abbrev pub on_check : {A : Type 0} → TokenType → Parse A → Parse A → Parse A
on_check token_type there other =
    check token_type >>= λ found. elim found [ true ↦ there | false ↦ other ]

module _ (n : Numbers) where
  unfoldable pub number_value : Text → Parse (Value n.Number)
  number_value text = elim (n.parse_f64 text) [
    | none ↦ reject (invalid_number text)
    | some val ↦ elim (n.from_f64 val) [
      | none ↦ reject (not_finite text)
      | some x ↦ ret (Value.number x)
    ]
  ]

  unfoldable pub parse_value : Parse (Value n.Number)
  parse_value = on_match TokenType.number (previous >>= λ t. number_value t.value) (
      on_match TokenType.string (previous >>= λ t. ret (Value.string t.value)) (
        on_match TokenType.ident (previous >>= λ t. ret (Value.string t.value)) (
          on_match TokenType.true_lit (ret (Value.bool true)) (
            on_match TokenType.false_lit (ret (Value.bool false))
              (on_match TokenType.null_lit (ret Value.null) (expect_failed (codes "value")))))))

  -- the loop over the values of `has any` and `has all`, with fuel
  unfoldable pub has_values : ℕ → List (Value n.Number) → Parse (List (Value n.Number))
  has_values zero values = λ p. stuck
  has_values (suc fuel) values = on_check TokenType.r_bracket (ret values) (
      parse_value >>= λ value.
      on_match TokenType.comma (has_values fuel (values ++ (value ∷ [])))
        (ret (values ++ (value ∷ []))))

  unfoldable pub has_list : ℕ → Text → Text → Parse (Node n.Number)
  has_list fuel field has_op_ =
      on_match TokenType.l_bracket
        (has_values fuel [] >>= λ values.
          on_match TokenType.r_bracket (ret (has_op field has_op_ values))
            (expect_failed (codes "']'")))
        (expect_failed (codes "'[' after 'has any/all'"))

  unfoldable pub parse_has : ℕ → Text → Parse (Node n.Number)
  parse_has fuel field = on_match TokenType.any (has_list fuel field (codes "has_any")) (
      on_match TokenType.all (has_list fuel field (codes "has_all"))
        (parse_value >>= λ value. ret (has_op field (codes "has") (value ∷ []))))

  -- the names behind the dots of a field, with fuel
  unfoldable pub dotted : ℕ → Text → Parse Text
  dotted zero field = λ p. stuck
  dotted (suc fuel) field =
      on_match TokenType.dot
        (on_check TokenType.ident (advance >>= λ t. dotted fuel ((field ++ codes ".") ++ t.value))
          (expect_failed (codes "field name after '.'")))
        (ret field)

  -- the comparison with a value, behind its operator
  unfoldable pub compared : Text → Text → Parse (Node n.Number)
  compared field op = parse_value >>= λ value. ret (compare_op field op value)

  -- a field alone is compared with `true`
  unfoldable pub bare_field : Text → Parse (Node n.Number)
  bare_field field = do
    end ← is_at_end
    and_there ← check TokenType.and
    or_there ← check TokenType.or
    paren_there ← check TokenType.r_paren
    if end || (and_there || (or_there || paren_there))
        then ret (compare_op field (codes "is") (Value.bool true))
        else expect_failed (codes "comparison operator")

  unfoldable pub condition : ℕ → Text → Parse (Node n.Number)
  condition fuel field = on_match TokenType.exists (ret (exists_op field false)) (
      on_match TokenType.not
        (on_match TokenType.exists (ret (exists_op field true))
          (expect_failed (codes "'exists' after 'not'")))
        (on_match TokenType.has (parse_has fuel field) (
          on_match TokenType.gt (compared field (codes ">")) (
            on_match TokenType.gte (compared field (codes ">=")) (
              on_match TokenType.lt (compared field (codes "<")) (
                on_match TokenType.lte (compared field (codes "<=")) (
                  on_match TokenType.is
                    (on_match TokenType.not (compared field (codes "is_not"))
                      (compared field (codes "is")))
                    (bare_field field))))))))

  unfoldable pub field_condition : ℕ → Parse (Node n.Number)
  field_condition fuel =
      on_check TokenType.ident
        (advance >>= λ t. dotted fuel t.value >>= λ field. condition fuel field)
        (expect_failed (codes "field name"))

  -- The expressions, with fuel: `or_rest` and `and_rest` are the loops.
  unfoldable mutual
    pub or_expr : ℕ → Parse (Node n.Number)
    or_expr zero = λ p. stuck
    or_expr (suc fuel) = and_expr fuel >>= λ left. or_rest fuel left

    pub or_rest : ℕ → Node n.Number → Parse (Node n.Number)
    or_rest zero left = λ p. stuck
    or_rest (suc fuel) left =
        on_match TokenType.or
          (and_expr fuel >>= λ right. or_rest fuel (binary_op (codes "or") left right)) (ret left)

    pub and_expr : ℕ → Parse (Node n.Number)
    and_expr zero = λ p. stuck
    and_expr (suc fuel) = comparison fuel >>= λ left. and_rest fuel left

    pub and_rest : ℕ → Node n.Number → Parse (Node n.Number)
    and_rest zero left = λ p. stuck
    and_rest (suc fuel) left =
        on_match TokenType.and
          (comparison fuel >>= λ right. and_rest fuel (binary_op (codes "and") left right))
          (ret left)

    pub comparison : ℕ → Parse (Node n.Number)
    comparison zero = λ p. stuck
    comparison (suc fuel) =
        on_match TokenType.l_paren
          (or_expr fuel >>= λ node.
            on_match TokenType.r_paren (ret node) (expect_failed (codes "')'")))
          (on_match TokenType.not (comparison fuel >>= λ child. ret (unary_op (codes "not") child))
            (field_condition fuel))

  -- `Parser::parse`, with four calls for each token
  unfoldable pub parse : Parse (Node n.Number)
  parse p = elim p.tokens [
    | [] ↦ failed empty_query
    | t ∷ others ↦ elim (length others == 0 && is_type t.token_type TokenType.eof) [
      | true ↦ failed empty_query
      | false ↦ or_expr (4 * length p.tokens) p
    ]
  ]

  abbrev pub parse_lexed : Option Lexed → Outcome (Node n.Number)
  parse_lexed none = stuck
  parse_lexed (some (illegal_at pos value)) = failed (illegal_token pos value)
  parse_lexed (some (lexed tokens)) = parse (record { tokens = tokens; pos = 0 })

  unfoldable pub parse_query : Unicode → Text → Outcome (Node n.Number)
  parse_query u query = parse_lexed (tokenize u query)
