-- ===== src/Query/Parser/Expressions.antt =====
-- src/core/query/parser.rs: the recursion of the expressions ends, and a query is always answered.
use jasonisnthappy.Base.{
  ℕ, zero, suc, ◌+◌, ◌-◌, ◌*◌, ◌≤◌, ◌≡◌, ◌≢◌, refl, ap, inl, inr, true, ◌&&◌, Option, some, List,
  [], ◌∷◌, length, get_elem?, arith, ◌==◌, Bool-cases,
}
use jasonisnthappy.Base.Text.{Text}
use jasonisnthappy.Json.{Numbers}
use jasonisnthappy.Query.Token.{TokenType, Token, is_type}
use jasonisnthappy.Query.Lexer.{Unicode}
use jasonisnthappy.Query.Tokenize.{Lexed, tokenize}
use jasonisnthappy.Query.Lexed.{Ordered, last, more, Result, tokens, illegal, tokenize-Result}
use jasonisnthappy.Query.Ast.{Node, Parser, Outcome, stuck}
use jasonisnthappy.Query.Parser.{
  or_expr, or_rest, and_expr, and_rest, comparison, parse, parse_lexed, parse_query,
}
use jasonisnthappy.Query.Parser.Moves.{
  Ready, Runs, fails, returns, moved, on_match-Runs, ret-Runs, follow-Runs, expect_failed-Runs,
}
use jasonisnthappy.Query.Parser.Total.{field_condition-Runs}

-- fuel for `level` calls at the last token and four for each token before it
abbrev pub Enough : ℕ → ℕ → Parser → Type 0
Enough level fuel p = 4 * length p.tokens + level ≤ 4 * p.pos + fuel + 4

module _ (n : Numbers) where
  mutual
    unfolding or_expr

    or_expr-Runs : (fuel : ℕ) (p : Parser) → Ready p → Enough 3 fuel p → Runs p (or_expr n fuel p)
    or_expr-Runs zero p r h = absurd (omega (arith, r.within))
    or_expr-Runs (suc fuel) p r h =
        follow-Runs _ p _ (and_expr-Runs fuel p r (omega arith))
          (λ left q r' same on. or_rest-Runs fuel left q r' (omega (arith, same, on)))

    or_rest-Runs :
        (fuel : ℕ) (left : Node n.Number) (p : Parser)
        → Ready p
        → Enough 1 fuel p
        → Runs p (or_rest n fuel left p)
    or_rest-Runs zero left p r h = absurd (omega (arith, r.within))
    or_rest-Runs (suc fuel) left p r h =
        on_match-Runs TokenType.or _ _ p r
          (λ m.
            follow-Runs _ (moved p) _ (and_expr-Runs fuel (moved p) m.ready (omega arith))
              (λ right q r' same on. or_rest-Runs fuel _ q r' (omega (arith, same, on))))
          (ret-Runs left p r)

    and_expr-Runs : (fuel : ℕ) (p : Parser) → Ready p → Enough 2 fuel p → Runs p (and_expr n fuel p)
    and_expr-Runs zero p r h = absurd (omega (arith, r.within))
    and_expr-Runs (suc fuel) p r h =
        follow-Runs _ p _ (comparison-Runs fuel p r (omega arith))
          (λ left q r' same on. and_rest-Runs fuel left q r' (omega (arith, same, on)))

    and_rest-Runs :
        (fuel : ℕ) (left : Node n.Number) (p : Parser)
        → Ready p
        → Enough 1 fuel p
        → Runs p (and_rest n fuel left p)
    and_rest-Runs zero left p r h = absurd (omega (arith, r.within))
    and_rest-Runs (suc fuel) left p r h =
        on_match-Runs TokenType.and _ _ p r
          (λ m.
            follow-Runs _ (moved p) _ (comparison-Runs fuel (moved p) m.ready (omega arith))
              (λ right q r' same on. and_rest-Runs fuel _ q r' (omega (arith, same, on))))
          (ret-Runs left p r)

    comparison-Runs :
        (fuel : ℕ) (p : Parser) → Ready p → Enough 1 fuel p → Runs p (comparison n fuel p)
    comparison-Runs zero p r h = absurd (omega (arith, r.within))
    comparison-Runs (suc fuel) p r h =
        on_match-Runs TokenType.l_paren _ _ p r
          (λ m.
            follow-Runs _ (moved p) _ (or_expr-Runs fuel (moved p) m.ready (omega arith))
              (λ node q r' same on.
                on_match-Runs TokenType.r_paren _ _ q r' (λ m'. ret-Runs node (moved q) m'.ready)
                  (expect_failed-Runs _ q r')))
          (on_match-Runs TokenType.not _ _ p r
            (λ m.
              follow-Runs _ (moved p) _ (comparison-Runs fuel (moved p) m.ready (omega arith))
                (λ child q r' same on. ret-Runs _ q r'))
            (field_condition-Runs n fuel p r (omega (arith, r.within))))

Runs-answers : {A : Type 0} (p : Parser) (r : Outcome A) → Runs p r → r ≢ stuck
Runs-answers p _ fails h = cc
Runs-answers p _ (returns r same on) h = cc

-- the last of the lexer's tokens is the end token
Ordered-last :
    {text : Text} {i : ℕ} (ts : List Token)
    → Ordered text i ts
    → (t : Token) × (k : ℕ) × (length ts ≡ suc k)
      × (get_elem? ts k ≡ some t)
      × (is_type t.token_type TokenType.eof ≡ true)
Ordered-last [] o = elim o [ ]
Ordered-last (t ∷ []) (last e h _) = (t, 0, refl, refl, e)
Ordered-last (t ∷ []) (more w h b o) = elim o [ ]
Ordered-last (t ∷ x ∷ xs) (more w h b o) =
    let (t', k, e, f, g) = Ordered-last (x ∷ xs) o in (t', suc k, ap suc e, f, g)

module _ (n : Numbers) where
  parse-Runs :
      (ts : List Token)
      → Ready (record { tokens = ts; pos = 0 })
      → Runs (record { tokens = ts; pos = 0 }) (parse n (record { tokens = ts; pos = 0 }))
  unfolding parse
  parse-Runs [] r = fails
  parse-Runs (t ∷ others) r =
      let p : Parser = record { tokens = t ∷ others; pos = 0 } in
      elim (Bool-cases (length others == 0 && is_type t.token_type TokenType.eof)) [
        | inl empty ↦ rw (empty, parse) fails
        | inr full ↦ rw (full, parse) (or_expr-Runs n (4 * length p.tokens) p r (omega arith))
      ]

  lexed-answers : (query : Text) (r : Option Lexed) → Result query 0 r → parse_lexed n r ≢ stuck
  lexed-answers query _ (illegal k b) h = cc
  lexed-answers query _ (tokens {ts} o) h =
      let (t, k, e, f, g) = Ordered-last ts o in
      let place : length ts - 1 ≡ k = omega (arith, e) in
      Runs-answers _ _
        (parse-Runs ts
          (record { end_token = t; last = rw place f; eof = g; within = omega (arith, e) }))
        h

  -- Every query is answered, with a node or with an error: the lexer and the parser take no index out
  -- of range, and their loops and their recursion end within the fuel.
  pub parse_query-answers : (u : Unicode) (query : Text) → parse_query n u query ≢ stuck
  unfolding parse_query
  parse_query-answers u query h = lexed-answers query (tokenize u query) (tokenize-Result u query) h
