-- ===== src/Query/Parser/Total.antt =====
-- src/core/query/parser.rs: the parser returns for every list of tokens that ends with the end token.
use jasonisnthappy.Base.{
  ℕ, zero, suc, ◌+◌, ◌*◌, ◌≤◌, refl, inl, inr, Bool, true, false, ◌||◌, List, [], length, arith,
  Option-cases, if◌then◌else◌,
}
use jasonisnthappy.Base.Text.{Text}
use jasonisnthappy.Json.{Numbers, Value}
use jasonisnthappy.Query.Token.{TokenType}
use jasonisnthappy.Query.Ast.{Parser, Parse}
use jasonisnthappy.Query.Parser.{
  is_at_end, check, number_value, parse_value, has_values, has_list, parse_has, dotted, compared,
  bare_field, condition, field_condition,
}
use jasonisnthappy.Query.Parser.Moves.{
  Ready, Runs, fails, Moved, moved, is_at_end_lem, check_lem, on_check-Runs, on_match-Runs,
  ret-Runs, follow-Runs, expect_failed-Runs, Runs-from,
}

-- fuel for a function that needs `level` calls at the last token and four for each token before it
abbrev pub Enough : ℕ → ℕ → Parser → Type 0
Enough level fuel p = 4 * length p.tokens + level ≤ 4 * p.pos + fuel + 4

either-Runs :
    {A : Type 0} (b : Bool) (x y : Parse A) (p : Parser)
    → Runs p (x p)
    → Runs p (y p)
    → Runs p ((if b then x else y) p)
either-Runs true x y p h k = h
either-Runs false x y p h k = k

is_at_end-Runs : (p : Parser) → Ready p → Runs p (is_at_end p)
is_at_end-Runs p r = elim (is_at_end_lem p r) [
  | inl e ↦ rw e (ret-Runs _ p r)
  | inr (e, _) ↦ rw e (ret-Runs _ p r)
]

check-Runs : (token_type : TokenType) (p : Parser) → Ready p → Runs p (check token_type p)
check-Runs token_type p r = elim (check_lem token_type p r) [
  | inl e ↦ rw e (ret-Runs _ p r)
  | inr (e, _) ↦ rw e (ret-Runs _ p r)
]

module _ (n : Numbers) where
  number_value-Runs : (text : Text) (p : Parser) → Ready p → Runs p (number_value n text p)
  unfolding number_value
  number_value-Runs text p r = elim (Option-cases (n.parse_f64 text)) [
    | inl bad ↦ rw (bad, number_value) fails
    | inr (val, e) ↦ elim (Option-cases (n.from_f64 val)) [
      | inl bad ↦ rw (e, bad, number_value) fails
      | inr (x, k) ↦ rw (e, k, number_value) (ret-Runs _ p r)
    ]
  ]

  parse_value-Runs : (p : Parser) → Ready p → Runs p (parse_value n p)
  unfolding parse_value
  parse_value-Runs p r =
      on_match-Runs TokenType.number _ _ p r
        (λ m. rw m.back (number_value-Runs m.tok.value (moved p) m.ready))
        (on_match-Runs TokenType.string _ _ p r (λ m. rw m.back (ret-Runs _ (moved p) m.ready))
          (on_match-Runs TokenType.ident _ _ p r (λ m. rw m.back (ret-Runs _ (moved p) m.ready))
            (on_match-Runs TokenType.true_lit _ _ p r (λ m. ret-Runs _ (moved p) m.ready)
              (on_match-Runs TokenType.false_lit _ _ p r (λ m. ret-Runs _ (moved p) m.ready)
                (on_match-Runs TokenType.null_lit _ _ p r (λ m. ret-Runs _ (moved p) m.ready)
                  (expect_failed-Runs _ p r))))))

  has_values-Runs :
      (fuel : ℕ) (values : List (Value n.Number)) (p : Parser)
      → Ready p
      → length p.tokens ≤ p.pos + fuel
      → Runs p (has_values n fuel values p)
  unfolding has_values
  has_values-Runs zero values p r h = absurd (omega (arith, r.within))
  has_values-Runs (suc fuel) values p r h =
      on_check-Runs TokenType.r_bracket _ _ p r (λ m. ret-Runs values p r)
        (follow-Runs _ p _ (parse_value-Runs p r) (λ value q r' same on.
          on_match-Runs TokenType.comma _ _ q r'
            (λ m. has_values-Runs fuel _ (moved q) m.ready (omega (arith, same, on)))
            (ret-Runs _ q r')))

  has_list-Runs :
      (fuel : ℕ) (field op : Text) (p : Parser)
      → Ready p
      → length p.tokens ≤ p.pos + fuel + 1
      → Runs p (has_list n fuel field op p)
  unfolding has_list
  has_list-Runs fuel field op p r h =
      on_match-Runs TokenType.l_bracket _ _ p r
        (λ m.
          follow-Runs _ (moved p) _ (has_values-Runs fuel [] (moved p) m.ready (omega arith))
            (λ values q r' same on.
              on_match-Runs TokenType.r_bracket _ _ q r' (λ m'. ret-Runs _ (moved q) m'.ready)
                (expect_failed-Runs _ q r')))
        (expect_failed-Runs _ p r)

  parse_has-Runs :
      (fuel : ℕ) (field : Text) (p : Parser)
      → Ready p
      → length p.tokens ≤ p.pos + fuel + 2
      → Runs p (parse_has n fuel field p)
  unfolding parse_has
  parse_has-Runs fuel field p r h =
      on_match-Runs TokenType.any _ _ p r
        (λ m. has_list-Runs fuel field _ (moved p) m.ready (omega arith))
        (on_match-Runs TokenType.all _ _ p r
          (λ m. has_list-Runs fuel field _ (moved p) m.ready (omega arith))
          (follow-Runs _ p _ (parse_value-Runs p r) (λ value q r' same on. ret-Runs _ q r')))

  compared-Runs : (field op : Text) (p : Parser) → Ready p → Runs p (compared n field op p)
  unfolding compared
  compared-Runs field op p r =
      follow-Runs _ p _ (parse_value-Runs p r) (λ value q r' same on. ret-Runs _ q r')

  bare_field-Runs : (field : Text) (p : Parser) → Ready p → Runs p (bare_field n field p)
  unfolding bare_field
  bare_field-Runs field p r = follow-Runs _ p _ (is_at_end-Runs p r) (λ end p₁ r₁ _ _.
      follow-Runs _ p₁ _ (check-Runs TokenType.and p₁ r₁) (λ and_there p₂ r₂ _ _.
        follow-Runs _ p₂ _ (check-Runs TokenType.or p₂ r₂) (λ or_there p₃ r₃ _ _.
          follow-Runs _ p₃ _ (check-Runs TokenType.r_paren p₃ r₃) (λ paren_there p₄ r₄ _ _.
            either-Runs (end || (and_there || (or_there || paren_there))) _ _ p₄ (ret-Runs _ p₄ r₄)
              (expect_failed-Runs _ p₄ r₄)))))

  condition-Runs :
      (fuel : ℕ) (field : Text) (p : Parser)
      → Ready p
      → length p.tokens ≤ p.pos + fuel + 3
      → Runs p (condition n fuel field p)
  unfolding condition
  condition-Runs fuel field p r h =
      let with : (op : Text) → Moved p → Runs (moved p) (compared n field op (moved p)) =
        λ op m. compared-Runs field op (moved p) m.ready in
      on_match-Runs TokenType.exists _ _ p r (λ m. ret-Runs _ (moved p) m.ready)
        (on_match-Runs TokenType.not _ _ p r
          (λ m.
            on_match-Runs TokenType.exists _ _ (moved p) m.ready
              (λ m'. ret-Runs _ (moved (moved p)) m'.ready)
              (expect_failed-Runs _ (moved p) m.ready))
          (on_match-Runs TokenType.has _ _ p r
            (λ m. parse_has-Runs fuel field (moved p) m.ready (omega arith))
            (on_match-Runs TokenType.gt _ _ p r (with _) (
              on_match-Runs TokenType.gte _ _ p r (with _) (
                on_match-Runs TokenType.lt _ _ p r (with _) (
                  on_match-Runs TokenType.lte _ _ p r (with _) (
                    on_match-Runs TokenType.is _ _ p r
                      (λ m.
                        on_match-Runs TokenType.not _ _ (moved p) m.ready
                          (λ m'. compared-Runs field _ (moved (moved p)) m'.ready)
                          (compared-Runs field _ (moved p) m.ready))
                      (bare_field-Runs field p r))))))))

  dotted-Runs :
      (fuel : ℕ) (field : Text) (p : Parser)
      → Ready p
      → length p.tokens ≤ p.pos + fuel
      → Runs p (dotted n fuel field p)
  unfolding dotted
  dotted-Runs zero field p r h = absurd (omega (arith, r.within))
  dotted-Runs (suc fuel) field p r h =
      on_match-Runs TokenType.dot _ _ p r
        (λ m.
          on_check-Runs TokenType.ident _ _ (moved p) m.ready
            (λ m'. rw m'.on (
              Runs-from (moved p) (moved (moved p)) _
                (dotted-Runs fuel _ (moved (moved p)) m'.ready (omega arith)) refl (omega arith)))
            (expect_failed-Runs _ (moved p) m.ready))
        (ret-Runs field p r)

  pub field_condition-Runs :
      (fuel : ℕ) (p : Parser)
      → Ready p
      → length p.tokens ≤ p.pos + fuel + 1
      → Runs p (field_condition n fuel p)
  unfolding field_condition
  field_condition-Runs fuel p r h =
      on_check-Runs TokenType.ident _ _ p r
        (λ m. rw m.on (
          Runs-from p (moved p) _
            (follow-Runs _ (moved p) _
              (dotted-Runs fuel m.tok.value (moved p) m.ready (omega arith))
              (λ field q r' same on. condition-Runs fuel field q r' (omega (arith, on, same))))
            refl (omega arith)))
        (expect_failed-Runs _ p r)
