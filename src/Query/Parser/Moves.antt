-- ===== src/Query/Parser/Moves.antt =====
-- src/core/query/parser.rs: the parser stays within its tokens, and moves on when a token matches.
use jasonisnthappy.Base.{
  ℕ, zero, suc, ◌-◌, ◌≤◌, ◌<◌, ◌≡◌, refl, ap, sym, ◌∙◌, ◌⊎◌, inl, inr, true, false, some, List, [],
  ◌∷◌, length, get_elem?, arith, ltb, Bool-cases,
}
use jasonisnthappy.Base.Text.{Text}
use jasonisnthappy.Query.Token.{TokenType, Token, is_type}
use jasonisnthappy.Query.Ast.{ParseError, Parser, Outcome, Parse, stuck, failed, done}
use jasonisnthappy.Query.Parser.{
  ret, follow, current, previous, is_at_end, check, advance, match_token, expect_failed, on_match,
  on_check,
}

-- The tokens end with an end token, and the parser stands at one of them.
pub record Ready (p : Parser) : Type 0 where
  pub end_token : Token
  pub last : get_elem? p.tokens (length p.tokens - 1) ≡ some end_token
  pub eof : is_type end_token.token_type TokenType.eof ≡ true
  pub within : p.pos < length p.tokens

-- A run from `p` that neither panics nor runs out of fuel: it fails, or returns, at `p` or further
-- on.
pub data Runs {A : Type 0} (p : Parser) : Outcome A → Type 0 where
  fails : {e : ParseError} → Runs p (failed e)
  returns :
      {a : A} {p' : Parser}
      → Ready p'
      → length p'.tokens ≡ length p.tokens
      → p.pos ≤ p'.pos
      → Runs p (done a p')

abbrev pub moved : Parser → Parser
moved p = record p { pos = suc p.pos }

-- The parser may go on from `p`.
pub record Moved (p : Parser) : Type 0 where
  pub ready : Ready (moved p)
  pub tok : Token
  pub back : previous (moved p) ≡ done tok (moved p)
  pub on : advance p ≡ done tok (moved p)

get_elem?-within :
    {A : Type 0} (xs : List A) (i : ℕ) → i < length xs → (a : A) × (get_elem? xs i ≡ some a)
get_elem?-within [] i h = absurd (omega arith)
get_elem?-within (x ∷ xs) zero h = (x, refl)
get_elem?-within (x ∷ xs) (suc i) h = get_elem?-within xs i (omega arith)

at_lem :
    (ts : List Token) (i : ℕ) (t : Token)
    → i < length ts
    → get_elem? ts i ≡ some t
    → current (record { tokens = ts; pos = i }) ≡ done t (record { tokens = ts; pos = i })
unfolding current
at_lem [] i t h e = absurd (omega arith)
at_lem (x ∷ xs) i t h e = elim (Bool-cases (ltb i (length (x ∷ xs)))) [
  | inl within ↦ rw (within, e) refl
  | inr behind ↦ absurd (ground arith)
]

pub current_lem :
    (p : Parser)
    → Ready p
    → (t : Token) × (current p ≡ done t p) × (get_elem? p.tokens p.pos ≡ some t)
current_lem p r =
    let (t, e) = get_elem?-within p.tokens p.pos r.within in
    (t, at_lem p.tokens p.pos t r.within e, e)

-- a token that is not the end token is not the last
not_last :
    (p : Parser) (r : Ready p) (t : Token)
    → get_elem? p.tokens p.pos ≡ some t
    → is_type t.token_type TokenType.eof ≡ false
    → suc p.pos < length p.tokens
not_last p r t e h = elim (Bool-cases (ltb (suc p.pos) (length p.tokens))) [
  | inl further ↦ ground arith
  | inr stop ↦
      let here : p.pos ≡ length p.tokens - 1 = ground (arith, r.within) in
      let same : some t ≡ some r.end_token = sym e ∙ (ap (get_elem? p.tokens) here ∙ r.last) in
      absurd (cc (same, h, r.eof))
]

pub is_at_end_lem :
    (p : Parser) → Ready p → (is_at_end p ≡ done true p) ⊎ ((is_at_end p ≡ done false p) × Moved p)
unfolding is_at_end advance previous
is_at_end_lem p r =
    let (t, here, e) = current_lem p r in
    elim (Bool-cases (is_type t.token_type TokenType.eof)) [
      | inl end ↦ inl (rw (here, end, is_at_end) refl)
      | inr open_ ↦
          let further = not_last p r t e open_ in
          let ready : Ready (moved p) = record {
            end_token = r.end_token;
            last = r.last;
            eof = r.eof;
            within = omega (arith, further);
          } in
          inr (
            rw (here, open_, is_at_end) refl,
            record {
              ready = ready;
              tok = t;
              back = rw e refl;
              on = rw (here, open_, e, advance) refl;
            },
          )
    ]

pub check_lem :
    (token_type : TokenType) (p : Parser)
    → Ready p
    → (check token_type p ≡ done false p) ⊎ ((check token_type p ≡ done true p) × Moved p)
unfolding check
check_lem token_type p r =
    let (t, here, e) = current_lem p r in
    elim (is_at_end_lem p r) [
      | inl end ↦ inl (rw (end, check) refl)
      | inr (open_, m) ↦ elim (Bool-cases (is_type t.token_type token_type)) [
        | inl found ↦ inr (rw (open_, here, found, check) refl, m)
        | inr other ↦ inl (rw (open_, here, other, check) refl)
      ]
    ]

pub on_check-Runs :
    {A : Type 0} (token_type : TokenType) (there other : Parse A) (p : Parser)
    → Ready p
    → (Moved p → Runs p (there p))
    → Runs p (other p)
    → Runs p (on_check token_type there other p)
on_check-Runs token_type there other p r f g = elim (check_lem token_type p r) [
  | inl none_ ↦ rw none_ g
  | inr (found, m) ↦ rw found (f m)
]

pub Runs-from :
    {A : Type 0} (p q : Parser) (r : Outcome A)
    → Runs q r
    → length q.tokens ≡ length p.tokens
    → p.pos ≤ q.pos
    → Runs p r
Runs-from p q _ fails e h = fails
Runs-from p q _ (returns r same on) e h = returns r (same ∙ e) (omega (arith, on))

pub on_match-Runs :
    {A : Type 0} (token_type : TokenType) (there other : Parse A) (p : Parser)
    → Ready p
    → (Moved p → Runs (moved p) (there (moved p)))
    → Runs p (other p)
    → Runs p (on_match token_type there other p)
unfolding match_token
on_match-Runs token_type there other p r f g = elim (check_lem token_type p r) [
  | inl none_ ↦ rw none_ g
  | inr (found, m) ↦ rw (found, m.on) (Runs-from p (moved p) _ (f m) refl (omega arith))
]

pub ret-Runs : {A : Type 0} (a : A) (p : Parser) → Ready p → Runs p (ret a p)
ret-Runs a p r = returns r refl (omega arith)

pub follow-Runs :
    {A B : Type 0} (rest : A → Parse B) (p : Parser) (r : Outcome A)
    → Runs p r
    → ((a : A) (p' : Parser)
        → Ready p'
        → length p'.tokens ≡ length p.tokens
        → p.pos ≤ p'.pos
        → Runs p' (rest a p'))
    → Runs p (follow rest r)
follow-Runs rest p stuck s f = elim s [ ]
follow-Runs rest p (failed e) s f = fails
follow-Runs rest p (done a p') (returns r same on) f = Runs-from p p' _ (f a p' r same on) same on

pub expect_failed-Runs :
    {A : Type 0} (what : Text) (p : Parser) → Ready p → Runs {A = A} p (expect_failed what p)
unfolding expect_failed
expect_failed-Runs what p r = let (t, here, e) = current_lem p r in rw (here, expect_failed) fails
