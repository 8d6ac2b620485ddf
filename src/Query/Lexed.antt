-- ===== src/Query/Lexed.antt =====
-- src/core/query/lexer.rs: `tokenize` reads every text to its end or to an illegal character.
use jasonisnthappy.Base.{
  ℕ, zero, suc, ◌+◌, ◌-◌, ◌≤◌, ◌<◌, ◌≡◌, ◌≢◌, refl, ap, sym, ◌∙◌, inl, inr, Bool, true, false, ◌||◌,
  Option, some, List, [], ◌∷◌, length, arith, ◌==◌, Bool-cases, if◌then◌else◌,
}
use jasonisnthappy.Base.Text.{Text}
use jasonisnthappy.Query.Token.{TokenType, Token, is_type}
use jasonisnthappy.Query.Lexer.{
  char_at, Unicode, Lexer, new_lexer, skip_whitespace, is_space, rounds, skip_while, read_char,
}
use jasonisnthappy.Query.Lexer.Scan.{At, loop-Skipped}
use jasonisnthappy.Query.Lexer.Total.{read_string-Read}
use jasonisnthappy.Query.Lexer.Scanning.{
  word_token-Scanned, Scanned, single-Scanned, with_equals-Scanned, worded-Scanned,
}
use jasonisnthappy.Query.Tokenize.{
  token, single, token_at, visible_token, next_token, Lexed, lexed, illegal_at, push_token,
  tokenize_from, tokenize,
}

either-Scanned :
    {l : Lexer} {i : ℕ} {r s : Option (Token × Lexer)} (b : Bool)
    → Scanned l i r
    → Scanned l i s
    → Scanned l i (if b then r else s)
either-Scanned true p q = p
either-Scanned false p q = q

-- a token that is neither the end nor illegal
abbrev pub Word : Token → Type 0
Word t =
    (is_type t.token_type TokenType.eof ≡ false) × (is_type t.token_type TokenType.illegal ≡ false)

-- Tokens that begin from `i` on, one behind the other within the text, up to the end of the input.
pub data Ordered (text : Text) : ℕ → List Token → Type 0 where
  last :
      {i : ℕ} {t : Token}
      → is_type t.token_type TokenType.eof ≡ true
      → i ≤ t.pos
      → char_at text t.pos ≡ 0
      → Ordered text i (t ∷ [])
  more :
      {i : ℕ} {t : Token} {ts : List Token}
      → Word t
      → i ≤ t.pos
      → t.pos < length text
      → Ordered text (suc t.pos) ts
      → Ordered text i (t ∷ ts)

Ordered-weaken :
    {text : Text} {i j : ℕ} {ts : List Token} → i ≤ j → Ordered text j ts → Ordered text i ts
Ordered-weaken h (last e k z) = last e (omega arith) z
Ordered-weaken h (more w k b o) = more w (omega arith) b o

-- What `tokenize` promises for a text.
pub data Result (text : Text) (i : ℕ) : Option Lexed → Type 0 where
  tokens : {ts : List Token} → Ordered text i ts → Result text i (some (lexed ts))
  illegal :
      {pos : ℕ} {value : Text}
      → i ≤ pos
      → pos < length text
      → Result text i (some (illegal_at pos value))

Result-weaken :
    {text : Text} {i j : ℕ} {r : Option Lexed} → i ≤ j → Result text j r → Result text i r
Result-weaken h (tokens o) = tokens (Ordered-weaken h o)
Result-weaken h (illegal k b) = illegal (omega arith) b

push_token-Result :
    {text : Text} {i : ℕ} (t : Token) (r : Option Lexed)
    → Word t
    → i ≤ t.pos
    → t.pos < length text
    → Result text (suc t.pos) r
    → Result text i (push_token t r)
push_token-Result t _ w h b (tokens o) = tokens (more w h b o)
push_token-Result t _ w h b (illegal k c) = illegal (omega arith) c

module _ (u : Unicode) where
  visible_token-Scanned : (l : Lexer) (i : ℕ) → At l i → l.ch ≢ 0 → Scanned l i (visible_token u l)
  unfolding visible_token
  visible_token-Scanned l i a h =
      let one : (t : TokenType) → is_type t TokenType.eof ≡ false → Scanned l i (single t l) =
        λ t word. single-Scanned t l i a h word in
      either-Scanned (l.ch == b'(') (one TokenType.l_paren refl) (
        either-Scanned (l.ch == b')') (one TokenType.r_paren refl) (
          either-Scanned (l.ch == b'[') (one TokenType.l_bracket refl) (
            either-Scanned (l.ch == b']') (one TokenType.r_bracket refl) (
              either-Scanned (l.ch == b',') (one TokenType.comma refl) (
                either-Scanned (l.ch == b'.') (one TokenType.dot refl) (
                  either-Scanned (l.ch == b'>')
                    (with_equals-Scanned TokenType.gt TokenType.gte l i a h refl refl)
                    (either-Scanned (l.ch == b'<')
                      (with_equals-Scanned TokenType.lt TokenType.lte l i a h refl refl)
                      (either-Scanned (l.ch == 34 || l.ch == 39)
                        (worded-Scanned (λ _. TokenType.string) l i _ a h (read_string-Read l i a h)
                          (λ s. refl))
                        (word_token-Scanned u l i a h)))))))))

  token_at-Scanned : (l : Lexer) (i : ℕ) → At l i → Scanned l i (token_at u l)
  unfolding token_at
  token_at-Scanned l i a = elim (Bool-cases (l.ch == 0)) [
    | inl end ↦
        let spot : l.pos - 1 ≡ i = omega (arith, a.pos) in
        let zero_there : l.ch ≡ 0 = ground arith in
        let stop : char_at l.input (l.pos - 1) ≡ 0 = rw spot (sym a.ch ∙ zero_there) in
        rw (end, token_at)
          (record {
            tok = token TokenType.eof [] (l.pos - 1);
            rest = l;
            to = i;
            returned = refl;
            at = a;
            same = refl;
            begin = omega (arith, a.pos);
            moved = inl (refl, stop);
          })
    | inr there ↦ rw (there, token_at) (visible_token-Scanned l i a (λ e. ground arith))
  ]

  next_token-Scanned : (l : Lexer) (i : ℕ) → At l i → Scanned l i (next_token u l)
  unfolding next_token skip_whitespace
  next_token-Scanned l i a =
      let s = loop-Skipped (is_space u) l i a (unfold is_space in refl) in
      let t = token_at-Scanned (skip_while (rounds l) (is_space u) l) s.to s.at in
      record {
        tok = t.tok;
        rest = t.rest;
        to = t.to;
        returned = t.returned;
        at = t.at;
        same = t.same ∙ s.same;
        begin = omega (arith, t.begin, s.on);
        moved = rw (sym s.same) t.moved;
      }

  tokenize_from-Result :
      (fuel : ℕ) (l : Lexer) (i : ℕ)
      → At l i
      → 0 < fuel
      → length l.input < i + fuel
      → Result l.input i (tokenize_from u fuel l)
  unfolding tokenize_from
  tokenize_from-Result zero l i a p h = absurd (omega arith)
  tokenize_from-Result (suc fuel) l i a p h =
      let s = next_token-Scanned l i a in
      rw (s.returned, tokenize_from)
        (elim (Bool-cases (is_type s.tok.token_type TokenType.illegal)) [
          | inl bad ↦ rw bad (elim s.moved [
            | inl (end, _) ↦
                absurd (cc (ap (λ (t : TokenType). is_type t TokenType.illegal) end, bad))
            | inr (_, (_, within)) ↦ illegal s.begin within
          ])
          | inr good ↦ rw good (elim (Bool-cases (is_type s.tok.token_type TokenType.eof)) [
            | inl end ↦ rw end (elim s.moved [
              | inl (_, stop) ↦ tokens (last end s.begin stop)
              | inr (other, _) ↦ absurd (cc (end, other))
            ])
            | inr word ↦ rw word (elim s.moved [
              | inl (end, _) ↦
                  absurd (cc (ap (λ (t : TokenType). is_type t TokenType.eof) end, word))
              | inr (_, (on, within)) ↦
                  push_token-Result s.tok _ (word, good) s.begin within
                    (Result-weaken on (
                      rw (← s.same) (
                        tokenize_from-Result fuel s.rest s.to s.at (omega arith)
                          (rw s.same (omega (arith, on, s.begin))))))
            ])
          ])
        ])

  -- For every text the lexer returns: it never slices out of range and its loops end. It returns
  -- either tokens, which begin one behind the other within the text and end with one end token, the
  -- only one, behind the text or at a character '\0', or the place of an illegal character, which lies within the text.
  pub tokenize-Result : (query : Text) → Result query 0 (tokenize u query)
  unfolding tokenize new_lexer read_char
  tokenize-Result query =
      tokenize_from-Result (length query + 1) (new_lexer query) 0 (record { pos = refl; ch = refl })
        (omega arith) (omega arith)
