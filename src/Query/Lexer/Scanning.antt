-- ===== src/Query/Lexer/Scanning.antt =====
-- src/core/query/lexer.rs: what `next_token` promises for each kind of token.
use jasonisnthappy.Base.{
  false, ℕ, suc, ◌-◌, ◌≤◌, ◌<◌, ◌≡◌, ◌≢◌, refl, ◌∙◌, ◌⊎◌, inl, inr, Option, some, [], ◌∷◌, length,
  arith, ◌==◌, Bool-cases,
}
use jasonisnthappy.Base.Text.{Text}
use jasonisnthappy.Query.Token.{TokenType, Token, is_type}
use jasonisnthappy.Query.Lexer.{char_at, Unicode, Lexer, read_char, peek_char, is_letter, is_digit}
use jasonisnthappy.Query.Lexer.Scan.{At, within_input, read_char-At, read_char-input}
use jasonisnthappy.Query.Tokenize.{
  keyword, token, single, with_equals, worded, word_token, lookup_keyword,
}
use jasonisnthappy.Query.Lexer.Total.{Read, read_identifier-Read, read_number-Read}

-- What `next_token` returns at `i`: a token from there on; the end token stands where no
-- character is, or the character '\0'; any other begins within the input, and the lexer stands behind
-- its beginning.
pub record Scanned (l : Lexer) (i : ℕ) (r : Option (Token × Lexer)) : Type 0 where
  pub tok : Token
  pub rest : Lexer
  pub to : ℕ
  pub returned : r ≡ some (tok, rest)
  pub at : At rest to
  pub same : rest.input ≡ l.input
  pub begin : i ≤ tok.pos
  pub moved :
      ((tok.token_type ≡ TokenType.eof) × (char_at l.input tok.pos ≡ 0))
      ⊎ ((is_type tok.token_type TokenType.eof ≡ false)
          × ((tok.pos < to) × (tok.pos < length l.input)))

pub single-Scanned :
    (t : TokenType) (l : Lexer) (i : ℕ)
    → At l i
    → l.ch ≢ 0
    → is_type t TokenType.eof ≡ false
    → Scanned l i (single t l)
single-Scanned t l i a h word = record {
  tok = token t (l.ch ∷ []) (l.pos - 1);
  rest = read_char l;
  to = suc i;
  returned = refl;
  at = read_char-At l i a;
  same = read_char-input l;
  begin = omega (arith, a.pos);
  moved = inr (word, (omega (arith, a.pos), omega (arith, a.pos, within_input l i a h)));
}

pub with_equals-Scanned :
    (alone both : TokenType) (l : Lexer) (i : ℕ)
    → At l i
    → l.ch ≢ 0
    → is_type alone TokenType.eof ≡ false
    → is_type both TokenType.eof ≡ false
    → Scanned l i (with_equals alone both l)
unfolding with_equals
with_equals-Scanned alone both l i a h word word_both = elim (Bool-cases (peek_char l == b'=')) [
  | inl both_there ↦
      rw (both_there, with_equals)
        (record {
          tok = token both (l.ch ∷ b'=' ∷ []) (l.pos - 1);
          rest = read_char (read_char l);
          to = suc (suc i);
          returned = refl;
          at = read_char-At (read_char l) (suc i) (read_char-At l i a);
          same = read_char-input (read_char l) ∙ read_char-input l;
          begin = omega (arith, a.pos);
          moved =
              inr (word_both, (omega (arith, a.pos), omega (arith, a.pos, within_input l i a h)));
        })
  | inr one ↦ rw (one, with_equals) (single-Scanned alone l i a h word)
]

pub worded-Scanned :
    (type_of : Text → TokenType) (l : Lexer) (i : ℕ) (r : Option (Text × Lexer))
    → At l i
    → l.ch ≢ 0
    → Read l i r
    → ((s : Text) → is_type (type_of s) TokenType.eof ≡ false)
    → Scanned l i (worded type_of (l.pos - 1) r)
worded-Scanned type_of l i r a h d word = rw d.returned (record {
  tok = token (type_of d.value) d.value (l.pos - 1);
  rest = d.rest;
  to = d.to;
  returned = refl;
  at = d.at;
  same = d.same;
  begin = omega (arith, a.pos);
  moved =
      inr (word d.value, (omega (arith, a.pos, d.on), omega (arith, a.pos, within_input l i a h)));
})

-- no word is the end token
keyword-is_type : (u : Unicode) (s : Text) → is_type (lookup_keyword u s) TokenType.eof ≡ false
unfolding lookup_keyword keyword
keyword-is_type u s = ground arith

module _ (u : Unicode) where
  pub word_token-Scanned : (l : Lexer) (i : ℕ) → At l i → l.ch ≢ 0 → Scanned l i (word_token u l)
  unfolding word_token
  word_token-Scanned l i a h = elim (Bool-cases (is_letter u l.ch)) [
    | inl letter ↦
        rw (letter, word_token)
          (worded-Scanned (lookup_keyword u) l i _ a h (read_identifier-Read u l i a letter)
            (keyword-is_type u))
    | inr other ↦ elim (Bool-cases (is_digit u l.ch)) [
      | inl digit ↦
          rw (other, digit, word_token)
            (worded-Scanned (λ _. TokenType.number) l i _ a h (read_number-Read u l i a digit)
              (λ s. refl))
      | inr neither ↦
          rw (other, neither, word_token) (single-Scanned TokenType.illegal l i a h refl)
    ]
  ]
