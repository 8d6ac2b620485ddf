-- ===== src/Query/Tokenize.antt =====
-- src/core/query/lexer.rs: `next_token`, the keywords, and `tokenize`.
use jasonisnthappy.Base.{
  ℕ, zero, suc, ◌+◌, ◌-◌, ◌||◌, Option, none, some, List, [], ◌∷◌, length, ◌==◌, if◌then◌else◌,
}
use jasonisnthappy.Base.Text.{Text, text_eq, codes}
use jasonisnthappy.Query.Token.{TokenType, Token, is_type}
use jasonisnthappy.Query.Lexer.{
  Unicode, Lexer, new_lexer, read_char, peek_char, skip_whitespace, is_letter, is_digit, lowercase,
  read_identifier, read_number, read_string,
}

abbrev pub token : TokenType → Text → ℕ → Token
token t value pos = record { token_type = t; value = value; pos = pos }

-- the arms of the match on the lowercase text
unfoldable pub keyword : Text → TokenType
keyword s =
    if text_eq s (codes "and")
    then TokenType.and
    else if text_eq s (codes "or")
    then TokenType.or
    else if text_eq s (codes "not")
    then TokenType.not
    else if text_eq s (codes "is")
    then TokenType.is
    else if text_eq s (codes "exists")
    then TokenType.exists
    else if text_eq s (codes "has")
    then TokenType.has
    else if text_eq s (codes "any")
    then TokenType.any
    else if text_eq s (codes "all")
    then TokenType.all
    else if text_eq s (codes "true")
    then TokenType.true_lit
    else if text_eq s (codes "false")
    then TokenType.false_lit
    else if text_eq s (codes "null")
    then TokenType.null_lit
    else TokenType.ident

-- a token of the one character that stands there
abbrev pub single : TokenType → Lexer → Option (Token × Lexer)
single t l = some (token t (l.ch ∷ []) (l.pos - 1), read_char l)

-- `>` and `<`, or `>=` and `<=` if `=` follows
unfoldable pub with_equals : TokenType → TokenType → Lexer → Option (Token × Lexer)
with_equals alone both l =
    if peek_char l == b'='
    then some (token both (l.ch ∷ b'=' ∷ []) (l.pos - 1), read_char (read_char l))
    else some (token alone (l.ch ∷ []) (l.pos - 1), read_char l)

-- the token of a text that a reading function returned
abbrev pub worded : (Text → TokenType) → ℕ → Option (Text × Lexer) → Option (Token × Lexer)
worded type_of pos none = none
worded type_of pos (some (value, l)) = some (token (type_of value) value pos, l)

module _ (u : Unicode) where
  unfoldable pub lookup_keyword : Text → TokenType
  unfolding keyword
  lookup_keyword ident = keyword (lowercase u ident)

  -- the last arm of the match: identifiers, numbers and what is illegal
  unfoldable pub word_token : Lexer → Option (Token × Lexer)
  word_token l =
      if is_letter u l.ch
      then worded lookup_keyword (l.pos - 1) (read_identifier u l)
      else if is_digit u l.ch
      then worded (λ _. TokenType.number) (l.pos - 1) (read_number u l)
      else single TokenType.illegal l

  -- the arms of the match on the current character for a character that is there
  unfoldable pub visible_token : Lexer → Option (Token × Lexer)
  visible_token l =
      if l.ch == b'('
      then single TokenType.l_paren l
      else if l.ch == b')'
      then single TokenType.r_paren l
      else if l.ch == b'['
      then single TokenType.l_bracket l
      else if l.ch == b']'
      then single TokenType.r_bracket l
      else if l.ch == b','
      then single TokenType.comma l
      else if l.ch == b'.'
      then single TokenType.dot l
      else if l.ch == b'>'
      then with_equals TokenType.gt TokenType.gte l
      else if l.ch == b'<'
      then with_equals TokenType.lt TokenType.lte l
      else if l.ch == 34 || l.ch == 39
      then worded (λ _. TokenType.string) (l.pos - 1) (read_string l)
      else word_token l

  -- the match on the current character, behind the white space
  unfoldable pub token_at : Lexer → Option (Token × Lexer)
  token_at l = if l.ch == 0 then some (token TokenType.eof [] (l.pos - 1), l) else visible_token l

  unfoldable pub next_token : Lexer → Option (Token × Lexer)
  next_token l = token_at (skip_whitespace u l)

-- What `tokenize` returns: the tokens, or the message about an illegal one.
pub data Lexed : Type 0 where
  lexed : List Token → Lexed
  illegal_at : ℕ → Text → Lexed

abbrev pub push_token : Token → Option Lexed → Option Lexed
push_token t none = none
push_token t (some (lexed ts)) = some (lexed (t ∷ ts))
push_token t (some (illegal_at pos value)) = some (illegal_at pos value)

module _ (u : Unicode) where
  -- the loop, with fuel
  unfoldable pub tokenize_from : ℕ → Lexer → Option Lexed
  tokenize_from zero l = none
  tokenize_from (suc fuel) l = elim (next_token u l) [
    | none ↦ none
    | some (t, l') ↦
        if is_type t.token_type TokenType.illegal
        then some (illegal_at t.pos t.value)
        else if is_type t.token_type TokenType.eof
        then some (lexed (t ∷ []))
        else push_token t (tokenize_from fuel l')
  ]

  unfoldable pub tokenize : Text → Option Lexed
  tokenize query = tokenize_from (length query + 1) (new_lexer query)
