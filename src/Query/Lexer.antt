-- ===== src/Query/Lexer.antt =====
-- src/core/query/lexer.rs: `Lexer` and `tokenize`. Characters are code points. A slice that the
-- source takes out of range would panic; `none` stands for that. The loops take fuel, and
-- `tokenize` gives each of them enough.
pub mod Scan
pub mod Total
pub mod Scanning
use jasonisnthappy.Base.{
  ℕ, zero, suc, ◌+◌, ◌-◌, Bool, true, false, ◌&&◌, ◌||◌, not, Option, none, some, [], ◌∷◌, ◌++◌,
  length, take, drop, ltb, leb, ◌==◌, if◌then◌else◌,
}
use jasonisnthappy.Base.Text.{Text}

-- The tables of Unicode beyond ASCII, which are the standard library's.
pub record Unicode : Type 0 where
  pub is_alphabetic : ℕ → Bool
  pub is_numeric : ℕ → Bool
  pub is_whitespace : ℕ → Bool
  pub to_lowercase : ℕ → Text

abbrev between : ℕ → ℕ → ℕ → Bool
between lo hi c = leb lo c && leb c hi

pub record Lexer : Type 0 where
  pub input : Text
  pub pos : ℕ
  pub ch : ℕ

-- `self.input[self.pos]`, and '\0' behind the end
unfoldable pub char_at : Text → ℕ → ℕ
char_at [] i = 0
char_at (c ∷ cs) zero = c
char_at (c ∷ cs) (suc i) = char_at cs i

unfoldable pub read_char : Lexer → Lexer
read_char l = record l { ch = char_at l.input l.pos; pos = l.pos + 1 }

unfoldable pub peek_char : Lexer → ℕ
peek_char l = char_at l.input l.pos

unfoldable pub new_lexer : Text → Lexer
unfolding read_char
new_lexer input = read_char (record { input = input; pos = 0; ch = 0 })

-- `while test(self.ch) { self.read_char() }`
unfoldable pub skip_while : ℕ → (ℕ → Bool) → Lexer → Lexer
skip_while zero test l = l
skip_while (suc fuel) test l = elim (test l.ch) [
  | true ↦ skip_while fuel test (read_char l)
  | false ↦ l
]

-- rounds that suffice for a loop over the characters
abbrev pub rounds : Lexer → ℕ
rounds l = length l.input + 1

-- `self.input[start..stop]`
unfoldable pub text_between : Lexer → ℕ → ℕ → Option Text
text_between l start stop =
    if leb start stop && leb stop (length l.input)
    then some (take (stop - start) (drop start l.input))
    else none

module _ (u : Unicode) where
  unfoldable pub is_letter : ℕ → Bool
  is_letter c = if ltb c 128 then between b'A' b'Z' c || between b'a' b'z' c else u.is_alphabetic c

  unfoldable pub is_digit : ℕ → Bool
  is_digit c = if ltb c 128 then between b'0' b'9' c else u.is_numeric c

  unfoldable pub is_space : ℕ → Bool
  is_space c = if ltb c 128 then between 9 13 c || c == b' ' else u.is_whitespace c

  unfoldable pub lowercase : Text → Text
  lowercase [] = []
  lowercase (c ∷ cs) =
      (if ltb c 128 then (if between b'A' b'Z' c then c + 32 else c) ∷ [] else u.to_lowercase c)
      ++ lowercase cs

  unfoldable pub skip_whitespace : Lexer → Lexer
  skip_whitespace l = skip_while (rounds l) is_space l

  unfoldable pub is_ident_char : ℕ → Bool
  is_ident_char c = (is_letter c || is_digit c) || c == b'_'

  unfoldable pub read_identifier : Lexer → Option (Text × Lexer)
  read_identifier l =
      let start = l.pos - 1 in
      let l' = skip_while (rounds l) is_ident_char l in
      elim (text_between l' start (l'.pos - 1)) [ none ↦ none | some s ↦ some (s, l') ]

  -- the fraction of a number, if a digit follows the point
  unfoldable pub skip_fraction : Lexer → Lexer
  skip_fraction l =
      if l.ch == b'.' && is_digit (peek_char l)
      then skip_while (rounds l) is_digit (read_char l)
      else l

  unfoldable pub read_number : Lexer → Option (Text × Lexer)
  read_number l =
      let start = l.pos - 1 in
      let l' = skip_fraction (skip_while (rounds l) is_digit l) in
      elim (text_between l' start (l'.pos - 1)) [ none ↦ none | some s ↦ some (s, l') ]

-- the test of the loop of `read_string`
unfoldable pub in_string : ℕ → ℕ → Bool
in_string quote c = not (c == quote) && not (c == 0)

unfoldable pub read_string : Lexer → Option (Text × Lexer)
read_string l =
    let l₁ = read_char l in
    let start = l₁.pos - 1 in
    let l₂ = skip_while (rounds l) (in_string l.ch) l₁ in
    elim (text_between l₂ start (l₂.pos - 1)) [ none ↦ none | some s ↦ some (s, read_char l₂) ]
