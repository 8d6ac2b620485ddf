-- ===== src/Query/Token.antt =====
-- src/core/query/lexer.rs: the tokens of the query language.
use jasonisnthappy.Base.{ℕ, Bool, ◌==◌}
use jasonisnthappy.Base.Text.{Text}

pub data TokenType : Type 0 where
  eof illegal : TokenType
  ident string number true_lit false_lit null_lit : TokenType
  gt gte lt lte is is_not : TokenType
  and or not : TokenType
  exists has any all : TokenType
  l_paren r_paren l_bracket r_bracket comma dot : TokenType

-- the place of a token type in the source's list
abbrev pub rank : TokenType → ℕ
rank eof = 0
rank illegal = 1
rank ident = 2
rank string = 3
rank number = 4
rank true_lit = 5
rank false_lit = 6
rank null_lit = 7
rank gt = 8
rank gte = 9
rank lt = 10
rank lte = 11
rank is = 12
rank is_not = 13
rank and = 14
rank or = 15
rank not = 16
rank exists = 17
rank has = 18
rank any = 19
rank all = 20
rank l_paren = 21
rank r_paren = 22
rank l_bracket = 23
rank r_bracket = 24
rank comma = 25
rank dot = 26

-- the derived `==` of the token types
abbrev pub is_type : TokenType → TokenType → Bool
is_type t type_ = rank t == rank type_

pub record Token : Type 0 where
  pub token_type : TokenType
  pub value : Text
  pub pos : ℕ
