-- ===== src/Query/Orders.antt =====
-- src/core/query/parser.rs: how the comparison operators order strings.
use jasonisnthappy.Base.{
  ℕ, ◌<◌, ◌≡◌, ◌↔◌, inl, inr, refl, sym, ◌∙◌, Bool, true, not, ◌||◌, [], ◌∷◌, arith, ltb,
  Bool-cases,
}
use jasonisnthappy.Base.Text.{Text, text_eq, text_cmp, codes}
use jasonisnthappy.Json.{Numbers, Value, value_eq}
use jasonisnthappy.Query.Eval.{
  is_lt, is_gt, compare_equal, compare_greater, compare_less, compare_with,
}

-- `s` stands before `t` in a dictionary: it is a proper prefix, or smaller at the first character in
-- which they differ.
pub data Precedes : Text → Text → Type 0 where
  shorter : {y : ℕ} {ys : Text} → Precedes [] (y ∷ ys)
  smaller : {x y : ℕ} {xs ys : Text} → x < y → Precedes (x ∷ xs) (y ∷ ys)
  behind : {x y : ℕ} {xs ys : Text} → x ≡ y → Precedes xs ys → Precedes (x ∷ xs) (y ∷ ys)

is_lt-Precedes : (s t : Text) → is_lt (text_cmp s t) ≡ true → Precedes s t
unfolding text_cmp
is_lt-Precedes [] [] h = cc
is_lt-Precedes [] (y ∷ ys) h = shorter
is_lt-Precedes (x ∷ xs) [] h = cc
is_lt-Precedes (x ∷ xs) (y ∷ ys) h = elim (Bool-cases (ltb x y)) [
  | inl below ↦ smaller (ground (arith, below))
  | inr above ↦ behind (ground (arith, h, above)) (is_lt-Precedes xs ys (ground (arith, h, above)))
]

Precedes-is_lt : (s t : Text) → Precedes s t → is_lt (text_cmp s t) ≡ true
unfolding text_cmp
Precedes-is_lt [] _ shorter = refl
Precedes-is_lt (x ∷ xs) [] h = elim h [ ]
Precedes-is_lt (x ∷ xs) (y ∷ ys) (smaller h) = ground (arith, h)
Precedes-is_lt (x ∷ xs) (y ∷ ys) (behind e h) = ground (arith, e, Precedes-is_lt xs ys h)

is_gt-swap : (s t : Text) → is_gt (text_cmp s t) ≡ is_lt (text_cmp t s)
unfolding text_cmp
is_gt-swap [] [] = refl
is_gt-swap [] (y ∷ ys) = refl
is_gt-swap (x ∷ xs) [] = refl
is_gt-swap (x ∷ xs) (y ∷ ys) = ground (arith, is_gt-swap xs ys)

greater_or_equal : (s t : Text) → is_gt (text_cmp s t) || text_eq s t ≡ not (is_lt (text_cmp s t))
unfolding text_cmp text_eq
greater_or_equal [] [] = refl
greater_or_equal [] (y ∷ ys) = refl
greater_or_equal (x ∷ xs) [] = refl
greater_or_equal (x ∷ xs) (y ∷ ys) = ground (arith, greater_or_equal xs ys)

less_or_equal : (s t : Text) → is_lt (text_cmp s t) || text_eq s t ≡ not (is_gt (text_cmp s t))
unfolding text_cmp text_eq
less_or_equal [] [] = refl
less_or_equal [] (y ∷ ys) = refl
less_or_equal (x ∷ xs) [] = refl
less_or_equal (x ∷ xs) (y ∷ ys) = ground (arith, less_or_equal xs ys)

-- what the comparison of two strings answers
abbrev pub holds : Numbers → Text → Text → Text → Bool
holds n op s t = compare_with n op (Value.string s) (Value.string t)

-- On two strings `<` and `>` are the dictionary order of their characters, one way and the other;
-- `>=` holds exactly where `<` does not, and `<=` where `>` does not.
pub compare_with-Precedes :
    (n : Numbers) (s t : Text)
    → ((holds n (codes "<") s t ≡ true) ↔ Precedes s t)
      × ((holds n (codes ">") s t ≡ true) ↔ Precedes t s)
      × (holds n (codes ">=") s t ≡ not (holds n (codes "<") s t))
      × (holds n (codes "<=") s t ≡ not (holds n (codes ">") s t))
unfolding compare_with compare_equal compare_greater compare_less value_eq text_eq
compare_with-Precedes n s t =
    let swap = is_gt-swap s t in
    (
      (is_lt-Precedes s t, Precedes-is_lt s t),
      ((λ h. is_lt-Precedes t s (sym swap ∙ h)), λ h. swap ∙ Precedes-is_lt t s h),
      greater_or_equal s t,
      less_or_equal s t,
    )
