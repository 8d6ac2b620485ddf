-- ===== src/Query/Lexer/Scan.antt =====
-- src/core/query/lexer.rs: where the lexer stands, and that its loops stay within the input.
use jasonisnthappy.Base.{
  ℕ, zero, suc, ◌+◌, ◌-◌, ◌≤◌, ◌<◌, ◌≡◌, ◌≢◌, refl, ap, sym, ◌∙◌, ◌⊎◌, inl, inr, Bool, true, false,
  some, [], ◌∷◌, length, ltb→lt, ltb→le, take, drop, arith, ltb, Bool-cases,
}
use jasonisnthappy.Base.Text.{Text}
use jasonisnthappy.Query.Lexer.{Lexer, char_at, read_char, skip_while, rounds, text_between}

-- The lexer's current character is the one at `i`.
pub record At (l : Lexer) (i : ℕ) : Type 0 where
  pub pos : l.pos ≡ suc i
  pub ch : l.ch ≡ char_at l.input i

pub char_at-end : (cs : Text) (i : ℕ) → length cs ≤ i → char_at cs i ≡ 0
unfolding char_at
char_at-end [] i h = refl
char_at-end (c ∷ cs) zero h = absurd (omega arith)
char_at-end (c ∷ cs) (suc i) h = char_at-end cs i (omega arith)

-- a character other than '\0' stands within the input
pub within_input : (l : Lexer) (i : ℕ) → At l i → l.ch ≢ 0 → i < length l.input
within_input l i a h = elim (Bool-cases (ltb i (length l.input))) [
  | inl within ↦ ground arith
  | inr behind ↦ absurd (h (a.ch ∙ char_at-end l.input i (ground arith)))
]

pub read_char-At : (l : Lexer) (i : ℕ) → At l i → At (read_char l) (suc i)
unfolding read_char
read_char-At l i a = record { pos = omega (arith, a.pos); ch = ap (char_at l.input) a.pos }

pub read_char-input : (l : Lexer) → (read_char l).input ≡ l.input
unfolding read_char
read_char-input l = refl

-- What a loop over the characters leaves: it went on from `i` to `j` within the input, and stands
-- at a character that fails the test.
pub record Skipped (test : ℕ → Bool) (l : Lexer) (i : ℕ) (l' : Lexer) : Type 0 where
  pub to : ℕ
  pub at : At l' to
  pub same : l'.input ≡ l.input
  pub on : i ≤ to
  pub within : (to ≤ i) ⊎ (to ≤ length l.input)
  pub stopped : test l'.ch ≡ false

skip_while-Skipped :
    (fuel : ℕ) (test : ℕ → Bool) (l : Lexer) (i : ℕ)
    → At l i
    → test 0 ≡ false
    → length l.input < i + fuel
    → Skipped test l i (skip_while fuel test l)
unfolding skip_while
skip_while-Skipped zero test l i a z h = record {
  to = i;
  at = a;
  same = refl;
  on = omega arith;
  within = inl (omega arith);
  stopped = rw (a.ch, char_at-end l.input i (omega arith)) z;
}
skip_while-Skipped (suc fuel) test l i a z h = elim (Bool-cases (test l.ch)) [
  | inl go ↦
      let inside = within_input l i a (λ e. cc (ap test e, go, z)) in
      let s =
        skip_while-Skipped fuel test (read_char l) (suc i) (read_char-At l i a) z
          (rw (read_char-input l) (omega arith)) in
      let same : (skip_while fuel test (read_char l)).input ≡ l.input =
        s.same ∙ read_char-input l in
      let width = ap (λ (t : Text). length t) (read_char-input l) in
      rw (go, skip_while)
        (record {
          to = s.to;
          at = s.at;
          same = same;
          on = omega (arith, s.on);
          within = inr (omega (arith, s.within, width));
          stopped = s.stopped;
        })
  | inr stop ↦
      rw (stop, skip_while)
        (record {
          to = i;
          at = a;
          same = refl;
          on = omega arith;
          within = inl (omega arith);
          stopped = stop;
        })
]

-- The rounds that the lexer gives a loop suffice.
pub loop-Skipped :
    (test : ℕ → Bool) (l : Lexer) (i : ℕ)
    → At l i
    → test 0 ≡ false
    → Skipped test l i (skip_while (rounds l) test l)
loop-Skipped test l i a z = skip_while-Skipped (rounds l) test l i a z (omega arith)

-- A loop whose test the first character passes moves on.
pub Skipped-moves :
    (test : ℕ → Bool) (l : Lexer) (i : ℕ) (l' : Lexer)
    → At l i
    → test 0 ≡ false
    → test l.ch ≡ true
    → (s : Skipped test l i l') → (i < s.to) × (s.to ≤ length l.input)
Skipped-moves test l i l' a z h s = elim (Bool-cases (ltb i s.to)) [
  | inl on ↦ (ground arith, omega (arith, s.within, ltb→lt i s.to on))
  | inr stuck ↦
      let here : s.to ≡ i = omega (arith, s.on, ltb→le i s.to stuck) in
      let same : l'.ch ≡ l.ch =
        s.at.ch
        ∙ (ap (λ (t : Text). char_at t s.to) s.same ∙ (ap (char_at l.input) here ∙ sym a.ch)) in
      cc (ap test same, h, s.stopped)
]

pub text_between-some :
    (l : Lexer) (start stop : ℕ)
    → start ≤ stop
    → stop ≤ length l.input
    → text_between l start stop ≡ some (take (stop - start) (drop start l.input))
unfolding text_between
text_between-some l start stop h k = ground arith

-- the text from `i` to where another lexer over the same input stands
pub text_between-At :
    (l l' : Lexer) (start i to : ℕ)
    → start ≡ i
    → At l' to
    → l'.input ≡ l.input
    → i ≤ to
    → to ≤ length l.input
    → text_between l' start (l'.pos - 1) ≡ some (take (to - i) (drop i l'.input))
text_between-At l l' start i to e a same h k =
    let stop : l'.pos - 1 ≡ to = omega (arith, a.pos) in
    rw (e, stop) (text_between-some l' i to h (omega (arith, ap (λ (t : Text). length t) same)))
