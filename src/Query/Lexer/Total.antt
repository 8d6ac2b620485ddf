-- ===== src/Query/Lexer/Total.antt =====
-- src/core/query/lexer.rs: no token takes a slice out of range, and every token but the end moves
-- the lexer on.
use jasonisnthappy.Base.{
  ℕ, suc, ◌-◌, ◌≤◌, ◌<◌, ◌≡◌, ◌≢◌, refl, ap, ◌∙◌, ◌⊎◌, inl, inr, true, ◌&&◌, Option, some, length,
  take, drop, arith, ◌==◌, Bool-cases,
}
use jasonisnthappy.Base.Text.{Text}
use jasonisnthappy.Query.Lexer.{
  Unicode, Lexer, read_char, peek_char, skip_while, rounds, is_letter, is_digit, is_ident_char,
  in_string, read_identifier, read_number, read_string, skip_fraction,
}
use jasonisnthappy.Query.Lexer.Scan.{
  At, within_input, read_char-At, read_char-input, loop-Skipped, text_between-At, Skipped-moves,
}

-- A reading function that started at `i` returns a text, and stands behind `i`.
pub record Read (l : Lexer) (i : ℕ) (r : Option (Text × Lexer)) : Type 0 where
  pub value : Text
  pub rest : Lexer
  pub to : ℕ
  pub returned : r ≡ some (value, rest)
  pub at : At rest to
  pub same : rest.input ≡ l.input
  pub on : i < to

module _ (u : Unicode) where
  pub read_identifier-Read :
      (l : Lexer) (i : ℕ) → At l i → is_letter u l.ch ≡ true → Read l i (read_identifier u l)
  unfolding read_identifier
  read_identifier-Read l i a h =
      let l' = skip_while (rounds l) (is_ident_char u) l in
      let first : is_ident_char u l.ch ≡ true = unfold is_ident_char in rw h in
      let s =
        loop-Skipped (is_ident_char u) l i a (unfold is_ident_char is_letter is_digit in refl) in
      let (on, within) =
        Skipped-moves (is_ident_char u) l i l' a (unfold is_ident_char is_letter is_digit in refl)
          first s in
      let text =
        text_between-At l l' (l.pos - 1) i s.to (omega (arith, a.pos)) s.at s.same s.on within in
      record {
        value = take (s.to - i) (drop i l'.input);
        rest = l';
        to = s.to;
        returned = rw (text, read_identifier);
        at = s.at;
        same = s.same;
        on = on;
      }

  skip_fraction-Skipped :
      (l : Lexer) (i : ℕ)
      → At l i
      → (j : ℕ) × At (skip_fraction u l) j
        × ((skip_fraction u l).input ≡ l.input)
        × (i ≤ j)
        × ((j ≤ i) ⊎ (j ≤ length l.input))
  unfolding skip_fraction read_char
  skip_fraction-Skipped l i a = elim (Bool-cases (l.ch == b'.' && is_digit u (peek_char l))) [
    | inr whole ↦ rw (whole, skip_fraction) (i, a, refl, omega arith, inl (omega arith))
    | inl more ↦
        let inside = within_input l i a (λ e. ground (arith, more)) in
        let s =
          loop-Skipped (is_digit u) (read_char l) (suc i) (read_char-At l i a)
            (unfold is_digit in refl) in
        let width = ap (λ (t : Text). length t) (read_char-input l) in
        rw (more, skip_fraction)
          (
            s.to,
            s.at,
            s.same ∙ read_char-input l,
            omega (arith, s.on),
            inr (omega (arith, s.within, width, inside)),
          )
  ]

  pub read_number-Read :
      (l : Lexer) (i : ℕ) → At l i → is_digit u l.ch ≡ true → Read l i (read_number u l)
  unfolding read_number
  read_number-Read l i a h =
      let l₁ = skip_while (rounds l) (is_digit u) l in
      let l' = skip_fraction u l₁ in
      let s = loop-Skipped (is_digit u) l i a (unfold is_digit in refl) in
      let (on, within) = Skipped-moves (is_digit u) l i l₁ a (unfold is_digit in refl) h s in
      let (j, at, kept, further, bound) = skip_fraction-Skipped l₁ s.to s.at in
      let width = ap (λ (t : Text). length t) s.same in
      let same = kept ∙ s.same in
      let text =
        text_between-At l l' (l.pos - 1) i j (omega (arith, a.pos)) at same
          (omega (arith, s.on, further)) (omega (arith, bound, width, within)) in
      record {
        value = take (j - i) (drop i l'.input);
        rest = l';
        to = j;
        returned = rw (text, read_number);
        at = at;
        same = same;
        on = omega (arith, on, further);
      }

pub read_string-Read : (l : Lexer) (i : ℕ) → At l i → l.ch ≢ 0 → Read l i (read_string l)
unfolding read_string read_char
read_string-Read l i a h =
    let inside = within_input l i a h in
    let l₁ = read_char l in
    let a₁ = read_char-At l i a in
    let l₂ = skip_while (rounds l) (in_string l.ch) l₁ in
    let s = loop-Skipped (in_string l.ch) l₁ (suc i) a₁ (unfold in_string in ground arith) in
    let width = ap (λ (t : Text). length t) (read_char-input l) in
    let text =
      text_between-At l₁ l₂ (l₁.pos - 1) (suc i) s.to (omega (arith, a₁.pos)) s.at s.same s.on
        (omega (arith, s.within, width, inside)) in
    record {
      value = take (s.to - suc i) (drop (suc i) l₂.input);
      rest = read_char l₂;
      to = suc s.to;
      returned = rw (text, read_string);
      at = read_char-At l₂ s.to s.at;
      same = read_char-input l₂ ∙ (s.same ∙ read_char-input l);
      on = omega (arith, s.on);
    }
