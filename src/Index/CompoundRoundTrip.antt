-- ===== src/Index/CompoundRoundTrip.antt =====
-- src/core/index_key.rs: a compound key is written and read back.
use jasonisnthappy.Base.{
  ℕ, ◌+◌, ◌≡◌, refl, ap, sym, ◌∙◌, inl, inr, false, some, List, [], ◌∷◌, ◌++◌, All, length, drop,
  arith, ltb, ◌==◌, Bool-cases,
}
use jasonisnthappy.Base.Text.{Text, split, join}
use jasonisnthappy.Json.{Value}
use jasonisnthappy.Index.Keys.{Texts}
use jasonisnthappy.Index.RoundTrip.{Free}
use jasonisnthappy.Index.Compound.{
  CompoundIndexKey, parts_of, read_values, from_parts, serialize_compound_index_key,
  deserialize_compound_index_key,
}

split-part : (c : ℕ) (p s : Text) → Free c p → split c (p ++ (c ∷ s)) ≡ p ∷ split c s
unfolding split
split-part c [] s h = ground arith
split-part c (x ∷ xs) s h = ground (arith, h.0, split-part c xs s h.1)

first_part : (c : ℕ) (s : Text) → (p : Text) × (ps : List Text) × (split c s ≡ p ∷ ps)
unfolding split
first_part c [] = ([], [], refl)
first_part c (x ∷ xs) = elim (Bool-cases (x == c)) [
  | inl bar ↦ ([], split c xs, rw (bar, split) refl)
  | inr other ↦ let (p, ps, e) = first_part c xs in (x ∷ p, ps, rw (other, e, split) refl)
]

join-onto_first :
    (c x : ℕ) (p : Text) (ps : List Text) → join c ((x ∷ p) ∷ ps) ≡ x ∷ join c (p ∷ ps)
unfolding join
join-onto_first c x p [] = refl
join-onto_first c x p (q ∷ qs) = refl

pub join-split : (c : ℕ) (s : Text) → join c (split c s) ≡ s
unfolding split join
join-split c [] = refl
join-split c (x ∷ xs) =
    let (p, ps, e) = first_part c xs in
    let rest : join c (p ∷ ps) ≡ xs = ap (join c) (sym e) ∙ join-split c xs in
    elim (Bool-cases (x == c)) [
      | inl bar ↦
          let at : c ≡ x = ground arith in
          rw (bar, e, split) (ap (λ (t : Text). c ∷ t) rest ∙ ap (λ (y : ℕ). y ∷ xs) at)
      | inr other ↦ rw (other, e, split) (join-onto_first c x p ps ∙ ap (λ (t : Text). x ∷ t) rest)
    ]

module _ {N : Type 0} (t : Texts N) where
  -- The text of `v` holds no bar and reads back.
  abbrev pub IsReadable : Value N → Type 0
  IsReadable v = Free b'|' (t.to_string v) × (t.from_str (t.to_string v) ≡ some v)

  join-parts_of :
      (v : Value N) (vs : List (Value N)) (d : Text)
      → join b'|' (t.to_string v ∷ parts_of t vs d)
        ≡ t.to_string v ++ (b'|' ∷ join b'|' (parts_of t vs d))
  unfolding join
  join-parts_of v [] d = refl
  join-parts_of v (w ∷ ws) d = refl

  -- the values in front of the parts of the document id
  abbrev values_then : List (Value N) → List Text → List Text
  values_then [] rest = rest
  values_then (v ∷ vs) rest = t.to_string v ∷ values_then vs rest

  split-parts_of :
      (vs : List (Value N)) (d : Text)
      → All IsReadable vs
      → split b'|' (join b'|' (parts_of t vs d)) ≡ values_then vs (split b'|' d)
  split-parts_of [] d h = unfold join in refl
  split-parts_of (v ∷ vs) d (h, hs) =
      ap (split b'|') (join-parts_of v vs d)
      ∙ (split-part b'|' (t.to_string v) (join b'|' (parts_of t vs d)) h.0
          ∙ ap (λ (ps : List Text). t.to_string v ∷ ps) (split-parts_of vs d hs))

  read_values-values_then :
      (vs : List (Value N)) (rest : List Text)
      → All IsReadable vs
      → read_values t (length vs) (values_then vs rest) ≡ some vs
  unfolding read_values
  read_values-values_then [] rest h = refl
  read_values-values_then (v ∷ vs) rest (h, hs) =
      rw (h.1, read_values-values_then vs rest hs, read_values) refl

  drop-values_then :
      (vs : List (Value N)) (rest : List Text) → drop (length vs) (values_then vs rest) ≡ rest
  unfolding drop
  drop-values_then [] rest = refl
  drop-values_then (v ∷ vs) rest = drop-values_then vs rest

  length-values_then :
      (vs : List (Value N)) (rest : List Text)
      → length (values_then vs rest) ≡ length vs + length rest
  length-values_then [] rest = omega arith
  length-values_then (v ∷ vs) rest = omega (arith, length-values_then vs rest)

  from_parts-values_then :
      (vs : List (Value N)) (d p : Text) (ps : List Text)
      → All IsReadable vs
      → join b'|' (p ∷ ps) ≡ d
      → from_parts t (values_then vs (p ∷ ps)) (length vs)
        ≡ some (record { field_values = vs; doc_id = d })
  unfolding from_parts
  from_parts-values_then vs d p ps h e =
      let enough : ltb (length (values_then vs (p ∷ ps))) (length vs + 1) ≡ false =
        ground (arith, length-values_then vs (p ∷ ps)) in
      rw
        (enough, read_values-values_then vs (p ∷ ps) h, drop-values_then vs (p ∷ ps), e, from_parts)
        refl

  -- A compound key reads back as it was written, with any document id, bars included, if the text of
  -- each of its values holds no bar and reads back as the value.
  pub deserialize-serialize_compound_index_key :
      (key : CompoundIndexKey N)
      → All IsReadable key.field_values
      → deserialize_compound_index_key t
          (serialize_compound_index_key t key)
          (length key.field_values)
        ≡ some key
  unfolding deserialize_compound_index_key serialize_compound_index_key
  deserialize-serialize_compound_index_key key h =
      let vs = key.field_values in
      let (p, ps, e) = first_part b'|' key.doc_id in
      let back : join b'|' (p ∷ ps) ≡ key.doc_id =
        ap (join b'|') (sym e) ∙ join-split b'|' key.doc_id in
      let parts : split b'|' (join b'|' (parts_of t vs key.doc_id)) ≡ values_then vs (p ∷ ps) =
        split-parts_of vs key.doc_id h ∙ ap (values_then vs) e in
      ap (λ (parts : List Text). from_parts t parts (length vs)) parts
      ∙ from_parts-values_then vs key.doc_id p ps h back
