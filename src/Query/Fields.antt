-- ===== src/Query/Fields.antt =====
-- src/core/query/parser.rs: `get_field` takes a dotted name apart at its dots.
use jasonisnthappy.Base.{
  ℕ, ◌≡◌, refl, sym, inl, inr, List, [], ◌∷◌, ◌++◌, ◌==◌, ==_refl, Bool-cases, Option-cases,
}
use jasonisnthappy.Base.Text.{Text, split, onto_first}
use jasonisnthappy.Json.{Numbers, Value, Members, member_of}
use jasonisnthappy.Query.Eval.{descend, get_field}

onto_first-append :
    (x : ℕ) (ps qs : List Text) (p : Text)
    → onto_first x ((p ∷ ps) ++ qs) ≡ onto_first x (p ∷ ps) ++ qs
onto_first-append x ps qs p = refl

-- at least one part
split-cons : (c : ℕ) (s : Text) → (p : Text) × (ps : List Text) × (split c s ≡ p ∷ ps)
unfolding split
split-cons c [] = ([], [], refl)
split-cons c (x ∷ xs) = elim (Bool-cases (x == c)) [
  | inl dot ↦ ([], split c xs, rw (dot, split) refl)
  | inr other ↦ let (p, ps, e) = split-cons c xs in (x ∷ p, ps, rw (other, e, split) refl)
]

split-append : (c : ℕ) (s t : Text) → split c (s ++ (c ∷ t)) ≡ split c s ++ split c t
unfolding split
split-append c [] t = rw (==_refl c) refl
split-append c (x ∷ xs) t = elim (Bool-cases (x == c)) [
  | inl dot ↦ rw (dot, split-append c xs t, split) refl
  | inr other ↦ let (p, ps, e) = split-cons c xs in rw (other, split-append c xs t, e, split) refl
]

module _ (n : Numbers) where
  descend-null : (parts : List Text) → descend n Value.null parts ≡ Value.null
  unfolding descend
  descend-null [] = refl
  descend-null (part ∷ parts) = refl

  -- what a value that is reached holds under a further name
  abbrev pub beneath : Value n.Number → Text → Value n.Number
  beneath (Value.object members) field = get_field n members field
  beneath _ field = Value.null

  descend-append :
      (v : Value n.Number) (ps qs : List Text)
      → descend n v (ps ++ qs) ≡ descend n (descend n v ps) qs
  unfolding descend
  descend-append v [] qs = refl
  descend-append (Value.object members) (part ∷ parts) qs =
      elim (Option-cases (member_of n part members)) [
        | inl absent ↦ rw (absent, descend) (descend-append Value.null parts qs)
        | inr (v, found) ↦ rw (found, descend) (descend-append v parts qs)
      ]
  descend-append Value.null (part ∷ parts) qs = sym (descend-null qs)
  descend-append (Value.bool b) (part ∷ parts) qs = sym (descend-null qs)
  descend-append (Value.number x) (part ∷ parts) qs = sym (descend-null qs)
  descend-append (Value.string s) (part ∷ parts) qs = sym (descend-null qs)
  descend-append (Value.array items) (part ∷ parts) qs = sym (descend-null qs)

  beneath-descend :
      (v : Value n.Number) (field p : Text) (ps : List Text)
      → split b'.' field ≡ p ∷ ps
      → descend n v (split b'.' field) ≡ beneath v field
  unfolding descend get_field
  beneath-descend (Value.object members) field p ps e = refl
  beneath-descend Value.null field p ps e = rw e refl
  beneath-descend (Value.bool b) field p ps e = rw e refl
  beneath-descend (Value.number x) field p ps e = rw e refl
  beneath-descend (Value.string s) field p ps e = rw e refl
  beneath-descend (Value.array items) field p ps e = rw e refl

  -- A name with a dot reads the first part, and the second part in the object found there; where there
  -- is no object, it reads null.
  pub get_field-append :
      (doc : Members n.Number) (outer inner : Text)
      → get_field n doc (outer ++ (b'.' ∷ inner)) ≡ beneath (get_field n doc outer) inner
  unfolding get_field
  get_field-append doc outer inner =
      let reached = descend n (Value.object doc) (split b'.' outer) in
      let (p, ps, e) = split-cons b'.' inner in
      rw
        (
          split-append b'.' outer inner,
          descend-append (Value.object doc) (split b'.' outer) (split b'.' inner),
        )
        (beneath-descend reached inner p ps e)
