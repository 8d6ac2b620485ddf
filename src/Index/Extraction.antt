-- ===== src/Index/Extraction.antt =====
-- src/core/index_key.rs and src/core/query/parser.rs: an index reads the field that a query reads.
use jasonisnthappy.Base.{◌≡◌, refl, sym, inl, inr, List, [], ◌∷◌, Option-cases}
use jasonisnthappy.Base.Text.{Text, split}
use jasonisnthappy.Json.{Numbers, Value, Members, member_of}
use jasonisnthappy.Query.Eval.{descend, get_field}
use jasonisnthappy.Index.Keys.{extract_from, extract_field_value}

module _ (n : Numbers) where
  descend-null : (parts : List Text) → descend n Value.null parts ≡ Value.null
  unfolding descend
  descend-null [] = refl
  descend-null (part ∷ parts) = refl

  extract_from-descend :
      (v : Value n.Number) (parts : List Text) → extract_from n v parts ≡ descend n v parts
  unfolding extract_from descend
  extract_from-descend v [] = refl
  extract_from-descend (Value.object obj) (part ∷ parts) =
      elim (Option-cases (member_of n part obj)) [
        | inl absent ↦ rw (absent, extract_from, descend) (sym (descend-null parts))
        | inr (value, there) ↦ rw (there, extract_from, descend) (extract_from-descend value parts)
      ]
  extract_from-descend Value.null (part ∷ parts) = refl
  extract_from-descend (Value.bool b) (part ∷ parts) = refl
  extract_from-descend (Value.number x) (part ∷ parts) = refl
  extract_from-descend (Value.string s) (part ∷ parts) = refl
  extract_from-descend (Value.array items) (part ∷ parts) = refl

  -- The index and the query language read the same value from a document under every name of a field,
  -- although the index leaves its loop at the first missing part and the query goes on with null.
  pub extract_field_value-get_field :
      (doc : Members n.Number) (field : Text)
      → extract_field_value n doc field ≡ get_field n doc field
  unfolding extract_field_value get_field
  extract_field_value-get_field doc field =
      extract_from-descend (Value.object doc) (split b'.' field)
