-- ===== src/Index/RoundTrip.antt =====
-- src/core/index_key.rs: an index key is written and read back.
use jasonisnthappy.Base.{
  ℕ, ◌≡◌, ◌≢◌, refl, ap, ◌∙◌, none, some, [], ◌∷◌, ◌++◌, All, append_assoc, arith,
}
use jasonisnthappy.Base.Text.{Text}
use jasonisnthappy.Index.Keys.{
  IndexKey, Texts, split_once, serialize_index_key, deserialize_index_key,
}

abbrev pub Free : ℕ → Text → Type 0
Free c s = All (λ x. x ≢ c) s

split_once-append : (c : ℕ) (s t : Text) → Free c s → split_once c (s ++ (c ∷ t)) ≡ some (s, t)
unfolding split_once
split_once-append c [] t h = ground arith
split_once-append c (x ∷ xs) t h = ground (arith, h.0, split_once-append c xs t h.1)

module _ {N : Type 0} (t : Texts N) where
  -- A key reads back as it was written, if the text of its value reads back as the value and holds no
  -- bar. The document id may hold bars.
  pub deserialize_index_key-serialize_index_key :
      (key : IndexKey N)
      → t.from_str (t.to_string key.field_value) ≡ some key.field_value
      → Free b'|' (t.to_string key.field_value)
      → deserialize_index_key t (serialize_index_key t key) ≡ some key
  unfolding deserialize_index_key serialize_index_key
  deserialize_index_key-serialize_index_key key back free =
      let cut = split_once-append b'|' (t.to_string key.field_value) key.doc_id free in
      rw (cut, back, deserialize_index_key) refl

  -- A key whose value has a bar in its text, as a string with a bar has, is cut off at that bar when
  -- it is read: if the text before the bar is no value, the key does not read back.
  pub serialize_index_key-bar :
      (key : IndexKey N) (before behind : Text)
      → t.to_string key.field_value ≡ before ++ (b'|' ∷ behind)
      → Free b'|' before
      → t.from_str before ≡ none
      → deserialize_index_key t (serialize_index_key t key) ≡ none
  unfolding deserialize_index_key serialize_index_key
  serialize_index_key-bar key before behind e free broken =
      let whole : t.to_string key.field_value ++ (b'|' ∷ key.doc_id)
          ≡ before ++ (b'|' ∷ (behind ++ (b'|' ∷ key.doc_id))) =
        ap (λ (s : Text). s ++ (b'|' ∷ key.doc_id)) e
        ∙ append_assoc before (b'|' ∷ behind) (b'|' ∷ key.doc_id) in
      let cut = split_once-append b'|' before (behind ++ (b'|' ∷ key.doc_id)) free in
      rw (whole, cut, broken, deserialize_index_key) refl
