-- ===== src/Document/Read.antt =====
-- src/core/document.rs: what `read_versioned_document` finds on the pages of a document.
use jasonisnthappy.Base.{
  ℕ, ◌+◌, ◌-◌, ◌≤◌, ◌<◌, ◌≡◌, refl, sym, ap, ◌∙◌, true, false, some, List, [], ◌++◌, length, take,
  drop, ltb, ◌==◌, arith, append_assoc, length-append, length-take, take-append-drop, u64_mod,
}
use jasonisnthappy.Base.Bytes.{sizes, slice, slice-append, to_le, from_le, from_le-to_le}
use jasonisnthappy.Base.Map
use jasonisnthappy.Base.Map.{Map}
use jasonisnthappy.Base.Error.{ok}
use jasonisnthappy.Wal.Frame.{page_size}
use jasonisnthappy.Btree.Utf8.{is_utf8}
use jasonisnthappy.Btree.Node.{to_text}
use jasonisnthappy.Btree.Store.{PageStore}
use jasonisnthappy.Lru.Valid.{Distinct}
use jasonisnthappy.Document.Bytes.{max_overflow_chain_length, max_document_size, whole}
use jasonisnthappy.Document.Versioned.{
  head_size, VersionedDocument, read_versions_data, read_versioned_document,
}
use jasonisnthappy.Document.Chains.{Linked, Unvisited-nil, page_of-some, read_chain-Linked}
use jasonisnthappy.Document.FirstPage.{first_size, front, paged, length-front}

-- what fits the fields of a first page, and can be read
pub record IsWritable (d : VersionedDocument) : Type 0 where
  pub some_id : 0 < length d.id
  pub short_id : length d.id ≤ 255
  pub utf8 : is_utf8 d.id ≡ true
  pub size : length d.content ≤ max_document_size
  pub xmin : d.xmin < u64_mod
  pub xmax : d.xmax < u64_mod

module _ (d : VersionedDocument) (q : ℕ) (z : List ℕ) where
  -- the first page of the document
  abbrev pub page_with : List ℕ
  page_with = paged d.id d.content d.xmin d.xmax q z

  abbrev first : ℕ
  first = first_size d.id d.content d.xmin d.xmax

  abbrev xmin_bytes : List ℕ
  xmin_bytes = to_le 8 d.xmin

  abbrev xmax_bytes : List ℕ
  xmax_bytes = to_le 8 d.xmax

  abbrev id_len_bytes : List ℕ
  id_len_bytes = to_le 2 (length d.id)

  abbrev data_len_bytes : List ℕ
  data_len_bytes = to_le 4 (length d.content)

  abbrev part : List ℕ
  part = take first d.content

  pub slice-xmin : slice page_with 0 8 ≡ xmin_bytes
  slice-xmin =
      let at : page_with
          ≡ []
            ++ (xmin_bytes
                ++ (xmax_bytes
                    ++ (id_len_bytes
                        ++ (d.id ++ (data_len_bytes ++ (part ++ (to_le 8 q ++ z))))))) =
        simp append_assoc in
      rw at (slice-append 0 8 [] xmin_bytes _ refl (simp sizes))

  pub slice-xmax : slice page_with 8 8 ≡ xmax_bytes
  slice-xmax =
      let at : page_with
          ≡ xmin_bytes
            ++ (xmax_bytes
                ++ (id_len_bytes ++ (d.id ++ (data_len_bytes ++ (part ++ (to_le 8 q ++ z)))))) =
        simp append_assoc in
      rw at (slice-append 8 8 xmin_bytes xmax_bytes _ (simp sizes) (simp sizes))

  pub slice-id_len : slice page_with 16 2 ≡ id_len_bytes
  slice-id_len =
      let w = xmin_bytes ++ xmax_bytes in
      let at : page_with
          ≡ w ++ (id_len_bytes ++ (d.id ++ (data_len_bytes ++ (part ++ (to_le 8 q ++ z))))) =
        simp append_assoc in
      rw at (slice-append 16 2 w id_len_bytes _ (simp sizes) (simp sizes))

  pub slice-id : slice page_with 18 (length d.id) ≡ d.id
  slice-id =
      let w = (xmin_bytes ++ xmax_bytes) ++ id_len_bytes in
      let at : page_with ≡ w ++ (d.id ++ (data_len_bytes ++ (part ++ (to_le 8 q ++ z)))) =
        simp append_assoc in
      rw at (slice-append 18 (length d.id) w d.id _ (simp sizes) refl)

  pub slice-data_len : slice page_with (18 + length d.id) 4 ≡ data_len_bytes
  slice-data_len =
      let w = ((xmin_bytes ++ xmax_bytes) ++ id_len_bytes) ++ d.id in
      let at : page_with ≡ w ++ (data_len_bytes ++ (part ++ (to_le 8 q ++ z))) =
        simp append_assoc in
      rw at (slice-append (18 + length d.id) 4 w data_len_bytes _ (simp sizes) (simp sizes))

  pub slice-part : slice page_with (22 + length d.id) first ≡ part
  slice-part =
      let w = (((xmin_bytes ++ xmax_bytes) ++ id_len_bytes) ++ d.id) ++ data_len_bytes in
      let at : page_with ≡ w ++ (part ++ (to_le 8 q ++ z)) = simp append_assoc in
      rw at (
        slice-append (22 + length d.id) first w part _ (simp sizes (omega arith))
          (omega (arith, length-take first d.content)))

  pub slice-pointer : slice page_with (22 + length d.id + first) 8 ≡ to_le 8 q
  slice-pointer =
      slice-append (22 + length d.id + first) 8 (front d.id d.content d.xmin d.xmax) (to_le 8 q) z
        (length-front d.id d.content d.xmin d.xmax) (simp sizes)

whole-ok : (mismatch : _) (n : ℕ) (xs : List ℕ) → length xs ≡ n → whole mismatch n xs ≡ ok xs
whole-ok mismatch n xs h =
    let same : length xs == n ≡ true = ground (arith, h) in rw (same, whole) refl

module _ {S : Type 0} (store : PageStore S) (w : Map (List ℕ)) where
  -- The data are those of the first page and of the chain behind it.
  read_versions_data-Linked :
      (d : VersionedDocument) (q : ℕ) (z : List ℕ) (ps : List ℕ) (s : S)
      → IsWritable d
      → q < u64_mod
      → Linked w ps q (drop (first d q z) d.content)
      → length ps ≤ max_overflow_chain_length
      → Distinct ps
      → read_versions_data store w (page_with d q z) d.id (length d.content) s ≡ some (ok d, s)
  unfolding read_versions_data
  read_versions_data-Linked d q z ps s v small chain few distinct =
      let f = first d q z in
      let size : length (take f d.content) + length (drop f d.content) ≡ length d.content =
        sym (length-append (take f d.content) (drop f d.content))
        ∙ ap (λ (x : List ℕ). length x) (take-append-drop f d.content) in
      let read =
        read_chain-Linked store w "Overflow chain cycle detected. Versioned document is corrupted."
          "Overflow chain too long. Versioned document may be corrupted." ps
          max_overflow_chain_length [] q (length d.content) (take f d.content) (drop f d.content) s
          chain few size distinct (Unvisited-nil ps) in
      rw
        (
          slice-pointer d q z,
          slice-part d q z,
          slice-xmin d q z,
          slice-xmax d q z,
          from_le-to_le 8 q small,
          from_le-to_le 8 d.xmin v.xmin,
          from_le-to_le 8 d.xmax v.xmax,
          read,
          take-append-drop f d.content,
          whole-ok "Versioned document size mismatch. Document may be corrupted." (length d.content)
              d.content refl,
        )
        refl

  -- A whole document is read from its pages.
  pub read_versioned_document-Linked :
      (d : VersionedDocument) (p q : ℕ) (z : List ℕ) (ps : List ℕ) (s : S)
      → IsWritable d
      → q < u64_mod
      → Map.get w p ≡ some (page_with d q z)
      → Linked w ps q (drop (first d q z) d.content)
      → length ps ≤ max_overflow_chain_length
      → Distinct ps
      → read_versioned_document store p w s ≡ some (ok d, s)
  unfolding read_versioned_document
  read_versioned_document-Linked d p q z ps s v small there chain few distinct =
      let id_back : from_le (to_le 2 (length d.id)) ≡ length d.id =
        from_le-to_le 2 (length d.id) (omega (arith, v.short_id)) in
      let size_back : from_le (to_le 4 (length d.content)) ≡ length d.content =
        from_le-to_le 4 (length d.content) (omega (arith, v.size)) in
      let has_id : length d.id == 0 ≡ false = ground (arith, v.some_id) in
      let id_fits : ltb (page_size - 18) (length d.id) ≡ false = ground (arith, v.short_id) in
      let head_fits : ltb page_size (22 + length d.id) ≡ false = ground (arith, v.short_id) in
      let all_fits : ltb page_size (head_size (length d.id)) ≡ false = ground (arith, v.short_id) in
      let short : ltb max_document_size (length d.content) ≡ false = ground (arith, v.size) in
      rw
        (
          page_of-some store w p (page_with d q z) s there,
          slice-id_len d q z,
          id_back,
          slice-data_len d q z,
          size_back,
          has_id,
          id_fits,
          slice-id d q z,
          to_text,
          v.utf8,
          head_fits,
          short,
          all_fits,
        )
        (read_versions_data-Linked d q z ps s v small chain few distinct)
