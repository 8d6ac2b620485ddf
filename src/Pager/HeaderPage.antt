-- ===== src/Pager/HeaderPage.antt =====
-- src/core/pager.rs: a header is read back from its page.
use jasonisnthappy.Base.{
  ℕ, zero, suc, ◌-◌, ◌*◌, ◌^◌, ◌≤◌, ◌<◌, ◌≡◌, refl, ap, ◌∙◌, inl, inr, List, [], ◌∷◌, ◌++◌, false,
  length, take, drop, replicate, length-append, length-take, length-drop, length-replicate, arith,
  append_assoc, u32_mod, u64_mod, ltb, All, Bool-cases,
}
use jasonisnthappy.Base.Bytes.{sizes, slice, to_le, length-to_le, copy_at-append, slice-append}
use jasonisnthappy.Base.Error.{ok}
use jasonisnthappy.Wal.Frame.{page_size}
use jasonisnthappy.Pager.Header.{
  Header, magic_bytes, format_version, serialize, read_field, read_free_list, deserialize,
}
use Prim.Native.String.{String}
use jasonisnthappy.Pager.Codec.{
  EndsBehind, fill_free_list-pack, length-pack, pack, read_field-to_le, read_free_list-pack, room,
}

-- A header of this format whose integers fit their width.
pub record IsHeader (h : Header) : Type 0 where
  pub magic : h.magic ≡ magic_bytes
  pub version : h.version ≡ format_version
  pub page_size : h.page_size ≡ page_size
  pub num_pages : h.num_pages < u64_mod
  pub free_count : h.free_count ≡ length h.free_list
  pub few : length h.free_list < u32_mod
  pub metadata_page : h.metadata_page < u64_mod
  pub next_tx_id : h.next_tx_id < u64_mod
  pub free_list : All (λ p. p < u64_mod) h.free_list

pub All-take : {A : Type 0} (P : A → Type 0) (n : ℕ) (xs : List A) → All P xs → All P (take n xs)
unfolding take
All-take P zero xs h = tt
All-take P (suc n) [] h = tt
All-take P (suc n) (x ∷ xs) h = (h.0, All-take P n xs h.1)

module _ (h : Header) (v : IsHeader h) where
  -- the fields in front of the free list
  fields : List ℕ
  fields =
      (((((magic_bytes ++ to_le 4 format_version) ++ to_le 4 page_size) ++ to_le 8 h.num_pages)
          ++ to_le 4 h.free_count)
        ++ to_le 8 h.metadata_page)
      ++ to_le 8 h.next_tx_id

  length-fields : length fields ≡ 40
  unfolding fields
  length-fields = simp sizes

  entries : List ℕ
  entries = take room h.free_list

  blank : List ℕ
  blank = drop (8 * length entries) (drop 40 (replicate page_size 0))

  serialize-layout : serialize h ≡ fields ++ (pack entries ++ blank)
  unfolding serialize fields entries blank
  serialize-layout =
      let w1 = magic_bytes in
      let w2 = w1 ++ to_le 4 format_version in
      let w3 = w2 ++ to_le 4 page_size in
      let w4 = w3 ++ to_le 8 h.num_pages in
      let w5 = w4 ++ to_le 4 h.free_count in
      let w6 = w5 ++ to_le 8 h.metadata_page in
      let w7 = w6 ++ to_le 8 h.next_tx_id in
      let r0 : List ℕ = replicate page_size 0 in
      let r1 = drop 4 r0 in
      let r2 = drop 4 r1 in
      let r3 = drop 4 r2 in
      let r4 = drop 8 r3 in
      let r5 = drop 4 r4 in
      let r6 = drop 8 r5 in
      let behind : drop 8 r6 ≡ drop 40 r0 = unfold drop replicate in refl in
      let field = λ (m n : ℕ) (w rest : List ℕ) (value : ℕ) (k : length w ≡ n).
        copy_at-append n w rest (to_le m value) k
        ∙ ap (λ (i : ℕ). (w ++ to_le m value) ++ drop i rest) (length-to_le m value) in
      rw
        (
          v.magic,
          v.version,
          v.page_size,
          copy_at-append 0 [] r0 magic_bytes refl,
          field 4 4 w1 r1 format_version refl,
          field 4 8 w2 r2 page_size (simp sizes),
          field 8 12 w3 r3 h.num_pages (simp sizes),
          field 4 20 w4 r4 h.free_count (simp sizes),
          field 8 24 w5 r5 h.metadata_page (simp sizes),
          field 8 32 w6 r6 h.next_tx_id (simp sizes),
          behind,
        )
        (fill_free_list-pack room 40 w7 (drop 40 r0) h.free_list (simp sizes) (omega arith)
          (omega arith))

  few_entries : length entries ≤ room
  unfolding entries
  few_entries = omega (arith, length-take room h.free_list)

  pub length-serialize : length (serialize h) ≡ page_size
  length-serialize =
      let behind : length blank ≡ page_size - 40 - 8 * length entries =
        unfold blank in simp (length-drop, length-replicate) in
      rw serialize-layout (
        simp length-append (omega (arith, length-fields, length-pack entries, behind, few_entries)))

  -- the field at `i`, between what stands in front of it and behind it
  field_at :
      (i n value : ℕ) (before after : List ℕ) (details : String)
      → serialize h ≡ before ++ (to_le n value ++ after)
      → length before ≡ i
      → value < 256 ^ n
      → read_field details (serialize h) i n ≡ ok value
  field_at i n value before after details e k fits =
      read_field-to_le details (serialize h) i n value
        (rw e (slice-append i n before (to_le n value) after k (length-to_le n value))) fits

  read_free_list-entries : read_free_list h.free_count (serialize h) 40 ≡ ok entries
  read_free_list-entries =
      let total = length-take room h.free_list in
      let ends : EndsBehind 40 h.free_count (length entries) =
        unfold entries in
        elim (Bool-cases (ltb room (length h.free_list))) [
          | inl over ↦ inr (ground (arith, total))
          | inr all ↦ inl (ground (arith, total, v.free_count))
        ] in
      rw serialize-layout (
        read_free_list-pack h.free_count 40 fields blank entries length-fields
          (omega (arith, few_entries)) (unfold entries in omega (arith, total, v.free_count)) ends
          (unfold entries in All-take (λ p. p < u64_mod) room h.free_list v.free_list))

  -- what is read back: all but the entries that did not fit
  abbrev pub fitting : Header
  fitting = record {
    magic = magic_bytes;
    version = format_version;
    page_size = page_size;
    num_pages = h.num_pages;
    free_count = h.free_count;
    metadata_page = h.metadata_page;
    next_tx_id = h.next_tx_id;
    free_list = take room h.free_list;
  }

  -- A header whose fields fit their width is read back from its page, with the first 507 entries of
  -- its free list.
  pub deserialize-serialize : deserialize (serialize h) ≡ ok fitting
  unfolding deserialize entries
  deserialize-serialize =
      let a = to_le 4 format_version in
      let b = to_le 4 page_size in
      let c = to_le 8 h.num_pages in
      let d = to_le 4 h.free_count in
      let e = to_le 8 h.metadata_page in
      let f = to_le 8 h.next_tx_id in
      let z = pack entries ++ blank in
      let m = magic_bytes in
      let joined : serialize h ≡ m ++ (a ++ (b ++ (c ++ (d ++ (e ++ (f ++ z)))))) =
        rw serialize-layout (unfold fields in simp append_assoc) in
      let whole : ltb (length (serialize h)) page_size ≡ false = rw length-serialize refl in
      let magic : slice (serialize h) 0 4 ≡ m = rw joined (slice-append 0 4 [] m _ refl refl) in
      rw (
        whole,
        magic,
        field_at 4 4 format_version m _ "failed to parse version from header" joined refl
            (omega arith),
        field_at 8 4 page_size (m ++ a) (c ++ (d ++ (e ++ (f ++ z))))
            "failed to parse page_size from header" (joined ∙ simp append_assoc) (simp sizes)
            (omega arith),
        field_at 12 8 h.num_pages (m ++ (a ++ b)) (d ++ (e ++ (f ++ z)))
            "failed to parse num_pages from header" (joined ∙ simp append_assoc) (simp sizes)
            v.num_pages,
        field_at 20 4 h.free_count (m ++ (a ++ (b ++ c))) (e ++ (f ++ z))
            "failed to parse free_count from header" (joined ∙ simp append_assoc) (simp sizes)
            (omega (arith, v.few, v.free_count)),
        field_at 24 8 h.metadata_page (m ++ (a ++ (b ++ (c ++ d)))) (f ++ z)
            "failed to parse metadata_page from header" (joined ∙ simp append_assoc) (simp sizes)
            v.metadata_page,
        field_at 32 8 h.next_tx_id (m ++ (a ++ (b ++ (c ++ (d ++ e))))) z
            "failed to parse next_tx_id from header" (joined ∙ simp append_assoc) (simp sizes)
            v.next_tx_id,
        read_free_list-entries,
      )
