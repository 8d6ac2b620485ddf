-- ===== src/Document/Versioned.antt =====
-- src/core/document.rs: documents with the transactions that made and deleted them.
use jasonisnthappy.Base.{
  ℕ, zero, suc, ◌+◌, ◌-◌, Bool, false, not, ◌&&◌, ◌||◌, Option, none, some, List, [], ◌∷◌, ◌++◌,
  length, take, drop, replicate, min, ltb, leb, ◌==◌, if◌then◌else◌,
}
use jasonisnthappy.Base.Bytes.{slice, copy_at, to_le, from_le}
use jasonisnthappy.Base.Map
use jasonisnthappy.Base.Map.{Map}
use jasonisnthappy.Base.Error.{Error, Result, ok, err, invalid_document}
use jasonisnthappy.Wal.Frame.{page_size}
use jasonisnthappy.Btree.Node.{Key, to_text}
use jasonisnthappy.Btree.Store.{PageStore}
use jasonisnthappy.Document.Bytes.{
  max_overflow_data, max_overflow_chain_length, max_document_size, Step, ◌>>=◌, result, expect,
  alloc_page, free_page, overflow_page, read_chain, whole,
}

pub record VersionedDocument : Type 0 where
  pub id : Key
  pub content : List ℕ
  pub xmin : ℕ
  pub xmax : ℕ

unfoldable pub is_visible : VersionedDocument → ℕ → Bool
is_visible d snapshot_id =
    if ltb snapshot_id d.xmin then false else not (not (d.xmax == 0) && leb d.xmax snapshot_id)

-- the bytes of the first page that are no data: its head and the pointer
abbrev pub head_size : ℕ → ℕ
head_size id_len = 8 + 8 + 2 + id_len + 4 + 8

-- the part of the first page in front of the data
abbrev pub versioned_head : Key → ℕ → ℕ → ℕ → List ℕ
versioned_head doc_id content_len xmin xmax =
    let d0 = replicate page_size 0 in
    let d1 = copy_at d0 0 (to_le 8 xmin) in
    let d2 = copy_at d1 8 (to_le 8 xmax) in
    let d3 = copy_at d2 16 (to_le 2 (length doc_id)) in
    let d4 = copy_at d3 18 doc_id in copy_at d4 (18 + length doc_id) (to_le 4 content_len)

-- what the loop over the overflow pages has in hand
pub record Progress : Type 0 where
  pub allocated_pages : List ℕ
  pub prev_page : ℕ
  pub prev_offset : ℕ
  pub prev_data : Option (List ℕ)
  pub first_data : List ℕ

-- the first page with its part of the data, before it is linked
abbrev pub begun : ℕ → Key → List ℕ → ℕ → ℕ → Progress
begun first_page doc_id content xmin xmax =
    let chunk_size = min (page_size - head_size (length doc_id)) (length content) in
    let at = 22 + length doc_id in
    let head = versioned_head doc_id (length content) xmin xmax in
    let filled = copy_at head at (take chunk_size content) in
    record {
      allocated_pages = first_page ∷ [];
      prev_page = first_page;
      prev_offset = at + chunk_size;
      prev_data = none;
      first_data = copy_at filled (at + chunk_size) (to_le 8 0);
    }

module _ {S : Type 0} (store : PageStore S) where
  -- the pages are given back; errors of that are ignored
  unfoldable pub give_back : List ℕ → S → Option S
  give_back [] s = some s
  give_back (p ∷ ps) s = elim (free_page store p s) [ none ↦ none | some (_, s') ↦ give_back ps s' ]

  -- the pages of the store, and those that the transaction has written
  abbrev pub Writing : Type 0
  Writing = S × Map (List ℕ)

  abbrev failed : {A : Type 0} → Error → Map (List ℕ) → Option S → Option (Result A × Writing)
  failed e w none = none
  failed e w (some s) = some (err e, (s, w))

  -- a call of the pager, with a `map_err` that gives the pages back
  abbrev pub or_give_back :
      {A : Type 0} → List ℕ → Map (List ℕ) → Option (Result A × S) → Option (Result A × Writing)
  or_give_back pages w none = none
  or_give_back pages w (some (ok a, s)) = some (ok a, (s, w))
  or_give_back pages w (some (err e, s)) = failed e w (give_back pages s)

  abbrev pub attempt : {A : Type 0} → List ℕ → Step S A → Step Writing A
  attempt pages m (s, w) = or_give_back pages w (m s)

  -- A page goes to the writes of the transaction, and to the pager.
  abbrev pub write_both : List ℕ → ℕ → List ℕ → Step Writing (Unit {0})
  write_both pages p page (s, w) = attempt pages (store.write_page p page) (s, Map.insert w p page)

  -- the page before gets the number of the new one, and an overflow page is written
  abbrev pub link_previous : ℕ → ℕ → Progress → Step Writing Progress
  link_previous first_page new_page p =
      if p.prev_page == first_page
      then result
          (ok (record p { first_data = copy_at p.first_data p.prev_offset (to_le 8 new_page) }))
      else elim p.prev_data [
        | none ↦ result (ok p)
        | some prev_buf ↦
            write_both p.allocated_pages p.prev_page
              (copy_at prev_buf p.prev_offset (to_le 8 new_page))
            >>= λ _. result (ok p)
      ]

  -- an overflow page with its part of the data, which becomes the page before
  abbrev pub started : ℕ → List ℕ → Progress → Progress
  started new_page bytes p = record p {
    prev_page = new_page;
    prev_offset = max_overflow_data;
    prev_data = some (overflow_page (take max_overflow_data bytes) 0);
  }

  -- The loop over the data that are left, with their length as fuel.
  unfoldable pub write_overflow : ℕ → ℕ → List ℕ → Progress → Step Writing Progress
  write_overflow zero first_page remaining p = result (ok p)
  write_overflow (suc fuel) first_page [] p = result (ok p)
  write_overflow (suc fuel) first_page (b ∷ bytes) p =
      attempt p.allocated_pages (alloc_page store) >>= λ new_page.
      link_previous first_page new_page
        (record p { allocated_pages = p.allocated_pages ++ (new_page ∷ []) })
      >>= λ linked.
          write_overflow fuel first_page (drop max_overflow_data (b ∷ bytes))
            (started new_page (b ∷ bytes) linked)

  -- the last overflow page, if there is one
  abbrev pub write_last : Progress → Step Writing Progress
  write_last p = elim p.prev_data [
    | none ↦ result (ok p)
    | some last_buf ↦ write_both p.allocated_pages p.prev_page last_buf >>= λ _. result (ok p)
  ]

  -- the first page, and what is returned: its number and its bytes
  abbrev pub write_first : ℕ → Progress → Step Writing (ℕ × List ℕ)
  write_first first_page p = write_both p.allocated_pages first_page p.first_data >>= λ _.
      result (ok (first_page, p.first_data))

  unfoldable pub write_versioned_document : Key → List ℕ → ℕ → ℕ → Step Writing (ℕ × List ℕ)
  unfolding write_overflow give_back
  write_versioned_document doc_id content xmin xmax =
      if ltb 255 (length doc_id)
      then result (err invalid_document)
      else let remaining =
          drop (min (page_size - head_size (length doc_id)) (length content)) content in
        (attempt [] (alloc_page store) >>= λ first_page.
        write_overflow (length remaining) first_page remaining
          (begun first_page doc_id content xmin xmax)
        >>= write_last
        >>= write_first first_page)

  -- a page as the transaction has written it, or as the pager has it
  abbrev pub page_of : Map (List ℕ) → ℕ → Step S (List ℕ)
  page_of tx_writes p = elim (Map.get tx_writes p) [
    | some page ↦ result (ok page)
    | none ↦ store.read_page p
  ]

  -- the data, once the id and the length are read
  unfoldable pub read_versions_data : Map (List ℕ) → List ℕ → Key → ℕ → Step S VersionedDocument
  read_versions_data tx_writes page id data_len =
      let first = min (page_size - head_size (length id)) data_len in
      let at = 22 + length id in
      read_chain (page_of tx_writes)
        "Overflow chain cycle detected. Versioned document is corrupted."
        "Overflow chain too long. Versioned document may be corrupted." max_overflow_chain_length []
        (from_le (slice page (at + first) 8)) data_len (slice page at first)
      >>= λ read.
          result
            (whole "Versioned document size mismatch. Document may be corrupted." data_len read)
          >>= λ content. result (
              ok (record {
                id = id;
                content = content;
                xmin = from_le (slice page 0 8);
                xmax = from_le (slice page 8 8);
              }))

  -- An id that leaves no room behind it makes the code panic: at the length of the data if that is
  -- out of the page, and otherwise behind the test of that length.
  unfoldable pub read_versioned_document : ℕ → Map (List ℕ) → Step S VersionedDocument
  unfolding read_versions_data
  read_versioned_document page_num tx_writes = page_of tx_writes page_num >>= λ page.
      let id_len = from_le (slice page 16 2) in
      let data_len = from_le (slice page (18 + id_len) 4) in
      if id_len == 0 || ltb (page_size - 18) id_len
      then result (err invalid_document)
      else (result (to_text (slice page 18 id_len)) >>= λ id.
          if ltb page_size (22 + id_len)
          then expect none
          else if ltb max_document_size data_len
          then result (err invalid_document)
          else if ltb page_size (head_size id_len)
          then expect none
          else read_versions_data tx_writes page id data_len)
