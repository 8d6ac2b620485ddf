-- ===== src/Document/Plain.antt =====
-- src/core/document.rs: documents without versions.
use jasonisnthappy.Base.{
  ℕ, zero, suc, ◌+◌, ◌-◌, ◌||◌, none, some, List, [], ◌∷◌, length, take, drop, replicate, min, ltb,
  leb, ◌==◌, if◌then◌else◌,
}
use jasonisnthappy.Base.Bytes.{slice, copy_at, to_le, from_le}
use jasonisnthappy.Base.Error.{ok, err, invalid_document, other}
use jasonisnthappy.Wal.Frame.{page_size}
use jasonisnthappy.Btree.Node.{Key, to_text}
use jasonisnthappy.Btree.Store.{PageStore}
use jasonisnthappy.Document.Bytes.{
  expect, doc_id_len_size, data_len_size, overflow_size, max_overflow_data,
  max_overflow_chain_length, max_document_size, Step, ◌>>=◌, result, alloc_page, free_page,
  pointer_of, overflow_page, contains, read_chain, whole,
}

pub record Document : Type 0 where
  pub id : Key
  pub content : List ℕ

-- the part of a page in front of the data
abbrev pub document_head : Key → List ℕ → List ℕ
document_head doc_id content =
    let d0 = replicate page_size 0 in
    let d1 = copy_at d0 0 (to_le 2 (length doc_id)) in
    let d2 = copy_at d1 2 doc_id in copy_at d2 (2 + length doc_id) (to_le 4 (length content))

-- `remaining.chunks(MAX_OVERFLOW_DATA)`, with the length as fuel
unfoldable pub chunks : ℕ → List ℕ → List (List ℕ)
chunks zero bytes = []
chunks (suc n) [] = []
chunks (suc n) (b ∷ bytes) =
    take max_overflow_data (b ∷ bytes) ∷ chunks n (drop max_overflow_data (b ∷ bytes))

module _ {S : Type 0} (store : PageStore S) where
  unfoldable pub write_single_page : Key → List ℕ → Step S ℕ
  write_single_page doc_id content = do
    page_num ← alloc_page store
    let offset = 2 + length doc_id + 4
    let d1 = copy_at (document_head doc_id content) offset content
    let d2 = copy_at d1 (offset + length content) (to_le 8 0)
    done ← store.write_page page_num d2
    result (ok page_num)

  -- The overflow pages, the last one first; the result is the number of the first.
  unfoldable pub write_chunks : List (List ℕ) → Step S ℕ
  write_chunks [] = result (ok 0)
  write_chunks (chunk ∷ rest) = do
    next_overflow ← write_chunks rest
    page_num ← alloc_page store
    done ← store.write_page page_num (overflow_page chunk next_overflow)
    result (ok page_num)

  -- A copy that does not fit the page is a panic.
  abbrev write_front : ℕ → Key → List ℕ → ℕ → ℕ → Step S ℕ
  write_front first_page doc_id content size next_overflow =
      if ltb page_size (2 + length doc_id + 4 + size)
      then expect none
      else let d1 =
          copy_at (document_head doc_id content) (2 + length doc_id + 4) (take size content) in
        (store.write_page first_page (copy_at d1 max_overflow_data (to_le 8 next_overflow)) >>= λ _.
        result (ok first_page))

  -- The part of the data on the first page. For an id that leaves no room the subtraction wraps
  -- around, as in a release build, to more than any data.
  abbrev first_chunk_size : Key → List ℕ → ℕ
  first_chunk_size doc_id content =
      if ltb page_size (doc_id_len_size + length doc_id + data_len_size + overflow_size)
      then length content
      else min (page_size - doc_id_len_size - length doc_id - data_len_size - overflow_size)
          (length content)

  unfoldable pub write_multi_page : Key → List ℕ → Step S ℕ
  unfolding write_chunks
  write_multi_page doc_id content = do
    first_page ← alloc_page store
    let size = first_chunk_size doc_id content
    let remaining = drop size content
    next_overflow ← write_chunks (chunks (length remaining) remaining)
    write_front first_page doc_id content size next_overflow

  unfoldable pub write_document : Key → List ℕ → Step S ℕ
  unfolding write_single_page write_multi_page
  write_document doc_id content s =
      if leb (doc_id_len_size + length doc_id + data_len_size + length content + overflow_size)
        page_size
      then write_single_page doc_id content s
      else write_multi_page doc_id content s

  -- the data, once the id and the length are read
  unfoldable pub read_data : List ℕ → Key → ℕ → Step S Document
  read_data page doc_id data_len s =
      let offset = 2 + length doc_id + 4 in
      let first =
        min (page_size - doc_id_len_size - length doc_id - data_len_size - overflow_size)
          data_len in
      if pointer_of page == 0
      then if ltb page_size (offset + data_len)
        then some (err invalid_document, s)
        else some (ok (record { id = doc_id; content = slice page offset data_len }), s)
      else (read_chain store.read_page "Overflow chain cycle detected. Document is corrupted."
              "Overflow chain too long. Document may be corrupted." max_overflow_chain_length []
              (pointer_of page) data_len (slice page offset first)
            >>= λ read.
                result (whole "Document size mismatch. Document may be corrupted." data_len read)
                >>= λ content. result (ok (record { id = doc_id; content = content })))
          s

  unfoldable pub read_document : ℕ → Step S Document
  unfolding read_data
  read_document page_num = store.read_page page_num >>= λ page.
      let id_len = from_le (slice page 0 2) in
      let data_len = from_le (slice page (2 + id_len) 4) in
      if id_len == 0 || ltb 255 id_len
      then result (err invalid_document)
      else (result (to_text (slice page 2 id_len)) >>= λ doc_id.
          if ltb max_document_size data_len
          then result (err invalid_document)
          else read_data page doc_id data_len)

  -- the loop of `delete_document`
  unfoldable pub free_chain : ℕ → List ℕ → ℕ → Step S (Unit {0})
  free_chain zero visited current s =
      if current == 0
      then some (ok tt, s)
      else if contains visited current
      then some
          (err (other "Overflow chain cycle detected during delete. Document is corrupted."), s)
      else some (err (other "Overflow chain too long during delete. Document may be corrupted."), s)
  free_chain (suc left) visited current s =
      let more_pages =
        (store.read_page current >>= λ overflow_data. free_page store current >>= λ _.
        free_chain left (current ∷ visited) (pointer_of overflow_data))
          s in
      if current == 0
      then some (ok tt, s)
      else if contains visited current
      then some
          (err (other "Overflow chain cycle detected during delete. Document is corrupted."), s)
      else more_pages

  unfoldable pub delete_document : ℕ → Step S (Unit {0})
  unfolding free_chain
  delete_document page_num = store.read_page page_num >>= λ page.
      free_chain max_overflow_chain_length [] (pointer_of page) >>= λ _. free_page store page_num
