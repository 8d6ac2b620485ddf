-- ===== src/Document/Bytes.antt =====
-- src/core/document.rs: the pages of documents. A page has 4096 bytes, whoever hands it over. `none`
-- is a panic.
use jasonisnthappy.Base.{
  ℕ, zero, suc, ◌-◌, ◌*◌, Bool, true, false, ◌||◌, Option, none, some, List, [], ◌∷◌, ◌++◌, length,
  take, replicate, min, leb, ◌==◌, if◌then◌else◌,
}
use jasonisnthappy.Base.Bytes.{slice, copy_at, to_le, from_le}
use jasonisnthappy.Base.Error.{Result, ok, err, other}
use jasonisnthappy.Wal.Frame.{page_size}
use Prim.Native.String.{String}
use jasonisnthappy.Btree.Store.{PageStore}

abbrev pub doc_id_len_size : ℕ
doc_id_len_size = 2

abbrev pub data_len_size : ℕ
data_len_size = 4

abbrev pub overflow_size : ℕ
overflow_size = 8

abbrev pub max_overflow_data : ℕ
max_overflow_data = page_size - overflow_size

abbrev pub max_overflow_chain_length : ℕ
max_overflow_chain_length = 250000

abbrev pub max_document_size : ℕ
max_document_size = 1024 * 1024 * 1024

-- a step on the pages: its result and the state behind it
abbrev pub Step : Type 0 → Type 0 → Type 0
Step S A = S → Option (Result A × S)

module _ {S A B : Type 0} where
  abbrev pub continue : (A → Step S B) → Option (Result A × S) → Option (Result B × S)
  continue f none = none
  continue f (some (err e, s)) = some (err e, s)
  continue f (some (ok a, s)) = f a s

  infixl 5 ◌>>=◌
  -- the `?` operator
  abbrev pub ◌>>=◌ : Step S A → (A → Step S B) → Step S B
  (m >>= f) s = continue f (m s)

module _ {S A : Type 0} where
  abbrev pub result : Result A → Step S A
  result r s = some (r, s)

  -- a value that is there, or a panic
  abbrev pub expect : Option A → Step S A
  expect none s = none
  expect (some a) s = some (ok a, s)

module _ {S : Type 0} (store : PageStore S) where
  abbrev allocated : S → Result (ℕ × S) → Option (Result ℕ × S)
  allocated s (err e) = some (err e, s)
  allocated s (ok (p, s')) = some (ok p, s')

  abbrev pub alloc_page : Step S ℕ
  alloc_page s = allocated s (store.alloc_page s)

  abbrev freed : S → Option (Result S) → Option (Result (Unit {0}) × S)
  freed s none = none
  freed s (some (err e)) = some (err e, s)
  freed s (some (ok s')) = some (ok tt, s')

  abbrev pub free_page : ℕ → Step S (Unit {0})
  free_page p s = freed s (store.free_page p s)

-- the pointer in the last eight bytes of a page
abbrev pub pointer_of : List ℕ → ℕ
pointer_of page = from_le (slice page max_overflow_data 8)

-- a page that holds a part of the data, and the number of the next one
abbrev pub overflow_page : List ℕ → ℕ → List ℕ
overflow_page chunk next_page =
    copy_at (copy_at (replicate page_size 0) 0 chunk) max_overflow_data (to_le 8 next_page)

abbrev pub contains : List ℕ → ℕ → Bool
contains [] p = false
contains (q ∷ qs) p = if q == p then true else contains qs p

-- The loop over an overflow chain, with the pages left until it is too long: the data that are read
-- by the end.
module _ {S : Type 0} (page : ℕ → Step S (List ℕ)) (cycle too_long : String) where
  unfoldable pub read_chain : ℕ → List ℕ → ℕ → ℕ → List ℕ → Step S (List ℕ)
  read_chain zero visited current data_len read s =
      if current == 0 || leb data_len (length read)
      then some (ok read, s)
      else if contains visited current
      then some (err (other cycle), s)
      else some (err (other too_long), s)
  read_chain (suc left) visited current data_len read s =
      let more_pages =
        (page current >>= λ overflow_data.
        read_chain left (current ∷ visited) (pointer_of overflow_data) data_len
          (read ++ take (min (data_len - length read) max_overflow_data) overflow_data))
          s in
      if current == 0 || leb data_len (length read)
      then some (ok read, s)
      else if contains visited current
      then some (err (other cycle), s)
      else more_pages

-- the check behind the loop
abbrev pub whole : String → ℕ → List ℕ → Result (List ℕ)
whole mismatch data_len read = if length read == data_len then ok read else err (other mismatch)
