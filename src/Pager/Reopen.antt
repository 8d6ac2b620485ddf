-- ===== src/Pager/Reopen.antt =====
-- src/core/pager.rs: a header that is written is accepted when the file is opened again.
use jasonisnthappy.Base.{
  ℕ, zero, suc, ◌*◌, ◌%◌, ◌≤◌, ◌<◌, ◌≡◌, refl, sym, ap, ◌⊎◌, inl, inr, Bool, true, false, List, [],
  ◌∷◌, length, take, ltb, leb, ◌==◌, if◌then◌else◌, arith, u32_mod, u64_mod, All,
}
use jasonisnthappy.Base.Error.{Result, ok, err, other}
use jasonisnthappy.Wal.Disk.{write_at}
use jasonisnthappy.Wal.Frame.{page_size}
use jasonisnthappy.Lru.Valid.{Distinct, All-map}
use jasonisnthappy.Pager.Header.{Header, serialize}
use jasonisnthappy.Pager.Codec.{room}
use jasonisnthappy.Pager.HeaderPage.{
  fitting, deserialize-serialize, length-serialize, All-take, IsHeader,
}
use jasonisnthappy.Pager.HeaderPage.{IsHeader, All-take}
use jasonisnthappy.Pager.State.{
  Pager, check_entries, contains, check_duplicates, validate_header, read_header, header_of,
  get_header_data, write_header,
}
use jasonisnthappy.Pager.Open.{Absent, IsSound}
use jasonisnthappy.Pager.Files.{slice-write_at, length-write_at}

check_entries-passes :
    (n : ℕ) (ps : List ℕ) → All (λ p. (0 < p) × (p < n)) ps → check_entries n ps ≡ ok tt
unfolding check_entries
check_entries-passes n [] h = refl
check_entries-passes n (p ∷ ps) h =
    let within : leb n p ≡ false = ground (arith, h.0) in
    let other : p == 0 ≡ false = ground (arith, h.0) in
    rw (within, other) (check_entries-passes n ps h.1)

contains-Absent : (qs : List ℕ) (p : ℕ) → Absent p qs → contains qs p ≡ false
contains-Absent [] p h = refl
contains-Absent (q ∷ qs) p h =
    let other : q == p ≡ false = ground (arith, h.0) in rw other (contains-Absent qs p h.1)

All-both :
    (seen : List ℕ) (p : ℕ) (ps : List ℕ)
    → Absent p ps
    → All (λ q. Absent q seen) ps
    → All (λ q. Absent q (p ∷ seen)) ps
All-both seen p [] h k = tt
All-both seen p (q ∷ ps) h k = ((λ e. h.0 (sym e), k.0), All-both seen p ps h.1 k.1)

-- Pages that are distinct and not yet seen are all seen, and so is nothing else.
check_duplicates-passes :
    (seen ps : List ℕ)
    → Distinct ps
    → All (λ p. Absent p seen) ps
    → (all : List ℕ) × (check_duplicates seen ps ≡ ok all)
      × ((p : ℕ) → Absent p seen → Absent p ps → Absent p all)
unfolding check_duplicates
check_duplicates-passes seen [] d h = (seen, refl, λ p front behind. front)
check_duplicates-passes seen (p ∷ ps) d h =
    let once = contains-Absent seen p h.0 in
    let unseen : All (λ q. Absent q (p ∷ seen)) ps = All-both seen p ps d.0 h.1 in
    let (all, e, f) = check_duplicates-passes (p ∷ seen) ps d.1 unseen in
    (all, rw (once, e) refl, λ q front behind. f q (behind.0, front) behind.1)

Distinct-take : (n : ℕ) (xs : List ℕ) → Distinct xs → Distinct (take n xs)
unfolding take
Distinct-take zero xs d = tt
Distinct-take (suc n) [] d = tt
Distinct-take (suc n) (x ∷ xs) d = (All-take _ n xs d.0, Distinct-take n xs d.1)

-- a header that passes all checks
validate_header-passes :
    (n : ℕ) (h : Header)
    → 1 ≤ h.num_pages
    → h.num_pages * page_size % u64_mod ≤ n
    → (h.metadata_page ≡ 0) ⊎ ((h.metadata_page < h.num_pages) × Absent h.metadata_page h.free_list)
    → All (λ p. (0 < p) × (p < h.num_pages)) h.free_list
    → Distinct h.free_list
    → validate_header n h ≡ ok tt
unfolding validate_header
validate_header-passes n h pages file metadata free distinct =
    let c1 : ltb h.num_pages 1 ≡ false = ground arith in
    let c2 : ltb n (h.num_pages * page_size % u64_mod) ≡ false = ground (arith, file) in
    let c4 = check_entries-passes h.num_pages h.free_list free in
    let (all, c5, seen) =
      check_duplicates-passes [] h.free_list distinct (All-map _ _ h.free_list (λ p k. tt) free) in
    elim metadata [
      | inl unset ↦
          let m : h.metadata_page == 0 ≡ true = ground arith in rw (c1, c2, m, c4, c5) refl
      | inr (range, used) ↦
          let c3 : leb h.num_pages h.metadata_page ≡ false = ground (arith, range) in
          let c6 = contains-Absent all h.metadata_page (seen h.metadata_page tt used) in
          rw (c1, c2, c3, c4, c5, c6) (ground arith)
    ]

-- The numbers of a state fit their width.
pub record Fits (s : Pager) : Type 0 where
  pub num_pages : s.num_pages * page_size < u64_mod
  pub free_list : length s.free_list < u32_mod
  pub metadata_page : s.metadata_page < u64_mod
  pub next_tx_id : s.next_tx_id < u64_mod

header_of-IsHeader : (s : Pager) → IsSound s → Fits s → IsHeader (header_of s)
header_of-IsHeader s v f = record {
  magic = refl;
  version = refl;
  page_size = refl;
  num_pages = omega (arith, f.num_pages);
  free_count = omega (arith, f.free_list);
  few = f.free_list;
  metadata_page = f.metadata_page;
  next_tx_id = f.next_tx_id;
  free_list = All-map _ _ s.free_list (λ p h. omega (arith, h, f.num_pages)) v.free;
}

-- The header that is written is accepted, with the free pages behind the 507th forgotten.
abbrev pub ReadBack : Result Pager → Pager → Type 0
ReadBack r s =
    (s' : Pager) × (r ≡ ok s')
    × (read_header s'
        ≡ ok (record s' {
          num_pages = s.num_pages;
          metadata_page = s.metadata_page;
          next_tx_id = s.next_tx_id;
          free_list = take room s.free_list;
        }))

-- If the pages of a state are sound, its numbers fit their width, its file has all its pages and it
-- is not read-only, then `write_header` succeeds and `read_header` accepts what it has written: the
-- number of pages, the metadata page and the next transaction id are read back, and the first 507
-- entries of the free list.
pub read_header-write_header :
    (s : Pager)
    → IsSound s
    → Fits s
    → s.num_pages * page_size ≤ length s.file
    → s.read_only ≡ false
    → ReadBack (write_header s) s
unfolding read_header write_header get_header_data
read_header-write_header s v f long writable =
    let h = header_of s in
    let vh = header_of-IsHeader s v f in
    let bytes = serialize h in
    let size = length-serialize h vh in
    let file = write_at s.file 0 bytes in
    let file_size = length-write_at s.file bytes 0 (omega (arith, size)) in
    let enough : ltb (length file) page_size ≡ false = ground (arith, file_size, size) in
    let page = slice-write_at s.file bytes 0 page_size (omega (arith, size)) size in
    let metadata : (s.metadata_page ≡ 0)
        ⊎ ((s.metadata_page < s.num_pages) × Absent s.metadata_page (take room s.free_list)) =
      elim v.metadata [
        | inl unset ↦ inl unset
        | inr (range, used) ↦ inr (range, All-take _ room s.free_list used)
      ] in
    let checked =
      validate_header-passes (length file) (fitting h vh) v.pages
        (omega (arith, file_size, size, long, f.num_pages)) metadata
        (All-take _ room s.free_list v.free) (Distinct-take room s.free_list v.distinct) in
    let written : Pager = record s { file = file } in
    let wrote : write_header s ≡ ok written =
      ap
        (λ (b : Bool).
          if b then err (other "cannot write header: database is read-only") else ok written)
        writable in
    (written, wrote, rw (enough, page, deserialize-serialize h vh, checked) refl)
