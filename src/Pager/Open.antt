-- ===== src/Pager/Open.antt =====
-- src/core/pager.rs: what `read_header` guarantees of the state that it leaves.
use jasonisnthappy.Base.{
  ℕ, ◌*◌, ◌%◌, ◌≤◌, ◌<◌, ◌≡◌, ◌≢◌, refl, sym, ◌⊎◌, inl, inr, false, not, ◌&&◌, List, [], ◌∷◌,
  length, ltb, leb, ◌==◌, if◌then◌else◌, arith, u64_mod, All, Bool-cases, ltb→le,
}
use jasonisnthappy.Base.Bytes.{slice}
use jasonisnthappy.Base.Error.{Result, ok, err, data_corruption, ◌>>=◌}
use jasonisnthappy.Wal.Frame.{page_size}
use jasonisnthappy.Lru.Valid.{Distinct, All-map}
use jasonisnthappy.Pager.Header.{Header, deserialize}
use jasonisnthappy.Pager.State.{
  Pager, check_entries, contains, check_duplicates, validate_header, adopt, read_header,
}

abbrev pub Absent : ℕ → List ℕ → Type 0
Absent p qs = All (λ q. p ≢ q) qs

-- Free pages are pages of the file, page 0 is none of them and none is listed twice; the metadata
-- page is a page of the file and not free.
pub record IsSound (s : Pager) : Type 0 where
  pub pages : 1 ≤ s.num_pages
  pub metadata :
      (s.metadata_page ≡ 0) ⊎ ((s.metadata_page < s.num_pages) × Absent s.metadata_page s.free_list)
  pub free : All (λ p. (0 < p) × (p < s.num_pages)) s.free_list
  pub distinct : Distinct s.free_list

-- The first result that is no error, of two steps.
>>=-ok :
    {A B : Type 0} (r : Result A) (f : A → Result B) (b : B)
    → (r >>= f) ≡ ok b
    → (a : A) × (r ≡ ok a) × (f a ≡ ok b)
>>=-ok (ok a) f b e = (a, refl, e)
>>=-ok (err x) f b e = cc

check_entries-ok :
    (n : ℕ) (ps : List ℕ) (u : Unit {0})
    → check_entries n ps ≡ ok u
    → All (λ p. (0 < p) × (p < n)) ps
unfolding check_entries
check_entries-ok n [] u e = tt
check_entries-ok n (p ∷ ps) u e = elim (Bool-cases (leb n p)) [
  | inl out ↦ cc (rw out at e)
  | inr within ↦ elim (Bool-cases (p == 0)) [
    | inl at_zero ↦ cc (rw (within, at_zero) at e)
    | inr other ↦ ((ground arith, ground arith), check_entries-ok n ps u (rw (within, other) at e))
  ]
]

contains-false : (qs : List ℕ) (p : ℕ) → contains qs p ≡ false → Absent p qs
contains-false [] p e = tt
contains-false (q ∷ qs) p e = elim (Bool-cases (q == p)) [
  | inl same ↦ cc (rw same at e)
  | inr other ↦ (λ k. ground arith, contains-false qs p (rw other at e))
]

-- What is seen in the end is what was seen, and the list; nothing stands in both, or twice.
abbrev Seen : List ℕ → List ℕ → List ℕ → Type 0
Seen seen ps all =
    Distinct ps
    × All (λ p. Absent p seen) ps
    × ((p : ℕ) → Absent p all → Absent p seen × Absent p ps)

check_duplicates-ok : (seen ps all : List ℕ) → check_duplicates seen ps ≡ ok all → Seen seen ps all
unfolding check_duplicates
check_duplicates-ok seen [] all e = (tt, tt, λ p h. (ground (arith, e, h), tt))
check_duplicates-ok seen (p ∷ ps) all e = elim (Bool-cases (contains seen p)) [
  | inl twice ↦ cc (rw twice at e)
  | inr once ↦
      let (distinct, apart, back) = check_duplicates-ok (p ∷ seen) ps all (rw once at e) in
      (
        (All-map _ _ ps (λ q h k. h.0 (sym k)) apart, distinct),
        (contains-false seen p once, All-map _ _ ps (λ q h. h.1) apart),
        λ q h. let (front, behind) = back q h in (front.1, (front.0, behind)),
      )
]

-- Check 6 and what is left of check 3, for a metadata page that is set.
metadata-ok :
    (m n : ℕ) (free all : List ℕ) (u : Unit {0})
    → not (m == 0) && leb n m ≡ false
    → (if not (m == 0) && contains all m
        then err (data_corruption "metadata_page is in free_list")
        else ok tt)
      ≡ ok u
    → (Absent m all → Absent m free)
    → (m ≡ 0) ⊎ ((m < n) × Absent m free)
metadata-ok m n free all u range e back = elim (Bool-cases (m == 0)) [
  | inl unset ↦ inl (ground arith)
  | inr set ↦
      let within : leb n m ≡ false = rw set at range in
      elim (Bool-cases (contains all m)) [
        | inl free ↦ cc (rw (set, free) at e)
        | inr used ↦ inr (ground arith, back (contains-false all m used))
      ]
]

-- What an accepted header says.
pub record Accepted (file_size : ℕ) (h : Header) : Type 0 where
  pub pages : 1 ≤ h.num_pages
  pub file : h.num_pages * page_size % u64_mod ≤ file_size
  pub metadata :
      (h.metadata_page ≡ 0) ⊎ ((h.metadata_page < h.num_pages) × Absent h.metadata_page h.free_list)
  pub free : All (λ p. (0 < p) × (p < h.num_pages)) h.free_list
  pub distinct : Distinct h.free_list

validate_header-Accepted :
    (n : ℕ) (h : Header) (u : Unit {0}) → validate_header n h ≡ ok u → Accepted n h
unfolding validate_header
validate_header-Accepted n h u e = elim (Bool-cases (ltb h.num_pages 1)) [
  | inl none_at_all ↦ cc (rw none_at_all at e)
  | inr pages ↦ elim (Bool-cases (ltb n (h.num_pages * page_size % u64_mod))) [
    | inl short ↦ cc (rw (pages, short) at e)
    | inr long ↦ elim (Bool-cases (not (h.metadata_page == 0) && leb h.num_pages h.metadata_page)) [
      | inl out ↦ cc (rw (pages, long, out) at e)
      | inr range ↦
          let (u₁, entries, e₁) = >>=-ok _ _ u (rw (pages, long, range) at e) in
          let (all, duplicates, e₂) = >>=-ok _ _ u e₁ in
          let (distinct, apart, back) = check_duplicates-ok [] h.free_list all duplicates in
          record {
            pages = ltb→le h.num_pages 1 pages;
            file = ltb→le n (h.num_pages * page_size % u64_mod) long;
            metadata =
                metadata-ok h.metadata_page h.num_pages h.free_list all u range e₂
                  (λ k. (back h.metadata_page k).1);
            free = check_entries-ok h.num_pages h.free_list u₁ entries;
            distinct = distinct;
          }
    ]
  ]
]

-- A state whose file has all its pages, as far as the product of 64 bits tells.
pub record Opened (s : Pager) (s' : Pager) : Type 0 where
  pub sound : IsSound s'
  pub file : s'.num_pages * page_size % u64_mod ≤ length s'.file
  pub same_file : s'.file ≡ s.file
  pub cache : s'.cache ≡ s.cache

-- Whenever `read_header` succeeds, whatever the bytes of the file are, the free pages are pages of
-- the file other than page 0, none is listed twice, the metadata page is unset or a page of the
-- file that is not free, the file is as long as the 64-bit product of its number of pages and the
-- page size, and neither the file nor the cache has changed.
pub read_header-Opened : (s s' : Pager) → read_header s ≡ ok s' → Opened s s'
unfolding read_header
read_header-Opened s s' e = elim (Bool-cases (ltb (length s.file) page_size)) [
  | inl short ↦ cc (rw short at e)
  | inr long ↦
      let check = λ (h : Header). validate_header (length s.file) h in
      let (h, _, e₁) =
        >>=-ok (deserialize (slice s.file 0 page_size)) (λ h. check h >>= λ _. ok (adopt h s)) s'
          (rw long at e) in
      let (u, checked, e₂) = >>=-ok (check h) (λ _. ok (adopt h s)) s' e₁ in
      let a = validate_header-Accepted (length s.file) h u checked in
      let after : s' ≡ adopt h s = cc e₂ in
      rw after (record {
        sound = record {
          pages = a.pages;
          metadata = a.metadata;
          free = a.free;
          distinct = a.distinct;
        };
        file = a.file;
        same_file = refl;
        cache = refl;
      })
]
