-- ===== src/Pager/Batches.antt =====
-- src/core/pager.rs: after `write_pages_direct` each page stands in the file.
use jasonisnthappy.Base.{
  ℕ, ◌≡◌, ◌≢◌, refl, sym, ap, ◌∙◌, inl, inr, Bool, true, false, some, List, [], ◌∷◌, length, leb,
  ◌==◌, if◌then◌else◌, arith, Bool-cases, All,
}
use jasonisnthappy.Base.Error.{Result, ok, err, invalid_page_size, other}
use jasonisnthappy.Wal.Frame.{page_size}
use jasonisnthappy.Pager.State.{Pager}
use jasonisnthappy.Pager.Files.{page_at, page_at-write_at, page_at-write_at_other}
use jasonisnthappy.Pager.Direct.{
  IsWritable, Numbered, all_whole, sort_page_in, sort_pages, write_batches, write_batches-each,
  write_each, write_pages_direct,
}

-- No number stands twice.
abbrev pub DistinctPages : List Numbered → Type 0
DistinctPages [] = Unit
DistinctPages (p ∷ ps) = All (λ q. p.0 ≢ q.0) ps × DistinctPages ps

module _ (P : Numbered → Type 0) where
  All-sort_page_in :
      (p : Numbered) (ps : List Numbered) → P p → All P ps → All P (sort_page_in p ps)
  All-sort_page_in p [] h k = (h, tt)
  All-sort_page_in p (q ∷ ps) h k = elim (Bool-cases (leb p.0 q.0)) [
    | inl below ↦ rw below (h, k)
    | inr above ↦ rw above (k.0, All-sort_page_in p ps h k.1)
  ]

  All-sorted_page_in :
      (p : Numbered) (ps : List Numbered) → All P (sort_page_in p ps) → P p × All P ps
  All-sorted_page_in p [] h = (h.0, tt)
  All-sorted_page_in p (q ∷ ps) h = elim (Bool-cases (leb p.0 q.0)) [
    | inl below ↦ rw below at h
    | inr above ↦
        let k : P q × All P (sort_page_in p ps) = rw above at h in
        let (own, rest) = All-sorted_page_in p ps k.1 in (own, (k.0, rest))
  ]

  -- Sorting keeps the pages,
  All-sort_pages : (ps : List Numbered) → All P ps → All P (sort_pages ps)
  unfolding sort_pages
  All-sort_pages [] h = tt
  All-sort_pages (p ∷ ps) h = All-sort_page_in p (sort_pages ps) h.0 (All-sort_pages ps h.1)

  -- and adds none.
  All-sorted_pages : (ps : List Numbered) → All P (sort_pages ps) → All P ps
  unfolding sort_pages
  All-sorted_pages [] h = tt
  All-sorted_pages (p ∷ ps) h =
      let (own, rest) = All-sorted_page_in p (sort_pages ps) h in (own, All-sorted_pages ps rest)

DistinctPages-sort_page_in :
    (p : Numbered) (ps : List Numbered)
    → All (λ q. p.0 ≢ q.0) ps
    → DistinctPages ps
    → DistinctPages (sort_page_in p ps)
DistinctPages-sort_page_in p [] h d = (tt, tt)
DistinctPages-sort_page_in p (q ∷ ps) h d = elim (Bool-cases (leb p.0 q.0)) [
  | inl below ↦ rw below (h, d)
  | inr above ↦ rw above (
    All-sort_page_in (λ r. q.0 ≢ r.0) p ps (λ e. h.0 (sym e)) d.0,
    DistinctPages-sort_page_in p ps h.1 d.1,
  )
]

DistinctPages-sort : (ps : List Numbered) → DistinctPages ps → DistinctPages (sort_pages ps)
unfolding sort_pages
DistinctPages-sort [] d = tt
DistinctPages-sort (p ∷ ps) d =
    DistinctPages-sort_page_in p (sort_pages ps) (All-sort_pages (λ q. p.0 ≢ q.0) ps d.0)
      (DistinctPages-sort ps d.1)

write_each-others :
    (ps : List Numbered) (file : List ℕ) (q : ℕ) (e : List ℕ)
    → All IsWritable ps
    → All (λ p. q ≢ p.0) ps
    → page_at file q ≡ some e
    → page_at (write_each ps file) q ≡ some e
unfolding write_each
write_each-others [] file q e w h k = k
write_each-others ((p, d) ∷ ps) file q e w h k =
    write_each-others ps _ q e w.1 h.1 (page_at-write_at_other file d p w.0.0 q e h.0 k)

write_each-stores :
    (ps : List Numbered) (file : List ℕ)
    → All IsWritable ps
    → DistinctPages ps
    → All (λ p. page_at (write_each ps file) p.0 ≡ some p.1) ps
unfolding write_each
write_each-stores [] file w d = tt
write_each-stores ((p, d) ∷ ps) file w h = (
  write_each-others ps _ p d w.1 h.0 (page_at-write_at file d p w.0.0),
  write_each-stores ps _ w.1 h.1,
)

all_whole-true : (ps : List Numbered) → All IsWritable ps → all_whole ps ≡ true
unfolding all_whole
all_whole-true [] w = refl
all_whole-true (p ∷ ps) w =
    let sized : length p.1 == page_size ≡ true = ground (arith, w.0) in
    rw sized (all_whole-true ps w.1)

-- What writing pages directly promises.
pub record WritesAll (pages : List Numbered) (s : Pager) (r : Result (Unit {0}) × Pager)
    : Type 0 where
  pub file : List ℕ
  pub returned : r ≡ (ok tt, record s { file = file })
  pub stored : All (λ p. page_at file p.0 ≡ some p.1) pages
  pub others :
      (q : ℕ) (e : List ℕ)
      → All (λ p. q ≢ p.0) pages
      → page_at s.file q ≡ some e
      → page_at file q ≡ some e

write_sorted :
    (pages : List Numbered) (s : Pager)
    → All IsWritable pages
    → s.read_only ≡ false
    → write_pages_direct pages s ≡ (ok tt, record s { file = write_each (sort_pages pages) s.file })
unfolding write_pages_direct
write_sorted [] s w writable =
    let nothing : Result (Unit {0}) × Pager = (ok tt, s) in
    unfold sort_pages write_each in
    ap
      (λ (b : Bool).
        if b then (err (other "cannot write pages: database is read-only"), s) else nothing)
      writable
write_sorted (p ∷ ps) s w writable =
    let pages = p ∷ ps in
    let sorted = sort_pages pages in
    let whole = All-sort_pages IsWritable pages w in
    let done : Result (Unit {0}) × Pager =
      (ok tt, record s { file = write_batches (length sorted) sorted s.file }) in
    let checked : Result (Unit {0}) × Pager =
      if all_whole sorted then done else (err invalid_page_size, s) in
    let some_page : length (p ∷ ps) == 0 ≡ false = ground arith in
    let counted : Result (Unit {0}) × Pager =
      if length (p ∷ ps) == 0 then (ok tt, s) else checked in
    ap
      (λ (b : Bool).
        if b then (err (other "cannot write pages: database is read-only"), s) else counted)
      writable
    ∙ (ap (λ (b : Bool). if b then (ok tt, s) else checked) some_page
        ∙ (ap (λ (b : Bool). if b then done else (err invalid_page_size, s))
              (all_whole-true sorted whole)
            ∙ ap (λ (file : List ℕ). (ok tt, record s { file = file }))
                (write_batches-each (length sorted) sorted s.file (omega arith) whole)))

-- Whole pages with distinct numbers, written to a pager that is not read-only: the call succeeds
-- and changes nothing but the file. Each page then stands in the file under its number, although
-- pages that follow one another are joined into one write, and every other page that the file had
-- is as before.
pub write_pages_direct-WritesAll :
    (pages : List Numbered) (s : Pager)
    → All IsWritable pages
    → DistinctPages pages
    → s.read_only ≡ false
    → WritesAll pages s (write_pages_direct pages s)
write_pages_direct-WritesAll pages s w d writable =
    let sorted = sort_pages pages in
    let whole = All-sort_pages IsWritable pages w in
    record {
      file = write_each sorted s.file;
      returned = write_sorted pages s w writable;
      stored =
          All-sorted_pages (λ p. page_at (write_each sorted s.file) p.0 ≡ some p.1) pages
            (write_each-stores sorted s.file whole (DistinctPages-sort pages d));
      others = λ q e h k.
          write_each-others sorted s.file q e whole (All-sort_pages (λ p. q ≢ p.0) pages h) k;
    }
