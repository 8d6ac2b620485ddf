-- ===== src/Pager/Direct.antt =====
-- src/core/pager.rs: `write_pages_direct` joins the pages that follow one another into one write.
use jasonisnthappy.Base.{
  ℕ, zero, suc, ◌+◌, ◌*◌, ◌≤◌, ◌<◌, ◌≡◌, refl, sym, ap, ◌∙◌, inl, inr, Bool, true, false, List, [],
  ◌∷◌, ◌++◌, length, leb, ◌==◌, if◌then◌else◌, arith, u64_mod, Bool-cases, All, append-nil,
  length-append,
}
use jasonisnthappy.Base.Error.{Result, ok, err, invalid_page_size, other}
use jasonisnthappy.Wal.Frame.{page_size}
use jasonisnthappy.Wal.Disk.{write_at}
use jasonisnthappy.Pager.State.{Pager}
use jasonisnthappy.Pager.Pages.{offset}
use jasonisnthappy.Pager.Files.{write_at-append}

-- a page and its number
abbrev pub Numbered : Type 0
Numbered = ℕ × List ℕ

-- `sort_unstable_by_key`: pages with the same number, which the callers do not pass, stay in order
abbrev pub sort_page_in : Numbered → List Numbered → List Numbered
sort_page_in p [] = p ∷ []
sort_page_in p (q ∷ qs) =
    let rest = sort_page_in p qs in if leb p.0 q.0 then p ∷ q ∷ qs else q ∷ rest

unfoldable pub sort_pages : List Numbered → List Numbered
sort_pages [] = []
sort_pages (p ∷ ps) = sort_page_in p (sort_pages ps)

unfoldable pub all_whole : List Numbered → Bool
all_whole [] = true
all_whole (p ∷ ps) = let rest = all_whole ps in if length p.1 == page_size then rest else false

-- The inner loop: the pages that follow page `current` without a gap, and those behind them.
abbrev onto_batch : Numbered → List Numbered × List Numbered → List Numbered × List Numbered
onto_batch p (batch, rest) = (p ∷ batch, rest)

unfoldable pub take_batch : ℕ → List Numbered → List Numbered × List Numbered
take_batch current [] = ([], [])
take_batch current ((p, d) ∷ ps) =
    let further = take_batch p ps in
    if p == current + 1 then onto_batch (p, d) further else ([], (p, d) ∷ ps)

abbrev pub joined : List Numbered → List ℕ
joined [] = []
joined ((p, d) ∷ ps) = d ++ joined ps

-- one batch: a page and those that follow it
abbrev pub write_batch : List ℕ → ℕ → List ℕ → List Numbered → List ℕ
write_batch file p d [] = write_at file (offset p) d
write_batch file p d (q ∷ batch) = write_at file (offset p) (d ++ joined (q ∷ batch))

-- the outer loop; a round takes one page at least, so as many rounds as pages are enough
unfoldable pub write_batches : ℕ → List Numbered → List ℕ → List ℕ
write_batches zero ps file = file
write_batches (suc n) [] file = file
write_batches (suc n) ((p, d) ∷ ps) file =
    let (batch, rest) = take_batch p ps in write_batches n rest (write_batch file p d batch)

unfoldable pub write_pages_direct : List Numbered → Pager → Result (Unit {0}) × Pager
write_pages_direct pages s =
    let sorted = sort_pages pages in
    if s.read_only
    then (err (other "cannot write pages: database is read-only"), s)
    else if length pages == 0
    then (ok tt, s)
    else if all_whole sorted
    then (ok tt, record s { file = write_batches (length sorted) sorted s.file })
    else (err invalid_page_size, s)

-- the reference: the pages one by one
unfoldable pub write_each : List Numbered → List ℕ → List ℕ
write_each [] file = file
write_each ((p, d) ∷ ps) file = write_each ps (write_at file (p * page_size) d)

-- whole pages at offsets of 64 bits
abbrev pub IsWritable : Numbered → Type 0
IsWritable p = (length p.1 ≡ page_size) × (p.0 * page_size < u64_mod)

abbrev BatchOf : ℕ → List Numbered → List Numbered × List Numbered → Type 0
BatchOf current ps (batch, rest) =
    (ps ≡ batch ++ rest)
    × All IsWritable batch
    × All IsWritable rest
    × ((file : List ℕ) (d : List ℕ)
        → length d ≡ page_size
        → write_at file (current * page_size) (d ++ joined batch)
          ≡ write_each batch (write_at file (current * page_size) d))

onto_batch-BatchOf :
    (current p : ℕ) (e : List ℕ) (ps : List Numbered) (r : List Numbered × List Numbered)
    → p ≡ current + 1
    → IsWritable (p, e)
    → BatchOf p ps r
    → BatchOf current ((p, e) ∷ ps) (onto_batch (p, e) r)
unfolding write_each
onto_batch-BatchOf current p e ps (batch, rest) at w h = (
  ap (λ (qs : List Numbered). (p, e) ∷ qs) h.0,
  (w, h.1),
  h.2,
  λ file d size.
      let next_offset : current * page_size + length d ≡ p * page_size = omega (arith, size, at) in
      write_at-append file d (e ++ joined batch) (current * page_size) (omega (arith, size))
      ∙ rw next_offset (h.3 (write_at file (current * page_size) d) e w.0),
)

-- A batch is what its pages are, one behind the other.
take_batch-BatchOf :
    (current : ℕ) (ps : List Numbered)
    → All IsWritable ps
    → BatchOf current ps (take_batch current ps)
unfolding take_batch write_each
take_batch-BatchOf current [] w = (refl, tt, tt, λ file d size. rw (append-nil {A = ℕ}) refl)
take_batch-BatchOf current ((p, e) ∷ ps) w = elim (Bool-cases (p == current + 1)) [
  | inl follows ↦ rw follows (
      onto_batch-BatchOf current p e ps (take_batch p ps) (ground arith) w.0
        (take_batch-BatchOf p ps w.1))
  | inr gap ↦ rw gap (refl, tt, w, λ file d size. rw (append-nil {A = ℕ}) refl)
]

write_batch-each :
    (file : List ℕ) (p : ℕ) (d : List ℕ) (batch : List Numbered)
    → p * page_size < u64_mod
    → write_at file (p * page_size) (d ++ joined batch)
      ≡ write_each batch (write_at file (p * page_size) d)
    → write_batch file p d batch ≡ write_each batch (write_at file (p * page_size) d)
write_batch-each file p d [] range e =
    let at : offset p ≡ p * page_size = omega (arith, range) in rw at (rw (append-nil {A = ℕ}) at e)
write_batch-each file p d (q ∷ batch) range e =
    let at : offset p ≡ p * page_size = omega (arith, range) in rw at e

write_each-append :
    (ps qs : List Numbered) (file : List ℕ)
    → write_each (ps ++ qs) file ≡ write_each qs (write_each ps file)
unfolding write_each
write_each-append [] qs file = refl
write_each-append ((p, d) ∷ ps) qs file = write_each-append ps qs _

-- Writing by batches is writing the pages one by one.
pub write_batches-each :
    (n : ℕ) (ps : List Numbered) (file : List ℕ)
    → length ps ≤ n
    → All IsWritable ps
    → write_batches n ps file ≡ write_each ps file
unfolding write_batches write_each
write_batches-each zero [] file h w = refl
write_batches-each zero (p ∷ ps) file h w = absurd (omega arith)
write_batches-each (suc n) [] file h w = refl
write_batches-each (suc n) ((p, d) ∷ ps) file h w =
    let b = take_batch-BatchOf p ps w.1 in
    let (batch, rest) = take_batch p ps in
    let wrote = write_batch-each file p d batch w.0.1 (b.3 file d w.0.0) in
    let first = write_each batch (write_at file (p * page_size) d) in
    let fewer : length rest ≤ n =
      omega (arith, ap (λ (qs : List Numbered). length qs) b.0, length-append batch rest) in
    rw wrote (
      write_batches-each n rest first fewer b.2
      ∙ (sym (write_each-append batch rest (write_at file (p * page_size) d))
          ∙ ap (λ (qs : List Numbered). write_each qs (write_at file (p * page_size) d)) (sym b.0)))
