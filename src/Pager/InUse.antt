-- ===== src/Pager/InUse.antt =====
-- src/core/pager.rs: the pages in use and the free ones, behind any sequence of calls.
use jasonisnthappy.Base.{
  ℕ, ◌+◌, ◌<◌, ◌≡◌, ◌⊎◌, length, ap, sym, inl, inr, some, List, [], ◌∷◌, ◌++◌, arith, u64_mod,
}
use mathlib.Core.Path.{subst}
use jasonisnthappy.Base.Error.{ok}
use jasonisnthappy.Pager.State.{Pager, pop_minimum, alloc_page_minimum, free_page}
use jasonisnthappy.Pager.Open.{Absent}
use jasonisnthappy.Pager.Counts.{
  IsCounted, opened-IsCounted, pop_minimum-times, grant-IsCounted, freed-IsCounted, wrong-IsCounted,
}
use jasonisnthappy.Pager.Taken.{
  IsVacant, free-IsVacant, grant-Held, freed-Held, free_page-after, alloc-after,
}
use jasonisnthappy.Pager.Allocation.{Held, pop_minimum-Apart, pop_minimum-Granted}

-- The states, the pages in use, and the pages that were freed while they were not in use, that calls
-- lead to: pages are allocated, with any minimum, and any pages are freed, since `free_page` does not
-- ask whether a page is in use.
pub data Reaches : Pager → List ℕ → List ℕ → Type 0 where
  opened : {s : Pager} {held : List ℕ} → Held s held → Reaches s held []
  allocated :
      {s s' : Pager} {held wrong : List ℕ} (min_page p : ℕ)
      → Reaches s held wrong
      → s.num_pages + 1 < u64_mod
      → alloc_page_minimum min_page s ≡ ok (p, s')
      → Reaches s' (p ∷ held) wrong
  freed :
      {s s' : Pager} {held wrong : List ℕ} (ahead behind : List ℕ) (p : ℕ)
      → Reaches s held wrong
      → held ≡ ahead ++ (p ∷ behind)
      → free_page p s ≡ some (ok s')
      → Reaches s' (ahead ++ behind) wrong
  freed_wrongly :
      {s s' : Pager} {held wrong : List ℕ} (p : ℕ)
      → Reaches s held wrong
      → Absent p held
      → free_page p s ≡ some (ok s')
      → Reaches s' held (p ∷ wrong)

-- Some page was freed while it was not in use, or all is well.
abbrev pub HeldUnless : List ℕ → Pager → List ℕ → Type 0
HeldUnless wrong s held = (0 < length wrong) ⊎ Held s held

HeldUnless-map :
    {s s' : Pager} {held held' : List ℕ} (wrong : List ℕ)
    → (Held s held → Held s' held')
    → HeldUnless wrong s held
    → HeldUnless wrong s' held'
HeldUnless-map wrong f (inl h) = inl h
HeldUnless-map wrong f (inr v) = inr (f v)

-- From a state with pages in use that are pages of the file, apart from each other and from the free
-- ones, and for any sequence of allocations, with any minimum and with room in 64 bits for one page
-- more, and of frees of any pages, whether they are in use or not: every page of the file is at most
-- once in use or free, and once more for each time that it was freed while it was not in use; and if
-- no page was freed so, the pages in use are pages of the file other than page 0 and the metadata
-- page, none is in use twice, none in use is free, none is free twice, and the state stays sound.
pub Reaches-Held :
    (s : Pager) (held wrong : List ℕ)
    → Reaches s held wrong
    → IsCounted s held wrong × HeldUnless wrong s held
Reaches-Held s held _ (opened v) = (opened-IsCounted s held v, inr v)
Reaches-Held s' _ wrong (allocated {s} {held} min_page p r room run) =
    let (counted, sound) = Reaches-Held s held wrong r in
    let e = alloc-after min_page p s s' run in
    let popped = pop_minimum min_page s.free_list in
    let taken = λ (v : Held s held).
      grant-Held s held v min_page popped
        (pop_minimum-Granted (IsVacant s held v) min_page s.free_list (free-IsVacant s held v))
        (pop_minimum-Apart min_page s.free_list v.sound.distinct) room in
    let once =
      grant-IsCounted s held wrong popped room (λ q. pop_minimum-times q min_page s.free_list)
        counted in
    subst (λ (r : ℕ × Pager). IsCounted r.1 (r.0 ∷ held) wrong × HeldUnless wrong r.1 (r.0 ∷ held))
      e (once, HeldUnless-map wrong taken sound)
Reaches-Held s' _ wrong (freed {s} {held} ahead behind p r e run) =
    let (counted, sound) =
      subst (λ h. IsCounted s h wrong × HeldUnless wrong s h) e (Reaches-Held s held wrong r) in
    let (cache, after) = free_page-after p s s' run in
    (
      freed-IsCounted s s' ahead behind wrong p (ap (λ (t : Pager). t.num_pages) after)
          (ap (λ (t : Pager). t.free_list) after) counted,
      HeldUnless-map wrong
          (λ v.
            subst (λ t. Held t (ahead ++ behind)) (sym after) (freed-Held s ahead behind p v cache))
          sound,
    )
Reaches-Held s' _ _ (freed_wrongly {s} {held} {wrong} p r absent run) =
    let (counted, sound) = Reaches-Held s held wrong r in
    let (cache, after) = free_page-after p s s' run in
    (
      wrong-IsCounted s s' held wrong p (ap (λ (t : Pager). t.num_pages) after)
          (ap (λ (t : Pager). t.free_list) after) counted,
      inl (omega arith),
    )
