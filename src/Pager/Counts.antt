-- ===== src/Pager/Counts.antt =====
-- src/core/pager.rs: how often a page is in use or free, whatever pages are freed.
use jasonisnthappy.Base.{
  ℕ, ◌+◌, ◌%◌, ◌≤◌, ◌<◌, ◌≡◌, ◌⊎◌, refl, sym, ap, ◌∙◌, Option, none, some, List, [], ◌∷◌, ◌++◌, ltb,
  ◌==◌, if◌then◌else◌, arith, u64_mod, All, inl, inr, Bool-cases,
}
use jasonisnthappy.Lru.Valid.{Distinct}
use jasonisnthappy.Pager.State.{Pager, pop_behind, pop_minimum, grant}
use jasonisnthappy.Pager.Open.{Absent}
use jasonisnthappy.Pager.Allocation.{Held}

-- how often a page stands in a list
abbrev pub times : ℕ → List ℕ → ℕ
times p [] = 0
times p (q ∷ qs) = (if q == p then 1 else 0) + times p qs

-- whether the file has the page
abbrev pub below : ℕ → ℕ → ℕ
below p num_pages = if ltb p num_pages then 1 else 0

-- Every page of the file is at most once in use or free, any other page never, and once more for each
-- time that it was freed while it was not in use.
abbrev pub IsCounted : Pager → List ℕ → List ℕ → Type 0
IsCounted s held wrong =
    (p : ℕ) → times p held + times p s.free_list ≤ below p s.num_pages + times p wrong

times-append : (p : ℕ) (xs ys : List ℕ) → times p (xs ++ ys) ≡ times p xs + times p ys
times-append p [] ys = omega arith
times-append p (x ∷ xs) ys = omega (arith, times-append p xs ys)

times-Absent : (p : ℕ) (xs : List ℕ) → Absent p xs → times p xs ≡ 0
times-Absent p [] h = refl
times-Absent p (x ∷ xs) h = ground (arith, h.0, times-Absent p xs h.1)

times-Distinct : (p : ℕ) (xs : List ℕ) → Distinct xs → times p xs ≤ 1
times-Distinct p [] d = omega arith
times-Distinct p (x ∷ xs) d = elim (Bool-cases (x == p)) [
  | inl same ↦
      let at : x ≡ p = ground (arith, same) in
      ground (arith, same, times-Absent x xs d.0, ap (λ (k : ℕ). times k xs) at)
  | inr apart ↦ ground (arith, apart, times-Distinct p xs d.1)
]

times-range : (p n : ℕ) (xs : List ℕ) → All (λ q. (0 < q) × (q < n)) xs → n ≤ p → times p xs ≡ 0
times-range p n [] h k = refl
times-range p n (x ∷ xs) h k = ground (arith, h.0.1, times-range p n xs h.1 k)

-- A page of one list is not in the other.
times-apart :
    (p : ℕ) (held free : List ℕ)
    → All (λ q. Absent q free) held
    → (times p held ≡ 0) ⊎ (times p free ≡ 0)
times-apart p [] free h = inl refl
times-apart p (x ∷ xs) free h = elim (Bool-cases (x == p)) [
  | inl same ↦
      let at : x ≡ p = ground (arith, same) in
      inr (sym (ap (λ (k : ℕ). times k free) at) ∙ times-Absent x free h.0)
  | inr apart ↦ elim (times-apart p xs free h.1) [
    | inl e ↦ inl (ground (arith, apart, e))
    | inr e ↦ inr e
  ]
]

-- Pages of the file that are apart from each other.
pub opened-IsCounted : (s : Pager) (held : List ℕ) → Held s held → IsCounted s held []
opened-IsCounted s held v p =
    let once = times-Distinct p held v.distinct in
    let free_once = times-Distinct p s.free_list v.sound.distinct in
    elim (Bool-cases (ltb p s.num_pages)) [
      | inl within ↦ elim (times-apart p held s.free_list v.used) [
        | inl e ↦ ground (arith, within, e, free_once)
        | inr e ↦ ground (arith, within, e, once)
      ]
      | inr beyond ↦
          let far : s.num_pages ≤ p = ground (arith, beyond) in
          ground (
            arith,
            times-range p s.num_pages held v.range far,
            times-range p s.num_pages s.free_list v.sound.free far,
          )
    ]

-- the pages that are handed out
abbrev pub taken : Option ℕ → List ℕ
taken none = []
taken (some q) = q ∷ []

pop_behind-times :
    (p min_page q : ℕ) (r : Option ℕ × List ℕ) (rest : List ℕ)
    → times p (taken r.0) + times p r.1 ≤ times p rest
    → times p (taken (pop_behind min_page q r).0) + times p (pop_behind min_page q r).1
      ≤ times p (q ∷ rest)
pop_behind-times p min_page q (some t, left) rest h = omega (arith, h)
pop_behind-times p min_page q (none, left) rest h = ground (arith, h)

pub pop_minimum-times :
    (p min_page : ℕ) (ps : List ℕ)
    → times p (taken (pop_minimum min_page ps).0) + times p (pop_minimum min_page ps).1 ≤ times p ps
unfolding pop_minimum
pop_minimum-times p min_page [] = omega arith
pop_minimum-times p min_page (q ∷ qs) =
    pop_behind-times p min_page q (pop_minimum min_page qs) qs (pop_minimum-times p min_page qs)

pub grant-IsCounted :
    (s : Pager) (held wrong : List ℕ) (r : Option ℕ × List ℕ)
    → s.num_pages + 1 < u64_mod
    → ((p : ℕ) → times p (taken r.0) + times p r.1 ≤ times p s.free_list)
    → IsCounted s held wrong
    → IsCounted (grant s r).1 ((grant s r).0 ∷ held) wrong
grant-IsCounted s held wrong (some q, left) room h v p = omega (arith, h p, v p)
grant-IsCounted s held wrong (none, left) room h v p =
    let grown : (s.num_pages + 1) % u64_mod ≡ s.num_pages + 1 = omega (arith, room) in
    rw grown (ground (arith, h p, v p))

-- A page in use is freed.
pub freed-IsCounted :
    (s s' : Pager) (ahead behind wrong : List ℕ) (p : ℕ)
    → s'.num_pages ≡ s.num_pages
    → s'.free_list ≡ s.free_list ++ (p ∷ [])
    → IsCounted s (ahead ++ (p ∷ behind)) wrong
    → IsCounted s' (ahead ++ behind) wrong
freed-IsCounted s s' ahead behind wrong p e f v q =
    rw (e, f)
      (omega (
        arith,
        v q,
        times-append q ahead (p ∷ behind),
        times-append q ahead behind,
        times-append q s.free_list (p ∷ []),
      ))

-- A page that is not in use is freed.
pub wrong-IsCounted :
    (s s' : Pager) (held wrong : List ℕ) (p : ℕ)
    → s'.num_pages ≡ s.num_pages
    → s'.free_list ≡ s.free_list ++ (p ∷ [])
    → IsCounted s held wrong
    → IsCounted s' held (p ∷ wrong)
wrong-IsCounted s s' held wrong p e f v q =
    rw (e, f) (omega (arith, v q, times-append q s.free_list (p ∷ [])))
