-- ===== src/Pager/Allocation.antt =====
-- src/core/pager.rs: pages that are allocated and freed, in any order of calls.
use jasonisnthappy.Base.{
  ℕ, ◌≤◌, ◌<◌, ◌≡◌, ◌≢◌, refl, sym, inl, inr, Option, none, some, List, [], ◌∷◌, ◌++◌, leb, arith,
  All, All-append, Bool-cases,
}
use jasonisnthappy.Lru.Valid.{Distinct, All-map}
use jasonisnthappy.Pager.State.{Pager, pop_behind, pop_minimum}
use jasonisnthappy.Pager.Open.{Absent, IsSound}

-- What holds of each free page holds of the one that is taken and of those that are left.
abbrev pub Granted : (ℕ → Type 0) → Option ℕ × List ℕ → Type 0
Granted P (none, left) = All P left
Granted P (some p, left) = P p × All P left

pop_behind-Granted :
    (P : ℕ → Type 0) (min_page q : ℕ) (r : Option ℕ × List ℕ)
    → P q
    → Granted P r
    → Granted P (pop_behind min_page q r)
pop_behind-Granted P min_page q (some p, left) h k = (k.0, (h, k.1))
pop_behind-Granted P min_page q (none, left) h k = elim (Bool-cases (leb min_page q)) [
  | inl above ↦ rw above (h, tt)
  | inr below ↦ rw below tt
]

pub pop_minimum-Granted :
    (P : ℕ → Type 0) (min_page : ℕ) (ps : List ℕ) → All P ps → Granted P (pop_minimum min_page ps)
unfolding pop_minimum
pop_minimum-Granted P min_page [] h = tt
pop_minimum-Granted P min_page (p ∷ ps) h =
    pop_behind-Granted P min_page p (pop_minimum min_page ps) h.0
      (pop_minimum-Granted P min_page ps h.1)

-- The page that is taken is not below the minimum, and no longer free.
abbrev pub Apart : ℕ → Option ℕ × List ℕ → Type 0
Apart min_page (none, left) = left ≡ []
Apart min_page (some p, left) = (min_page ≤ p) × Distinct left × Absent p left

pop_behind-Apart :
    (min_page q : ℕ) (r : Option ℕ × List ℕ)
    → Granted (λ p. q ≢ p) r
    → Apart min_page r
    → Apart min_page (pop_behind min_page q r)
pop_behind-Apart min_page q (some p, left) h k = (k.0, (h.1, k.1), (λ e. h.0 (sym e), k.2))
pop_behind-Apart min_page q (none, left) h k = elim (Bool-cases (leb min_page q)) [
  | inl above ↦ rw above (ground arith, tt, tt)
  | inr below ↦ rw below refl
]

pub pop_minimum-Apart :
    (min_page : ℕ) (ps : List ℕ) → Distinct ps → Apart min_page (pop_minimum min_page ps)
unfolding pop_minimum
pop_minimum-Apart min_page [] d = refl
pop_minimum-Apart min_page (p ∷ ps) d =
    pop_behind-Apart min_page p (pop_minimum min_page ps)
      (pop_minimum-Granted (λ q. p ≢ q) min_page ps d.0) (pop_minimum-Apart min_page ps d.1)

-- One entry out of a list.
pub All-remove :
    (P : ℕ → Type 0) (ahead behind : List ℕ) (p : ℕ)
    → All P (ahead ++ (p ∷ behind))
    → P p × All P (ahead ++ behind)
All-remove P [] behind p h = h
All-remove P (a ∷ ahead) behind p h =
    let (of_p, rest) = All-remove P ahead behind p h.1 in (of_p, (h.0, rest))

pub Distinct-remove :
    (ahead behind : List ℕ) (p : ℕ)
    → Distinct (ahead ++ (p ∷ behind))
    → Distinct (ahead ++ behind) × Absent p (ahead ++ behind)
Distinct-remove [] behind p d = (d.1, d.0)
Distinct-remove (a ∷ ahead) behind p d =
    let (ne, apart) = All-remove (λ j. a ≢ j) ahead behind p d.0 in
    let (rest, absent) = Distinct-remove ahead behind p d.1 in
    ((apart, rest), (λ e. ne (sym e), absent))

pub Distinct-append : (ps : List ℕ) (p : ℕ) → Distinct ps → Absent p ps → Distinct (ps ++ (p ∷ []))
Distinct-append [] p d h = (tt, tt)
Distinct-append (q ∷ ps) p d h =
    (All-append (λ j. q ≢ j) ps (p ∷ []) d.0 ((λ e. h.0 (sym e)), tt), Distinct-append ps p d.1 h.1)

-- Pages in use: those that were handed out and not yet freed. Each is a page of the file other than
-- page 0 and the metadata page, none is held twice, and none is free.
pub record Held (s : Pager) (held : List ℕ) : Type 0 where
  pub sound : IsSound s
  pub range : All (λ p. (0 < p) × (p < s.num_pages)) held
  pub distinct : Distinct held
  pub used : All (λ p. Absent p s.free_list) held
  pub metadata : All (λ p. p ≢ s.metadata_page) held

-- Two lists that share no page share none the other way round.
pub swap-Absent :
    (left held : List ℕ) → All (λ q. Absent q held) left → All (λ p. Absent p left) held
swap-Absent left [] h = tt
swap-Absent left (p ∷ held) h = (
  All-map _ _ left (λ q k e. k.0 (sym e)) h,
  swap-Absent left held (All-map _ _ left (λ q k. k.1) h),
)
