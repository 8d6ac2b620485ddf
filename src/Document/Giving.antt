-- ===== src/Document/Giving.antt =====
-- src/core/document.rs: what writing a document relies on: the pager gives pages that are in use
-- nowhere, and writes to pages that it gave.
use jasonisnthappy.Base.{
  ℕ, suc, ◌<◌, ◌≡◌, ◌≢◌, sym, true, some, List, [], ◌∷◌, length, All, u64_mod, arith,
}
use jasonisnthappy.Base.Error.{ok}
use jasonisnthappy.Wal.Frame.{page_size}
use jasonisnthappy.Btree.Store.{PageStore}
use jasonisnthappy.Document.Bytes.{contains}

pub record Giver (S : Type 0) (store : PageStore S) : Type 1 where
  -- the pages that were given, and how many are left to give
  pub Gives : S → List ℕ → ℕ → Type 0
  pub gives :
      (s : S) (given : List ℕ) (n : ℕ)
      → Gives s given (suc n)
      → (p : ℕ) × (s' : S) × (store.alloc_page s ≡ ok (p, s'))
        × Gives s' (p ∷ given) n
        × (0 < p)
        × (p < u64_mod)
        × All (λ q. p ≢ q) given
  pub writes :
      (s : S) (given : List ℕ) (n p : ℕ) (page : List ℕ)
      → Gives s given n
      → contains given p ≡ true
      → length page ≡ page_size
      → (s' : S) × (store.write_page p page s ≡ some (ok tt, s')) × Gives s' given n

-- A page that is held is none of the others.
pub contains-other :
    (given : List ℕ) (p x : ℕ) → contains given x ≡ true → All (λ q. p ≢ q) given → p ≢ x
contains-other [] p x h a = ground arith
contains-other (q ∷ qs) p x h a = ground (arith, a.0, contains-other qs p x, a.1)

pub contains-behind :
    (given : List ℕ) (p x : ℕ) → contains given x ≡ true → contains (p ∷ given) x ≡ true
contains-behind given p x h = ground arith

pub contains-front : (given : List ℕ) (p : ℕ) → contains (p ∷ given) p ≡ true
contains-front given p = ground arith

-- Pages apart from one more page.
pub Fresh-behind :
    (given qs : List ℕ) (p : ℕ)
    → All (λ x. All (λ q. x ≢ q) (p ∷ given)) qs
    → All (λ x. All (λ q. x ≢ q) given) qs × All (λ q. p ≢ q) qs
Fresh-behind given [] p h = (tt, tt)
Fresh-behind given (x ∷ qs) p h =
    let (behind, front) = Fresh-behind given qs p h.1 in
    ((h.0.1, behind), ((λ e. h.0.0 (sym e)), front))
