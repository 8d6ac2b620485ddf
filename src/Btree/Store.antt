-- ===== src/Btree/Store.antt =====
-- The pages under a tree: what src/core/btree.rs uses of the pager, and what it relies on. `none`
-- is a panic.
use jasonisnthappy.Base.{ℕ, ◌≡◌, Option, some, List}
use jasonisnthappy.Base.Error.{Result, ok}

pub record PageStore (S : Type 0) : Type 1 where
  pub read_page : ℕ → S → Option (Result (List ℕ) × S)
  pub write_page : ℕ → List ℕ → S → Option (Result (Unit {0}) × S)
  pub alloc_page : S → Result (ℕ × S)
  pub free_page : ℕ → S → Option (Result S)
  -- the pages that can be read, in a state that is sound
  pub pages : S → ℕ → Option (List ℕ)
  pub IsGood : S → Type 0
  -- A page that can be read is read, and reading changes no page.
  pub reads :
      (s : S) (q : ℕ) (d : List ℕ)
      → IsGood s
      → pages s q ≡ some d
      → (s' : S) × (read_page q s ≡ some (ok d, s'))
        × IsGood s'
        × ((p : ℕ) → pages s' p ≡ pages s p)
