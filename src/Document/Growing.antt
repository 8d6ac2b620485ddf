-- ===== src/Document/Growing.antt =====
-- src/core/document.rs: the overflow pages that `write_versioned_document` writes.
use jasonisnthappy.Base.{
  ℕ, ◌≤◌, ◌<◌, ◌≡◌, ◌≢◌, refl, ap, ◌∙◌, Bool, true, false, Option, none, some, List, length, ◌==◌,
  if◌then◌else◌, All, u64_mod,
}
use jasonisnthappy.Base.Bytes.{to_le, copy_at}
use jasonisnthappy.Base.Map
use jasonisnthappy.Base.Map.{Map}
use jasonisnthappy.Base.Error.{Result, ok}
use jasonisnthappy.Btree.Store.{PageStore}
use jasonisnthappy.Lru.Valid.{Distinct}
use jasonisnthappy.Document.Bytes.{
  Step, ◌>>=◌, continue, result, alloc_page, overflow_page, contains,
}
use jasonisnthappy.Document.Versioned.{Progress, attempt, or_give_back, write_both, link_previous}
use jasonisnthappy.Document.Chains.{Linked}
use jasonisnthappy.Document.Giving.{Giver}

module _ {S : Type 0} (store : PageStore S) where
  pub attempt-alloc_page :
      (pages : List ℕ) (s s' : S) (w : Map (List ℕ)) (p : ℕ)
      → store.alloc_page s ≡ ok (p, s')
      → attempt store pages (alloc_page store) (s, w) ≡ some (ok p, (s', w))
  attempt-alloc_page pages s s' w p e = rw (e, alloc_page) refl

  pub write_both-writes :
      (pages : List ℕ) (p : ℕ) (page : List ℕ) (s s' : S) (w : Map (List ℕ))
      → store.write_page p page s ≡ some (ok tt, s')
      → write_both store pages p page (s, w) ≡ some (ok tt, (s', Map.insert w p page))
  write_both-writes pages p page s s' w e = ap (or_give_back store pages (Map.insert w p page)) e

  -- A page before that is not the first is written with the new number.
  pub link_previous-chain :
      (first_page new_page : ℕ) (p : Progress) (buf : List ℕ) (s s' : S) (w : Map (List ℕ))
      → p.prev_page == first_page ≡ false
      → p.prev_data ≡ some buf
      → store.write_page p.prev_page (copy_at buf p.prev_offset (to_le 8 new_page)) s
        ≡ some (ok tt, s')
      → link_previous store first_page new_page p (s, w)
        ≡ some (ok p, (s', Map.insert w p.prev_page (copy_at buf p.prev_offset (to_le 8 new_page))))
  link_previous-chain first_page new_page p buf s s' w other there written =
      ap
        (λ (b : Bool).
          (if b
              then result (
                  ok (record p {
                    first_data = copy_at p.first_data p.prev_offset (to_le 8 new_page);
                  }))
              else elim p.prev_data as (λ _. Step (S × Map (List ℕ)) Progress) [
                | none ↦ result (ok p)
                | some prev_buf ↦
                    write_both store p.allocated_pages p.prev_page
                      (copy_at prev_buf p.prev_offset (to_le 8 new_page))
                    >>= λ _. result (ok p)
              ])
            (s, w))
        other
      ∙ ap
          (λ (d : Option (List ℕ)).
            (elim d as (λ _. Step (S × Map (List ℕ)) Progress) [
              | none ↦ result (ok p)
              | some prev_buf ↦
                  write_both store p.allocated_pages p.prev_page
                    (copy_at prev_buf p.prev_offset (to_le 8 new_page))
                  >>= λ _. result (ok p)
            ])
              (s, w))
          there
      ∙ ap (continue (λ _. result (ok p))) (
          write_both-writes p.allocated_pages p.prev_page
            (copy_at buf p.prev_offset (to_le 8 new_page)) s s' w written)

  -- The first page is linked in memory.
  pub link_previous-first :
      (first_page new_page : ℕ) (p : Progress) (s : S × Map (List ℕ))
      → p.prev_page == first_page ≡ true
      → link_previous store first_page new_page p s
        ≡ some (
          ok (record p { first_data = copy_at p.first_data p.prev_offset (to_le 8 new_page) }),
          s,
        )
  link_previous-first first_page new_page p s same =
      ap
        (λ (b : Bool).
          (if b
              then result (
                  ok (record p {
                    first_data = copy_at p.first_data p.prev_offset (to_le 8 new_page);
                  }))
              else elim p.prev_data as (λ _. Step (S × Map (List ℕ)) Progress) [
                | none ↦ result (ok p)
                | some prev_buf ↦
                    write_both store p.allocated_pages p.prev_page
                      (copy_at prev_buf p.prev_offset (to_le 8 new_page))
                    >>= λ _. result (ok p)
              ])
            s)
        same

-- What is written behind the page `r`, which holds `chunk`, for the bytes that are left.
pub record Grows {S : Type 0} {store : PageStore S} (giver : Giver S store) (given : List ℕ)
    (n r : ℕ) (chunk bytes first_data : List ℕ) (w : Map (List ℕ))
    (run : Option (Result Progress × (S × Map (List ℕ)))) : Type 0 where
  pub progress : Progress
  pub state : S
  pub tx_writes : Map (List ℕ)
  pub pages : List ℕ
  pub pointer : ℕ
  pub given' : List ℕ
  pub left : ℕ
  pub runs : run ≡ some (ok progress, (state, tx_writes))
  pub same_first : progress.first_data ≡ first_data
  pub gives : giver.Gives state given' left
  pub keeps : (x : ℕ) → contains given x ≡ true → contains given' x ≡ true
  pub linked : Map.get tx_writes r ≡ some (overflow_page chunk pointer)
  pub small : pointer < u64_mod
  pub chain : Linked tx_writes pages pointer bytes
  pub distinct : Distinct pages
  pub fresh : All (λ x. All (λ q. x ≢ q) given) pages
  pub few : length pages ≤ n
  pub others : (x : ℕ) → contains given x ≡ true → r ≢ x → Map.get tx_writes x ≡ Map.get w x
