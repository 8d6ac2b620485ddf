-- ===== src/Document/Before.antt =====
-- src/core/document.rs: all that `write_versioned_document` writes in front of the first page.
use jasonisnthappy.Base.{
  ℕ, zero, suc, ◌*◌, ◌≤◌, ◌<◌, ◌≡◌, ◌≢◌, refl, ap, ◌∙◌, true, false, Option, some, List, [], ◌∷◌,
  ◌++◌, length, drop, ◌==◌, arith, All, length-drop, u64_mod,
}
use jasonisnthappy.Base.Bytes.{to_le, copy_at}
use jasonisnthappy.Base.Map
use jasonisnthappy.Base.Map.{Map, get-insert_same, get-insert_other}
use jasonisnthappy.Base.Error.{Result, ok}
use jasonisnthappy.Btree.Store.{PageStore}
use jasonisnthappy.Lru.Valid.{Distinct}
use jasonisnthappy.Document.Bytes.{max_overflow_data, Step, ◌>>=◌, continue, contains}
use jasonisnthappy.Document.Versioned.{
  VersionedDocument, Progress, begun, link_previous, started, write_overflow, write_last,
}
use jasonisnthappy.Document.Chains.{Linked}
use jasonisnthappy.Document.FirstPage.{first_size, spare, first_data-paged, copy_at-paged}
use jasonisnthappy.Document.Read.{page_with}
use jasonisnthappy.Document.Giving.{Giver, contains-other, contains-behind, contains-front}
use jasonisnthappy.Document.Growing.{attempt-alloc_page, link_previous-first}
use jasonisnthappy.Document.Written.{Grows-chain, write_overflow-Grows}

module _ {S : Type 0} {store : PageStore S} (giver : Giver S store) (d : VersionedDocument) where
  -- the data behind the first page
  abbrev pub remaining : List ℕ
  remaining = drop (first_size d.id d.content d.xmin d.xmax) d.content

  abbrev pub spare_bytes : List ℕ
  spare_bytes = spare d.id d.content d.xmin d.xmax

  -- What is written when only the first page is left to write.
  pub record BeforeFirst (given : List ℕ) (n p : ℕ) (w : Map (List ℕ))
      (run : Option (Result Progress × (S × Map (List ℕ)))) : Type 0 where
    pub progress : Progress
    pub state : S
    pub tx_writes : Map (List ℕ)
    pub pages : List ℕ
    pub pointer : ℕ
    pub given' : List ℕ
    pub left : ℕ
    pub runs : run ≡ some (ok progress, (state, tx_writes))
    pub first_data : progress.first_data ≡ page_with d pointer spare_bytes
    pub gives : giver.Gives state given' left
    pub held : contains given' p ≡ true
    pub small : pointer < u64_mod
    pub chain : Linked tx_writes pages pointer remaining
    pub distinct : Distinct pages
    pub fresh : All (λ x. All (λ q. x ≢ q) (p ∷ given)) pages
    pub few : length pages ≤ n
    pub others : (x : ℕ) → contains given x ≡ true → p ≢ x → Map.get tx_writes x ≡ Map.get w x

  abbrev pub start : ℕ → Progress
  start p = begun p d.id d.content d.xmin d.xmax

  abbrev pub before_first : ℕ → List ℕ → Step (S × Map (List ℕ)) Progress
  before_first p bytes = write_overflow store (length bytes) p bytes (start p) >>= write_last store

  alone :
      (given : List ℕ) (n p : ℕ) (s : S) (w : Map (List ℕ))
      → giver.Gives s (p ∷ given) n
      → remaining ≡ []
      → BeforeFirst given n p w (before_first p [] (s, w))
  unfolding write_overflow
  alone given n p s w g nothing = record {
    progress = start p;
    state = s;
    tx_writes = w;
    pages = [];
    pointer = 0;
    given' = p ∷ given;
    left = n;
    runs = refl;
    first_data = first_data-paged d.id d.content d.xmin d.xmax p;
    gives = g;
    held = contains-front given p;
    small = omega arith;
    chain = (refl, nothing);
    distinct = tt;
    fresh = tt;
    few = omega arith;
    others = λ x k ne. refl;
  }

  chained :
      (given : List ℕ) (n p : ℕ) (b : ℕ) (bytes : List ℕ) (s : S) (w : Map (List ℕ))
      → giver.Gives s (p ∷ given) n
      → remaining ≡ b ∷ bytes
      → length (b ∷ bytes) ≤ n * max_overflow_data
      → BeforeFirst given n p w (before_first p (b ∷ bytes) (s, w))
  unfolding write_overflow
  chained given zero p b bytes s w g some_left fits = absurd (omega arith)
  chained given (suc n) p b bytes s w g some_left fits =
      let (r, s1, allocated, g1, pos, small, new) = giver.gives s (p ∷ given) n g in
      let l0 = record (start p) { allocated_pages = (p ∷ []) ++ (r ∷ []) } in
      let l1 = record l0 { first_data = copy_at l0.first_data l0.prev_offset (to_le 8 r) } in
      let behind = drop max_overflow_data (b ∷ bytes) in
      let shorter = length-drop max_overflow_data (b ∷ bytes) in
      let other : r == p ≡ false = ground (arith, new.0) in
      let h =
        write_overflow-Grows giver (length bytes) p r (b ∷ bytes) behind l1 (r ∷ (p ∷ given)) n s1 w
          g1 other (contains-front (p ∷ given) r)
          (contains-behind (p ∷ given) r p (contains-front given p)) (omega (arith, shorter))
          (omega (arith, shorter, fits)) in
      let (chain, distinct, fresh) =
        Grows-chain giver (p ∷ given) n r (b ∷ bytes) _ w _ pos new (omega arith) h in
      let set : l1.first_data ≡ page_with d r spare_bytes =
        ap (λ (x : List ℕ). copy_at x l0.prev_offset (to_le 8 r))
          (first_data-paged d.id d.content d.xmin d.xmax p)
        ∙ copy_at-paged d.id d.content d.xmin d.xmax 0 r spare_bytes in
      let runs =
        ap
          (λ (m : Option (Result ℕ × (S × Map (List ℕ)))). continue (write_last store) (
            continue
              (λ new_page.
                link_previous store p new_page
                  (record (start p) { allocated_pages = (p ∷ []) ++ (new_page ∷ []) })
                >>= λ q.
                    write_overflow store (length bytes) p behind
                      (started store new_page (b ∷ bytes) q))
              m))
          (attempt-alloc_page store (p ∷ []) s s1 w r allocated)
        ∙ ap
            (λ (m : Option (Result Progress × (S × Map (List ℕ)))). continue (write_last store) (
              continue
                (λ q. write_overflow store (length bytes) p behind (started store r (b ∷ bytes) q))
                m))
            (link_previous-first store p r l0 (s1, w) (ground arith))
        ∙ h.runs in
      record {
        progress = h.progress;
        state = h.state;
        tx_writes = h.tx_writes;
        pages = r ∷ h.pages;
        pointer = r;
        given' = h.given';
        left = h.left;
        runs = runs;
        first_data = h.same_first ∙ set;
        gives = h.gives;
        held = h.keeps p (contains-behind (p ∷ given) r p (contains-front given p));
        small = small;
        chain = rw some_left chain;
        distinct = distinct;
        fresh = fresh;
        few = omega (arith, h.few);
        others = λ x k ne.
            h.others x (contains-behind (p ∷ given) r x (contains-behind given p x k))
              (contains-other (p ∷ given) r x (contains-behind given p x k) new);
      }

  pub before :
      (given : List ℕ) (n p : ℕ) (bytes : List ℕ) (s : S) (w : Map (List ℕ))
      → giver.Gives s (p ∷ given) n
      → remaining ≡ bytes
      → length bytes ≤ n * max_overflow_data
      → BeforeFirst given n p w (before_first p bytes (s, w))
  before given n p [] s w g e fits = alone given n p s w g e
  before given n p (b ∷ bytes) s w g e fits = chained given n p b bytes s w g e fits
