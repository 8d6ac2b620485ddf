-- ===== src/Document/Written.antt =====
-- src/core/document.rs: the loop over the overflow pages of `write_versioned_document` writes a chain.
use jasonisnthappy.Base.{
  ℕ, zero, suc, ◌*◌, ◌≤◌, ◌<◌, ◌≡◌, ◌≢◌, refl, ap, ◌∙◌, true, false, Option, some, List, [], ◌∷◌,
  ◌++◌, length, take, drop, min, ◌==◌, arith, All, length-take, length-drop, u64_mod,
}
use jasonisnthappy.Base.Bytes.{to_le, copy_at}
use jasonisnthappy.Base.Map
use jasonisnthappy.Base.Map.{Map, get-insert_same, get-insert_other}
use jasonisnthappy.Base.Error.{Result, ok}
use jasonisnthappy.Wal.Frame.{page_size}
use jasonisnthappy.Btree.Store.{PageStore}
use jasonisnthappy.Lru.Valid.{Distinct}
use jasonisnthappy.Document.Bytes.{
  max_overflow_data, ◌>>=◌, continue, result, pointer_of, overflow_page, contains,
}
use jasonisnthappy.Document.Versioned.{Progress, link_previous, started, write_overflow, write_last}
use jasonisnthappy.Document.Chains.{Linked}
use jasonisnthappy.Document.Overflow.{
  length-overflow_page, take-overflow_page, pointer_of-overflow_page, copy_at-overflow_page,
}
use jasonisnthappy.Document.Giving.{
  Fresh-behind, Giver, contains-other, contains-behind, contains-front,
}
use jasonisnthappy.Document.Growing.{
  attempt-alloc_page, write_both-writes, link_previous-chain, Grows,
}

take-fits : (src : List ℕ) → length (take max_overflow_data src) ≤ max_overflow_data
take-fits src = omega (arith, length-take max_overflow_data src)

module _ {S : Type 0} {store : PageStore S} (giver : Giver S store) where
  write_last-Grows :
      (r n : ℕ) (src : List ℕ) (l : Progress) (given : List ℕ) (s : S) (w : Map (List ℕ))
      → giver.Gives s given n
      → contains given r ≡ true
      → Grows giver given n r
          (take max_overflow_data src)
          []
          l.first_data
          w
          (write_last store (started store r src l) (s, w))
  write_last-Grows r n src l given s w g h =
      let p = started store r src l in
      let buf = overflow_page (take max_overflow_data src) 0 in
      let (s', e, g') =
        giver.writes s given n r buf g h
          (length-overflow_page (take max_overflow_data src) (take-fits src) 0) in
      record {
        progress = p;
        state = s';
        tx_writes = Map.insert w r buf;
        pages = [];
        pointer = 0;
        given' = given;
        left = n;
        runs =
            ap (continue (λ _. result (ok p)))
              (write_both-writes store p.allocated_pages r buf s s' w e);
        same_first = refl;
        gives = g';
        keeps = λ x k. k;
        linked = get-insert_same w r buf;
        small = omega arith;
        chain = (refl, refl);
        distinct = tt;
        fresh = tt;
        few = omega arith;
        others = λ x k ne. get-insert_other w r x buf ne;
      }

  -- What is written from the page `p` on is a chain that holds the bytes.
  pub Grows-chain :
      (given : List ℕ) (n p : ℕ) (bytes first_data : List ℕ) (w : Map (List ℕ))
      → (run : Option (Result Progress × (S × Map (List ℕ)))) → 0 < p
      → All (λ q. p ≢ q) given
      → 0 < length bytes
      → (h : Grows giver
          (p ∷ given)
          n
          p
          (take max_overflow_data bytes)
          (drop max_overflow_data bytes)
          first_data
          w
          run)
      → Linked h.tx_writes (p ∷ h.pages) p bytes
        × Distinct (p ∷ h.pages)
        × All (λ x. All (λ q. x ≢ q) given) (p ∷ h.pages)
  Grows-chain given n p bytes first_data w run pos new some_bytes h =
      let part = take max_overflow_data bytes in
      let page = overflow_page part h.pointer in
      let (fresh, apart) = Fresh-behind given h.pages p h.fresh in
      let there : take (min (length bytes) max_overflow_data) page ≡ part =
        ap (λ (k : ℕ). take k page) (omega (arith, length-take max_overflow_data bytes))
        ∙ take-overflow_page part (take-fits bytes) h.pointer in
      let chain : Linked h.tx_writes h.pages (pointer_of page) (drop max_overflow_data bytes) =
        rw (pointer_of-overflow_page part (take-fits bytes) h.pointer h.small) h.chain in
      ((refl, pos, some_bytes, (page, h.linked, there, chain)), (apart, h.distinct), (new, fresh))

  -- A page in front of what is written behind it.
  Grows-link :
      (given : List ℕ) (n p r : ℕ) (chunk bytes first_data : List ℕ) (w : Map (List ℕ))
      → (run' run : Option (Result Progress × (S × Map (List ℕ)))) → run' ≡ run
      → 0 < p
      → p < u64_mod
      → All (λ q. p ≢ q) given
      → contains given r ≡ true
      → 0 < length bytes
      → Grows giver
          (p ∷ given)
          n
          p
          (take max_overflow_data bytes)
          (drop max_overflow_data bytes)
          first_data
          (Map.insert w r (overflow_page chunk p))
          run
      → Grows giver given (suc n) r chunk bytes first_data w run'
  Grows-link given n p r chunk bytes first_data w run' run e pos small new held some_bytes h =
      let (chain, distinct, fresh) =
        Grows-chain given n p bytes first_data _ run pos new some_bytes h in
      let kept : Map.get h.tx_writes r ≡ some (overflow_page chunk p) =
        h.others r (contains-behind given p r held) (contains-other given p r held new)
        ∙ get-insert_same w r (overflow_page chunk p) in
      record {
        progress = h.progress;
        state = h.state;
        tx_writes = h.tx_writes;
        pages = p ∷ h.pages;
        pointer = p;
        given' = h.given';
        left = h.left;
        runs = e ∙ h.runs;
        same_first = h.same_first;
        gives = h.gives;
        keeps = λ x k. h.keeps x (contains-behind given p x k);
        linked = kept;
        small = small;
        chain = chain;
        distinct = distinct;
        fresh = fresh;
        few = omega (arith, h.few);
        others = λ x k ne.
            h.others x (contains-behind given p x k) (contains-other given p x k new)
            ∙ get-insert_other w r x (overflow_page chunk p) ne;
      }

  -- With the pages that the data need, the loop and the last write put them all on a chain.
  pub write_overflow-Grows :
      (fuel first_page r : ℕ) (src bytes : List ℕ) (l : Progress) (given : List ℕ) (n : ℕ) (s : S)
      (w : Map (List ℕ))
      → giver.Gives s given n
      → r == first_page ≡ false
      → contains given r ≡ true
      → contains given first_page ≡ true
      → length bytes ≤ fuel
      → length bytes ≤ n * max_overflow_data
      → Grows giver given n r (take max_overflow_data src) bytes l.first_data w (
          (write_overflow store fuel first_page bytes (started store r src l) >>= write_last store)
            (s, w))
  unfolding write_overflow
  write_overflow-Grows zero first_page r src [] l given n s w g other held first_held fuelled fits =
      write_last-Grows r n src l given s w g held
  write_overflow-Grows zero first_page r src (b ∷ bytes) l given n s w g other held first_held
        fuelled fits =
      absurd (omega arith)
  write_overflow-Grows (suc fuel) first_page r src [] l given n s w g other held first_held fuelled
        fits =
      write_last-Grows r n src l given s w g held
  write_overflow-Grows (suc fuel) first_page r src (b ∷ bytes) l given zero s w g other held
        first_held fuelled fits =
      absurd (omega arith)
  write_overflow-Grows (suc fuel) first_page r src (b ∷ bytes) l given (suc n) s w g other held
        first_held fuelled fits =
      let (p, s1, allocated, g1, pos, small, new) = giver.gives s given n g in
      let chunk = take max_overflow_data src in
      let fits_page = take-fits src in
      let l1 = record (started store r src l) { allocated_pages = l.allocated_pages ++ (p ∷ []) } in
      let page = copy_at (overflow_page chunk 0) max_overflow_data (to_le 8 p) in
      let set : page ≡ overflow_page chunk p = copy_at-overflow_page chunk fits_page 0 p in
      let size : length page ≡ page_size =
        ap (λ (x : List ℕ). length x) set ∙ length-overflow_page chunk fits_page p in
      let (s2, written, g2) =
        giver.writes s1 (p ∷ given) n r page g1 (contains-behind given p r held) size in
      let behind = drop max_overflow_data (b ∷ bytes) in
      let p_other : p == first_page ≡ false =
        ground (arith, contains-other given p first_page first_held new) in
      let shorter = length-drop max_overflow_data (b ∷ bytes) in
      let ih =
        write_overflow-Grows fuel first_page p (b ∷ bytes) behind l1 (p ∷ given) n s2
          (Map.insert w r (overflow_page chunk p)) g2 p_other (contains-front given p)
          (contains-behind given p first_page first_held) (omega (arith, shorter, fuelled))
          (omega (arith, shorter, fits)) in
      let linked =
        link_previous-chain store first_page p l1 (overflow_page chunk 0) s1 s2 w other refl
          written in
      let runs =
        ap
          (λ (m : Option (Result ℕ × (S × Map (List ℕ)))). continue (write_last store) (
            continue
              (λ new_page.
                link_previous store first_page new_page (record (started store r src l) {
                  allocated_pages = l.allocated_pages ++ (new_page ∷ []);
                })
                >>= λ q.
                    write_overflow store fuel first_page behind
                      (started store new_page (b ∷ bytes) q))
              m))
          (attempt-alloc_page store l.allocated_pages s s1 w p allocated)
        ∙ ap
            (λ (m : Option (Result Progress × (S × Map (List ℕ)))). continue (write_last store) (
              continue
                (λ q. write_overflow store fuel first_page behind (started store p (b ∷ bytes) q))
                m))
            linked
        ∙ ap
            (λ (x : List ℕ).
              (write_overflow store fuel first_page behind (started store p (b ∷ bytes) l1)
                  >>= write_last store)
                (s2, Map.insert w r x))
            set in
      Grows-link given n p r chunk (b ∷ bytes) l.first_data w _ _ runs pos small new held
        (omega arith) ih
