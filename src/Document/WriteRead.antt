-- ===== src/Document/WriteRead.antt =====
-- src/core/document.rs: `write_versioned_document`, and `read_versioned_document` behind it.
use jasonisnthappy.Base.{
  ℕ, suc, ◌*◌, ◌≤◌, ◌≡◌, ◌≢◌, refl, sym, ap, ◌∙◌, true, false, Option, some, List, [], ◌∷◌, length,
  ltb, arith, All,
}
use jasonisnthappy.Base.Map
use jasonisnthappy.Base.Map.{Map, get-insert_same, get-insert_other}
use jasonisnthappy.Base.Error.{Result, ok}
use jasonisnthappy.Wal.Frame.{page_size}
use jasonisnthappy.Btree.Store.{PageStore}
use jasonisnthappy.Document.Bytes.{
  max_overflow_data, max_overflow_chain_length, ◌>>=◌, continue, result, contains,
}
use jasonisnthappy.Document.Versioned.{
  VersionedDocument, Progress, write_overflow, write_last, write_first, write_versioned_document,
  read_versioned_document,
}
use jasonisnthappy.Document.Chains.{Linked}
use jasonisnthappy.Document.FirstPage.{length-paged}
use jasonisnthappy.Document.Read.{IsWritable, read_versioned_document-Linked}
use jasonisnthappy.Document.Before.{remaining, spare_bytes, start, before}
use jasonisnthappy.Document.Giving.{Giver, contains-other}
use jasonisnthappy.Document.Growing.{attempt-alloc_page, write_both-writes}

Linked-insert :
    (w : Map (List ℕ)) (p : ℕ) (page : List ℕ) (given ps : List ℕ) (q : ℕ) (bytes : List ℕ)
    → All (λ x. All (λ g. x ≢ g) (p ∷ given)) ps
    → Linked w ps q bytes
    → Linked (Map.insert w p page) ps q bytes
Linked-insert w p page given [] q bytes fresh h = h
Linked-insert w p page given (x ∷ ps) q bytes fresh (e, pos, some_bytes, (there, at, part, rest)) =
    (
      e,
      pos,
      some_bytes,
      (
        there,
        get-insert_other w p x page (λ same. fresh.0.0 (sym same)) ∙ at,
        part,
        Linked-insert w p page given ps _ _ fresh.1 rest,
      ),
    )

module _ {S : Type 0} {store : PageStore S} (giver : Giver S store) (d : VersionedDocument) where
  -- what writing the document promises
  abbrev pub ReadsBack :
      List ℕ → Map (List ℕ) → Option (Result (ℕ × List ℕ) × (S × Map (List ℕ))) → Type 0
  ReadsBack given w run =
      (p : ℕ) × (page : List ℕ) × (s' : S) × (w' : Map (List ℕ)) × (run
        ≡ some (ok (p, page), (s', w')))
      × All (λ q. p ≢ q) given
      × ((t : S) → read_versioned_document store p w' t ≡ some (ok d, t))
      × ((x : ℕ) → contains given x ≡ true → Map.get w' x ≡ Map.get w x)

  -- A document whose id is UTF-8 of 1 to 255 bytes, with at most 1 GiB of data, whose numbers fit
  -- 64 bits, and whose data behind the first page fit `n` overflow pages, at most 250000: if the
  -- pager has `n + 1` pages to give, it is written without an error, under a page that was given to
  -- nobody, reading that page with what is written gives the document, and the pages given before
  -- keep what the transaction wrote.
  pub write_versioned_document-ReadsBack :
      (given : List ℕ) (n : ℕ) (s : S) (w : Map (List ℕ))
      → IsWritable d
      → giver.Gives s given (suc n)
      → length (remaining giver d) ≤ n * max_overflow_data
      → n ≤ max_overflow_chain_length
      → ReadsBack given w (write_versioned_document store d.id d.content d.xmin d.xmax (s, w))
  unfolding write_versioned_document
  write_versioned_document-ReadsBack given n s w v g fits few =
      let (p, s1, allocated, g1, pos, small, new) = giver.gives s given n g in
      let h = before giver d given n p (remaining giver d) s1 w g1 refl fits in
      let page = h.progress.first_data in
      let size : length page ≡ page_size =
        ap (λ (x : List ℕ). length x) h.first_data
        ∙ length-paged d.id d.content d.xmin d.xmax h.pointer v.short_id in
      let (s2, written, g2) = giver.writes h.state h.given' h.left p page h.gives h.held size in
      let short : ltb 255 (length d.id) ≡ false = ground (arith, v.short_id) in
      let w' = Map.insert h.tx_writes p page in
      let started_run = attempt-alloc_page store [] s s1 w p allocated in
      let runs =
        ap
          (λ (m : Option (Result ℕ × (S × Map (List ℕ)))).
            continue
              (λ first_page.
                write_overflow store (length (remaining giver d)) first_page (remaining giver d)
                  (start giver d first_page)
                >>= write_last store
                >>= write_first store first_page)
              m)
          started_run
        ∙ ap
            (λ (m : Option (Result Progress × (S × Map (List ℕ)))).
              continue (write_first store p) m)
            h.runs
        ∙ ap (continue (λ _. result (ok (p, page)))) (
            write_both-writes store h.progress.allocated_pages p page h.state s2 h.tx_writes
              written) in
      let read = λ (t : S).
        read_versioned_document-Linked store w' d p h.pointer (spare_bytes giver d) h.pages t v
          h.small (get-insert_same h.tx_writes p page ∙ ap (λ (x : List ℕ). some x) h.first_data)
          (Linked-insert h.tx_writes p page given h.pages h.pointer (remaining giver d) h.fresh
            h.chain)
          (omega (arith, h.few, few)) h.distinct in
      let keep = λ (x : ℕ) (k : contains given x ≡ true).
        let apart = contains-other given p x k new in
        get-insert_other h.tx_writes p x page apart ∙ h.others x k apart in
      (p, page, s2, w', rw short runs, new, read, keep)
