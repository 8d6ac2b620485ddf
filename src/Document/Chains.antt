-- ===== src/Document/Chains.antt =====
-- src/core/document.rs: the data of an overflow chain, as the reading loop finds them.
use jasonisnthappy.Base.{
  ℕ, zero, suc, ◌+◌, ◌-◌, ◌≤◌, ◌<◌, ◌≡◌, ◌≢◌, refl, sym, ap, ◌∙◌, true, false, some, List, [], ◌∷◌,
  ◌++◌, length, take, drop, min, leb, ◌==◌, arith, All, append_assoc, append-nil, length-append,
  length-take, length-drop, take-append-drop,
}
use jasonisnthappy.Base.Map
use jasonisnthappy.Base.Map.{Map}
use jasonisnthappy.Base.Error.{ok}
use jasonisnthappy.Btree.Store.{PageStore}
use jasonisnthappy.Lru.Valid.{Distinct}
use jasonisnthappy.Document.Bytes.{max_overflow_data, pointer_of, contains, read_chain}
use jasonisnthappy.Document.Versioned.{page_of}
use Prim.Native.String.{String}

-- The pages `ps` hold the bytes, from page `q` on, each with the number of the next.
abbrev pub Linked : Map (List ℕ) → List ℕ → ℕ → List ℕ → Type 0
Linked w [] q bytes = (q ≡ 0) × (bytes ≡ [])
Linked w (p ∷ ps) q bytes =
    (q ≡ p)
    × (0 < p)
    × (0 < length bytes)
    × ((page : List ℕ) × (Map.get w p ≡ some page)
        × (take (min (length bytes) max_overflow_data) page ≡ take max_overflow_data bytes)
        × Linked w ps (pointer_of page) (drop max_overflow_data bytes))

contains-Absent : (qs : List ℕ) (p : ℕ) → All (λ q. p ≢ q) qs → contains qs p ≡ false
contains-Absent [] p h = refl
contains-Absent (q ∷ qs) p h =
    let other : q == p ≡ false = ground (arith, h.0) in rw other (contains-Absent qs p h.1)

-- none of the pages was visited
abbrev Unvisited : List ℕ → List ℕ → Type 0
Unvisited visited ps = All (λ p. All (λ q. p ≢ q) visited) ps

pub Unvisited-nil : (ps : List ℕ) → Unvisited [] ps
Unvisited-nil [] = tt
Unvisited-nil (p ∷ ps) = (tt, Unvisited-nil ps)

Unvisited-step :
    (visited : List ℕ) (p : ℕ) (ps : List ℕ)
    → Unvisited visited ps
    → All (λ q. p ≢ q) ps
    → Unvisited (p ∷ visited) ps
Unvisited-step visited p [] h d = tt
Unvisited-step visited p (q ∷ ps) h d =
    ((λ e. d.0 (sym e), h.0), Unvisited-step visited p ps h.1 d.1)

module _ {S : Type 0} (store : PageStore S) (w : Map (List ℕ)) where
  pub page_of-some :
      (p : ℕ) (page : List ℕ) (s : S)
      → Map.get w p ≡ some page
      → page_of store w p s ≡ some (ok page, s)
  page_of-some p page s there = rw (there, page_of) refl

module _ {S : Type 0} (store : PageStore S) (w : Map (List ℕ)) (cycle too_long : String) where
  -- The loop reads the whole chain, if it may read as many pages.
  pub read_chain-Linked :
      (ps : List ℕ) (left : ℕ) (visited : List ℕ) (q data_len : ℕ) (read bytes : List ℕ) (s : S)
      → Linked w ps q bytes
      → length ps ≤ left
      → length read + length bytes ≡ data_len
      → Distinct ps
      → Unvisited visited ps
      → read_chain (page_of store w) cycle too_long left visited q data_len read s
        ≡ some (ok (read ++ bytes), s)
  unfolding read_chain
  read_chain-Linked [] zero visited q data_len read bytes s (e, no_bytes) fits size d u =
      let done : q == 0 ≡ true = ground (arith, e) in rw (done, no_bytes, append-nil {A = ℕ}) refl
  read_chain-Linked [] (suc left) visited q data_len read bytes s (e, no_bytes) fits size d u =
      let done : q == 0 ≡ true = ground (arith, e) in rw (done, no_bytes, append-nil {A = ℕ}) refl
  read_chain-Linked (p ∷ ps) zero visited q data_len read bytes s h fits size d u =
      absurd (omega arith)
  read_chain-Linked (p ∷ ps) (suc left) visited q data_len read bytes s (e, pos, some_bytes, chain)
        fits size d u =
      let (page, there, part, rest) = chain in
      let not_end : q == 0 ≡ false = ground (arith, e, pos) in
      let short : leb data_len (length read) ≡ false = ground (arith, size, some_bytes) in
      let new : contains visited p ≡ false = contains-Absent visited p u.0 in
      let wanted : data_len - length read ≡ length bytes = omega (arith, size) in
      let chunk = take max_overflow_data bytes in
      let behind = drop max_overflow_data bytes in
      let left_over : length (read ++ chunk) + length behind ≡ data_len = omega (
        arith,
        size,
        length-append read chunk,
        length-take max_overflow_data bytes,
        length-drop max_overflow_data bytes,
      ) in
      let ih =
        read_chain-Linked ps left (p ∷ visited) (pointer_of page) data_len (read ++ chunk) behind s
          rest (omega (arith, fits)) left_over d.1 (Unvisited-step visited p ps u.1 d.0) in
      let joined : (read ++ chunk) ++ behind ≡ read ++ bytes =
        append_assoc read chunk behind
        ∙ ap (λ (x : List ℕ). read ++ x) (take-append-drop max_overflow_data bytes) in
      rw (not_end, short, e, new, page_of-some store w p page s there, wanted, part, ih)
        (ap (λ (x : List ℕ). some (ok x, s)) joined)
