-- ===== src/Pager/Flush.antt =====
-- src/core/pager.rs: `flush` and `flush_no_sync` bring the dirty pages into the file.
use jasonisnthappy.Base.{
  ℕ, ◌*◌, ◌<◌, ◌≡◌, refl, sym, ap, ◌∙◌, ◌⊎◌, inl, inr, Bool, true, false, Option, none, some, List,
  [], ◌∷◌, length, ◌==◌, if◌then◌else◌, arith, u64_mod, Bool-cases, Option-cases,
}
use jasonisnthappy.Base.Map
use jasonisnthappy.Base.Map.{Map}
use jasonisnthappy.Base.Error.{Result, ok}
use jasonisnthappy.Wal.Frame.{page_size}
use jasonisnthappy.Wal.Disk.{write_at}
use jasonisnthappy.Lru.Arena.{LruCacheInner}
use jasonisnthappy.Lru.Cache.{get_read_only, is_dirty, get_all_dirty, clear_all_dirty}
use jasonisnthappy.Lru.Valid.{IsValid, get_read_only-same}
use jasonisnthappy.Lru.Sequences.{soiled-IsValid}
use jasonisnthappy.Pager.State.{Pager, contains}
use jasonisnthappy.Pager.Files.{page_at, page_at-write_at, page_at-write_at_other}
use jasonisnthappy.Pager.Pages.{offset, sort_in, sort, flush_pages, flushed, flush}
use jasonisnthappy.Pager.Views.{view, view_of, Coherent, reads}

contains-sort_in :
    (p q : ℕ) (ps : List ℕ) → contains (sort_in p ps) q ≡ (if p == q then true else contains ps q)
contains-sort_in p q [] = refl
contains-sort_in p q (r ∷ ps) = ground (arith, contains-sort_in p q ps)

-- Sorting keeps the pages.
contains-sort : (ps : List ℕ) (q : ℕ) → contains (sort ps) q ≡ contains ps q
unfolding sort
contains-sort [] q = refl
contains-sort (p ∷ ps) q = contains-sort_in p q (sort ps) ∙ rw (contains-sort ps q) refl

contains-keys :
    (m : Map Bool) (q : ℕ) (b : Bool) → Map.get m q ≡ some b → contains (Map.keys m) q ≡ true
unfolding Map.get
contains-keys [] q b e = cc
contains-keys ((p, c) ∷ m) q b e = elim (Bool-cases (p == q)) [
  | inl same ↦ rw same refl
  | inr other ↦ rw other (contains-keys m q b (rw other at e))
]

-- A dirty page is among the pages that are flushed.
dirty-contains :
    (c : LruCacheInner) (q : ℕ) → is_dirty c q ≡ true → contains (get_all_dirty c) q ≡ true
unfolding is_dirty
dirty-contains c q h = elim (Option-cases (Map.get c.dirty q)) [
  | inl absent ↦ cc (rw (absent, is_dirty) at h)
  | inr (b, there) ↦ contains-keys c.dirty q b there
]

-- Every page of the cache is whole and lies at an offset of 64 bits.
abbrev AllWhole : LruCacheInner → Type 0
AllWhole c =
    (q : ℕ) (d : List ℕ)
    → get_read_only c q ≡ some (some d)
    → (length d ≡ page_size) × (q * page_size < u64_mod)

-- What the loop does to the file.
record FlushesPages (c : LruCacheInner) (ps file : List ℕ) (r : Option (List ℕ)) : Type 0 where
  after : List ℕ
  returned : r ≡ some after
  written :
      (q : ℕ) (d : List ℕ)
      → get_read_only c q ≡ some (some d)
      → (contains ps q ≡ true) ⊎ (page_at file q ≡ some d)
      → page_at after q ≡ some d
  others :
      (q : ℕ) (d : List ℕ)
      → get_read_only c q ≡ some none
      → page_at file q ≡ some d
      → page_at after q ≡ some d

flush_pages-FlushesPages :
    (c : LruCacheInner) (ps file : List ℕ)
    → IsValid c
    → AllWhole c
    → FlushesPages c ps file (flush_pages c ps file)
unfolding flush_pages
flush_pages-FlushesPages c [] file v whole = record {
  after = file;
  returned = refl;
  written = λ q d e h. elim h [ inl there ↦ cc | inr same ↦ same ];
  others = λ q d e h. h;
}
flush_pages-FlushesPages c (p ∷ ps) file v whole =
    let (r, read) = reads c p v in
    elim (Option-cases r) [
      | inl absent ↦
          let gone : get_read_only c p ≡ some none = rw read (ap some absent) in
          let ih = flush_pages-FlushesPages c ps file v whole in
          rw (gone, flush_pages)
            (record {
              after = ih.after;
              returned = ih.returned;
              written = λ q d e h. ih.written q d e (elim h [
                | inl there ↦ elim (Bool-cases (p == q)) [
                  | inl same ↦
                      let at : p ≡ q = ground arith in cc (ap (get_read_only c) at, gone, e)
                  | inr other ↦ inl (rw other at there)
                ]
                | inr same ↦ inr same
              ]);
              others = ih.others;
            })
      | inr (d, there) ↦
          let here : get_read_only c p ≡ some (some d) = rw read (ap some there) in
          let at : offset p ≡ p * page_size = omega (arith, whole p d here) in
          let size = (whole p d here).0 in
          let stored = page_at-write_at file d p size in
          let ih = flush_pages-FlushesPages c ps (write_at file (p * page_size) d) v whole in
          rw (here, at, flush_pages)
            (record {
              after = ih.after;
              returned = ih.returned;
              written = λ q e k h. elim (Bool-cases (p == q)) [
                | inl same ↦
                    let on : p ≡ q = ground arith in
                    let both : some (some d) ≡ some (some e) =
                      sym here ∙ (ap (get_read_only c) on ∙ k) in
                    let mine : d ≡ e = ground (arith, both) in
                    ih.written q e k (inr (rw (← on, ← mine) stored))
                | inr other ↦ ih.written q e k (elim h [
                  | inl listed ↦ inl (rw other at listed)
                  | inr same ↦
                      inr (page_at-write_at_other file d p size q e (λ x. ground arith) same)
                ])
              ];
              others = λ q e k h. ih.others q e k (
                  page_at-write_at_other file d p size q e
                    (λ x. cc (ap (get_read_only c) x, here, k)) h);
            })
    ]

-- What a flush promises.
pub record Flushes (s : Pager) (r : Option (Result (Unit {0}) × Pager)) : Type 0 where
  pub after : Pager
  pub returned : r ≡ some (ok tt, after)
  pub coherent : Coherent after
  pub in_file : (q : ℕ) (d : List ℕ) → view s q ≡ some d → page_at after.file q ≡ some d
  pub same : (q : ℕ) (d : List ℕ) → view s q ≡ some d → view after q ≡ some d
  pub clean : (q : ℕ) → is_dirty after.cache q ≡ false
  pub read_only : after.read_only ≡ s.read_only

is_dirty-cleared : (c : LruCacheInner) (q : ℕ) → is_dirty (clear_all_dirty c) q ≡ false
unfolding is_dirty Map.get
is_dirty-cleared c q = refl

get_read_only-cleared :
    (c : LruCacheInner) (q : ℕ) → get_read_only (clear_all_dirty c) q ≡ get_read_only c q
get_read_only-cleared c q = get_read_only-same c (clear_all_dirty c) q refl (λ idx e. refl)

view-in_file :
    (s : Pager) (file : List ℕ) (q : ℕ) (d : List ℕ)
    → ((p : ℕ) (e : List ℕ) → get_read_only s.cache p ≡ some (some e) → page_at file p ≡ some e)
    → ((p : ℕ) (e : List ℕ)
        → get_read_only s.cache p ≡ some none
        → page_at s.file p ≡ some e
        → page_at file p ≡ some e)
    → (r : Option (List ℕ)) × (get_read_only s.cache q ≡ some r)
    → view s q ≡ some d
    → page_at file q ≡ some d
view-in_file s file q d cached others (none, read) e =
    others q d read (ap (view_of s.file q) (sym read) ∙ e)
view-in_file s file q d cached others (some x, read) e =
    cached q x read ∙ (ap (view_of s.file q) (sym read) ∙ e)

view-cleared :
    (s : Pager) (file : List ℕ) (q : ℕ) (d : List ℕ)
    → page_at file q ≡ some d
    → (r : Option (List ℕ)) × (get_read_only s.cache q ≡ some r)
    → view s q ≡ some d
    → view_of file q (get_read_only (clear_all_dirty s.cache) q) ≡ some d
view-cleared s file q d there (none, read) e = rw (get_read_only-cleared s.cache q, read) there
view-cleared s file q d there (some x, read) e =
    rw (get_read_only-cleared s.cache q, read) (ap (view_of s.file q) (sym read) ∙ e)

-- The loop over a list that has all dirty pages.
flushed-Flushes :
    (s : Pager) (ps : List ℕ)
    → Coherent s
    → ((q : ℕ) → is_dirty s.cache q ≡ true → contains ps q ≡ true)
    → Flushes s (flushed s (flush_pages s.cache ps s.file))
flushed-Flushes s ps v all =
    let f = flush_pages-FlushesPages s.cache ps s.file v.valid v.whole in
    let c = clear_all_dirty s.cache in
    let after : Pager = record s { file = f.after; cache = c } in
    let cached : (q : ℕ) (d : List ℕ)
        → get_read_only s.cache q ≡ some (some d)
        → page_at f.after q ≡ some d =
      λ q d e. f.written q d e (elim (Bool-cases (is_dirty s.cache q)) [
        | inl soiled ↦ inl (all q soiled)
        | inr clean ↦ inr (v.clean q d e clean)
      ]) in
    let in_file : (q : ℕ) (d : List ℕ) → view s q ≡ some d → page_at f.after q ≡ some d =
      λ q d e. view-in_file s f.after q d cached f.others (reads s.cache q v.valid) e in
    rw f.returned (record {
      after = after;
      returned = refl;
      coherent = record {
        valid = soiled-IsValid [] s.cache v.valid;
        whole = λ q d e. v.whole q d (sym (get_read_only-cleared s.cache q) ∙ e);
        clean = λ q d e k. cached q d (sym (get_read_only-cleared s.cache q) ∙ e);
        dirty = λ q h. cc (is_dirty-cleared s.cache q, h);
      };
      in_file = in_file;
      same = λ q d e. view-cleared s f.after q d (in_file q d e) (reads s.cache q v.valid) e;
      clean = is_dirty-cleared s.cache;
      read_only = refl;
    })

-- A flush of a coherent pager that is not read-only does not panic. Every page that could be read
-- before stands in the file and is read as before, no page is dirty any more, and the pager stays
-- coherent.
pub flush-Flushes : (s : Pager) → Coherent s → s.read_only ≡ false → Flushes s (flush s)
unfolding flush
flush-Flushes s v writable =
    let ps = sort (get_all_dirty s.cache) in
    let f =
      flushed-Flushes s ps v
        (λ q h. contains-sort (get_all_dirty s.cache) q ∙ dirty-contains s.cache q h) in
    record {
      after = f.after;
      returned =
          ap
            (λ (b : Bool). if b then some (ok tt, s) else flushed s (flush_pages s.cache ps s.file))
            writable
          ∙ f.returned;
      coherent = f.coherent;
      in_file = f.in_file;
      same = f.same;
      clean = f.clean;
      read_only = f.read_only;
    }
