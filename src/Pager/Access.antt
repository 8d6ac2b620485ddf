-- ===== src/Pager/Access.antt =====
-- src/core/pager.rs: `read_page` and `write_page_transfer` against the pages that they stand for.
use jasonisnthappy.Base.{
  ℕ, ◌+◌, ◌*◌, ◌<◌, ◌≡◌, ◌≢◌, refl, sym, ap, ◌∙◌, inl, inr, Bool, true, false, Option, none, some,
  List, length, leb, ◌==◌, if◌then◌else◌, arith, u64_mod, Bool-cases, Option-cases,
}
use jasonisnthappy.Base.Bytes.{slice}
use jasonisnthappy.Base.Error.{Result, ok, err, io, invalid_page_size}
use jasonisnthappy.Wal.Frame.{page_size}
use jasonisnthappy.Lru.Arena.{LruCacheInner}
use jasonisnthappy.Lru.Cache.{get_read_only, is_dirty, put_dirty_atomic}
use jasonisnthappy.Lru.Valid.{IsValid}
use jasonisnthappy.Lru.Calls.{get_page-Reads}
use jasonisnthappy.Lru.Put.{put-Stores, StoresDirty, put_dirty_atomic-StoresDirty}
use jasonisnthappy.Pager.State.{Pager}
use jasonisnthappy.Pager.Files.{page_at}
use jasonisnthappy.Pager.Pages.{
  offset, with_cache, read_only_error, read_missing, read_page, write_page_transfer,
}
use jasonisnthappy.Pager.Views.{
  view, view_of, Coherent, length-slice, page_at-slice, page_at-none, is_dirty-of, view-shrunk,
  read-shrunk, kept-Coherent, kept-view,
}

-- What reading page `q` promises.
pub record ReadsPage (s : Pager) (q : ℕ) (r : Option (Result (List ℕ) × Pager)) : Type 0 where
  pub answer : Result (List ℕ)
  pub after : Pager
  pub returned : r ≡ some (answer, after)
  pub found : (d : List ℕ) → view s q ≡ some d → answer ≡ ok d
  pub missing : view s q ≡ none → answer ≡ err (io "failed to fill whole buffer")
  pub coherent : Coherent after
  pub same : (p : ℕ) → view after p ≡ view s p
  pub file : after.file ≡ s.file
  pub read_only : after.read_only ≡ s.read_only

-- A cache that reads alike in the place of the pager's.
module _ (s : Pager) (v : Coherent s) (c : LruCacheInner) (valid : IsValid c)
    (kept : (p : ℕ) → get_read_only c p ≡ get_read_only s.cache p)
    (dirty : c.dirty ≡ s.cache.dirty) where
  alike-Coherent : Coherent (record s { cache = c })
  alike-Coherent = record {
    valid = valid;
    whole = λ p d e. v.whole p d (sym (kept p) ∙ e);
    clean = λ p d e k. v.clean p d (sym (kept p) ∙ e) (sym (is_dirty-of s.cache c p dirty) ∙ k);
    dirty = λ p h.
        let (d, there) = v.dirty p (sym (is_dirty-of s.cache c p dirty) ∙ h) in (d, kept p ∙ there);
  }

  alike-view : (p : ℕ) → view (record s { cache = c }) p ≡ view s p
  alike-view p = rw (kept p) refl

read_missing-ReadsPage :
    (s : Pager) (q : ℕ)
    → Coherent s
    → get_read_only s.cache q ≡ some none
    → q * page_size < u64_mod
    → ReadsPage s q (read_missing q s)
unfolding read_missing
read_missing-ReadsPage s q v absent range =
    let at : offset q ≡ q * page_size = omega (arith, range) in
    let seen : view s q ≡ page_at s.file q = rw absent refl in
    let buf = slice s.file (q * page_size) page_size in
    elim (Bool-cases (leb (q * page_size + page_size) (length s.file))) [
      | inl within ↦
          let from_file = page_at-slice s.file q within in
          let st = put-Stores s.cache q buf v.valid in
          let size = length-slice s.file (q * page_size) page_size (ground arith) in
          rw (at, within, st.returned)
            (record {
              answer = ok buf;
              after = record s { cache = st.after };
              returned = refl;
              found = λ d e. cc (seen, from_file, e);
              missing = λ e. cc (seen, from_file, e);
              coherent = kept-Coherent s v q buf absent from_file size range st;
              same = kept-view s v q buf absent from_file st;
              file = refl;
              read_only = refl;
            })
      | inr beyond ↦
          let no_page = page_at-none s.file q beyond in
          rw (at, beyond)
            (record {
              answer = err (io "failed to fill whole buffer");
              after = s;
              returned = refl;
              found = λ d e. cc (seen, no_page, e);
              missing = λ e. refl;
              coherent = v;
              same = λ p. refl;
              file = refl;
              read_only = refl;
            })
    ]

-- Reading a page of a coherent pager does not panic. It returns the page that the cache has, or
-- else the file; where the file ends before the page it fails. No page changes, and the pager
-- stays coherent.
pub read_page-ReadsPage :
    (s : Pager) (q : ℕ) → Coherent s → q * page_size < u64_mod → ReadsPage s q (read_page q s)
unfolding read_page
read_page-ReadsPage s q v range =
    let r = get_page-Reads s.cache q v.valid in
    let s' : Pager = record s { cache = r.after } in
    let v' = alike-Coherent s v r.after r.valid r.kept r.dirty in
    let same = alike-view s v r.after r.valid r.kept r.dirty in
    elim (Option-cases r.page) [
      | inr (d, there) ↦
          let before : get_read_only s.cache q ≡ some (some d) = rw r.same_as (ap some there) in
          rw (r.returned, there)
            (record {
              answer = ok d;
              after = s';
              returned = refl;
              found = λ e k. cc (ap (view_of s.file q) before, k);
              missing = λ k. cc (ap (view_of s.file q) before, k);
              coherent = v';
              same = same;
              file = refl;
              read_only = refl;
            })
      | inl absent ↦
          let now : get_read_only r.after q ≡ some none = r.kept q ∙ (r.same_as ∙ ap some absent) in
          let m = read_missing-ReadsPage s' q v' now range in
          rw (r.returned, absent)
            (record {
              answer = m.answer;
              after = m.after;
              returned = m.returned;
              found = λ d e. m.found d (same q ∙ e);
              missing = λ e. m.missing (same q ∙ e);
              coherent = m.coherent;
              same = λ p. m.same p ∙ same p;
              file = m.file;
              read_only = m.read_only;
            })
    ]

-- A dirty page that is stored keeps the pager coherent.
stored-Coherent :
    (s : Pager) (v : Coherent s) (q : ℕ) (d : List ℕ)
    → length d ≡ page_size
    → q * page_size < u64_mod
    → (st : StoresDirty s.cache q d (put_dirty_atomic q d s.cache))
    → Coherent (record s { cache = st.after })
stored-Coherent s v q d size range st = record {
  valid = st.valid;
  whole = λ p e k. elim (Bool-cases (p == q)) [
    | inl same ↦
        let at : p ≡ q = ground arith in
        let both : some (some e) ≡ some (some d) =
          sym k ∙ (ap (get_read_only st.after) at ∙ st.there) in
        let mine : e ≡ d = ground (arith, both) in (ap length mine ∙ size, omega (arith, range, at))
    | inr other ↦ v.whole p e (read-shrunk s v st.after p e (st.shrunk p (λ x. ground arith)) k)
  ];
  clean = λ p e k c. elim (Bool-cases (p == q)) [
    | inl same ↦ let at : p ≡ q = ground arith in cc (ap (is_dirty st.after) at, st.dirty, c)
    | inr other ↦
        let ne : p ≢ q = λ x. ground arith in
        v.clean p e (read-shrunk s v st.after p e (st.shrunk p ne) k)
          (sym (st.other_dirty p ne) ∙ c)
  ];
  dirty = λ p h. elim (Bool-cases (p == q)) [
    | inl same ↦ let at : p ≡ q = ground arith in (d, ap (get_read_only st.after) at ∙ st.there)
    | inr other ↦
        let ne : p ≢ q = λ x. ground arith in
        let before = sym (st.other_dirty p ne) ∙ h in
        let (e, there) = v.dirty p before in (e, st.kept p ne before ∙ there)
  ];
}

-- What writing page `q` promises.
pub record WritesPage (s : Pager) (q : ℕ) (d : List ℕ) (r : Option (Result (Unit {0}) × Pager))
    : Type 0 where
  pub after : Pager
  pub returned : r ≡ some (ok tt, after)
  pub there : view after q ≡ some d
  pub others : (p : ℕ) → p ≢ q → view after p ≡ view s p
  pub coherent : Coherent after
  pub of_cache : after ≡ record s { cache = after.cache }
  pub file : after.file ≡ s.file
  pub read_only : after.read_only ≡ s.read_only

-- Writing a whole page to a coherent pager that is not read-only succeeds whatever the capacity of
-- the cache: the page then is what was written, every other page is as before, the file is not
-- touched, and the pager stays coherent.
pub write_page_transfer-WritesPage :
    (s : Pager) (q : ℕ) (d : List ℕ)
    → Coherent s
    → s.read_only ≡ false
    → length d ≡ page_size
    → q * page_size < u64_mod
    → WritesPage s q d (write_page_transfer q d s)
unfolding write_page_transfer
write_page_transfer-WritesPage s q d v writable size range =
    let st = put_dirty_atomic-StoresDirty s.cache q d v.valid in
    let sized : length d == page_size ≡ true = ground (arith, size) in
    let stored = with_cache tt s (put_dirty_atomic q d s.cache) in
    let short : Option (Result (Unit {0}) × Pager) = some (err invalid_page_size, s) in
    let ran : write_page_transfer q d s ≡ some (ok tt, record s { cache = st.after }) =
      ap
        (λ (b : Bool).
          if b then read_only_error s else if length d == page_size then stored else short)
        writable
      ∙ (ap (λ (b : Bool). if b then stored else short) sized ∙ ap (with_cache tt s) st.returned) in
    record {
      after = record s { cache = st.after };
      returned = ran;
      there = rw st.there refl;
      others = λ p ne. view-shrunk s v st.after p (st.shrunk p ne) (st.kept p ne);
      coherent = stored-Coherent s v q d size range st;
      of_cache = refl;
      file = refl;
      read_only = refl;
    }
