-- ===== src/Pager/Views.antt =====
-- src/core/pager.rs: what the pages of a pager are, whether they stand in the cache or in the file.
use jasonisnthappy.Base.{
  ℕ, ◌+◌, ◌*◌, ◌≤◌, ◌<◌, ◌≡◌, ◌≢◌, refl, sym, ap, ◌∙◌, ◌⊎◌, inl, inr, true, false, Option, none,
  some, List, length, leb, ◌==◌, arith, u64_mod, Bool-cases, Option-cases, drop, length-take,
  length-drop,
}
use jasonisnthappy.Base.Bytes.{slice}
use jasonisnthappy.Wal.Frame.{page_size}
use jasonisnthappy.Lru.Arena.{LruCacheInner}
use jasonisnthappy.Lru.Cache.{get_read_only, is_dirty, put}
use jasonisnthappy.Lru.Valid.{IsValid}
use jasonisnthappy.Lru.Evict.{SameOrGone}
use jasonisnthappy.Lru.Calls.{get_page-Reads}
use jasonisnthappy.Lru.Put.{Stores}
use jasonisnthappy.Pager.State.{Pager}
use jasonisnthappy.Pager.Files.{page_at}

-- a page as the cache has it, or as the file has it
abbrev pub view_of : List ℕ → ℕ → Option (Option (List ℕ)) → Option (List ℕ)
view_of file q none = none
view_of file q (some none) = page_at file q
view_of file q (some (some d)) = some d

abbrev pub view : Pager → ℕ → Option (List ℕ)
view s q = view_of s.file q (get_read_only s.cache q)

-- Cached pages are whole and lie at an offset of 64 bits; a clean one is as the file has it, and
-- every dirty page is in the cache.
pub record Coherent (s : Pager) : Type 0 where
  pub valid : IsValid s.cache
  pub whole :
      (q : ℕ) (d : List ℕ)
      → get_read_only s.cache q ≡ some (some d)
      → (length d ≡ page_size) × (q * page_size < u64_mod)
  pub clean :
      (q : ℕ) (d : List ℕ)
      → get_read_only s.cache q ≡ some (some d)
      → is_dirty s.cache q ≡ false
      → page_at s.file q ≡ some d
  pub dirty :
      (q : ℕ) → is_dirty s.cache q ≡ true → (d : List ℕ) × (get_read_only s.cache q ≡ some (some d))

-- the cache never panics on a read
pub reads :
    (c : LruCacheInner) (q : ℕ) → IsValid c → (r : Option (List ℕ)) × (get_read_only c q ≡ some r)
reads c q v = let r = get_page-Reads c q v in (r.page, r.same_as)

pub length-slice : (xs : List ℕ) (i n : ℕ) → i + n ≤ length xs → length (slice xs i n) ≡ n
unfolding slice
length-slice xs i n h = omega (arith, length-take n (drop i xs), length-drop i xs)

pub page_at-slice :
    (file : List ℕ) (q : ℕ)
    → leb (q * page_size + page_size) (length file) ≡ true
    → page_at file q ≡ some (slice file (q * page_size) page_size)
unfolding page_at
page_at-slice file q h = rw h refl

pub page_at-none :
    (file : List ℕ) (q : ℕ)
    → leb (q * page_size + page_size) (length file) ≡ false
    → page_at file q ≡ none
unfolding page_at
page_at-none file q h = rw h refl

pub is_dirty-of : (c c' : LruCacheInner) (q : ℕ) → c'.dirty ≡ c.dirty → is_dirty c' q ≡ is_dirty c q
unfolding is_dirty
is_dirty-of c c' q e = rw e refl

-- the page that was put is what is read under its number
own-data :
    (p q : ℕ) (d e : List ℕ) (c : LruCacheInner)
    → p ≡ q
    → (get_read_only c q ≡ some (some d)) ⊎ (get_read_only c q ≡ some none)
    → get_read_only c p ≡ some (some e)
    → e ≡ d
own-data p q d e c at (inl there) k =
    let both : some (some e) ≡ some (some d) = sym k ∙ (ap (get_read_only c) at ∙ there) in
    ground (arith, both)
own-data p q d e c at (inr gone) k = cc (ap (get_read_only c) at)

module _ (s : Pager) (v : Coherent s) where
  -- A page that leaves the cache stays visible, since it is clean.
  pub view-shrunk :
      (c : LruCacheInner) (p : ℕ)
      → SameOrGone s.cache c p
      → (is_dirty s.cache p ≡ true → get_read_only c p ≡ get_read_only s.cache p)
      → view_of s.file p (get_read_only c p) ≡ view s p
  view-shrunk c p (inl same) kept = rw same refl
  view-shrunk c p (inr gone) kept =
      let (r, e) = reads s.cache p v.valid in
      elim (Option-cases r) [
        | inl absent ↦
            let before : get_read_only s.cache p ≡ some none = rw e (ap some absent) in
            rw (gone, before) refl
        | inr (d, there) ↦
            let before : get_read_only s.cache p ≡ some (some d) = rw e (ap some there) in
            elim (Bool-cases (is_dirty s.cache p)) [
              | inl soiled ↦ cc (kept soiled)
              | inr clean ↦ rw (gone, before) (v.clean p d before clean)
            ]
      ]

  -- What is read in a cache that may have lost pages was there before.
  pub read-shrunk :
      (c : LruCacheInner) (p : ℕ) (d : List ℕ)
      → SameOrGone s.cache c p
      → get_read_only c p ≡ some (some d)
      → get_read_only s.cache p ≡ some (some d)
  read-shrunk c p d (inl same) e = sym same ∙ e
  read-shrunk c p d (inr gone) e = cc

  -- a page that is absent is clean
  absent-clean : (q : ℕ) → get_read_only s.cache q ≡ some none → is_dirty s.cache q ≡ false
  absent-clean q absent = elim (Bool-cases (is_dirty s.cache q)) [
    | inl soiled ↦ let (d, there) = v.dirty q soiled in cc
    | inr clean ↦ clean
  ]

  -- A page of the file is kept in the cache.
  pub kept-Coherent :
      (q : ℕ) (d : List ℕ)
      → get_read_only s.cache q ≡ some none
      → page_at s.file q ≡ some d
      → length d ≡ page_size
      → q * page_size < u64_mod
      → (st : Stores s.cache q d (put q d s.cache)) → Coherent (record s { cache = st.after })
  kept-Coherent q d absent from_file size range st = record {
    valid = st.valid;
    whole = λ p e k. elim (Bool-cases (p == q)) [
      | inl same ↦
          let at : p ≡ q = ground arith in
          let mine : e ≡ d = own-data p q d e st.after at st.own k in
          (ap length mine ∙ size, omega (arith, range, at))
      | inr other ↦ v.whole p e (read-shrunk st.after p e (st.shrunk p (λ x. ground arith)) k)
    ];
    clean = λ p e k c. elim (Bool-cases (p == q)) [
      | inl same ↦
          let at : p ≡ q = ground arith in
          let mine : e ≡ d = own-data p q d e st.after at st.own k in rw (at, mine) from_file
      | inr other ↦
          v.clean p e (read-shrunk st.after p e (st.shrunk p (λ x. ground arith)) k)
            (sym (is_dirty-of s.cache st.after p st.dirty) ∙ c)
    ];
    dirty = λ p h.
        let before : is_dirty s.cache p ≡ true =
          sym (is_dirty-of s.cache st.after p st.dirty) ∙ h in
        let (e, there) = v.dirty p before in
        (e, st.kept p (λ at. cc (ap (get_read_only s.cache) at, absent, there)) before ∙ there);
  }

  pub kept-view :
      (q : ℕ) (d : List ℕ)
      → get_read_only s.cache q ≡ some none
      → page_at s.file q ≡ some d
      → (st : Stores s.cache q d (put q d s.cache)) → (p : ℕ)
      → view (record s { cache = st.after }) p ≡ view s p
  kept-view q d absent from_file st p = elim (Bool-cases (p == q)) [
    | inl same ↦
        let at : p ≡ q = ground arith in
        rw (at, absent)
          (elim st.own [ inl there ↦ rw there (sym from_file) | inr gone ↦ rw gone refl ])
    | inr other ↦
        let ne : p ≢ q = λ x. ground arith in view-shrunk st.after p (st.shrunk p ne) (st.kept p ne)
  ]
