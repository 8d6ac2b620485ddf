-- ===== src/Pager/Taken.antt =====
-- src/core/pager.rs: one page is taken into use or freed.
use jasonisnthappy.Base.{
  ℕ, ◌+◌, ◌%◌, ◌<◌, ◌≡◌, ◌≢◌, sym, inl, inr, Option, none, some, List, [], ◌∷◌, ◌++◌, arith,
  u64_mod, All, All-append, Bool-cases, Option-cases,
}
use jasonisnthappy.Base.Error.{ok}
use jasonisnthappy.Lru.Arena.{LruCacheInner}
use jasonisnthappy.Lru.Cache.{remove}
use jasonisnthappy.Lru.Valid.{Distinct, All-map, All-zip}
use jasonisnthappy.Pager.State.{Pager, pop_minimum, grant, alloc_page_minimum, free_page}
use jasonisnthappy.Pager.Open.{Absent}
use jasonisnthappy.Pager.Allocation.{
  All-remove, Apart, Distinct-append, Distinct-remove, Granted, Held, swap-Absent,
}

module _ (s : Pager) (held : List ℕ) (v : Held s held) where
  -- A page off the free list is taken into use.
  taken-Held :
      (p : ℕ) (left : List ℕ)
      → (0 < p) × (p < s.num_pages) × (p ≢ s.metadata_page) × Absent p held
      → Distinct left
      → Absent p left
      → All (λ q. (0 < q) × (q < s.num_pages) × (q ≢ s.metadata_page) × Absent q held) left
      → Held (record s { free_list = left }) (p ∷ held)
  taken-Held p left of_p d apart of_left = record {
    sound = record {
      pages = v.sound.pages;
      metadata = elim v.sound.metadata [
        | inl unset ↦ inl unset
        | inr (range, _) ↦ inr (range, All-map _ _ left (λ q h e. h.2 (sym e)) of_left)
      ];
      free = All-map _ _ left (λ q h. (h.0, h.1)) of_left;
      distinct = d;
    };
    range = ((of_p.0, of_p.1), v.range);
    distinct = (of_p.3, v.distinct);
    used = (apart, swap-Absent left held (All-map _ _ left (λ q h. h.3) of_left));
    metadata = (of_p.2, v.metadata);
  }

  -- what holds of each free page
  abbrev pub IsVacant : ℕ → Type 0
  IsVacant q = (0 < q) × (q < s.num_pages) × (q ≢ s.metadata_page) × Absent q held

  pub free-IsVacant : All IsVacant s.free_list
  free-IsVacant =
      let unset = λ (e : s.metadata_page ≡ 0).
        All-map _ (λ q. q ≢ s.metadata_page) s.free_list (λ q h k. omega (arith, h, k, e))
          v.sound.free in
      let set = λ (h : Absent s.metadata_page s.free_list).
        All-map _ (λ q. q ≢ s.metadata_page) s.free_list (λ q k e. k (sym e)) h in
      let others : All (λ q. q ≢ s.metadata_page) s.free_list = elim v.sound.metadata [
        | inl e ↦ unset e
        | inr h ↦ set h.1
      ] in
      All-zip (λ q. (0 < q) × (q < s.num_pages)) (λ q. (q ≢ s.metadata_page) × Absent q held)
        IsVacant s.free_list (λ q h k. (h.0, h.1, k.0, k.1)) v.sound.free
        (All-zip (λ q. q ≢ s.metadata_page) (λ q. Absent q held)
          (λ q. (q ≢ s.metadata_page) × Absent q held) s.free_list (λ q h k. (h, k)) others
          (swap-Absent held s.free_list v.used))

  -- A fresh page is taken into use.
  fresh-Held :
      (left : List ℕ)
      → left ≡ []
      → s.num_pages + 1 < u64_mod
      → Held
          (record s { free_list = left; num_pages = (s.num_pages + 1) % u64_mod })
          (s.num_pages ∷ held)
  fresh-Held left none_left room =
      let grown : (s.num_pages + 1) % u64_mod ≡ s.num_pages + 1 = omega (arith, room) in
      rw (none_left, grown)
        (record {
          sound = record {
            pages = omega arith;
            metadata = elim v.sound.metadata [
              | inl unset ↦ inl unset
              | inr (range, _) ↦ inr (omega (arith, range), tt)
            ];
            free = tt;
            distinct = tt;
          };
          range = (
            (omega (arith, v.sound.pages), omega arith),
            All-map _ _ held (λ p h. (h.0, omega (arith, h))) v.range,
          );
          distinct = (All-map _ _ held (λ p h e. omega (arith, h, e)) v.range, v.distinct);
          used = (tt, All-map _ _ held (λ p h. tt) v.range);
          metadata = (
            λ e. elim v.sound.metadata [
              | inl unset ↦ omega (arith, v.sound.pages, unset, e)
              | inr (range, _) ↦ omega (arith, range, e)
            ],
            v.metadata,
          );
        })

  -- The page that `grant` hands out is taken into use.
  pub grant-Held :
      (min_page : ℕ) (r : Option ℕ × List ℕ)
      → Granted IsVacant r
      → Apart min_page r
      → s.num_pages + 1 < u64_mod
      → Held (grant s r).1 ((grant s r).0 ∷ held)
  grant-Held min_page (some p, left) g a room = taken-Held p left g.0 a.1 a.2 g.1
  grant-Held min_page (none, left) g a room = fresh-Held left a room

module _ (s : Pager) (ahead behind : List ℕ) (p : ℕ) (v : Held s (ahead ++ (p ∷ behind))) where
  -- A page in use is freed.
  pub freed-Held :
      (cache : LruCacheInner)
      → Held (record s { free_list = s.free_list ++ (p ∷ []); cache = cache }) (ahead ++ behind)
  freed-Held cache =
      let (of_p, range) = All-remove (λ q. (0 < q) × (q < s.num_pages)) ahead behind p v.range in
      let (apart, used) = All-remove (λ q. Absent q s.free_list) ahead behind p v.used in
      let (other, metadata) = All-remove (λ q. q ≢ s.metadata_page) ahead behind p v.metadata in
      let (distinct, gone) = Distinct-remove ahead behind p v.distinct in
      record {
        sound = record {
          pages = v.sound.pages;
          metadata = elim v.sound.metadata [
            | inl unset ↦ inl unset
            | inr (within, absent) ↦
                inr (within, All-append _ s.free_list (p ∷ []) absent ((λ e. other (sym e)), tt))
          ];
          free = All-append _ s.free_list (p ∷ []) v.sound.free (of_p, tt);
          distinct = Distinct-append s.free_list p v.sound.distinct apart;
        };
        range = range;
        distinct = distinct;
        used =
            All-zip (λ q. Absent q s.free_list) (λ q. p ≢ q) _ (ahead ++ behind)
              (λ q h ne. All-append (λ r. q ≢ r) s.free_list (p ∷ []) h ((λ e. ne (sym e)), tt))
              used gone;
        metadata = metadata;
      }

pub free_page-after :
    (p : ℕ) (s s' : Pager)
    → free_page p s ≡ some (ok s')
    → (cache : LruCacheInner) × (s'
        ≡ record s { free_list = s.free_list ++ (p ∷ []); cache = cache })
unfolding free_page
free_page-after p s s' run = elim (Bool-cases s.read_only) [
  | inl locked ↦ cc (rw locked at run)
  | inr writable ↦ elim (Option-cases (remove p s.cache)) [
    | inl panicked ↦ cc (rw (writable, panicked) at run)
    | inr (cache, removed) ↦ (cache, ground (arith, run, writable, removed))
  ]
]

pub alloc-after :
    (min_page p : ℕ) (s s' : Pager)
    → alloc_page_minimum min_page s ≡ ok (p, s')
    → (grant s (pop_minimum min_page s.free_list)) ≡ (p, s')
unfolding alloc_page_minimum
alloc-after min_page p s s' run = elim (Bool-cases s.read_only) [
  | inl locked ↦ cc (rw locked at run)
  | inr writable ↦ cc (rw writable at run)
]
