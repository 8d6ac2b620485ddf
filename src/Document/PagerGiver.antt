-- ===== src/Document/PagerGiver.antt =====
-- src/core/document.rs, src/core/pager.rs: the pager gives the pages of a document.
use jasonisnthappy.Base.{
  ℕ, suc, ◌+◌, ◌*◌, ◌<◌, ◌≡◌, ◌≢◌, refl, sym, ap, ◌∙◌, true, false, Option, none, some, List, [],
  ◌∷◌, length, arith, All, u64_mod, Bool-cases, inl, inr, ◌==◌, Bool, if◌then◌else◌,
}
use jasonisnthappy.Base.Error.{Result, ok, err, other}
use jasonisnthappy.Wal.Frame.{page_size}
use jasonisnthappy.Lru.Arena.{LruCacheInner}
use jasonisnthappy.Pager.State.{Pager, pop_minimum, grant, alloc_page_minimum, alloc_page}
use jasonisnthappy.Pager.Allocation.{Held, pop_minimum-Apart, pop_minimum-Granted}
use jasonisnthappy.Pager.Taken.{IsVacant, free-IsVacant, grant-Held}
use jasonisnthappy.Pager.Views.{Coherent}
use jasonisnthappy.Pager.Access.{write_page_transfer-WritesPage}
use jasonisnthappy.Btree.PagerStore.{pager_store}
use jasonisnthappy.Document.Bytes.{contains}
use jasonisnthappy.Document.Giving.{Giver}
use mathlib.Core.Path.{subst}

-- The pages in use, of a coherent pager that may write and has room for `n` pages more.
pub record GivesPages (s : Pager) (given : List ℕ) (n : ℕ) : Type 0 where
  pub held : Held s given
  pub coherent : Coherent s
  pub writable : s.read_only ≡ false
  pub room : (s.num_pages + n) * page_size < u64_mod

-- A page that is given leaves the cache and the file alone.
record Lightly (s : Pager) (n : ℕ) (s' : Pager) : Type 0 where
  coherent : Coherent s'
  writable : s'.read_only ≡ s.read_only
  room : (s'.num_pages + n) * page_size < u64_mod

grant-Lightly :
    (s : Pager) (n : ℕ) (r : Option ℕ × List ℕ)
    → Coherent s
    → (s.num_pages + suc n) * page_size < u64_mod
    → Lightly s n (grant s r).1
grant-Lightly s n (some p, left) v room = record {
  coherent = record { valid = v.valid; whole = v.whole; clean = v.clean; dirty = v.dirty };
  writable = refl;
  room = omega (arith, room);
}
grant-Lightly s n (none, left) v room = record {
  coherent = record { valid = v.valid; whole = v.whole; clean = v.clean; dirty = v.dirty };
  writable = refl;
  room = omega (arith, room);
}

pub pager-gives :
    (s : Pager) (given : List ℕ) (n : ℕ)
    → GivesPages s given (suc n)
    → (p : ℕ) × (s' : Pager) × (alloc_page s ≡ ok (p, s'))
      × GivesPages s' (p ∷ given) n
      × (0 < p)
      × (p < u64_mod)
      × All (λ q. p ≢ q) given
unfolding alloc_page_minimum
pager-gives s given n v =
    let popped = pop_minimum 0 s.free_list in
    let g =
      pop_minimum-Granted (IsVacant s given v.held) 0 s.free_list (free-IsVacant s given v.held) in
    let h =
      grant-Held s given v.held 0 popped g (pop_minimum-Apart 0 s.free_list v.held.sound.distinct)
        (omega (arith, v.room)) in
    let l = grant-Lightly s n popped v.coherent v.room in
    let p = (grant s popped).0 in
    let s' = (grant s popped).1 in
    let failed : Result (ℕ × Pager) = err (other "cannot allocate page: database is read-only") in
    let allocated : alloc_page s ≡ ok (p, s') =
      ap (λ (b : Bool). if b then failed else ok (grant s popped)) v.writable in
    (
      p,
      s',
      allocated,
      record { held = h; coherent = l.coherent; writable = l.writable ∙ v.writable; room = l.room },
      h.range.0.0,
      omega (arith, h.range.0.1, l.room),
      h.distinct.0,
    )

Held-cache :
    (s : Pager) (held : List ℕ) (c : LruCacheInner)
    → Held s held
    → Held (record s { cache = c }) held
Held-cache s held c v = record {
  sound = record {
    pages = v.sound.pages;
    metadata = v.sound.metadata;
    free = v.sound.free;
    distinct = v.sound.distinct;
  };
  range = v.range;
  distinct = v.distinct;
  used = v.used;
  metadata = v.metadata;
}

All-contains : (P : ℕ → Type 0) (qs : List ℕ) (p : ℕ) → All P qs → contains qs p ≡ true → P p
All-contains P [] p h k = ground arith
All-contains P (q ∷ qs) p h k = elim (Bool-cases (q == p)) [
  | inl same ↦ let at : q ≡ p = ground arith in subst P at h.0
  | inr apart ↦ All-contains P qs p h.1 (ground arith)
]

pub pager-writes :
    (s : Pager) (given : List ℕ) (n p : ℕ) (page : List ℕ)
    → GivesPages s given n
    → contains given p ≡ true
    → length page ≡ page_size
    → (s' : Pager) × (pager_store.write_page p page s ≡ some (ok tt, s')) × GivesPages s' given n
pager-writes s given n p page v k size =
    let range = All-contains _ given p v.held.range k in
    let w =
      write_page_transfer-WritesPage s p page v.coherent v.writable size
        (omega (arith, range.1, v.room)) in
    let held =
      subst (λ t. Held t given) (sym w.of_cache) (Held-cache s given w.after.cache v.held) in
    (
      w.after,
      w.returned,
      record {
        held = held;
        coherent = w.coherent;
        writable = w.read_only ∙ v.writable;
        room =
            subst (λ (t : Pager). (t.num_pages + n) * page_size < u64_mod) (sym w.of_cache) v.room;
      },
    )

abbrev pub pager_giver : Giver Pager pager_store
pager_giver = record { Gives = GivesPages; gives = pager-gives; writes = pager-writes }
