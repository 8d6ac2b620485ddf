-- ===== src/Btree/PagerStore.antt =====
-- src/core/btree.rs, src/core/pager.rs: the pager is the store of a tree's pages.
use jasonisnthappy.Base.{
  ℕ, ◌+◌, ◌*◌, ◌<◌, ◌≡◌, sym, ap, ◌∙◌, inl, inr, Option, none, some, List, length, leb, arith,
  u64_mod, Bool-cases,
}
use jasonisnthappy.Base.Error.{Result, ok}
use jasonisnthappy.Wal.Frame.{page_size}
use jasonisnthappy.Lru.Cache.{get_read_only}
use jasonisnthappy.Pager.State.{Pager, alloc_page, free_page}
use jasonisnthappy.Pager.Files.{page_at}
use jasonisnthappy.Pager.Pages.{read_page, write_page_transfer}
use jasonisnthappy.Pager.Views.{view, view_of, Coherent, reads, page_at-none}
use jasonisnthappy.Pager.Access.{read_page-ReadsPage}
use jasonisnthappy.Btree.Store.{PageStore}

-- a coherent pager whose file is shorter than 2^64 bytes
abbrev pub IsGood : Pager → Type 0
IsGood s = Coherent s × (length s.file < u64_mod)

page_at-range :
    (file : List ℕ) (q : ℕ) (d : List ℕ)
    → page_at file q ≡ some d
    → length file < u64_mod
    → q * page_size < u64_mod
page_at-range file q d e h = elim (Bool-cases (leb (q * page_size + page_size) (length file))) [
  | inl inside ↦ ground (arith, h)
  | inr beyond ↦ cc (page_at-none file q beyond, e)
]

-- A page that can be read lies at an offset of 64 bits.
view-range :
    (s : Pager) (q : ℕ) (d : List ℕ)
    → IsGood s
    → (r : Option (List ℕ)) × (get_read_only s.cache q ≡ some r)
    → view s q ≡ some d
    → q * page_size < u64_mod
view-range s q d v (none, read) e =
    page_at-range s.file q d (ap (view_of s.file q) (sym read) ∙ e) v.1
view-range s q d v (some x, read) e = (v.0.whole q x read).1

pub pager-reads :
    (s : Pager) (q : ℕ) (d : List ℕ)
    → IsGood s
    → view s q ≡ some d
    → (s' : Pager) × (read_page q s ≡ some (ok d, s'))
      × IsGood s'
      × ((p : ℕ) → view s' p ≡ view s p)
pager-reads s q d v e =
    let range = view-range s q d v (reads s.cache q v.0.valid) e in
    let r = read_page-ReadsPage s q v.0 range in
    (
      r.after,
      r.returned ∙ ap (λ (a : Result (List ℕ)). some (a, r.after)) (r.found d e),
      (r.coherent, rw r.file v.1),
      r.same,
    )

abbrev pub pager_store : PageStore Pager
pager_store = record {
  read_page = read_page;
  write_page = write_page_transfer;
  alloc_page = alloc_page;
  free_page = free_page;
  pages = view;
  IsGood = IsGood;
  reads = pager-reads;
}
