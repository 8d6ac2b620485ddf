-- ===== src/Pager/Tests.antt =====
-- src/core/pager.rs: the theorems at concrete pagers.
use jasonisnthappy.Base.{
  ℕ, ◌*◌, ◌≤◌, ◌≡◌, refl, inr, false, none, some, List, [], ◌∷◌, length, replicate,
  length-replicate, arith, take, u64_mod, ◌<◌, Option,
}
use jasonisnthappy.Base.Map
use jasonisnthappy.Wal.Frame.{page_size}
use jasonisnthappy.Lru.Cache.{
  new_cache, remove, get_read_only, is_dirty, put_dirty_atomic, put, add_page, evict, evict_from,
}
use jasonisnthappy.Lru.Arena.{allocate_node, push_front, remove_node, update_node, unlink, ◌>>=◌}
use jasonisnthappy.Pager.Pages.{put_then_mark}
use jasonisnthappy.Lru.Sequences.{new_cache-IsValid}
use jasonisnthappy.Pager.State.{Pager, write_header, alloc_page_minimum, pop_minimum, free_page}
use jasonisnthappy.Pager.Open.{IsSound, Opened, read_header-Opened}
use jasonisnthappy.Pager.Reopen.{Fits, ReadBack, read_header-write_header}
use jasonisnthappy.Pager.Allocation.{Held}
use jasonisnthappy.Pager.InUse.{opened, allocated, freed_wrongly, HeldUnless, Reaches-Held}
use jasonisnthappy.Pager.Counts.{IsCounted}
use jasonisnthappy.Base.Error.{ok}
use jasonisnthappy.Pager.Views.{Coherent}
use jasonisnthappy.Pager.Refinement.{
  Call, read_call, write_call, flush_call, Shows, RunRefines, run-RunRefines,
}
use jasonisnthappy.Pager.Direct.{Numbered, write_pages_direct}
use jasonisnthappy.Pager.Batches.{WritesAll, write_pages_direct-WritesAll}

-- three pages, of which page 2 is free, and page 1 has the metadata
abbrev small : Pager
small = record {
  file = replicate 12288 0;
  cache = new_cache 1;
  num_pages = 3;
  metadata_page = 1;
  next_tx_id = 7;
  free_list = 2 ∷ [];
  read_only = false;
}

small-IsSound : IsSound small
small-IsSound = record {
  pages = omega arith;
  metadata = inr (omega arith, ((λ e. omega (arith, e)), tt));
  free = ((omega arith, omega arith), tt);
  distinct = (tt, tt);
}

small-Fits : Fits small
small-Fits = record {
  num_pages = omega arith;
  free_list = omega arith;
  metadata_page = omega arith;
  next_tx_id = omega arith;
}

small_long : small.num_pages * page_size ≤ length small.file
small_long = omega (arith, length-replicate {A = ℕ} 12288 0)

small_back : ReadBack (write_header small) small
small_back = read_header-write_header small small-IsSound small-Fits small_long refl

read_header-write_header_example : ReadBack (write_header small) small
read_header-write_header_example =
    read_header-write_header small small-IsSound small-Fits small_long refl

-- the state that is read back
abbrev reopened : Pager
reopened = record small_back.0 {
  num_pages = 3;
  metadata_page = 1;
  next_tx_id = 7;
  free_list = take 507 (2 ∷ []);
}

read_header-Opened_example : Opened small_back.0 reopened
read_header-Opened_example = read_header-Opened small_back.0 reopened small_back.2

small-Held : Held small []
small-Held = record { sound = small-IsSound; range = tt; distinct = tt; used = tt; metadata = tt }

-- The free page is freed once more, which nothing stops, and handed out twice.
abbrev twice_free : Pager
twice_free = record small { free_list = 2 ∷ 2 ∷ [] }

freed_again : free_page 2 small ≡ some (ok twice_free)
unfolding free_page remove Map.get
freed_again = refl

Reaches-Held_example :
    IsCounted (record small { free_list = [] }) (2 ∷ 2 ∷ []) (2 ∷ [])
    × HeldUnless (2 ∷ []) (record small { free_list = [] }) (2 ∷ 2 ∷ [])
unfolding alloc_page_minimum pop_minimum
Reaches-Held_example =
    Reaches-Held (record small { free_list = [] }) (2 ∷ 2 ∷ []) (2 ∷ [])
      (allocated 0 2
        (allocated 0 2 (freed_wrongly 2 (opened small-Held) tt freed_again) (omega arith) refl)
        (omega arith) refl)

get_new : (q : ℕ) → get_read_only (new_cache 1) q ≡ some none
unfolding get_read_only Map.get
get_new q = refl

clean_new : (q : ℕ) → is_dirty (new_cache 1) q ≡ false
unfolding is_dirty Map.get
clean_new q = refl

small-Coherent : Coherent small
small-Coherent = record {
  valid = new_cache-IsValid 1;
  whole = λ q d e. cc (get_new q, e);
  clean = λ q d e k. cc (get_new q, e);
  dirty = λ q h. cc (clean_new q, h);
}

abbrev sevens : List ℕ
sevens = replicate page_size 7

whole_7 :
    (q : ℕ) → q * page_size < u64_mod → (length sevens ≡ page_size) × (q * page_size < u64_mod)
whole_7 q h = (length-replicate page_size 7, h)

-- two writes with a cache for one page, a flush, and a read
abbrev calls : List Call
calls = write_call 1 sevens ∷ write_call 2 sevens ∷ flush_call ∷ read_call 1 ∷ []

small-Shows : Shows small (λ q. none)
small-Shows = record { coherent = small-Coherent; writable = refl; pages = λ q d e. cc }

run-RunRefines_example : RunRefines calls small (λ q. none)
run-RunRefines_example =
    run-RunRefines calls small (λ q. none)
      (whole_7 1 (omega arith), (whole_7 2 (omega arith), (tt, (omega arith, tt)))) small-Shows

abbrev two_pages : List Numbered
two_pages = (2, sevens) ∷ (1, sevens) ∷ []

write_pages_direct-WritesAll_example :
    WritesAll two_pages small (write_pages_direct two_pages small)
write_pages_direct-WritesAll_example =
    write_pages_direct-WritesAll two_pages small
      (whole_7 2 (omega arith), (whole_7 1 (omega arith), tt))
      (((λ e. omega (arith, e)), tt), (tt, tt)) refl

-- With a dirty page in a cache for one page, `write_page` of another evicts that very page, which is
-- not yet marked dirty: the write is lost, and the mark stays.
abbrev after_both : Option (Option (List ℕ))
after_both = put_dirty_atomic 1 (10 ∷ []) (new_cache 1) >>= λ c.
    put_then_mark 2 (20 ∷ []) c >>= λ c'. get_read_only c' 2

write_page_lost : after_both ≡ some none
unfolding put_dirty_atomic put get_read_only is_dirty Map.get Map.insert Map.remove allocate_node
    push_front add_page evict evict_from remove_node update_node unlink
write_page_lost = refl
