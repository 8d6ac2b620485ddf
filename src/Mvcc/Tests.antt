-- ===== src/Mvcc/Tests.antt =====
-- src/core/mvcc.rs: the theorems at concrete managers and chains.
use jasonisnthappy.Base.{
  ℕ, ◌+◌, ◌≤◌, ◌<◌, ◌↔◌, ◌≡◌, refl, false, some, inl, inr, All, [], ◌∷◌, arith,
}
use jasonisnthappy.Base.Map
use jasonisnthappy.Base.Error.{ok}
use jasonisnthappy.Mvcc.Manager.{
  TransactionManager, TransactionInfo, new, initialize_from_pager, begin_transaction,
  commit_transaction, get_oldest_active_transaction,
}
use jasonisnthappy.Mvcc.Versions.{
  DocumentVersion, VersionChain, new_chain, is_kept, garbage_collect,
}
use jasonisnthappy.Mvcc.Snapshots.{
  Call, Reach, MovesBack, perform, reached-IsValid, perform-MovesBack,
}
use jasonisnthappy.Mvcc.Valid.{IsValid}
use jasonisnthappy.Mvcc.Oldest.{oldest-le-start_time}
use jasonisnthappy.Mvcc.Exact.{Merge, IsNeeded, garbage_collect-exact}
use jasonisnthappy.Mvcc.Collection.{visible_at, garbage_collect-keeps_visible}

-- the test of src/core/mvcc.rs: ids 5 and 6 are given out, and 5 is committed
abbrev stored : TransactionManager
stored = initialize_from_pager new 5

abbrev two_begun : TransactionManager
two_begun = perform (perform stored Call.begin) Call.begin

abbrev one_left : TransactionManager
one_left = perform two_begun (Call.commit 5)

program : Unit {0}
unfolding perform initialize_from_pager begin_transaction commit_transaction Map.get Map.insert
    Map.remove get_oldest_active_transaction
program = tt

one_left-Reach : Reach stored one_left
unfolding program
one_left-Reach =
    Reach.call
      (Reach.call (Reach.call Reach.here Call.begin (omega arith)) Call.begin (omega arith))
      (Call.commit 5) (omega arith)

reached-IsValid_example : IsValid one_left
reached-IsValid_example = reached-IsValid 5 (omega arith) (omega arith) one_left-Reach

-- a new start of the ids at 3 moves the latest committed id from 5 back to 2
perform-MovesBack_example :
    ((perform one_left (Call.initialize 3)).last_committed_tx_id < one_left.last_committed_tx_id)
    ↔ MovesBack one_left (Call.initialize 3)
perform-MovesBack_example = perform-MovesBack one_left (Call.initialize 3)

oldest_of_one_left : get_oldest_active_transaction one_left ≡ ok 4
unfolding program
oldest_of_one_left = refl

oldest-le-start_time_example :
    (4 ≤ one_left.last_committed_tx_id + 1)
    × ((k : ℕ) (info : TransactionInfo)
        → Map.get one_left.active_txs.value k ≡ some info
        → 4 ≤ info.start_time)
oldest-le-start_time_example =
    oldest-le-start_time one_left 4 reached-IsValid_example oldest_of_one_left

-- a version that was replaced before the oldest snapshot, and the one that replaced it
abbrev old_version : DocumentVersion
old_version = record { doc_id = "a"; xmin = 1; xmax = 3; bytes = []; page_num = 7 }

abbrev live_version : DocumentVersion
live_version = record { doc_id = "a"; xmin = 3; xmax = 0; bytes = []; page_num = 8 }

abbrev chain : VersionChain
chain = record (new_chain "a") {
  versions = record { value = old_version ∷ live_version ∷ []; poisoned = false };
}

collected : (garbage_collect chain 4).0 ≡ ok (old_version ∷ [])
unfolding garbage_collect is_kept
collected = refl

garbage_collect-exact_example :
    Merge (old_version ∷ []) (garbage_collect chain 4).1.versions.value chain.versions.value
    × All (λ v. ¬ IsNeeded 4 v) (old_version ∷ [])
    × All (IsNeeded 4) (garbage_collect chain 4).1.versions.value
garbage_collect-exact_example =
    garbage_collect-exact chain 4 (old_version ∷ []) (inr (omega arith), (inl refl, tt)) collected

garbage_collect-keeps_visible_example :
    ((k : ℕ) (info : TransactionInfo)
      → Map.get one_left.active_txs.value k ≡ some info
      → visible_at info.start_time (garbage_collect chain 4).1.versions.value
        ≡ visible_at info.start_time chain.versions.value)
    × ((s : ℕ)
        → one_left.last_committed_tx_id ≤ s
        → visible_at s (garbage_collect chain 4).1.versions.value
          ≡ visible_at s chain.versions.value)
garbage_collect-keeps_visible_example =
    garbage_collect-keeps_visible one_left 4 chain reached-IsValid_example oldest_of_one_left
