-- ===== src/Mvcc/Oldest.antt =====
-- src/core/mvcc.rs: the oldest active snapshot bounds all of them.
use jasonisnthappy.Base.{==_refl, ℕ, ◌+◌, ◌-◌, ◌≤◌, ◌<◌, ◌≡◌, some, [], ◌∷◌, arith, u64_mod}
use jasonisnthappy.Base.Map
use jasonisnthappy.Base.Map.{
  Map, Entries, Entries-get, Entries-insert, Entries-remove, Entries-mono,
}
use jasonisnthappy.Base.Error.{ok}
use jasonisnthappy.Mvcc.Manager.{
  TransactionInfo, TransactionManager, get_oldest_active_transaction, oldest_active,
}
use jasonisnthappy.Mvcc.Valid.{IsActive, IsValid, oldest_start-bound}

oldest_active-bound :
    (o : ℕ) (txs : Map TransactionInfo) (k : ℕ) (info : TransactionInfo)
    → Map.get txs k ≡ some info
    → oldest_active o txs ≤ info.start_time
unfolding oldest_active
oldest_active-bound o [] k info h = unfold Map.get in cc
oldest_active-bound o ((j, other) ∷ txs) k info h =
    oldest_start-bound (u64_mod - 1) ((j, other) ∷ txs) k info h

oldest_active-le :
    (next latest : ℕ) (txs : Map TransactionInfo)
    → latest + 1 < u64_mod
    → Entries (IsActive next latest) txs
    → oldest_active latest txs ≤ latest + 1
unfolding oldest_active
oldest_active-le next latest [] h a = omega arith
oldest_active-le next latest ((k, info) ∷ txs) h a = omega (
  arith,
  a.0.snapshot_committed,
  oldest_active-bound latest ((k, info) ∷ txs) k info (unfold Map.get in simp ==_refl),
)

-- In a valid manager the oldest active transaction bounds every active snapshot from below, and
-- is at most one above the latest committed id, the snapshot that the next transaction takes.
pub oldest-le-start_time :
    (m : TransactionManager) (o : ℕ)
    → IsValid m
    → get_oldest_active_transaction m ≡ ok o
    → (o ≤ m.last_committed_tx_id + 1)
      × ((k : ℕ) (info : TransactionInfo)
          → Map.get m.active_txs.value k ≡ some info
          → o ≤ info.start_time)
unfolding get_oldest_active_transaction
oldest-le-start_time m o v h =
    let latest = m.last_committed_tx_id in
    let txs = m.active_txs.value in
    let e : o ≡ oldest_active latest txs = ground arith in
    rw e (
      oldest_active-le m.next_tx_id latest txs (omega (arith, v.committed_begun, v.no_wrap))
          v.all_active,
      oldest_active-bound latest txs,
    )
