-- ===== src/Mvcc/Manager.antt =====
-- src/core/mvcc.rs: `TransactionManager`. A method takes the manager and returns its result
-- beside the manager that it leaves, on the error paths too.
use jasonisnthappy.Base.{
  ℕ, ◌+◌, ◌-◌, ◌%◌, false, none, some, List, [], ◌∷◌, ltb, if◌then◌else◌, u64_mod,
}
use jasonisnthappy.Base.Map
use jasonisnthappy.Base.Map.{Map}
use jasonisnthappy.Base.Error.{Result, ok, err, Lock, lock_poisoned}

pub data TxStatus : Type 0 where
  active committed aborted : TxStatus

pub record TransactionInfo : Type 0 where
  pub id : ℕ
  pub start_time : ℕ
  pub status : TxStatus

pub record TransactionManager : Type 0 where
  pub next_tx_id : ℕ
  pub last_committed_tx_id : ℕ
  pub active_txs : Lock (Map TransactionInfo)

abbrev pub new : TransactionManager
new = record {
  next_tx_id = 1;
  last_committed_tx_id = 0;
  active_txs = record { value = []; poisoned = false };
}

unfoldable pub initialize_from_pager : TransactionManager → ℕ → TransactionManager
initialize_from_pager m current_tx_id =
    if ltb 0 current_tx_id
    then record m { next_tx_id = current_tx_id; last_committed_tx_id = current_tx_id - 1 }
    else record m { next_tx_id = current_tx_id }

abbrev pub get_latest_committed_tx_id : TransactionManager → ℕ
get_latest_committed_tx_id m = m.last_committed_tx_id

-- The two atomic reads that a beginning transaction makes before it takes the lock:
-- `next_tx_id.fetch_add(1)`, which wraps, and the load of the latest committed id.
unfoldable pub fetch_add_tx_id : TransactionManager → ℕ × TransactionManager
fetch_add_tx_id m = (m.next_tx_id, record m { next_tx_id = (m.next_tx_id + 1) % u64_mod })

abbrev pub active_info : ℕ → ℕ → TransactionInfo
active_info tx_id snapshot_time = record {
  id = tx_id;
  start_time = snapshot_time;
  status = TxStatus.active;
}

-- What is done under the write lock: `active_txs.insert(tx_id, ...)`.
unfoldable pub insert_active : TransactionManager → ℕ → ℕ → Result (Unit {0}) × TransactionManager
insert_active m tx_id snapshot_time =
    if m.active_txs.poisoned then (err (lock_poisoned "mvcc.active_txs"), m) else (
      ok tt,
      record m {
        active_txs = record {
          value = Map.insert m.active_txs.value tx_id (active_info tx_id snapshot_time);
          poisoned = false;
        };
      },
    )

unfoldable pub register_transaction :
    TransactionManager → ℕ → Result (Unit {0}) × TransactionManager
unfolding insert_active
register_transaction m tx_id = insert_active m tx_id (get_latest_committed_tx_id m)

abbrev pub with_id : ℕ → Result (Unit {0}) × TransactionManager → Result ℕ × TransactionManager
with_id tx_id (ok _, m) = (ok tx_id, m)
with_id tx_id (err e, m) = (err e, m)

unfoldable pub begin_transaction : TransactionManager → Result ℕ × TransactionManager
unfolding fetch_add_tx_id insert_active
begin_transaction m =
    let (tx_id, m') = fetch_add_tx_id m in
    with_id tx_id (insert_active m' tx_id (get_latest_committed_tx_id m'))

-- `get_mut` with an assignment to the status
unfoldable pub set_status : Map TransactionInfo → ℕ → TxStatus → Map TransactionInfo
set_status txs tx_id s = elim (Map.get txs tx_id) [
  | none ↦ txs
  | some info ↦ Map.insert txs tx_id (record info { status = s })
]

abbrev pub with_txs : TransactionManager → Map TransactionInfo → TransactionManager
with_txs m txs = record m { active_txs = record { value = txs; poisoned = false } }

unfoldable pub commit_transaction : TransactionManager → ℕ → Result (Unit {0}) × TransactionManager
unfolding set_status
commit_transaction m tx_id =
    if m.active_txs.poisoned then (err (lock_poisoned "mvcc.active_txs"), m) else (
      ok tt,
      let txs = Map.remove (set_status m.active_txs.value tx_id TxStatus.committed) tx_id in
          record (with_txs m txs) {
            last_committed_tx_id =
                if ltb m.last_committed_tx_id tx_id then tx_id else m.last_committed_tx_id;
          },
    )

unfoldable pub abort_transaction : TransactionManager → ℕ → Result (Unit {0}) × TransactionManager
unfolding set_status
abort_transaction m tx_id =
    if m.active_txs.poisoned then (err (lock_poisoned "mvcc.active_txs"), m) else (
      ok tt,
      with_txs m (Map.remove (set_status m.active_txs.value tx_id TxStatus.aborted) tx_id),
    )

-- the loop over `active_txs.values()`, with `oldest` as it stands so far
unfoldable pub oldest_start : ℕ → List TransactionInfo → ℕ
oldest_start oldest [] = oldest
oldest_start oldest (info ∷ infos) =
    oldest_start (if ltb info.start_time oldest then info.start_time else oldest) infos

-- `u64::MAX` starts the search; with no transaction active, the next snapshot is the bound
unfoldable pub oldest_active : ℕ → Map TransactionInfo → ℕ
oldest_active latest [] = (latest + 1) % u64_mod
oldest_active latest ((k, info) ∷ txs) = oldest_start (u64_mod - 1) (Map.values ((k, info) ∷ txs))

unfoldable pub get_oldest_active_transaction : TransactionManager → Result ℕ
unfolding oldest_start oldest_active
get_oldest_active_transaction m =
    if m.active_txs.poisoned
    then err (lock_poisoned "mvcc.active_txs")
    else ok (oldest_active (get_latest_committed_tx_id m) m.active_txs.value)
