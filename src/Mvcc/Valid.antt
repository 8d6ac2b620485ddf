-- ===== src/Mvcc/Valid.antt =====
-- src/core/mvcc.rs: a manager whose counters and table fit together, and the methods that keep it so.
use jasonisnthappy.Base.{
  ℕ, ◌+◌, ◌≤◌, ◌<◌, ◌≡◌, refl, inl, inr, some, List, [], ◌∷◌, ltb, if◌then◌else◌, arith, u64_mod,
  Bool-cases, Option-cases,
}
use jasonisnthappy.Base.Map
use jasonisnthappy.Base.Map.{
  Map, Entries, Entries-get, Entries-insert, Entries-remove, Entries-mono,
}
use native.Mathlib.Nat.{le_refl}
use jasonisnthappy.Base.Error.{Result, ok, err}
use jasonisnthappy.Mvcc.Manager.{
  TxStatus, TransactionInfo, TransactionManager, fetch_add_tx_id, insert_active, begin_transaction,
  commit_transaction, abort_transaction, oldest_start, set_status, with_id,
}

-- An entry of the table of active transactions, between the two counters.
pub record IsActive (next last k : ℕ) (info : TransactionInfo) : Type 0 where
  pub own_id : info.id ≡ k
  pub begun : k < next
  pub snapshot_committed : info.start_time ≤ last

pub record IsValid (m : TransactionManager) : Type 0 where
  pub committed_begun : m.last_committed_tx_id < m.next_tx_id
  pub no_wrap : m.next_tx_id < u64_mod
  pub all_active : Entries (IsActive m.next_tx_id m.last_committed_tx_id) m.active_txs.value

IsActive-mono :
    {next last next' last' : ℕ}
    → next ≤ next'
    → last ≤ last'
    → (k : ℕ) (info : TransactionInfo) → IsActive next last k info
    → IsActive next' last' k info
IsActive-mono p q k info a = record {
  own_id = a.own_id;
  begun = omega arith;
  snapshot_committed = omega arith;
}

Entries-IsActive-mono :
    {next last next' last' : ℕ}
    → next ≤ next'
    → last ≤ last'
    → (txs : Map TransactionInfo) → Entries (IsActive next last) txs
    → Entries (IsActive next' last') txs
Entries-IsActive-mono p q txs h = Entries-mono _ _ (IsActive-mono p q) txs h

set_status-IsActive :
    (next last : ℕ) (txs : Map TransactionInfo) (id : ℕ) (s : TxStatus)
    → Entries (IsActive next last) txs
    → Entries (IsActive next last) (set_status txs id s)
unfolding set_status
set_status-IsActive next last txs id s h = elim (Option-cases (Map.get txs id)) [
  | inl absent ↦ rw (absent, set_status) h
  | inr (info, found) ↦
      let a = Entries-get (IsActive next last) txs id info h found in
      rw (found, set_status)
        (Entries-insert (IsActive next last) txs id (record info { status = s }) h
          (record {
            own_id = a.own_id;
            begun = a.begun;
            snapshot_committed = a.snapshot_committed;
          }))
]

pub insert_active-IsValid :
    (m : TransactionManager) (id snapshot : ℕ)
    → IsValid m
    → id < m.next_tx_id
    → snapshot ≤ m.last_committed_tx_id
    → IsValid (insert_active m id snapshot).1
unfolding insert_active
insert_active-IsValid m id snapshot v h k = elim (Bool-cases m.active_txs.poisoned) [
  | inl p ↦ simp p v
  | inr p ↦
      rw (p, insert_active)
        (record {
          committed_begun = v.committed_begun;
          no_wrap = v.no_wrap;
          all_active =
              Entries-insert (IsActive m.next_tx_id m.last_committed_tx_id) m.active_txs.value id _
                v.all_active (record { own_id = refl; begun = h; snapshot_committed = k });
        })
]

pub fetch_add-IsValid :
    (m : TransactionManager)
    → IsValid m
    → m.next_tx_id + 1 < u64_mod
    → IsValid (fetch_add_tx_id m).1
unfolding fetch_add_tx_id
fetch_add-IsValid m v h = record {
  committed_begun = omega (arith, v.committed_begun);
  no_wrap = omega arith;
  all_active = Entries-IsActive-mono (omega arith) (le_refl m.last_committed_tx_id) _ v.all_active;
}

with_id-manager : (id : ℕ) (r : Result (Unit {0}) × TransactionManager) → (with_id id r).1 ≡ r.1
with_id-manager id (ok _, m) = refl
with_id-manager id (err e, m) = refl

pub begin-IsValid :
    (m : TransactionManager)
    → IsValid m
    → m.next_tx_id + 1 < u64_mod
    → IsValid (begin_transaction m).1
unfolding begin_transaction
begin-IsValid m v h = rw with_id-manager (
    insert_active-IsValid (fetch_add_tx_id m).1 m.next_tx_id m.last_committed_tx_id
      (fetch_add-IsValid m v h) (unfold fetch_add_tx_id in omega arith)
      (unfold fetch_add_tx_id in le_refl m.last_committed_tx_id))

remove-IsValid :
    (m : TransactionManager) (id : ℕ) (s : TxStatus)
    → IsValid m
    → Entries
        (IsActive m.next_tx_id m.last_committed_tx_id)
        (Map.remove (set_status m.active_txs.value id s) id)
remove-IsValid m id s v =
    Entries-remove _ (set_status m.active_txs.value id s) id
      (set_status-IsActive _ _ m.active_txs.value id s v.all_active)

pub commit-IsValid :
    (m : TransactionManager) (id : ℕ)
    → IsValid m
    → id < m.next_tx_id
    → IsValid (commit_transaction m id).1
unfolding commit_transaction
commit-IsValid m id v h = elim (Bool-cases m.active_txs.poisoned) [
  | inl p ↦ simp p v
  | inr p ↦
      rw (p, commit_transaction)
        (record {
          committed_begun = ground (arith, v.committed_begun);
          no_wrap = v.no_wrap;
          all_active =
              Entries-IsActive-mono (le_refl m.next_tx_id) (ground arith) _
                (remove-IsValid m id TxStatus.committed v);
        })
]

pub abort-IsValid :
    (m : TransactionManager) (id : ℕ) → IsValid m → IsValid (abort_transaction m id).1
unfolding abort_transaction
abort-IsValid m id v = elim (Bool-cases m.active_txs.poisoned) [
  | inl p ↦ simp p v
  | inr p ↦
      rw (p, abort_transaction)
        (record {
          committed_begun = v.committed_begun;
          no_wrap = v.no_wrap;
          all_active = remove-IsValid m id TxStatus.aborted v;
        })
]

oldest_start-le : (o : ℕ) (infos : List TransactionInfo) → oldest_start o infos ≤ o
unfolding oldest_start
oldest_start-le o [] = omega arith
oldest_start-le o (info ∷ infos) =
    ground (arith, oldest_start-le (if ltb info.start_time o then info.start_time else o) infos)

pub oldest_start-bound :
    (o : ℕ) (txs : Map TransactionInfo) (k : ℕ) (info : TransactionInfo)
    → Map.get txs k ≡ some info
    → oldest_start o (Map.values txs) ≤ info.start_time
unfolding oldest_start Map.get
oldest_start-bound o [] k info h = cc
oldest_start-bound o ((j, other) ∷ txs) k info h =
    let o' = if ltb other.start_time o then other.start_time else o in
    ground (arith, oldest_start-le o' (Map.values txs), oldest_start-bound o' txs k info)
