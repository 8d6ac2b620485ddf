-- ===== src/Mvcc/Snapshots.antt =====
-- src/core/mvcc.rs: what holds of every manager that a sequence of calls can reach.
use jasonisnthappy.Base.{ℕ, ◌+◌, ◌≤◌, ◌<◌, ◌≡◌, refl, [], ltb, true, ◌↔◌, arith, u64_mod}
use native.Mathlib.Nat.{le_refl}
use jasonisnthappy.Mvcc.Valid.{
  IsValid, insert_active-IsValid, fetch_add-IsValid, begin-IsValid, commit-IsValid, abort-IsValid,
}
use jasonisnthappy.Mvcc.Manager.{
  TransactionManager, new, initialize_from_pager, fetch_add_tx_id, insert_active,
  register_transaction, begin_transaction, commit_transaction, abort_transaction,
}

-- The calls of the manager. `fetch` and `insert` are the steps of a begin or a registration whose
-- atomic reads and whose lock are apart, with other calls in between.
pub data Call : Type 0 where
  begin fetch : Call
  register commit abort initialize : ℕ → Call
  insert : ℕ → ℕ → Call

-- A client registers and commits ids that were given out, with a snapshot that was the latest once;
-- the counter has room; and the ids start anew only while no transaction is active.
abbrev pub Permitted : TransactionManager → Call → Type 0
Permitted m begin = m.next_tx_id + 1 < u64_mod
Permitted m fetch = m.next_tx_id + 1 < u64_mod
Permitted m (register id) = id < m.next_tx_id
Permitted m (commit id) = id < m.next_tx_id
Permitted m (abort id) = Unit
Permitted m (initialize n) = (0 < n) × (n < u64_mod) × (m.active_txs.value ≡ [])
Permitted m (insert id snapshot) = (id < m.next_tx_id) × (snapshot ≤ m.last_committed_tx_id)

unfoldable pub perform : TransactionManager → Call → TransactionManager
perform m begin = (begin_transaction m).1
perform m fetch = (fetch_add_tx_id m).1
perform m (register id) = (register_transaction m id).1
perform m (commit id) = (commit_transaction m id).1
perform m (abort id) = (abort_transaction m id).1
perform m (initialize n) = initialize_from_pager m n
perform m (insert id snapshot) = (insert_active m id snapshot).1

initialize-IsValid :
    (m : TransactionManager) (n : ℕ)
    → 0 < n
    → n < u64_mod
    → m.active_txs.value ≡ []
    → IsValid (initialize_from_pager m n)
unfolding initialize_from_pager
initialize-IsValid m n h k none_active =
    let positive : ltb 0 n ≡ true = ground (arith, h) in
    rw (positive, initialize_from_pager)
      (record { committed_begun = omega arith; no_wrap = k; all_active = rw none_active tt })

-- A call that the manager permits keeps it valid.
pub perform-IsValid :
    (m : TransactionManager) (c : Call) → Permitted m c → IsValid m → IsValid (perform m c)
unfolding perform
perform-IsValid m begin h v = begin-IsValid m v h
perform-IsValid m fetch h v = fetch_add-IsValid m v h
perform-IsValid m (register id) h v =
    unfold register_transaction in
    insert_active-IsValid m id m.last_committed_tx_id v h (le_refl m.last_committed_tx_id)
perform-IsValid m (commit id) h v = commit-IsValid m id v h
perform-IsValid m (abort id) h v = abort-IsValid m id v
perform-IsValid m (initialize n) h v = initialize-IsValid m n h.0 h.1 h.2
perform-IsValid m (insert id snapshot) h v = insert_active-IsValid m id snapshot v h.0 h.1

-- The managers that permitted calls lead to.
pub data Reach (s : TransactionManager) : TransactionManager → Type 0 where
  here : Reach s s
  call : {m : TransactionManager} → Reach s m → (c : Call) → Permitted m c → Reach s (perform m c)

pub Reach-IsValid : {s m : TransactionManager} → IsValid s → Reach s m → IsValid m
Reach-IsValid v here = v
Reach-IsValid v (call {m} r c h) = perform-IsValid m c h (Reach-IsValid v r)

-- From any stored transaction id, every sequence of permitted calls, the steps of a begin with other
-- calls in between and a new start of the ids included, keeps the latest committed id below the next
-- id and every active snapshot at or below the latest committed id.
pub reached-IsValid :
    (n : ℕ) {m : TransactionManager}
    → 0 < n
    → n < u64_mod
    → Reach (initialize_from_pager new n) m
    → IsValid m
reached-IsValid n h k r = Reach-IsValid (initialize-IsValid new n h k refl) r

-- the calls that move the latest committed id back
abbrev pub MovesBack : TransactionManager → Call → Type 0
MovesBack m (initialize n) = (0 < n) × (n ≤ m.last_committed_tx_id)
MovesBack m _ = ⊥

stays : (a b : ℕ) → a ≤ b → (b < a) ↔ ⊥
stays a b h = (λ k. omega arith, λ e. absurd e)

-- A call of the manager, in whatever state, moves the latest committed id back exactly if it is
-- `initialize_from_pager` with an id that is not 0 and not above the latest committed id.
pub perform-MovesBack :
    (m : TransactionManager) (c : Call)
    → ((perform m c).last_committed_tx_id < m.last_committed_tx_id) ↔ MovesBack m c
unfolding perform begin_transaction register_transaction commit_transaction abort_transaction
    fetch_add_tx_id insert_active initialize_from_pager
perform-MovesBack m (initialize n) = (λ h. ground (arith, h), λ h. ground (arith, h.0, h.1))
perform-MovesBack m begin = stays m.last_committed_tx_id _ (ground arith)
perform-MovesBack m _ = stays m.last_committed_tx_id _ (ground arith)
