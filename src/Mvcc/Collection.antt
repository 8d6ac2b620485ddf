-- ===== src/Mvcc/Collection.antt =====
-- src/core/mvcc.rs with `garbage_collect` of src/core/database.rs: what a collection removes.
use jasonisnthappy.Base.{
  ℕ, ◌+◌, ◌≤◌, ◌≡◌, refl, Bool, false, some, List, [], ◌∷◌, ◌++◌, append_assoc, append-nil,
  if◌then◌else◌, arith, Bool-cases, not, inl, inr,
}
use jasonisnthappy.Base.Map
use jasonisnthappy.Base.Error.{ok}
use jasonisnthappy.Mvcc.Manager.{TransactionManager, TransactionInfo, get_oldest_active_transaction}
use jasonisnthappy.Mvcc.Versions.{
  DocumentVersion, VersionChain, is_visible, is_kept, sort_out, garbage_collect,
}
use jasonisnthappy.Mvcc.Valid.{IsValid}
use jasonisnthappy.Mvcc.Oldest.{oldest-le-start_time}

-- The versions of a list that pass a test, in order.
unfoldable pub those : (DocumentVersion → Bool) → List DocumentVersion → List DocumentVersion
those p [] = []
those p (v ∷ vs) = if p v then v ∷ those p vs else those p vs

-- What a snapshot sees of a chain.
abbrev pub visible_at : ℕ → List DocumentVersion → List DocumentVersion
visible_at s vs = those (λ v. is_visible v s) vs

pub sort_out-those :
    (o : ℕ) (removed kept vs : List DocumentVersion)
    → sort_out o removed kept vs
      ≡ (removed ++ those (λ v. not (is_kept o v)) vs, kept ++ those (is_kept o) vs)
unfolding sort_out those
sort_out-those o removed kept [] = simp append-nil
sort_out-those o removed kept (v ∷ vs) = elim (Bool-cases (is_kept o v)) [
  | inl k ↦ simp (k, sort_out-those o removed (kept ++ v ∷ []) vs, append_assoc)
  | inr k ↦ simp (k, sort_out-those o (removed ++ v ∷ []) kept vs, append_assoc)
]

-- A version that is dropped was already replaced at every snapshot from `o - 1` on.
pub dropped-is_visible :
    (o s : ℕ) (v : DocumentVersion) → o ≤ s + 1 → is_kept o v ≡ false → is_visible v s ≡ false
unfolding is_kept is_visible
dropped-is_visible o s v h k = ground arith

visible_at-those :
    (o s : ℕ) (vs : List DocumentVersion)
    → o ≤ s + 1
    → visible_at s (those (is_kept o) vs) ≡ visible_at s vs
unfolding those
visible_at-those o s [] h = refl
visible_at-those o s (v ∷ vs) h = elim (Bool-cases (is_kept o v)) [
  | inl k ↦ simp k (ground (arith, visible_at-those o s vs h))
  | inr k ↦ simp (k, dropped-is_visible o s v h k) (visible_at-those o s vs h)
]

garbage_collect-visible :
    (c : VersionChain) (o s : ℕ)
    → o ≤ s + 1
    → visible_at s (garbage_collect c o).1.versions.value ≡ visible_at s c.versions.value
unfolding garbage_collect
garbage_collect-visible c o s h =
    ground (arith, sort_out-those o [] [] c.versions.value, visible_at-those o s c.versions.value h)

-- A collection with the bound that a valid manager computes hides nothing: at the snapshot of
-- every active transaction, and at every snapshot from the latest committed id on, each chain
-- shows the same versions in the same order before and after.
pub garbage_collect-keeps_visible :
    (m : TransactionManager) (o : ℕ) (c : VersionChain)
    → IsValid m
    → get_oldest_active_transaction m ≡ ok o
    → ((k : ℕ) (info : TransactionInfo)
        → Map.get m.active_txs.value k ≡ some info
        → visible_at info.start_time (garbage_collect c o).1.versions.value
          ≡ visible_at info.start_time c.versions.value)
      × ((s : ℕ)
          → m.last_committed_tx_id ≤ s
          → visible_at s (garbage_collect c o).1.versions.value ≡ visible_at s c.versions.value)
garbage_collect-keeps_visible m o c v h =
    let bounds = oldest-le-start_time m o v h in
    (
      λ k info found.
          garbage_collect-visible c o info.start_time (omega (arith, bounds.1 k info found)),
      λ s le. garbage_collect-visible c o s (omega (arith, bounds.0)),
    )
