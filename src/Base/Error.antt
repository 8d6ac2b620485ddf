-- ===== src/Base/Error.antt =====
-- src/core/errors.rs: the error type, results, and locks that a panic may have poisoned.
use Prim.Native.Nat.{ℕ}
use Prim.Native.String.{String}
use mathlib.Core.Bool.{Bool, true, false}
use mathlib.Core.Option.{Option}

pub data Error : Type 0 where
  tx_not_active tx_already_done tx_conflict : Error
  database_already_open database_closed : Error
  database_read_only : String → Error
  database_reference_not_set : Error
  collection_name_empty collection_name_too_long : Error
  collection_name_invalid_start collection_name_invalid_char collection_name_reserved : Error
  collection_already_exists collection_does_not_exist : String → Error
  document_not_found document_already_exists : String → String → Error
  document_too_large : Error
  bulk_operation_too_large : ℕ → ℕ → Error
  invalid_document : Error
  invalid_document_format : String → Option String → Error
  conflict : String → String → String → Error
  validation : String → String → String → Error
  schema_validation : String → Error
  serialization_error deserialization_error : String → String → Error
  invalid_index_key : String → String → Error
  corruption : String → ℕ → String → Error
  lock_poisoned : String → Error
  data_corruption : String → Error
  context_cancelled : String → String → Error
  invalid_magic invalid_version invalid_page_num invalid_page_size : Error
  wal_corrupted wal_invalid_tx wal_checksum_fail : Error
  not_found : Error
  io other : String → Error

pub data Result {ℓ} (A : Type ℓ) : Type ℓ where
  ok : A → Result A
  err : Error → Result A

module _ {ℓ} {T : Type ℓ} where
  infixl 5 ◌>>=◌
  -- the `?` operator: an error ends the function that it stands in
  abbrev pub ◌>>=◌ {κ} : {U : Type κ} → Result T → (T → Result U) → Result U
  r >>= rest = elim r [ err e ↦ err e | ok v ↦ rest v ]

-- A value behind a lock, and whether a thread has panicked while it held the lock.
pub record Lock {ℓ} (A : Type ℓ) : Type ℓ where
  pub value : A
  pub poisoned : Bool

-- `lock.write().map_err(...)`: the name is the one that the error reports.
abbrev pub acquire {ℓ} : {A : Type ℓ} → String → Lock A → Result A
acquire name l = elim l.poisoned [ true ↦ err (lock_poisoned name) | false ↦ ok l.value ]
