-- ===== src/Mvcc/Versions.antt =====
-- src/core/mvcc.rs: `DocumentVersion` and `VersionChain`.
use jasonisnthappy.Base.{
  ℕ, String, Bool, true, false, not, ◌&&◌, ◌||◌, List, [], ◌∷◌, ◌++◌, ltb, leb, ◌==◌, if◌then◌else◌,
}
use jasonisnthappy.Base.Error.{Result, ok, err, Lock, lock_poisoned}

pub record DocumentVersion : Type 0 where
  pub doc_id : String
  pub xmin : ℕ
  pub xmax : ℕ
  pub bytes : List ℕ
  pub page_num : ℕ

unfoldable pub is_visible : DocumentVersion → ℕ → Bool
is_visible v tx_id =
    if ltb tx_id v.xmin
    then false
    else if not (v.xmax == 0) && leb v.xmax tx_id
    then false
    else true

pub record VersionChain : Type 0 where
  pub doc_id : String
  pub versions : Lock (List DocumentVersion)

abbrev pub new_chain : String → VersionChain
new_chain doc_id = record { doc_id = doc_id; versions = record { value = []; poisoned = false } }

unfoldable pub add_version : VersionChain → DocumentVersion → Result (Unit {0}) × VersionChain
add_version c v =
    if c.versions.poisoned then (err (lock_poisoned "version_chain.versions"), c) else (
      ok tt,
      record c { versions = record { value = c.versions.value ++ v ∷ []; poisoned = false } },
    )

-- the test of the loop in `garbage_collect`
unfoldable pub is_kept : ℕ → DocumentVersion → Bool
is_kept oldest_active_tx v =
    leb oldest_active_tx v.xmin || (v.xmax == 0 || leb oldest_active_tx v.xmax)

-- the loop over `versions.drain(..)`, with `removed` and `kept` as they stand so far
unfoldable pub sort_out :
    ℕ
    → List DocumentVersion
    → List DocumentVersion
    → List DocumentVersion
    → List DocumentVersion × List DocumentVersion
unfolding is_kept
sort_out oldest removed kept [] = (removed, kept)
sort_out oldest removed kept (v ∷ versions) =
    sort_out oldest (if is_kept oldest v then removed else removed ++ v ∷ [])
      (if is_kept oldest v then kept ++ v ∷ [] else kept) versions

unfoldable pub garbage_collect : VersionChain → ℕ → Result (List DocumentVersion) × VersionChain
unfolding sort_out
garbage_collect c oldest_active_tx =
    if c.versions.poisoned
    then (err (lock_poisoned "version_chain.versions"), c)
    else let (removed, kept) = sort_out oldest_active_tx [] [] c.versions.value in
      (ok removed, record c { versions = record { value = kept; poisoned = false } })

unfoldable pub get_versions : VersionChain → Result (List DocumentVersion)
get_versions c =
    if c.versions.poisoned
    then err (lock_poisoned "version_chain.versions")
    else ok c.versions.value
