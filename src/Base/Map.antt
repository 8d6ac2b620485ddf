-- ===== src/Base/Map.antt =====
-- `HashMap<u64, V>` as an association list in which no key stands twice.
use mathlib.Core.List.{List, [], ◌∷◌}
use mathlib.Core.Option.{Option, none, some}
use mathlib.Core.Bool.{Bool, true, false}
use mathlib.Core.Path.{◌≡◌, refl}
use mathlib.Core.Logic.{◌≢◌}
use Prim.Native.Nat.{ℕ, suc}
use native.Mathlib.Omega.{arith}
use jasonisnthappy.Base.Tests.{◌==◌, if◌then◌else◌}
use jasonisnthappy.Base.Lists.{length}

abbrev pub Map {ℓ} : Type ℓ → Type ℓ
Map V = List (ℕ × V)

module _ {ℓ} {V : Type ℓ} where
  unfoldable pub get : Map V → ℕ → Option V
  get [] k = none
  get ((j, v) ∷ m) k = if j == k then some v else get m k

  unfoldable pub insert : Map V → ℕ → V → Map V
  insert [] k v = (k, v) ∷ []
  insert ((j, w) ∷ m) k v = if j == k then (k, v) ∷ m else (j, w) ∷ insert m k v

  unfoldable pub remove : Map V → ℕ → Map V
  remove [] k = []
  remove ((j, w) ∷ m) k = let rest = remove m k in if j == k then rest else (j, w) ∷ rest

  unfoldable pub contains_key : Map V → ℕ → Bool
  contains_key m k = elim (get m k) [ none ↦ false | some _ ↦ true ]

  abbrev pub values : Map V → List V
  values [] = []
  values ((k, v) ∷ m) = v ∷ values m

  abbrev pub keys : Map V → List ℕ
  keys [] = []
  keys ((k, v) ∷ m) = k ∷ keys m

module _ {ℓ} {V : Type ℓ} where
  pub get-insert :
      (m : Map V) (k : ℕ) (v : V) (j : ℕ)
      → get (insert m k v) j ≡ (if k == j then some v else get m j)
  unfolding get insert
  get-insert [] k v j = refl
  get-insert ((i, w) ∷ m) k v j = ground (arith, get-insert m k v j)

  pub get-insert_same : (m : Map V) (k : ℕ) (v : V) → get (insert m k v) k ≡ some v
  get-insert_same m k v = ground (arith, get-insert m k v k)

  pub get-insert_other : (m : Map V) (k j : ℕ) (v : V) → k ≢ j → get (insert m k v) j ≡ get m j
  get-insert_other m k j v h = ground (arith, get-insert m k v j)

  pub get-remove : (m : Map V) (k j : ℕ) → get (remove m k) j ≡ (if k == j then none else get m j)
  unfolding get remove
  get-remove [] k j = ground arith
  get-remove ((i, w) ∷ m) k j = ground (arith, get-remove m k j)

  pub length-insert_old :
      (m : Map V) (k : ℕ) (v w : V) → get m k ≡ some w → length (insert m k v) ≡ length m
  unfolding get insert
  length-insert_old [] k v w h = ground arith
  length-insert_old ((i, u) ∷ m) k v w h = ground (arith, length-insert_old m k v w)

  pub length-insert_new :
      (m : Map V) (k : ℕ) (v : V) → get m k ≡ none → length (insert m k v) ≡ suc (length m)
  unfolding get insert
  length-insert_new [] k v h = refl
  length-insert_new ((i, u) ∷ m) k v h = ground (arith, length-insert_new m k v)

module _ {ℓ κ} {V : Type ℓ} (P : ℕ → V → Type κ) where
  -- Every entry satisfies `P`.
  abbrev pub Entries : Map V → Type κ
  Entries [] = Unit
  Entries ((k, v) ∷ m) = P k v × Entries m

module _ {ℓ κ} {V : Type ℓ} (P : ℕ → V → Type κ) where
  pub Entries-get : (m : Map V) (k : ℕ) (v : V) → Entries P m → get m k ≡ some v → P k v
  unfolding get
  Entries-get [] k v h e = ground arith
  Entries-get ((i, w) ∷ m) k v h e = ground (arith, h, Entries-get m k v h.1)

  pub Entries-insert : (m : Map V) (k : ℕ) (v : V) → Entries P m → P k v → Entries P (insert m k v)
  unfolding insert
  Entries-insert [] k v h p = (p, tt)
  Entries-insert ((i, w) ∷ m) k v h p =
      elim (i == k) as (λ b. Entries P (if b then (k, v) ∷ m else (i, w) ∷ insert m k v)) [
        | true ↦ (p, h.1)
        | false ↦ (h.0, Entries-insert m k v h.1 p)
      ]

  pub Entries-remove : (m : Map V) (k : ℕ) → Entries P m → Entries P (remove m k)
  unfolding remove
  Entries-remove [] k h = tt
  Entries-remove ((i, w) ∷ m) k h =
      elim (i == k) as (λ b. Entries P (if b then remove m k else (i, w) ∷ remove m k)) [
        | true ↦ Entries-remove m k h.1
        | false ↦ (h.0, Entries-remove m k h.1)
      ]

  pub Entries-mono {κ'} :
      (Q : ℕ → V → Type κ')
      → ((k : ℕ) (v : V) → P k v → Q k v)
      → (m : Map V) → Entries P m
      → Entries Q m
  Entries-mono Q f [] h = tt
  Entries-mono Q f ((k, v) ∷ m) h = (f k v h.0, Entries-mono Q f m h.1)
