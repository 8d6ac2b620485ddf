-- ===== src/Mvcc/Exact.antt =====
-- src/core/mvcc.rs: `garbage_collect` removes the versions that no snapshot needs, and only these.
use jasonisnthappy.Base.{
  ℕ, ◌+◌, ◌-◌, ◌≤◌, ◌<◌, ◌≡◌, ◌⊎◌, inl, inr, Bool, true, false, not, List, [], ◌∷◌, All, arith,
  Bool-cases,
}
use jasonisnthappy.Base.Error.{ok}
use jasonisnthappy.Mvcc.Versions.{
  DocumentVersion, VersionChain, is_visible, is_kept, garbage_collect,
}
use jasonisnthappy.Mvcc.Collection.{those, sort_out-those, dropped-is_visible}

-- `zs` is `xs` and `ys`, each in its order.
pub data Merge : List DocumentVersion → List DocumentVersion → List DocumentVersion → Type 0 where
  done : Merge [] [] []
  first :
      {v : DocumentVersion} {xs ys zs : List DocumentVersion}
      → Merge xs ys zs
      → Merge (v ∷ xs) ys (v ∷ zs)
  second :
      {v : DocumentVersion} {xs ys zs : List DocumentVersion}
      → Merge xs ys zs
      → Merge xs (v ∷ ys) (v ∷ zs)

-- A snapshot from `oldest - 1` on sees the version.
abbrev pub IsNeeded : ℕ → DocumentVersion → Type 0
IsNeeded oldest v = (s : ℕ) × (oldest ≤ s + 1) × (is_visible v s ≡ true)

-- A version that is replaced or deleted was so after it was made.
abbrev pub IsOrdered : DocumentVersion → Type 0
IsOrdered v = (v.xmax ≡ 0) ⊎ (v.xmin < v.xmax)

those-Merge :
    (p : DocumentVersion → Bool) (vs : List DocumentVersion)
    → Merge (those (λ v. not (p v)) vs) (those p vs) vs
unfolding those
those-Merge p [] = done
those-Merge p (v ∷ vs) = elim (Bool-cases (p v)) [
  | inl k ↦ simp k (second (those-Merge p vs))
  | inr k ↦ simp k (first (those-Merge p vs))
]

is_kept-IsNeeded : (o : ℕ) (v : DocumentVersion) → IsOrdered v → is_kept o v ≡ true → IsNeeded o v
unfolding is_kept is_visible
is_kept-IsNeeded o v (inl live) k = (v.xmin + o, omega arith, ground (arith, live))
is_kept-IsNeeded o v (inr ordered) k =
    (v.xmax - 1, ground (arith, ordered, k), ground (arith, ordered))

those-All :
    {P Q : DocumentVersion → Type 0} (p : DocumentVersion → Bool) (vs : List DocumentVersion)
    → ((v : DocumentVersion) → P v → p v ≡ true → Q v)
    → All P vs
    → All Q (those p vs)
unfolding those
those-All p [] f h = tt
those-All p (v ∷ vs) f h = elim (Bool-cases (p v)) [
  | inl k ↦ simp k (f v h.0 k, those-All p vs f h.1)
  | inr k ↦ simp k (those-All p vs f h.1)
]

dropped-not_IsNeeded : (o : ℕ) (v : DocumentVersion) → not (is_kept o v) ≡ true → ¬ IsNeeded o v
dropped-not_IsNeeded o v k (s, le, seen) =
    let dropped : is_kept o v ≡ false = ground (arith, k) in
    cc (dropped-is_visible o s v le dropped, seen)

garbage_collect-those :
    (c : VersionChain) (o : ℕ) (removed : List DocumentVersion)
    → (garbage_collect c o).0 ≡ ok removed
    → (removed ≡ those (λ v. not (is_kept o v)) c.versions.value)
      × ((garbage_collect c o).1.versions.value ≡ those (is_kept o) c.versions.value)
unfolding garbage_collect
garbage_collect-those c o removed h = ground (arith, sort_out-those o [] [] c.versions.value)

-- On a chain in which every version was made before it was replaced, a collection that succeeds
-- splits the chain into what it returns and what stays, both in order: no snapshot from
-- `oldest_active_tx - 1` on sees a version that it returns, and some such snapshot sees each version
-- that stays.
pub garbage_collect-exact :
    (c : VersionChain) (o : ℕ) (removed : List DocumentVersion)
    → All IsOrdered c.versions.value
    → (garbage_collect c o).0 ≡ ok removed
    → Merge removed (garbage_collect c o).1.versions.value c.versions.value
      × All (λ v. ¬ IsNeeded o v) removed
      × All (IsNeeded o) (garbage_collect c o).1.versions.value
garbage_collect-exact c o removed ordered run =
    let (returned, left) = garbage_collect-those c o removed run in
    let vs = c.versions.value in
    rw (returned, left)
      (
        those-Merge (is_kept o) vs,
        those-All (λ v. not (is_kept o v)) vs (λ v h k. dropped-not_IsNeeded o v k) ordered,
        those-All (is_kept o) vs (is_kept-IsNeeded o) ordered,
      )
