-- ===== src/Prelude/HashMap/Retain.antt =====
-- `retain` after `insert`, and what it leaves.
use mathlib.Core.Path.{◌≡◌, refl, ap}
use mathlib.Core.Logic.{inl, inr}
use mathlib.Core.Bool.{Bool, true}
use mathlib.Core.Option.{none, some}
use mathlib.Core.List.{[], ◌∷◌}
use native.Mathlib.Omega.{arith}
use grpc_bench.Prelude.Tests.{Option-cases, Bool-cases}
use grpc_bench.Prelude.Eq.{Eq, ◌==◌, beq_refl}
use grpc_bench.Prelude.HashMap.{
  HashMap, get, insert, remove, retain, kept, IsUnique, get-retain, get-retain-none, get-insert,
}

module _ {K V : Type 0} ⦃e : Eq K⦄ where
  -- An entry that was inserted and then removed leaves nothing, whatever `retain` dropped between.
  pub remove-retain-insert :
      (p : K → V → Bool) (k : K) (v : V) (m : HashMap K V)
      → get k m ≡ none
      → remove k (retain p (insert k v m)) ≡ retain p m
  unfolding get insert remove retain
  remove-retain-insert p k v [] h = ground (arith, beq_refl k)
  remove-retain-insert p k v ((j, w) ∷ m) h = elim (Bool-cases (j == k)) [
    | inl same ↦ absurd (ground (arith, h, same))
    | inr other ↦
        let ih = remove-retain-insert p k v m (ground (arith, h, other)) in
        ground (arith, other, ih)
  ]

  pub get-retain-insert :
      (p : K → V → Bool) (k : K) (v : V) (m : HashMap K V)
      → get k m ≡ none
      → p k v ≡ true
      → get k (retain p (insert k v m)) ≡ some v
  unfolding get insert retain
  get-retain-insert p k v [] h kept = ground (arith, beq_refl k, kept)
  get-retain-insert p k v ((j, w) ∷ m) h kept = elim (Bool-cases (j == k)) [
    | inl same ↦ absurd (ground (arith, h, same))
    | inr other ↦
        let ih = get-retain-insert p k v m (ground (arith, h, other)) kept in
        ground (arith, other, ih)
  ]

  pub get-retain_kept :
      (p : K → V → Bool) (k : K) (v : V) (m : HashMap K V)
      → IsUnique m
      → get k (retain p m) ≡ some v
      → (get k m ≡ some v) × (p k v ≡ true)
  get-retain_kept p k v m u h = elim (Option-cases (get k m)) [
    | inl absent ↦ absurd (ground (arith, h, get-retain-none p k m absent))
    | inr (w, here) ↦ ground (arith, h, here, get-retain p k m u)
  ]

  pub remove-insert :
      (k : K) (v : V) (m : HashMap K V) → get k m ≡ none → remove k (insert k v m) ≡ m
  unfolding get insert remove
  remove-insert k v [] h = rw (beq_refl k) refl
  remove-insert k v ((j, w) ∷ m) h = elim (Bool-cases (j == k)) [
    | inl same ↦ absurd (ground (arith, h, same))
    | inr other ↦
        let ih = remove-insert k v m (ground (arith, h, other)) in
        rw (other, other) (ap (λ rest. (j, w) ∷ rest) ih)
  ]

  pub get-insert_here : (k : K) (v : V) (m : HashMap K V) → get k (insert k v m) ≡ some v
  get-insert_here k v m = rw (get-insert k k v m, beq_refl k) refl
