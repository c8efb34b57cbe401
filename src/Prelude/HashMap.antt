-- ===== src/Prelude/HashMap.antt =====
-- `std::collections::HashMap` and `DashMap` as association lists. The order of a map's iteration
-- is not specified by Rust; here it is the order of the list, and the laws hold of every list.
pub mod Retain
pub mod Apart
use mathlib.Core.Logic.{inl, inr}
use Prim.Native.Nat.{ℕ, zero, suc, ◌+◌, ◌≤◌}
use mathlib.Core.Path.{◌≡◌, refl}
use mathlib.Core.Bool.{Bool}
use mathlib.Core.Option.{Option, none, some}
use mathlib.Core.List.{List, [], ◌∷◌}
use native.Mathlib.Omega.{arith}
use grpc_bench.Prelude.Tests.{if◌then◌else◌, found, Option-cases, Bool-cases}
use grpc_bench.Prelude.Lists.{length, take, drop}
use grpc_bench.Prelude.Eq.{Eq, ◌==◌, beq_refl}

abbrev pub HashMap : Type 0 → Type 0 → Type 0
HashMap K V = List (K × V)

-- `m.keys()`
abbrev pub keys : {K V : Type 0} → HashMap K V → List K
keys [] = []
keys ((k, v) ∷ m) = k ∷ keys m

-- What `retain` keeps of one entry.
abbrev pub kept : {V : Type 0} → (V → Bool) → Option V → Option V
kept p none = none
kept p (some v) = if p v then some v else none

module _ {K V : Type 0} where
  -- `m.retain(p)`
  unfoldable pub retain : (K → V → Bool) → HashMap K V → HashMap K V
  retain p [] = []
  retain p ((k, v) ∷ m) = if p k v then (k, v) ∷ retain p m else retain p m

  pub length-retain-le : (p : K → V → Bool) (m : HashMap K V) → length (retain p m) ≤ length m
  unfolding retain
  length-retain-le p [] = omega arith
  length-retain-le p ((k, v) ∷ m) = ground (arith, length-retain-le p m)

module _ {K V : Type 0} ⦃e : Eq K⦄ where
  -- `m.get(&k)`
  unfoldable pub get : K → HashMap K V → Option V
  get k [] = none
  get k ((j, v) ∷ m) = if j == k then some v else get k m

  -- the map after `m.remove(&k)`, whose result is `get k m`
  unfoldable pub remove : K → HashMap K V → HashMap K V
  remove k [] = []
  remove k ((j, v) ∷ m) = let rest = remove k m in if j == k then rest else (j, v) ∷ rest

  -- `m.insert(k, v)`
  unfoldable pub insert : K → V → HashMap K V → HashMap K V
  insert k v [] = (k, v) ∷ []
  insert k v ((j, w) ∷ m) = if j == k then (k, v) ∷ m else (j, w) ∷ insert k v m

  -- `for k in ks { m.remove(&k); }`
  unfoldable pub remove_all : List K → HashMap K V → HashMap K V
  remove_all [] m = m
  remove_all (k ∷ ks) m = remove_all ks (remove k m)

  -- Each key is held once, as a hash map does.
  abbrev pub IsUnique : HashMap K V → Type 0
  IsUnique [] = Unit {0}
  IsUnique ((k, v) ∷ m) = (get k m ≡ none) × IsUnique m

  pub get-insert :
      (k j : K) (v : V) (m : HashMap K V)
      → get j (insert k v m) ≡ (if k == j then some v else get j m)
  unfolding get insert
  get-insert k j v [] = refl
  get-insert k j v ((i, w) ∷ m) =
      ground (arith, e.decides k j, e.decides i k, e.decides i j, get-insert k j v m)

  pub get-remove :
      (k j : K) (m : HashMap K V) → get j (remove k m) ≡ (if k == j then none else get j m)
  unfolding get remove
  get-remove k j [] = ground arith
  get-remove k j ((i, w) ∷ m) =
      ground (arith, e.decides k j, e.decides i k, e.decides i j, get-remove k j m)

  pub remove-IsUnique : (k : K) (m : HashMap K V) → IsUnique m → IsUnique (remove k m)
  unfolding remove
  remove-IsUnique k [] u = tt
  remove-IsUnique k ((j, v) ∷ m) u = ground (arith, get-remove k j m, remove-IsUnique k m u.1)

  pub insert-IsUnique : (k : K) (v : V) (m : HashMap K V) → IsUnique m → IsUnique (insert k v m)
  unfolding insert get
  insert-IsUnique k v [] u = (refl, tt)
  insert-IsUnique k v ((j, w) ∷ m) u =
      ground (arith, e.decides j k, e.decides k j, get-insert k j v m, insert-IsUnique k v m u.1)

  pub get-retain-none :
      (p : K → V → Bool) (k : K) (m : HashMap K V) → get k m ≡ none → get k (retain p m) ≡ none
  unfolding get retain
  get-retain-none p k [] h = refl
  get-retain-none p k ((j, v) ∷ m) h = ground (arith, get-retain-none p k m)

  pub retain-IsUnique : (p : K → V → Bool) (m : HashMap K V) → IsUnique m → IsUnique (retain p m)
  unfolding retain
  retain-IsUnique p [] u = tt
  retain-IsUnique p ((j, v) ∷ m) u = ground (arith, get-retain-none p j m, retain-IsUnique p m u.1)

  pub get-retain :
      (p : K → V → Bool) (k : K) (m : HashMap K V)
      → IsUnique m
      → get k (retain p m) ≡ kept (p k) (get k m)
  unfolding get retain
  get-retain p k [] u = refl
  get-retain p k ((j, v) ∷ m) u =
      ground (arith, e.decides j k, get-retain-none p k m, get-retain p k m u.1)

  pub remove_absent : (k : K) (m : HashMap K V) → get k m ≡ none → remove k m ≡ m
  unfolding get remove
  remove_absent k [] h = refl
  remove_absent k ((j, v) ∷ m) h = ground (arith, remove_absent k m)

  pub length-remove :
      (k : K) (m : HashMap K V) → IsUnique m → length (remove k m) + found (get k m) ≡ length m
  unfolding get remove
  length-remove k [] u = omega arith
  length-remove k ((j, v) ∷ m) u =
      ground (arith, e.decides j k, remove_absent k m, length-remove k m u.1)

  pub length-insert :
      (k : K) (v : V) (m : HashMap K V) → length (insert k v m) + found (get k m) ≡ length m + 1
  unfolding get insert
  length-insert k v [] = omega arith
  length-insert k v ((j, w) ∷ m) = ground (arith, length-insert k v m)

  pub remove_all-keys :
      (n : ℕ) (m : HashMap K V) → IsUnique m → remove_all (take n (keys m)) m ≡ drop n m
  unfolding remove_all remove
  remove_all-keys zero m u = refl
  remove_all-keys (suc n) [] u = refl
  remove_all-keys (suc n) ((k, v) ∷ m) u =
      rw (beq_refl k, remove_absent k m u.0) (remove_all-keys n m u.1)

  pub get-drop-none : (n : ℕ) (k : K) (m : HashMap K V) → get k m ≡ none → get k (drop n m) ≡ none
  unfolding get
  get-drop-none zero k m h = h
  get-drop-none (suc n) k [] h = refl
  get-drop-none (suc n) k ((j, v) ∷ m) h = ground (arith, get-drop-none n k m)

  pub drop-IsUnique : (n : ℕ) (m : HashMap K V) → IsUnique m → IsUnique (drop n m)
  drop-IsUnique zero m u = u
  drop-IsUnique (suc n) [] u = tt
  drop-IsUnique (suc n) (e' ∷ m) u = drop-IsUnique n m u.1

  pub found-retain-le :
      (p : K → V → Bool) (k : K) (m : HashMap K V)
      → IsUnique m
      → found (get k (retain p m)) ≤ found (get k m)
  found-retain-le p k m u = rw (get-retain p k m u) (ground arith)

  pub found-drop-le : (n : ℕ) (k : K) (m : HashMap K V) → found (get k (drop n m)) ≤ found (get k m)
  found-drop-le n k m = elim (Option-cases (get k m)) [
    | inl h ↦ rw (h, get-drop-none n k m h) (omega arith)
    | inr (v, h) ↦ rw h (ground arith)
  ]

  pub get-drop-some :
      (n : ℕ) (k : K) (v : V) (m : HashMap K V)
      → IsUnique m
      → get k (drop n m) ≡ some v
      → get k m ≡ some v
  unfolding get
  get-drop-some zero k v m u h = h
  get-drop-some (suc n) k v [] u h = h
  get-drop-some (suc n) k v ((j, w) ∷ m) u h =
      ground (arith, e.decides j k, get-drop-none n j m, get-drop-some n k v m u.1)

  -- What holds of every value.
  abbrev pub AllValues : (V → Type 0) → HashMap K V → Type 0
  AllValues P [] = Unit {0}
  AllValues P ((k, v) ∷ m) = P v × AllValues P m

  pub AllValues-insert :
      (P : V → Type 0) (k : K) (v : V) (m : HashMap K V)
      → P v
      → AllValues P m
      → AllValues P (insert k v m)
  unfolding insert
  AllValues-insert P k v [] h a = (h, tt)
  AllValues-insert P k v ((j, w) ∷ m) h a = ground (arith, AllValues-insert P k v m h a.1)

  pub AllValues-get :
      (P : V → Type 0) (k : K) (v : V) (m : HashMap K V) → get k m ≡ some v → AllValues P m → P v
  unfolding get
  AllValues-get P k v [] h a = absurd (cc h)
  AllValues-get P k v ((j, w) ∷ m) h a = elim (Bool-cases (j == k)) [
    | inl here ↦ let same : w ≡ v = ground (arith, h, here) in rw (← same) a.0
    | inr there ↦ AllValues-get P k v m (rw (there, get) at h) a.1
  ]
