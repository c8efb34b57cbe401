-- ===== src/Prelude/HashMap/Apart.antt =====
-- Two maps that hold no key in common.
use Prim.Native.Nat.{ℕ, ◌+◌, ◌≤◌}
use mathlib.Core.Path.{◌≡◌}
use mathlib.Core.Bool.{Bool}
use mathlib.Core.Option.{none}
use native.Mathlib.Omega.{arith}
use grpc_bench.Prelude.Tests.{found}
use grpc_bench.Prelude.Lists.{drop}
use grpc_bench.Prelude.Eq.{Eq}
use grpc_bench.Prelude.HashMap.{
  HashMap, get, insert, remove, retain, IsUnique, get-insert, get-remove, remove-IsUnique,
  insert-IsUnique, retain-IsUnique, found-retain-le, drop-IsUnique, found-drop-le,
}

-- Two maps of unique keys, none of which is in both.
pub record Apart {K V : Type 0} ⦃e : Eq K⦄ (p q : HashMap K V) : Type 0 where
  pub unique1 : IsUnique p
  pub unique2 : IsUnique q
  pub apart : (k : K) → found (get k p) + found (get k q) ≤ 1

module _ {K V : Type 0} ⦃e : Eq K⦄ where
  pub insert-Apart :
      (k : K) (v : V) (p q : HashMap K V) → Apart p q → get k q ≡ none → Apart (insert k v p) q
  insert-Apart k v p q a absent = record {
    unique1 = insert-IsUnique k v p a.unique1;
    unique2 = a.unique2;
    apart = λ j. ground (arith, get-insert k j v p, a.apart j, e.decides k j);
  }

  pub remove-Apart : (k : K) (p q : HashMap K V) → Apart p q → Apart (remove k p) q
  remove-Apart k p q a = record {
    unique1 = remove-IsUnique k p a.unique1;
    unique2 = a.unique2;
    apart = λ j. ground (arith, get-remove k j p, a.apart j);
  }

  pub swap-Apart : (p q : HashMap K V) → Apart p q → Apart q p
  swap-Apart p q a = record {
    unique1 = a.unique2;
    unique2 = a.unique1;
    apart = λ k. omega (arith, a.apart k);
  }

-- The keys of a map that only lost entries.
pub retain-Apart :
    {K V : Type 0} ⦃e : Eq K⦄ (f : K → V → Bool) (p q : HashMap K V)
    → Apart p q
    → Apart (retain f p) (retain f q)
retain-Apart f p q a = record {
  unique1 = retain-IsUnique f p a.unique1;
  unique2 = retain-IsUnique f q a.unique2;
  apart = λ k.
      omega (arith, a.apart k, found-retain-le f k p a.unique1, found-retain-le f k q a.unique2);
}

pub drop-Apart :
    {K V : Type 0} ⦃e : Eq K⦄ (i j : ℕ) (p q : HashMap K V)
    → Apart p q
    → Apart (drop i p) (drop j q)
drop-Apart i j p q a = record {
  unique1 = drop-IsUnique i p a.unique1;
  unique2 = drop-IsUnique j q a.unique2;
  apart = λ k. omega (arith, a.apart k, found-drop-le i k p, found-drop-le j k q);
}
