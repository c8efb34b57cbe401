-- ===== src/Prelude/Eq.antt =====
-- `Eq` of the key types: a Boolean test that decides equality.
use Prim.Native.Nat.{ℕ}
use Prim.Native.String.{String}
use text.Mathlib.TextEquality.{eq_iff as string_test_iff}
use text.Mathlib.Text.{◌==◌ as string_test}
use mathlib.Core.Path.{◌≡◌, refl}
use mathlib.Core.Logic.{◌↔◌}
use mathlib.Core.Bool.{Bool, true, false, ◌&&◌}
use mathlib.Core.Option.{Option, none, some}
use mathlib.Core.List.{List, [], ◌∷◌}
use native.Mathlib.Omega.{arith}
use grpc_bench.Prelude.Tests.{nat_beq, nat_beq_iff}

-- The operator `==` of a key type, with its law.
pub record Eq {ℓ} (K : Type ℓ) : Type ℓ where
  pub test : K → K → Bool
  pub decides : (j k : K) → (test j k ≡ true) ↔ (j ≡ k)

infix 50 ◌==◌
abbrev pub ◌==◌ {ℓ} : {K : Type ℓ} ⦃e : Eq K⦄ → K → K → Bool
◌==◌ ⦃e⦄ j k = e.test j k

module _ {ℓ} {A : Type ℓ} ⦃e : Eq A⦄ where
  pub beq_refl : (a : A) → (a == a) ≡ true
  beq_refl a = (e.decides a a).1 refl

  abbrev option_beq : Option A → Option A → Bool
  option_beq none none = true
  option_beq (some a) (some b) = a == b
  option_beq _ _ = false

  pub option_beq_iff : (a b : Option A) → (option_beq a b ≡ true) ↔ (a ≡ b)
  option_beq_iff none none = ground arith
  option_beq_iff none (some b) = ground arith
  option_beq_iff (some a) none = ground arith
  option_beq_iff (some a) (some b) = ground (arith, e.decides a b)

  instance abbrev pub option_eq : Eq (Option A)
  option_eq = record { test = option_beq; decides = option_beq_iff }

  abbrev list_beq : List A → List A → Bool
  list_beq [] [] = true
  list_beq (x ∷ xs) (y ∷ ys) = x == y && list_beq xs ys
  list_beq _ _ = false

  pub list_beq_iff : (a b : List A) → (list_beq a b ≡ true) ↔ (a ≡ b)
  list_beq_iff [] [] = ground arith
  list_beq_iff [] (y ∷ ys) = ground arith
  list_beq_iff (x ∷ xs) [] = ground arith
  list_beq_iff (x ∷ xs) (y ∷ ys) = ground (arith, e.decides x y, list_beq_iff xs ys)

  instance abbrev pub list_eq : Eq (List A)
  list_eq = record { test = list_beq; decides = list_beq_iff }

-- Tuples, which Rust compares field by field.
module _ {ℓ κ} {A : Type ℓ} {B : Type κ} ⦃e : Eq A⦄ ⦃f : Eq B⦄ where
  abbrev pair_beq : A × B → A × B → Bool
  pair_beq x y = x.0 == y.0 && x.1 == y.1

  pub pair_beq_iff : (x y : A × B) → (pair_beq x y ≡ true) ↔ (x ≡ y)
  pair_beq_iff (a, b) (a', b') = ground (arith, e.decides a a', f.decides b b')

  instance abbrev pub pair_eq : Eq (A × B)
  pair_eq = record { test = pair_beq; decides = pair_beq_iff }

module _ {A B C : Type 0} ⦃e : Eq A⦄ ⦃f : Eq B⦄ ⦃g : Eq C⦄ where
  abbrev triple_beq : A × B × C → A × B × C → Bool
  triple_beq x y = x.0 == y.0 && x.1 == y.1 && x.2 == y.2

  pub triple_beq_iff : (x y : A × B × C) → (triple_beq x y ≡ true) ↔ (x ≡ y)
  triple_beq_iff (a, b, c) (a', b', c') =
      ground (arith, e.decides a a', f.decides b b', g.decides c c')

  instance abbrev pub triple_eq : Eq (A × B × C)
  triple_eq = record { test = triple_beq; decides = triple_beq_iff }

module _ {A B C D : Type 0} ⦃e : Eq A⦄ ⦃f : Eq B⦄ ⦃g : Eq C⦄ ⦃h : Eq D⦄ where
  abbrev quadruple_beq : A × B × C × D → A × B × C × D → Bool
  quadruple_beq x y = x.0 == y.0 && x.1 == y.1 && x.2 == y.2 && x.3 == y.3

  pub quadruple_beq_iff : (x y : A × B × C × D) → (quadruple_beq x y ≡ true) ↔ (x ≡ y)
  quadruple_beq_iff (a, b, c, d) (a', b', c', d') =
      ground (arith, e.decides a a', f.decides b b', g.decides c c', h.decides d d')

  instance abbrev pub quadruple_eq : Eq (A × B × C × D)
  quadruple_eq = record { test = quadruple_beq; decides = quadruple_beq_iff }

-- The primitive keys.
instance abbrev pub string_eq : Eq String
string_eq = record { decides = string_test_iff; test = string_test }

instance abbrev pub nat_eq : Eq ℕ
nat_eq = record { decides = nat_beq_iff; test = nat_beq }
