-- ===== src/Collect/Affinity/Layout.antt =====
-- The two readings of a flat core list in src/collect/mod.rs, and what a subscription gets.
use grpc_bench.Prelude.{
  ℕ, ◌+◌, ◌%◌, ◌<◌, ◌≡◌, refl, ap, true, false, Option, none, some, List, [], ◌∷◌, length, is_empty,
  nat_beq, nat_beq_iff, arith, get_elem?, contains, IsNodup, contains-push, get_elem?-in_range,
  push, inl, inr, Option-cases, Bool-cases, if◌then◌else◌,
}
use native.Mathlib.Nat.{mod-lt, mod-eq_of_lt, add-mod_right}
use grpc_bench.Prelude.Result.{ok}
use grpc_bench.Subscribe.{SubscriptionRole, endpoint}
use grpc_bench.Collect.Affinity.{
  AffinityPlan, AffinitySpec, from_cli, cores_of, core_for_subscription, from_spec, first_duplicate,
  flat_layout, from_flat_vec,
}

-- No element of the list is in the other, and none occurs twice.
abbrev pub IsFresh : List ℕ → List ℕ → Type 0
IsFresh seen [] = Unit {0}
IsFresh seen (c ∷ cs) = (contains seen c ≡ false) × IsFresh (push seen c) cs

pub first_duplicate-none : (seen cs : List ℕ) → first_duplicate seen cs ≡ none → IsFresh seen cs
unfolding first_duplicate
first_duplicate-none seen [] h = tt
first_duplicate-none seen (c ∷ cs) h = ground (arith, first_duplicate-none (push seen c) cs)

pub first_duplicate-IsFresh : (seen cs : List ℕ) → IsFresh seen cs → first_duplicate seen cs ≡ none
unfolding first_duplicate
first_duplicate-IsFresh seen [] f = refl
first_duplicate-IsFresh seen (c ∷ cs) f = rw f.0 (first_duplicate-IsFresh (push seen c) cs f.1)

-- Every element of `seen` is absent from a list that is fresh.
IsFresh-absent :
    (seen cs : List ℕ) (x : ℕ) → contains seen x ≡ true → IsFresh seen cs → contains cs x ≡ false
IsFresh-absent seen [] x here f = refl
IsFresh-absent seen (c ∷ cs) x here f = elim (Bool-cases (nat_beq c x)) [
  | inl same ↦ absurd (
      let e = (nat_beq_iff c x).0 same in
      let gone : contains seen x ≡ false = rw (← e) f.0 in cc (here, gone))
  | inr other ↦
      rw other (IsFresh-absent (push seen c) cs x (rw (contains-push seen c x, here) refl) f.1)
]

pub IsFresh-IsNodup : (seen cs : List ℕ) → IsFresh seen cs → IsNodup cs
IsFresh-IsNodup seen [] f = tt
IsFresh-IsNodup seen (c ∷ cs) f = (
  let me : contains (push seen c) c ≡ true =
        let itself : nat_beq c c ≡ true = ground arith in
        rw (contains-push seen c c, itself) (ground arith) in
      IsFresh-absent (push seen c) cs c me f.1,
  IsFresh-IsNodup (push seen c) cs f.1,
)

-- The converse, for a list apart from `seen`.
pub IsNodup-IsFresh :
    (seen cs : List ℕ)
    → IsNodup cs
    → ((x : ℕ) → contains cs x ≡ true → contains seen x ≡ false)
    → IsFresh seen cs
IsNodup-IsFresh seen [] u apart = tt
IsNodup-IsFresh seen (c ∷ cs) u apart = (
  apart c (let itself : nat_beq c c ≡ true = ground arith in rw itself refl),
  IsNodup-IsFresh (push seen c) cs u.1 (λ x here.
      rw (contains-push seen c x, apart x (rw here (ground arith)))
        (elim (Bool-cases (nat_beq c x)) [
          | inl same ↦ absurd (
              let e = (nat_beq_iff c x).0 same in
              let there : contains cs c ≡ true = rw e here in cc (there, u.0))
          | inr other ↦ other
        ])),
)

flat_layout-from_cli : (cores : List ℕ) → from_spec (flat_layout cores) ≡ from_cli cores
unfolding from_spec from_cli
flat_layout-from_cli [] = refl
flat_layout-from_cli (c ∷ []) = refl
flat_layout-from_cli (a ∷ b ∷ []) = refl
flat_layout-from_cli (a ∷ b ∷ p ∷ []) = refl
flat_layout-from_cli (a ∷ b ∷ p ∷ c ∷ rest) = refl

-- The overlay's core list and the option's are read alike: `from_flat_vec` accepts exactly the
-- lists that name no core twice, and the plan of what it accepts is the one that `from_cli` makes of
-- the same list.
pub flat_agrees :
    (cores : List ℕ)
    → (IsNodup cores
        → (spec : AffinitySpec) × (from_flat_vec cores ≡ ok spec)
          × (from_spec spec ≡ from_cli cores))
      × ((spec : AffinitySpec) → from_flat_vec cores ≡ ok spec → IsNodup cores)
unfolding from_flat_vec
flat_agrees cores = (
  λ u.
      let fresh = first_duplicate-IsFresh [] cores (IsNodup-IsFresh [] cores u (λ x here. refl)) in
      (flat_layout cores, rw (fresh, from_flat_vec) refl, flat_layout-from_cli cores),
  λ spec accepted. elim (Option-cases (first_duplicate [] cores)) [
    | inl fresh ↦ IsFresh-IsNodup [] cores (first_duplicate-none [] cores fresh)
    | inr (c, repeated) ↦ absurd (cc (rw (repeated, from_flat_vec) at accepted))
  ],
)

-- The core of the index `i`, cycling.
abbrev cycle : List ℕ → ℕ → Option ℕ
cycle cores i = if is_empty cores then none else get_elem? cores (i % length cores)

cycle-in_range : (cores : List ℕ) (i : ℕ) → 0 < length cores → (c : ℕ) × (cycle cores i ≡ some c)
cycle-in_range [] i h = absurd (omega (arith, h))
cycle-in_range (c ∷ cs) i h = get_elem?-in_range (c ∷ cs) (i % length (c ∷ cs)) (mod-lt i h)

cycle_first : (cores : List ℕ) (i : ℕ) → i < length cores → cycle cores i ≡ get_elem? cores i
cycle_first [] i h = absurd (omega (arith, h))
cycle_first (c ∷ cs) i h = ap (get_elem? (c ∷ cs)) (mod-eq_of_lt h)

cycle_again : (cores : List ℕ) (i : ℕ) → cycle cores (i + length cores) ≡ cycle cores i
cycle_again [] i = refl
cycle_again (c ∷ cs) i = ap (get_elem? (c ∷ cs)) (add-mod_right i (length (c ∷ cs)))

-- Every subscription of an endpoint that has cores gets one of them, whatever its index, and none
-- when it has no cores; the first ones get the cores in order, and after the last core they begin
-- again.
pub core_for_subscription_cycles :
    (plan : AffinityPlan) (role : SubscriptionRole) (i : ℕ)
    → let cores = cores_of plan (endpoint role) in
      (cores ≡ [] → core_for_subscription plan role i ≡ none)
      × (0 < length cores → (c : ℕ) × (core_for_subscription plan role i ≡ some c))
      × (i < length cores → core_for_subscription plan role i ≡ get_elem? cores i)
      × (core_for_subscription plan role (i + length cores) ≡ core_for_subscription plan role i)
unfolding core_for_subscription
core_for_subscription_cycles plan role i =
    let cores = cores_of plan (endpoint role) in
    (λ e. ap (λ cs. cycle cs i) e, cycle-in_range cores i, cycle_first cores i, cycle_again cores i)
