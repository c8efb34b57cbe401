-- ===== src/Collect/Affinity/Cores.antt =====
-- Which cores the affinity of src/collect/mod.rs uses.
use grpc_bench.Prelude.{
  ℕ, ◌≡◌, Bool, false, Option, none, some, List, [], ◌∷◌, nat_beq, nat_beq_iff, ◌||◌, arith,
  contains, IsNodup, contains-push, IsNodup-push, inl, inr, Bool-cases,
}
use grpc_bench.Collect.Affinity.{AffinitySpec, push_new, push_all_new, push_some_new, all_cores}

-- `Option::contains`
abbrev pub holds : Option ℕ → ℕ → Bool
holds none c = false
holds (some x) c = nat_beq x c

push_new-IsNodup : (out : List ℕ) (c : ℕ) → IsNodup out → IsNodup (push_new out c)
push_new-IsNodup out c u = ground (arith, IsNodup-push out c)

contains-push_new :
    (out : List ℕ) (x c : ℕ) → contains (push_new out x) c ≡ contains out c || nat_beq x c
contains-push_new out x c = elim (Bool-cases (contains out x)) [
  | inl here ↦ elim (Bool-cases (nat_beq x c)) [
    | inl same ↦ let e = (nat_beq_iff x c).0 same in rw (here, same, ← e, here) (ground arith)
    | inr other ↦ rw (here, other) (ground arith)
  ]
  | inr fresh ↦ rw fresh (contains-push out x c)
]

push_all_new-IsNodup : (out cs : List ℕ) → IsNodup out → IsNodup (push_all_new out cs)
push_all_new-IsNodup out [] u = u
push_all_new-IsNodup out (c ∷ cs) u =
    push_all_new-IsNodup (push_new out c) cs (push_new-IsNodup out c u)

contains-push_all_new :
    (out cs : List ℕ) (c : ℕ) → contains (push_all_new out cs) c ≡ contains out c || contains cs c
contains-push_all_new out [] c = ground arith
contains-push_all_new out (x ∷ cs) c =
    ground (arith, contains-push_all_new (push_new out x) cs c, contains-push_new out x c)

push_some_new-IsNodup : (out : List ℕ) (o : Option ℕ) → IsNodup out → IsNodup (push_some_new out o)
push_some_new-IsNodup out none u = u
push_some_new-IsNodup out (some c) u = push_new-IsNodup out c u

contains-push_some_new :
    (out : List ℕ) (o : Option ℕ) (c : ℕ)
    → contains (push_some_new out o) c ≡ contains out c || holds o c
contains-push_some_new out none c = ground arith
contains-push_some_new out (some x) c = contains-push_new out x c

-- `all_cores` lists every core that the affinity names, in whichever role, and no other, each once.
pub all_cores_exact :
    (spec : AffinitySpec)
    → IsNodup (all_cores spec)
      × ((c : ℕ)
          → contains (all_cores spec) c ≡ (
              contains spec.endpoint1 c
              || contains spec.endpoint2 c
              || holds spec.processor c
              || holds spec.control c))
unfolding all_cores
all_cores_exact spec =
    let l1 = push_all_new [] spec.endpoint1 in
    let l2 = push_all_new l1 spec.endpoint2 in
    let l3 = push_some_new l2 spec.processor in
    (
      push_some_new-IsNodup l3 spec.control (
          push_some_new-IsNodup l2 spec.processor
            (push_all_new-IsNodup l1 spec.endpoint2 (push_all_new-IsNodup [] spec.endpoint1 tt))),
      λ c. ground (
        arith,
        contains-push_some_new l3 spec.control c,
        contains-push_some_new l2 spec.processor c,
        contains-push_all_new l1 spec.endpoint2 c,
        contains-push_all_new [] spec.endpoint1 c,
      ),
    )
