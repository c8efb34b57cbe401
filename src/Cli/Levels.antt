-- ===== src/Cli/Levels.antt =====
-- src/config.rs: the test of the `--commitment` levels.
use grpc_bench.Prelude.{
  ◌≡◌, ◌≢◌, ◌↔◌, refl, inl, inr, false, ◌||◌, List, [], ◌∷◌, All, push, Bool-cases, arith,
}
use grpc_bench.Prelude.Result.{ok}
use grpc_bench.Config.{Commitment, commitment_beq, commitment_beq_iff}
use grpc_bench.Cli.Validation.{has_commitment, check_commitments, validate_commitments}

-- No level stands twice.
abbrev pub Once : List Commitment → Type 0
Once [] = Unit
Once (c ∷ cs) = All (λ d. c ≢ d) cs × Once cs

-- None of the levels is one of `before`.
abbrev NotIn : List Commitment → List Commitment → Type 0
NotIn before cs = All (λ d. has_commitment before d ≡ false) cs

has_commitment-push :
    (before : List Commitment) (c d : Commitment)
    → has_commitment (push before c) d ≡ has_commitment before d || commitment_beq c d
has_commitment-push [] c d = ground arith
has_commitment-push (x ∷ xs) c d = ground (arith, has_commitment-push xs c d)

beq-false : (c d : Commitment) → (commitment_beq c d ≡ false) ↔ (c ≢ d)
beq-false c d = ground (arith, commitment_beq_iff c d)

NotIn-push :
    (before cs : List Commitment) (c : Commitment)
    → NotIn (push before c) cs ↔ (NotIn before cs × All (λ d. c ≢ d) cs)
NotIn-push before [] c = (λ h. (tt, tt), λ h. tt)
NotIn-push before (d ∷ ds) c =
    let rest = NotIn-push before ds c in
    let here = has_commitment-push before c d in
    let differ = beq-false c d in
    (
      λ h.
          let (l, r) = rest.0 h.1 in
          ((ground (arith, here, h.0), l), (differ.0 (ground (arith, here, h.0)), r)),
      λ h.
          let other = differ.1 h.1.0 in (ground (arith, here, h.0.0, other), rest.1 (h.0.1, h.1.1)),
    )

check_commitments_iff :
    (before cs : List Commitment)
    → (check_commitments before cs ≡ ok tt) ↔ (NotIn before cs × Once cs)
unfolding check_commitments
check_commitments_iff before [] = (λ h. (tt, tt), λ h. refl)
check_commitments_iff before (c ∷ cs) =
    let rest = check_commitments_iff (push before c) cs in
    let shift = NotIn-push before cs c in
    elim (Bool-cases (has_commitment before c)) [
      | inl seen ↦
          (λ h. absurd (cc (rw (check_commitments, seen) at h)), λ h. absurd (cc (seen, h.0.0)))
      | inr fresh ↦ (
        λ h.
            let (apart, once) = rest.0 (rw (check_commitments, fresh) at h) in
            let (l, r) = shift.0 apart in ((fresh, l), (r, once)),
        λ h. rw (check_commitments, fresh) (rest.1 (shift.1 (h.0.1, h.1.0), h.1.1)),
      )
    ]

NotIn-none : (cs : List Commitment) → NotIn [] cs
NotIn-none [] = tt
NotIn-none (c ∷ cs) = (refl, NotIn-none cs)

-- The levels are accepted exactly when there is one and none stands twice.
pub validate_commitments_iff :
    (cs : List Commitment) → (validate_commitments cs ≡ ok tt) ↔ ((cs ≢ []) × Once cs)
validate_commitments_iff [] = (λ h. absurd (cc), λ h. absurd (h.0 refl))
validate_commitments_iff (c ∷ cs) =
    let loop = check_commitments_iff [] (c ∷ cs) in
    (λ h. (λ e. cc, (loop.0 h).1), λ h. loop.1 (NotIn-none (c ∷ cs), h.1))
