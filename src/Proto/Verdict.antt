-- ===== src/Proto/Verdict.antt =====
-- src/proto.rs: when a server is refused.
use Prim.Native.Nat.{Ordering}
use grpc_bench.Prelude.{
  ◌<◌, ◌≡◌, refl, ◌↔◌, ◌⊎◌, inl, inr, true, false, Option, none, some, ltb, ltb→lt, subst, ap,
  Bool-cases, unwrap_or, arith,
}
use grpc_bench.Text.{Text}
use grpc_bench.Proto.{
  SemVer, ord, minimum_of, below_minimum, is_refusal, drift, check_minimum, check_baseline,
  classify,
}

-- `a` comes before `b` in the order of versions.
abbrev pub IsBefore : SemVer → SemVer → Type 0
IsBefore a b =
    (a.major < b.major)
    ⊎ ((a.major ≡ b.major) × ((a.minor < b.minor) ⊎ ((a.minor ≡ b.minor) × (a.patch < b.patch))))

-- There is a minimum, of the same major version, and the version is below it.
abbrev pub IsBelow : Option SemVer → SemVer → Type 0
IsBelow none target = ⊥
IsBelow (some min) target = (target.major ≡ min.major) × IsBefore target min

abbrev pub IsBelowMinimum : Option Text → SemVer → Type 0
IsBelowMinimum none target = ⊥
IsBelowMinimum (some pkg) target = IsBelow (minimum_of pkg) target

below_minimum_iff :
    (a min : SemVer) → (below_minimum a min ≡ true) ↔ ((a.major ≡ min.major) × IsBefore a min)
unfolding ord
below_minimum_iff a min = ground arith

drift_not_refused : (h s : SemVer) (o : Ordering) → is_refusal (drift h s o) ≡ false
unfolding is_refusal
drift_not_refused h s Ordering.lt = refl
drift_not_refused h s Ordering.eq = refl
drift_not_refused h s Ordering.gt = refl

check_minimum-IsBelow :
    (h s : SemVer) (o : Ordering) (pkg : Text) (target : SemVer) (minimum : Option SemVer)
    → (is_refusal (unwrap_or (check_minimum pkg target minimum) (drift h s o)) ≡ true)
      ↔ IsBelow minimum target
unfolding is_refusal
check_minimum-IsBelow h s o pkg target none =
    (λ refused. absurd (cc (refused, drift_not_refused h s o)), λ below. absurd below)
check_minimum-IsBelow h s o pkg target (some min) =
    let exact = below_minimum_iff target min in
    elim (Bool-cases (below_minimum target min)) [
      | inl below ↦ (λ refused. exact.0 below, λ is_below. rw below refl)
      | inr fine ↦ (
        λ refused. absurd (cc (rw fine at refused, drift_not_refused h s o)),
        λ is_below. absurd (cc (fine, exact.1 is_below)),
      )
    ]

check_baseline-IsBelowMinimum :
    (h s : SemVer) (o : Ordering) (pkg : Option Text) (target : SemVer)
    → (is_refusal (unwrap_or (check_baseline pkg target) (drift h s o)) ≡ true)
      ↔ IsBelowMinimum pkg target
check_baseline-IsBelowMinimum h s o none target =
    (λ refused. absurd (cc (refused, drift_not_refused h s o)), λ below. absurd below)
check_baseline-IsBelowMinimum h s o (some pkg) target =
    check_minimum-IsBelow h s o pkg target (minimum_of pkg)

-- The reason that is left where the major version is not older.
not_older :
    (v w harness : SemVer) (plugin : Option SemVer) (pkg : Option Text)
    → some v ≡ some w
    → ltb v.major harness.major ≡ false
    → (w.major < harness.major) ⊎ IsBelowMinimum pkg (unwrap_or plugin w)
    → IsBelowMinimum pkg (unwrap_or plugin v)
not_older v w harness plugin pkg e recent (inl older) =
    let same : w ≡ v = cc e in absurd (ground (arith, ap (λ x. x.major) same, recent, older))
not_older v w harness plugin pkg e recent (inr below) =
    let same : w ≡ v = cc e in subst (λ x. IsBelowMinimum pkg (unwrap_or plugin x)) same below

-- A server is refused exactly when its proto version parses, and either its major version is older
-- than the harness's, or its plugin has a minimum of the same major version and the plugin version,
-- or the proto version if that is missing, comes before it.
pub refused_exactly :
    (harness : SemVer) (server plugin : Option SemVer) (pkg : Option Text)
    → (is_refusal (classify harness server plugin pkg) ≡ true) ↔ (
        (v : SemVer) × (server ≡ some v)
        × ((v.major < harness.major) ⊎ IsBelowMinimum pkg (unwrap_or plugin v)))
unfolding classify is_refusal
refused_exactly harness none plugin pkg =
    (λ refused. absurd (cc refused), λ (v, e, r). absurd (cc e))
refused_exactly harness (some v) plugin pkg =
    let exact = check_baseline-IsBelowMinimum harness v (ord v harness) pkg (unwrap_or plugin v) in
    elim (Bool-cases (ltb v.major harness.major)) [
      | inl older ↦ (λ refused. (v, refl, inl (ltb→lt _ _ older)), λ reasons. rw older refl)
      | inr recent ↦ (
        λ refused. (v, refl, inr (exact.0 (rw recent at refused))),
        λ (w, e, reason). rw recent (exact.1 (not_older v w harness plugin pkg e recent reason)),
      )
    ]
