-- ===== src/Proto/Preview.antt =====
-- src/proto.rs: the version strings on which `evaluate` panics.
use grpc_bench.Prelude.{◌<◌, ◌≡◌, refl, ◌↔◌, inl, inr, none, leb, Option-cases, Bool-cases, arith}
use grpc_bench.Prelude.Result.{ok}
use grpc_bench.Text.{Text, trim, byte_len, slice_to}
use grpc_bench.Text.Bytes.{HasPrefix, slice_to-HasPrefix, slice_to-none}
use grpc_bench.Proto.{SemVer, parse_semver, VersionEnv, parse_version_blob}
use grpc_bench.Proto.Evaluate.{short_preview, evaluate_plain, evaluate}

-- A long text that cannot be cut after 77 bytes.
abbrev pub IsUncut : Text → Type 0
IsUncut s = (80 < byte_len s) × (¬ HasPrefix 77 s)

short_preview-IsUncut :
    (env : VersionEnv) (s : Text) → (short_preview env s ≡ none) ↔ IsUncut (trim s)
unfolding short_preview
short_preview-IsUncut env s = elim (Bool-cases (leb (byte_len (trim s)) 80)) [
  | inl short ↦ (
    λ panics. absurd (cc (rw (short_preview, short) at panics)),
    λ uncut. absurd (ground (arith, short, uncut.0)),
  )
  | inr long ↦ elim (Option-cases (slice_to 77 (trim s))) [
    | inl uncut ↦ (
      λ panics. (ground (arith, long), slice_to-none 77 (trim s) uncut),
      λ _. rw (short_preview, long, uncut) refl,
    )
    | inr (start, cut) ↦ (
      λ panics. absurd (cc (rw (short_preview, long, cut) at panics)),
      λ uncut. absurd (uncut.1 (slice_to-HasPrefix 77 (trim s) start cut)),
    )
  ]
]

evaluate_plain-IsUncut :
    (env : VersionEnv) (h : SemVer) (raw : Text)
    → (evaluate_plain env h raw ≡ none) ↔ IsUncut (trim raw)
unfolding evaluate_plain
evaluate_plain-IsUncut env h raw =
    let exact = short_preview-IsUncut env raw in
    elim (Option-cases (short_preview env raw)) [
      | inl panics ↦ (λ _. exact.0 panics, λ _. rw (evaluate_plain, panics) refl)
      | inr (preview, shown) ↦ (
        λ panics. absurd (cc (rw (evaluate_plain, shown) at panics)),
        λ uncut. absurd (cc (shown, exact.1 uncut)),
      )
    ]

-- `evaluate` panics exactly on the answers that are not JSON, are longer than 80 bytes once trimmed,
-- and have a character across byte 77 of what is left, if the harness's own version parses.
pub evaluate_panics :
    (env : VersionEnv) (raw : Text) (harness : SemVer)
    → parse_semver env.harness_proto_crate_version ≡ ok harness
    → (evaluate env raw ≡ none) ↔ ((parse_version_blob env raw ≡ none) × IsUncut (trim raw))
unfolding evaluate
evaluate_panics env raw harness own =
    let exact = evaluate_plain-IsUncut env harness raw in
    elim (Option-cases (parse_version_blob env raw)) [
      | inl plain ↦ (
        λ panics. (plain, exact.0 (rw (evaluate, own, plain) at panics)),
        λ uncut. rw (evaluate, own, plain) (exact.1 uncut.1),
      )
      | inr (blob, json) ↦ (
        λ panics. absurd (cc (rw (evaluate, own, json) at panics)),
        λ uncut. absurd (cc (json, uncut.0)),
      )
    ]
