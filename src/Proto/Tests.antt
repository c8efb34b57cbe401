-- ===== src/Proto/Tests.antt =====
-- The version theorems at concrete inputs.
use grpc_bench.Prelude.{◌≡◌, refl, ◌↔◌, inl, none, ◌∷◌, ◌++◌, arith}
use grpc_bench.Prelude.Result.{ok}
use grpc_bench.Text.{Text, codes, trim, scan_u32, parse_u32}
use grpc_bench.Proto.{SemVer, display, parse_semver, VersionEnv, parse_version_blob}
use grpc_bench.Proto.Evaluate.{evaluate}
use grpc_bench.Proto.Versions.{parse_semver-display}
use grpc_bench.Proto.Preview.{IsUncut, evaluate_panics}

abbrev harness : SemVer
harness = record { major = 12; minor = 2; patch = 0 }

parse_semver-display_example :
    (parse_semver (display harness ++ codes "-rc.1") ≡ ok harness)
    × (parse_semver (b'v' ∷ display harness ++ codes "-rc.1") ≡ ok harness)
parse_semver-display_example = parse_semver-display harness (codes "-rc.1") (omega arith) (inl refl)

-- A server whose answers are no JSON.
abbrev plain_env : VersionEnv
plain_env = record {
  harness_proto_crate_version = codes "12.2.0";
  harness_client_crate_version = codes "12.2.0";
  nested_blob = λ raw. none;
  flat_blob = λ raw. none;
  debug = λ text. text;
}

harness_parses : parse_semver (codes "12.2.0") ≡ ok harness
unfolding parse_semver parse_u32 scan_u32
harness_parses = refl

-- 76 letters, an `é` and four letters more.
abbrev long_answer : Text
long_answer =
    codes "aaaaaaaaaaaaaaaaaaaaaaaaaaaaaaaaaaaaaaaaaaaaaaaaaaaaaaaaaaaaaaaaaaaaaaaaaaaa"
    ++ 233 ∷ codes "bbbb"

evaluate_panics_example :
    (evaluate plain_env long_answer ≡ none)
    ↔ ((parse_version_blob plain_env long_answer ≡ none) × IsUncut (trim long_answer))
evaluate_panics_example = evaluate_panics plain_env long_answer harness harness_parses
