-- ===== src/Connection/Gate.antt =====
-- Which servers src/subscribe/yellowstone.rs goes on with, by the versions that they report.
use Prim.Native.String.{String}
use grpc_bench.Prelude.{◌<◌, ◌≡◌, ◌⊎◌, Option, none, some, unwrap_or}
use grpc_bench.Prelude.Result.{Result}
use grpc_bench.Text.{Text}
use grpc_bench.Proto.{SemVer, parse_semver, VersionBlob}
use grpc_bench.Proto.Evaluate.{parsed_of, or_else}
use grpc_bench.Proto.Verdict.{IsBelowMinimum}

-- The version in an optional field, if it parses.
abbrev pub field_version : Option Text → Option SemVer
field_version none = none
field_version (some s) = parsed_of (parse_semver s)

-- The harness is of a newer major version than the server's protocol, or the plugin is below its
-- minimum.
abbrev pub IsTooOld : SemVer → VersionBlob → Type 0
IsTooOld harness blob =
    (v : SemVer) × (field_version (or_else blob.proto blob.version) ≡ some v)
    × ((v.major < harness.major)
        ⊎ IsBelowMinimum blob.package_name (unwrap_or (field_version blob.version) v))
