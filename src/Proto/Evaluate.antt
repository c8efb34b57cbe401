-- ===== src/Proto/Evaluate.antt =====
-- src/proto.rs: `evaluate`, and the metadata of the endpoints of a run.
use Prim.Native.Nat.{compare, Ordering}
use grpc_bench.Prelude.{
  Bool, true, false, Option, none, some, List, [], ◌∷◌, ◌++◌, leb, nat_beq, push, unwrap_or,
  if◌then◌else◌,
}
use grpc_bench.Prelude.Result.{Result, ok, err}
use grpc_bench.Text.{Text, codes, trim, trim_matches, text_beq, byte_len, slice_to}
use grpc_bench.Proto.{
  SemVer, SemVerParseError, shape, component, parse_semver, VersionBlob, VersionEnv,
  parse_version_blob, Compatibility, warn, unknown, EndpointVersion, classify,
}

-- `Vec::sort` of strings, which compare by their bytes, and so by their code points.
abbrev pub text_le : Text → Text → Bool
text_le [] t = true
text_le (c ∷ cs) [] = false
text_le (c ∷ cs) (d ∷ ds) = elim (compare c d) [
  | Ordering.lt ↦ true
  | Ordering.eq ↦ text_le cs ds
  | Ordering.gt ↦ false
]

abbrev pub insert_sorted : Text → List Text → List Text
insert_sorted t [] = t ∷ []
insert_sorted t (u ∷ us) =
    let rest = insert_sorted t us in if text_le t u then t ∷ u ∷ us else u ∷ rest

abbrev pub sort : List Text → List Text
sort [] = []
sort (t ∷ ts) = insert_sorted t (sort ts)

-- `Vec::dedup`: a text equal to the one before it goes.
abbrev pub dedup_after : Text → List Text → List Text
dedup_after last [] = []
dedup_after last (t ∷ ts) =
    let kept = dedup_after t ts in
    let dropped = dedup_after last ts in if text_beq last t then dropped else t ∷ kept

abbrev pub dedup : List Text → List Text
dedup [] = []
dedup (t ∷ ts) = t ∷ dedup_after t ts

unfoldable pub assemble : EndpointVersion → EndpointVersion
assemble v = record v { warnings = dedup (sort v.warnings) }

-- The text of a `SemVerParseError`.
abbrev pub error_text : VersionEnv → SemVerParseError → Text
error_text env (shape input) = codes "expected MAJOR.MINOR.PATCH triple, got " ++ env.debug input
error_text env (component input part) =
    codes "non-numeric semver component in " ++ env.debug input ++ codes ": " ++ env.debug part

-- `short_preview`: `none` where it panics.
unfoldable pub short_preview : VersionEnv → Text → Option Text
short_preview env s =
    let trimmed = trim s in
    if leb (byte_len trimmed) 80 then some (env.debug trimmed) else elim (slice_to 77 trimmed) [
      | none ↦ none
      | some start ↦ some (env.debug start ++ codes "...")
    ]

abbrev pub parsed_of : Result SemVerParseError SemVer → Option SemVer
parsed_of (ok v) = some v
parsed_of (err e) = none

abbrev pub warn_error :
    VersionEnv → Text → List Text → Result SemVerParseError SemVer → Option SemVer × List Text
warn_error env message warnings (ok v) = (some v, warnings)
warn_error env message warnings (err e) = (none, push warnings (message ++ error_text env e))

-- The version of an optional field, and the warning if it does not parse.
abbrev pub parse_or_warn : VersionEnv → Text → Option Text → List Text → Option SemVer × List Text
parse_or_warn env message none warnings = (none, warnings)
parse_or_warn env message (some s) warnings = warn_error env message warnings (parse_semver s)

abbrev pub or_else : Option Text → Option Text → Option Text
or_else none b = b
or_else (some a) b = some a

abbrev pub warn_missing : Option Text → List Text → List Text
warn_missing none warnings =
    push warnings (codes "server GetVersion did not include `package`; baseline check skipped")
warn_missing (some pkg) warnings = warnings

abbrev pub warn_drift : Compatibility → List Text → List Text
warn_drift (warn reason) warnings = push warnings reason
warn_drift _ warnings = warnings

-- The server's answer is JSON.
unfoldable pub evaluate_blob : VersionEnv → SemVer → Text → VersionBlob → EndpointVersion
evaluate_blob env harness raw blob =
    let server_text = or_else blob.proto blob.version in
    let (server, w1) =
      parse_or_warn env (codes "could not parse server proto version: ") server_text
        (warn_missing blob.package_name []) in
    let (plugin, w2) =
      parse_or_warn env (codes "could not parse server plugin version: ") blob.version w1 in
    let compatibility = classify harness server plugin blob.package_name in
    assemble (record {
      package_name = blob.package_name;
      plugin_version = blob.version;
      proto_version = or_else blob.proto server_text;
      solana_version = blob.solana;
      compatibility = compatibility;
      raw = raw;
      warnings = warn_drift compatibility w2;
    })

-- It is not: the text, without the quotes around it, is the version.
unfoldable pub evaluate_plain : VersionEnv → SemVer → Text → Option EndpointVersion
evaluate_plain env harness raw = elim (short_preview env raw) [
  | none ↦ none
  | some preview ↦
      let plain = trim_matches (λ c. nat_beq c b'"') (trim raw) in
      some (
        assemble (record {
          package_name = none;
          plugin_version = some plain;
          proto_version = some plain;
          solana_version = none;
          compatibility = classify harness (parsed_of (parse_semver plain)) none none;
          raw = raw;
          warnings =
              (codes "server version string is not JSON ("
                ++ preview
                ++ codes "); treating as plain version label")
              ∷ [];
        }))
]

-- The harness's own version does not parse.
abbrev pub unknown_harness : VersionEnv → Text → SemVerParseError → EndpointVersion
unknown_harness env raw e = record {
  package_name = none;
  plugin_version = none;
  proto_version = none;
  solana_version = none;
  compatibility = unknown (codes "failed to parse harness's own proto crate version");
  raw = raw;
  warnings =
      (codes "internal: failed to parse harness proto version "
        ++ env.debug env.harness_proto_crate_version
        ++ codes ": "
        ++ error_text env e)
      ∷ [];
}

-- `none` where it panics.
unfoldable pub evaluate : VersionEnv → Text → Option EndpointVersion
evaluate env raw = elim (parse_semver env.harness_proto_crate_version) [
  | err e ↦ some (unknown_harness env raw e)
  | ok harness ↦ elim (parse_version_blob env raw) [
    | none ↦ evaluate_plain env harness raw
    | some blob ↦ some (evaluate_blob env harness raw blob)
  ]
]

pub record ProtoMetadata : Type 0 where
  pub yellowstone_proto_crate_version : Text
  pub yellowstone_grpc_client_crate_version : Text
  pub endpoint1_server_plugin_version : Text
  pub endpoint2_server_plugin_version : Text
  pub compatibility_warnings : List Text

-- `format!("{label}: {w}")` for each warning.
abbrev pub labelled : Text → List Text → List Text
labelled label [] = []
labelled label (w ∷ ws) = (label ++ codes ": " ++ w) ∷ labelled label ws

abbrev pub version_or_unknown : EndpointVersion → Text
version_or_unknown v = unwrap_or v.plugin_version (codes "unknown")

unfoldable pub from_endpoints : VersionEnv → EndpointVersion → EndpointVersion → ProtoMetadata
from_endpoints env v1 v2 = record {
  yellowstone_proto_crate_version = env.harness_proto_crate_version;
  yellowstone_grpc_client_crate_version = env.harness_client_crate_version;
  endpoint1_server_plugin_version = version_or_unknown v1;
  endpoint2_server_plugin_version = version_or_unknown v2;
  compatibility_warnings =
      labelled (codes "endpoint1") v1.warnings ++ labelled (codes "endpoint2") v2.warnings;
}

unfoldable pub from_single_endpoint : VersionEnv → EndpointVersion → ProtoMetadata
from_single_endpoint env v1 = record {
  yellowstone_proto_crate_version = env.harness_proto_crate_version;
  yellowstone_grpc_client_crate_version = env.harness_client_crate_version;
  endpoint1_server_plugin_version = version_or_unknown v1;
  endpoint2_server_plugin_version = codes "n/a (--solo)";
  compatibility_warnings = labelled (codes "endpoint1") v1.warnings;
}
