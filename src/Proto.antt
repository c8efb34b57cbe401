-- ===== src/Proto.antt =====
-- src/proto.rs: the version that a server reports and the verdict on it. The version of the harness
-- is set when it is built, the JSON reader is serde's, and the quoting of `{:?}` is a parameter.
pub mod Evaluate
pub mod Versions
pub mod Verdict
pub mod Preview
pub mod Tests
use Prim.Native.Nat.{compare, Ordering}
use grpc_bench.Prelude.{
  ℕ, ◌+◌, Bool, true, false, ◌&&◌, ◌||◌, Option, none, some, List, [], ◌∷◌, ◌++◌, ltb, leb, nat_beq,
  is_some, push, unwrap_or, if◌then◌else◌,
}
use grpc_bench.Prelude.Result.{Result, ok, err, ◌>>=◌, ok_or}
use grpc_bench.Text.{
  Text, codes, trim, trim_matches, text_beq, strip_prefix, split_once, until, parse_u32, digits,
  byte_len, slice_to,
}

pub record SemVer : Type 0 where
  pub major : ℕ
  pub minor : ℕ
  pub patch : ℕ

abbrev pub min_yellowstone_geyser : SemVer
min_yellowstone_geyser = record { major = 12; minor = 2; patch = 0 }

abbrev pub min_richat : SemVer
min_richat = record { major = 2; minor = 1; patch = 0 }

-- `Ordering::then`
abbrev pub then_cmp : Ordering → Ordering → Ordering
then_cmp Ordering.lt o = Ordering.lt
then_cmp Ordering.eq o = o
then_cmp Ordering.gt o = Ordering.gt

-- `SemVer::ord`: the tuples are compared from the left.
unfoldable pub ord : SemVer → SemVer → Ordering
ord v w =
    then_cmp (compare v.major w.major)
      (then_cmp (compare v.minor w.minor) (compare v.patch w.patch))

-- `SemVer::fmt`
unfoldable pub display : SemVer → Text
display v = digits v.major ++ b'.' ∷ (digits v.minor ++ b'.' ∷ digits v.patch)

pub data SemVerParseError : Type 0 where
  shape : Text → SemVerParseError
  component : Text → Text → SemVerParseError

-- `s.strip_prefix('v').unwrap_or(s)`
abbrev strip_v : Text → Text
strip_v s = unwrap_or (strip_prefix (b'v' ∷ []) s) s

-- `patch_rest` up to the build metadata and then up to the pre-release tag.
abbrev pub patch_str : Text → Text
patch_str patch_rest = until b'-' (until b'+' patch_rest)

-- `splitn(3, '.')` of the version: the parts before the first and the second dot, and the rest.
unfoldable pub parse_semver : Text → Result SemVerParseError SemVer
parse_semver raw = do
  first ← ok_or (split_once b'.' (strip_v (trim raw))) (shape raw)
  second ← ok_or (split_once b'.' first.1) (shape raw)
  major ← ok_or (parse_u32 first.0) (component raw first.0)
  minor ← ok_or (parse_u32 second.0) (component raw second.0)
  patch ← ok_or (parse_u32 (patch_str second.1)) (component raw (patch_str second.1))
  ok (record { major = major; minor = minor; patch = patch })

pub record VersionBlob : Type 0 where
  pub package_name : Option Text
  pub version : Option Text
  pub proto : Option Text
  pub solana : Option Text

-- What comes from outside: `GRPC_BENCH_YELLOWSTONE_PROTO_VER` and its sibling, `serde_json::from_str`
-- at the two shapes, and the quoting of `{:?}`.
pub record VersionEnv : Type 0 where
  pub harness_proto_crate_version : Text
  pub harness_client_crate_version : Text
  pub nested_blob : Text → Option VersionBlob
  pub flat_blob : Text → Option VersionBlob
  pub debug : Text → Text

abbrev pub is_populated : VersionBlob → Bool
is_populated b = is_some b.package_name || is_some b.version || is_some b.proto || is_some b.solana

abbrev nested_or : Option VersionBlob → Option VersionBlob → Option VersionBlob
nested_or none flat = flat
nested_or (some inner) flat = if is_populated inner then some inner else flat

abbrev pub parse_version_blob : VersionEnv → Text → Option VersionBlob
parse_version_blob env raw = nested_or (env.nested_blob raw) (env.flat_blob raw)

pub data Compatibility : Type 0 where
  accept : Compatibility
  warn : Text → Compatibility
  refuse_older_major : ℕ → ℕ → Compatibility
  refuse_baseline : Text → SemVer → SemVer → Compatibility
  unknown : Text → Compatibility

unfoldable pub is_refusal : Compatibility → Bool
is_refusal (refuse_older_major harness server) = true
is_refusal (refuse_baseline pkg minimum reported) = true
is_refusal _ = false

pub record EndpointVersion : Type 0 where
  pub package_name : Option Text
  pub plugin_version : Option Text
  pub proto_version : Option Text
  pub solana_version : Option Text
  pub compatibility : Compatibility
  pub raw : Text
  pub warnings : List Text

-- The `match pkg` of `classify`.
abbrev pub minimum_of : Text → Option SemVer
minimum_of pkg =
    if text_beq pkg (codes "yellowstone-grpc-geyser")
    then some min_yellowstone_geyser
    else if text_beq pkg (codes "richat")
    then some min_richat
    else none

abbrev is_less : Ordering → Bool
is_less Ordering.lt = true
is_less _ = false

-- The test against a baseline.
abbrev pub below_minimum : SemVer → SemVer → Bool
below_minimum reported min = nat_beq reported.major min.major && is_less (ord reported min)

abbrev older_text : SemVer → SemVer → Text
older_text server harness =
    codes "server proto "
    ++ display server
    ++ codes " is older than harness build "
    ++ display harness
    ++ codes " within the same major; continuing because protobuf is "
    ++ codes "forward-compatible for added fields, but flag the version drift"

abbrev newer_text : SemVer → SemVer → Text
newer_text server harness =
    codes "server proto "
    ++ display server
    ++ codes " is newer than harness build "
    ++ display harness
    ++ codes "; continuing because protobuf is backward-compatible for known fields"

-- The last `match` of `classify`.
abbrev pub drift : SemVer → SemVer → Ordering → Compatibility
drift harness server Ordering.eq = accept
drift harness server Ordering.lt = warn (older_text server harness)
drift harness server Ordering.gt = warn (newer_text server harness)

-- `if let Some(min) = minimum`
abbrev pub check_minimum : Text → SemVer → Option SemVer → Option Compatibility
check_minimum pkg target none = none
check_minimum pkg target (some min) =
    if below_minimum target min then some (refuse_baseline pkg min target) else none

-- `if let Some(pkg) = package`
abbrev pub check_baseline : Option Text → SemVer → Option Compatibility
check_baseline none target = none
check_baseline (some pkg) target = check_minimum pkg target (minimum_of pkg)

unfoldable pub classify : SemVer → Option SemVer → Option SemVer → Option Text → Compatibility
classify harness none server_plugin pkg =
    unknown (codes "server did not report a parseable proto version")
classify harness (some server) server_plugin pkg =
    if ltb server.major harness.major
    then refuse_older_major harness.major server.major
    else unwrap_or (check_baseline pkg (unwrap_or server_plugin server))
        (drift harness server (ord server harness))
