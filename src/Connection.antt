-- ===== src/Connection.antt =====
-- src/subscribe/yellowstone.rs: the client of an endpoint and the check of its version. The transport
-- is tonic's; the waits for its answers are left out.
pub mod Gate
pub mod Tests
use Prim.Native.String.{String}
use text.Mathlib.Text.{starts_with}
use grpc_bench.Prelude.{
  ℕ, ◌*◌, Bool, true, false, ◌||◌, Option, none, some, List, [], ◌∷◌, ◌++◌, if◌then◌else◌,
}
use grpc_bench.Prelude.Result.{Result, ok, err, ◌>>=◌}
use grpc_bench.Text.{Text, codes, digits}
use grpc_bench.Subscribe.Plan.{EndpointSpec}
use grpc_bench.Proto.{
  VersionEnv, Compatibility, accept, warn, refuse_older_major, refuse_baseline, unknown,
  EndpointVersion, display,
}
use grpc_bench.Proto.Evaluate.{evaluate}

-- In seconds and in bytes.
abbrev pub default_connect_timeout : ℕ
default_connect_timeout = 15

abbrev pub default_max_decode_bytes : ℕ
default_max_decode_bytes = 67108864

-- `x_token.parse()`, `Endpoint::from_shared`, `tls_config` with the native roots, `connect_timeout`
-- and `connect` of tonic, with its errors.
pub record Transport : Type 1 where
  pub Token : Type 0
  pub Endpoint : Type 0
  pub Channel : Type 0
  pub Failure : Type 0
  pub parse_token : String → Result Failure Token
  pub from_shared : String → Result Failure Endpoint
  pub tls_config : Endpoint → Result Failure Endpoint
  pub connect_timeout : Endpoint → ℕ → Endpoint
  pub connect : Endpoint → Result Failure Channel

pub data YellowstoneError (T : Transport) : Type 0 where
  invalid_endpoint invalid_x_token connect_failed : String → T.Failure → YellowstoneError T
  get_version_timed_out : String → YellowstoneError T
  get_version_failed subscribe_open : String → T.Failure → YellowstoneError T
  version_refused : String → Text → YellowstoneError T

pub record Client (T : Transport) : Type 0 where
  pub channel : T.Channel
  pub token : T.Token
  pub max_decoding_message_size : ℕ

-- `map_err`
abbrev pub map_err : {E F A : Type 0} → (E → F) → Result E A → Result F A
map_err f (ok a) = ok a
map_err f (err e) = err (f e)

module _ (T : Transport) where
  -- `if endpoint.tls_forced || url.starts_with("https://")`
  abbrev pub with_tls : EndpointSpec → T.Endpoint → Result (YellowstoneError T) T.Endpoint
  with_tls spec ep =
      if spec.tls_forced || starts_with spec.url "https://"
      then map_err (connect_failed spec.url) (T.tls_config ep)
      else ok ep

  unfoldable pub connect_with_decode_limit :
      EndpointSpec → ℕ → Result (YellowstoneError T) (Client T)
  connect_with_decode_limit spec max_decode_bytes = do
    token ← map_err (invalid_x_token spec.url) (T.parse_token spec.x_token)
    plain ← map_err (invalid_endpoint spec.url) (T.from_shared spec.url)
    ep ← with_tls spec plain
    channel ←
        map_err (connect_failed spec.url) (T.connect (T.connect_timeout ep default_connect_timeout))
    ok (record { channel = channel; token = token; max_decoding_message_size = max_decode_bytes })

  unfoldable pub connect : EndpointSpec → Result (YellowstoneError T) (Client T)
  connect spec = connect_with_decode_limit spec default_max_decode_bytes

  -- What the call of `get_version` comes to.
  pub data Answer : Type 0 where
    timed_out : Answer
    failed : T.Failure → Answer
    answered : Text → Answer

  abbrev pub check_verdict :
      String → EndpointVersion → Compatibility → Result (YellowstoneError T) EndpointVersion
  check_verdict url v (refuse_older_major harness server) = err (
      version_refused url (
        codes "server proto major "
        ++ digits server
        ++ codes " is older than harness major "
        ++ digits harness))
  check_verdict url v (refuse_baseline pkg minimum reported) = err (
      version_refused url (
        codes "server plugin "
        ++ pkg
        ++ codes " reports "
        ++ display reported
        ++ codes " which is below the supported minimum "
        ++ display minimum))
  check_verdict url v _ = ok v

  -- `none` for the panic of `evaluate`.
  unfoldable pub fetch_and_evaluate_version :
      VersionEnv → String → Answer → Option (Result (YellowstoneError T) EndpointVersion)
  fetch_and_evaluate_version env url timed_out = some (err (get_version_timed_out url))
  fetch_and_evaluate_version env url (failed status) = some (err (get_version_failed url status))
  fetch_and_evaluate_version env url (answered version) = elim (evaluate env version) [
    | none ↦ none
    | some v ↦ some (check_verdict url v v.compatibility)
  ]
