-- ===== src/Cli/Validation.antt =====
-- src/config.rs: the validation of the options and the overlay (`Config::from_cli`).
use Prim.Native.String.{String}
use grpc_bench.Prelude.{
  ℕ, max, Bool, false, ◌||◌, Option, none, some, List, [], ◌∷◌, push, is_empty, unwrap_or,
  if◌then◌else◌,
}
use grpc_bench.Prelude.Result.{Result, ok, err, ◌>>=◌}
use grpc_bench.Text.{Text, codes, text_beq}
use grpc_bench.Config.{Commitment, processed, confirmed, finalized, commitment_beq}
use grpc_bench.Subscribe.Plan.{EndpointSpec, PlanConfig}
use grpc_bench.Run.{StopCondition, stop_slots, stop_duration, stop_either}
use grpc_bench.Collect.Affinity.{AffinitySpec, AffinityParseError, default_spec, from_flat_vec}
use grpc_bench.Collect.Affinity.Parse.{parse}
use grpc_bench.Cli.{
  Cli, Config, TomlOverlay, ConfigError, no_overlay, no_stop_condition, endpoint2_missing,
  empty_commitment, entries_token_mismatch, entries_endpoint_mismatch, cpu_affinity_parse,
  duplicate_commitment, toml_read, toml_parse,
}

-- `format!("{c:?}").to_lowercase()`
abbrev pub commitment_text : Commitment → Text
commitment_text processed = codes "processed"
commitment_text confirmed = codes "confirmed"
commitment_text finalized = codes "finalized"

-- `match (cli.slots, cli.duration)`
abbrev pub stop_of : Option ℕ → Option ℕ → Result ConfigError StopCondition
stop_of none none = err no_stop_condition
stop_of (some s) none = ok (stop_slots s)
stop_of none (some d) = ok (stop_duration d)
stop_of (some s) (some d) = ok (stop_either s d)

abbrev pub validate_entries_pair : ℕ → Option String → Option String → Result ConfigError (Unit {0})
validate_entries_pair which (some e) none = err (entries_token_mismatch which)
validate_entries_pair which none (some t) = err (entries_endpoint_mismatch which)
validate_entries_pair which none none = ok tt
validate_entries_pair which (some e) (some t) = ok tt

abbrev pub has_commitment : List Commitment → Commitment → Bool
has_commitment [] c = false
has_commitment (x ∷ xs) c = commitment_beq x c || has_commitment xs c

-- The loop that looks for a level repeating one of `before`.
unfoldable pub check_commitments : List Commitment → List Commitment → Result ConfigError (Unit {0})
check_commitments before [] = ok tt
check_commitments before (c ∷ cs) =
    let rest = check_commitments (push before c) cs in
    if has_commitment before c then err (duplicate_commitment (commitment_text c)) else rest

abbrev pub validate_commitments : List Commitment → Result ConfigError (Unit {0})
validate_commitments cs = if is_empty cs then err empty_commitment else check_commitments [] cs

-- `?` on an error of the affinity, by `From`.
abbrev pub affinity_error : Result AffinityParseError AffinitySpec → Result ConfigError AffinitySpec
affinity_error (ok spec) = ok spec
affinity_error (err e) = err (cpu_affinity_parse e)

-- The option, else the overlay's list, else no pin.
abbrev pub affinity_of :
    Option ℕ → Option Text → Option (List ℕ) → Result AffinityParseError AffinitySpec
affinity_of nproc (some raw) overlay = parse nproc raw
affinity_of nproc none (some cores) = from_flat_vec cores
affinity_of nproc none none = ok default_spec

-- `if cli.realtime { cpu_affinity.processor.take() }`
abbrev pub drop_processor : Bool → AffinitySpec → AffinitySpec
drop_processor realtime spec = if realtime then record spec { processor = none } else spec

-- `Option::or`
abbrev pub or_option : {A : Type 0} → Option A → Option A → Option A
or_option none b = b
or_option (some a) b = some a

abbrev pub log_level_of : Text → Option Text → Text
log_level_of level overlay =
    if text_beq level (codes "info") then unwrap_or overlay level else level

abbrev pub build_optional_endpoint : Option String → Option String → Bool → Option EndpointSpec
build_optional_endpoint (some u) (some token) tls =
    some (record { url = u; x_token = token; tls_forced = tls })
build_optional_endpoint _ _ tls = none

-- `match (cli.endpoint2, cli.x_token2)`
abbrev pub required_endpoint2 : Option EndpointSpec → Result ConfigError (Option EndpointSpec)
required_endpoint2 none = err endpoint2_missing
required_endpoint2 (some e) = ok (some e)

abbrev pub endpoint2_of : Cli → Result ConfigError (Option EndpointSpec)
endpoint2_of cli =
    if cli.solo
    then ok none
    else required_endpoint2 (build_optional_endpoint cli.endpoint2 cli.x_token2 cli.endpoint2_tls)

-- `Ok(Self { … })`
abbrev pub build_config :
    Cli → TomlOverlay → StopCondition → AffinitySpec → Option EndpointSpec → Config
build_config cli overlay stop spec endpoint2 = record {
  endpoint1 = record {
    url = cli.endpoint1;
    x_token = cli.x_token1;
    tls_forced = cli.endpoint1_tls;
  };
  endpoint2 = endpoint2;
  entries_endpoint1 =
      build_optional_endpoint cli.entries_endpoint1 cli.entries_x_token1 cli.entries_endpoint1_tls;
  entries_endpoint2 =
      build_optional_endpoint cli.entries_endpoint2 cli.entries_x_token2 cli.entries_endpoint2_tls;
  programs_path = cli.programs;
  stop = stop;
  commitments = cli.commitment;
  with_blocks = cli.with_blocks;
  with_transactions = cli.with_transactions;
  strict_account_key = cli.strict_account_key;
  accounts_programs_per_filter = max cli.accounts_programs_per_filter 1;
  reconnect_test_secs = cli.reconnect_test;
  output = cli.output;
  raw_records = or_option cli.raw_records overlay.raw_records;
  cpu_affinity = drop_processor cli.realtime spec;
  realtime = cli.realtime;
  allocator = cli.allocator;
  log_level = log_level_of cli.log_level overlay.log_level;
  solo = cli.solo;
  solo_streams = cli.solo_streams;
  max_decode_mb = cli.max_decode_mb;
  ring_capacity = cli.ring_capacity;
}

-- `Config::from_cli_and_overlay`, on a host with `nproc` cores.
unfoldable pub from_cli_and_overlay : Option ℕ → Cli → TomlOverlay → Result ConfigError Config
from_cli_and_overlay nproc cli overlay = do
  stop ← stop_of cli.slots cli.duration
  pair1 ← validate_entries_pair 1 cli.entries_endpoint1 cli.entries_x_token1
  pair2 ← validate_entries_pair 2 cli.entries_endpoint2 cli.entries_x_token2
  levels ← validate_commitments cli.commitment
  spec ← affinity_error (affinity_of nproc cli.cpu_affinity overlay.cpu_affinity)
  endpoint2 ← endpoint2_of cli
  ok (build_config cli overlay stop spec endpoint2)

-- The fields that the subscription plan reads.
abbrev pub plan_config : Config → PlanConfig
plan_config c = record {
  endpoint1 = c.endpoint1;
  endpoint2 = c.endpoint2;
  entries_endpoint1 = c.entries_endpoint1;
  entries_endpoint2 = c.entries_endpoint2;
  commitments = c.commitments;
  with_blocks = c.with_blocks;
  with_transactions = c.with_transactions;
  accounts_programs_per_filter = c.accounts_programs_per_filter;
  solo = c.solo;
  solo_streams = c.solo_streams;
}

-- `fs::read_to_string` and `toml::from_str`; their errors go into the program's, which keeps the
-- path.
pub record Files : Type 0 where
  pub read_to_string : String → Option String
  pub parse_toml : String → Option TomlOverlay

abbrev pub parsed_overlay : String → Option TomlOverlay → Result ConfigError TomlOverlay
parsed_overlay path none = err (toml_parse path)
parsed_overlay path (some overlay) = ok overlay

abbrev pub read_overlay : Files → String → Option String → Result ConfigError TomlOverlay
read_overlay files path none = err (toml_read path)
read_overlay files path (some raw) = parsed_overlay path (files.parse_toml raw)

abbrev pub load_toml_overlay : Files → String → Result ConfigError TomlOverlay
load_toml_overlay files path = read_overlay files path (files.read_to_string path)

-- `match cli.config`
abbrev pub overlay_of : Files → Option String → Result ConfigError TomlOverlay
overlay_of files none = ok no_overlay
overlay_of files (some path) = load_toml_overlay files path

-- `Config::from_cli`
unfoldable pub from_cli : Files → Option ℕ → Cli → Result ConfigError Config
from_cli files nproc cli = do
  overlay ← overlay_of files cli.config
  from_cli_and_overlay nproc cli overlay
