-- ===== src/Cli.antt =====
-- src/config.rs: the command line and the TOML overlay, validated into a `Config`. A text that is
-- only passed on, a path, an address or a token, is a native string; the rest are code points.
pub mod Validation
pub mod Levels
pub mod Accepted
pub mod Validated
pub mod Fair
pub mod Tests
use Prim.Native.String.{String}
use grpc_bench.Prelude.{
  ℕ, max, Bool, true, false, ◌||◌, Option, none, some, List, [], ◌∷◌, push, is_empty, unwrap_or,
  if◌then◌else◌,
}
use grpc_bench.Prelude.Result.{Result, ok, err, ◌>>=◌}
use grpc_bench.Text.{Text, codes, text_beq}
use grpc_bench.Config.{Commitment, processed, confirmed, finalized, commitment_beq}
use grpc_bench.Subscribe.{MainStream}
use grpc_bench.Subscribe.Plan.{EndpointSpec, PlanConfig}
use grpc_bench.Run.{StopCondition, stop_slots, stop_duration, stop_either}
use grpc_bench.Collect.Affinity.{AffinitySpec, AffinityParseError, default_spec, from_flat_vec}
use grpc_bench.Collect.Affinity.Parse.{parse}

pub data Allocator : Type 0 where
  jemalloc mimalloc system : Allocator

pub record Cli : Type 0 where
  pub endpoint1 : String
  pub x_token1 : String
  pub endpoint1_tls : Bool
  pub endpoint2 : Option String
  pub x_token2 : Option String
  pub endpoint2_tls : Bool
  pub solo : Bool
  pub solo_streams : List MainStream
  pub entries_endpoint1 : Option String
  pub entries_x_token1 : Option String
  pub entries_endpoint1_tls : Bool
  pub entries_endpoint2 : Option String
  pub entries_x_token2 : Option String
  pub entries_endpoint2_tls : Bool
  pub programs : String
  pub slots : Option ℕ
  pub duration : Option ℕ
  pub commitment : List Commitment
  pub with_blocks : Bool
  pub with_transactions : Bool
  pub strict_account_key : Bool
  pub accounts_programs_per_filter : ℕ
  pub reconnect_test : Option ℕ
  pub output : String
  pub raw_records : Option String
  pub config : Option String
  pub cpu_affinity : Option Text
  pub realtime : Bool
  pub allocator : Allocator
  pub log_level : Text
  pub max_decode_mb : ℕ
  pub ring_capacity : ℕ

pub record Config : Type 0 where
  pub endpoint1 : EndpointSpec
  pub endpoint2 : Option EndpointSpec
  pub entries_endpoint1 : Option EndpointSpec
  pub entries_endpoint2 : Option EndpointSpec
  pub programs_path : String
  pub stop : StopCondition
  pub commitments : List Commitment
  pub with_blocks : Bool
  pub with_transactions : Bool
  pub strict_account_key : Bool
  pub accounts_programs_per_filter : ℕ
  pub reconnect_test_secs : Option ℕ
  pub output : String
  pub raw_records : Option String
  pub cpu_affinity : AffinitySpec
  pub realtime : Bool
  pub allocator : Allocator
  pub log_level : Text
  pub solo : Bool
  pub solo_streams : List MainStream
  pub max_decode_mb : ℕ
  pub ring_capacity : ℕ

pub record TomlOverlay : Type 0 where
  pub log_level : Option Text
  pub raw_records : Option String
  pub cpu_affinity : Option (List ℕ)

-- `TomlOverlay::default()`
abbrev pub no_overlay : TomlOverlay
no_overlay = record { log_level = none; raw_records = none; cpu_affinity = none }

-- The errors of reading and of parsing the overlay carry the path.
pub data ConfigError : Type 0 where
  no_stop_condition endpoint2_missing empty_commitment : ConfigError
  entries_token_mismatch entries_endpoint_mismatch : ℕ → ConfigError
  cpu_affinity_parse : AffinityParseError → ConfigError
  duplicate_commitment : Text → ConfigError
  toml_read toml_parse : String → ConfigError
