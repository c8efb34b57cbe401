-- ===== src/Cli/Tests.antt =====
-- The configuration theorems at concrete inputs.
use grpc_bench.Prelude.{◌≡◌, refl, ◌↔◌, true, false, none, some, [], ◌∷◌}
use grpc_bench.Prelude.Result.{ok}
use grpc_bench.Text.{codes}
use grpc_bench.Config.{processed, confirmed}
use grpc_bench.Subscribe.{slots}
use grpc_bench.Collect.Affinity.{default_spec}
use grpc_bench.Run.{stop_slots}
use grpc_bench.Cli.{jemalloc, Cli, Config, TomlOverlay}
use grpc_bench.Cli.Validation.{
  build_config, build_optional_endpoint, check_commitments, from_cli_and_overlay,
}
use grpc_bench.Cli.Accepted.{IsAcceptable, accepted_exactly}
use grpc_bench.Cli.Validated.{IsValidated, accepted-IsValidated}

abbrev cli : Cli
cli = record {
  endpoint1 = "a:1";
  x_token1 = "t";
  endpoint1_tls = false;
  endpoint2 = some "b:1";
  x_token2 = some "u";
  endpoint2_tls = false;
  solo = false;
  solo_streams = slots ∷ [];
  entries_endpoint1 = none;
  entries_x_token1 = none;
  entries_endpoint1_tls = false;
  entries_endpoint2 = none;
  entries_x_token2 = none;
  entries_endpoint2_tls = false;
  programs = "programs.csv";
  slots = some 100;
  duration = none;
  commitment = processed ∷ confirmed ∷ [];
  with_blocks = true;
  with_transactions = false;
  strict_account_key = false;
  accounts_programs_per_filter = 0;
  reconnect_test = none;
  output = "out.json";
  raw_records = none;
  config = none;
  cpu_affinity = none;
  realtime = true;
  allocator = jemalloc;
  log_level = codes "info";
  max_decode_mb = 256;
  ring_capacity = 65536;
}

abbrev overlay : TomlOverlay
overlay = record { log_level = some (codes "debug"); raw_records = none; cpu_affinity = none }

abbrev config : Config
config =
    build_config cli overlay (stop_slots 100) default_spec
      (build_optional_endpoint cli.endpoint2 cli.x_token2 cli.endpoint2_tls)

accepted : from_cli_and_overlay none cli overlay ≡ ok config
unfolding from_cli_and_overlay check_commitments
accepted = refl

accepted_exactly_example :
    ((c : Config) × (from_cli_and_overlay none cli overlay ≡ ok c)) ↔ IsAcceptable none cli overlay
accepted_exactly_example = accepted_exactly none cli overlay

accepted-IsValidated_example : IsValidated cli overlay config
accepted-IsValidated_example = accepted-IsValidated none cli overlay config accepted
