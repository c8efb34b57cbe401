-- ===== src/Report/Tests.antt =====
-- The theorems on the report at concrete inputs.
use grpc_bench.Prelude.{ℕ, ◌+◌, ◌%◌, ◌≡◌, refl, true, false, none, some, List, [], ◌∷◌}
use grpc_bench.Prelude.Words.{u64_mod}
use grpc_bench.Floats.Exact.{exact}
use grpc_bench.Text.{codes}
use grpc_bench.Config.{processed}
use grpc_bench.Subscribe.{one, two, main, transactions}
use grpc_bench.Collect.{Event, transaction}
use grpc_bench.Collect.Affinity.{default_spec}
use grpc_bench.Cli.{Config, jemalloc}
use grpc_bench.Proto.{EndpointVersion, accept}
use grpc_bench.Proto.Evaluate.{ProtoMetadata}
use grpc_bench.Env.{HostMetadata}
use grpc_bench.Matching.Dispatch
use grpc_bench.Stability
use grpc_bench.CrossStream
use grpc_bench.Run.{Dispatcher, PingTracker, stop_slots, zero_counters, dispatch_all}
use grpc_bench.Report.Assemble.{Finished, assemble_output}
use grpc_bench.Report.Echo.{with_tokens, report_hides_tokens}
use grpc_bench.Report.Totals.{kinds, returned, report_counts_events}

abbrev config : Config
config = record {
  endpoint1 = record { url = "a:1"; x_token = "t"; tls_forced = false };
  endpoint2 = some (record { url = "b:1"; x_token = "u"; tls_forced = false });
  entries_endpoint1 = none;
  entries_endpoint2 = some (record { url = "c:1"; x_token = "v"; tls_forced = true });
  programs_path = "programs.csv";
  stop = stop_slots 10;
  commitments = processed ∷ [];
  with_blocks = false;
  with_transactions = true;
  strict_account_key = false;
  accounts_programs_per_filter = 1;
  reconnect_test_secs = none;
  output = "out.json";
  raw_records = none;
  cpu_affinity = default_spec;
  realtime = false;
  allocator = jemalloc;
  log_level = codes "info";
  solo = false;
  solo_streams = [];
  max_decode_mb = 256;
  ring_capacity = 65536;
}

abbrev version : EndpointVersion
version = record {
  package_name = none;
  plugin_version = none;
  proto_version = none;
  solana_version = none;
  compatibility = accept;
  raw = [];
  warnings = [];
}

abbrev host : HostMetadata
host = record {
  kernel = codes "6.8.0";
  cpu_model = codes "X";
  cpu_governor = none;
  transparent_hugepage = none;
  allocator = codes "jemalloc";
  realtime_priority = false;
  kernel_timestamps = false;
  cpu_affinity = [];
  cpu_affinity_plan = default_spec;
  ntp_synced = some true;
  warnings = [];
}

abbrev protocol : ProtoMetadata
protocol = record {
  yellowstone_proto_crate_version = codes "12.2.0";
  yellowstone_grpc_client_crate_version = codes "12.2.0";
  endpoint1_server_plugin_version = codes "unknown";
  endpoint2_server_plugin_version = codes "unknown";
  compatibility_warnings = [];
}

abbrev ping : PingTracker
ping = record { sum_us = 0; count = 0 }

abbrev finished : Finished exact
finished = record {
  crate_version = codes "0.1.0";
  rfc3339_from_wall_ms = λ ms. codes "1970";
  programs = [];
  host_metadata = host;
  proto_metadata = protocol;
  ep1_version = version;
  ep2_version = some version;
  ping_ep1 = ping;
  ping_ep2 = ping;
  start_wall_ms = 0;
  duration_ms = 5;
  totals = record { ep1 = 2; ep2 = 1 };
  dropped = record { ep1 = 0; ep2 = 0 };
}

abbrev dispatcher1 : Dispatcher exact
dispatcher1 = record {
  matchers = Dispatch.new exact [];
  stability = Stability.new exact one;
  cross = CrossStream.new exact one;
  raw = none;
  counters = zero_counters;
  total_slots = 0;
}

abbrev dispatcher2 : Dispatcher exact
dispatcher2 = record dispatcher1 {
  stability = Stability.new exact two;
  cross = CrossStream.new exact two;
}

abbrev event : ℕ → Event
event i = record {
  ts = record { mono_ns = 10 + i; wall_ms = 4 };
  subscription = main one processed transactions;
  payload = transaction 5 (i ∷ []) i;
}

report_hides_tokens_example :
    assemble_output exact
      (with_tokens "x" "y" "z" "w" config)
      finished
      dispatcher1.matchers
      (returned dispatcher1)
      (returned dispatcher2)
      0
    ≡ assemble_output exact config finished dispatcher1.matchers
        (returned dispatcher1)
        (returned dispatcher2)
        0
report_hides_tokens_example =
    report_hides_tokens exact "x" "y" "z" "w" config finished dispatcher1.matchers
      (returned dispatcher1) (returned dispatcher2) 0

abbrev events : List Event
events = event 1 ∷ event 2 ∷ []

report_counts_events_example :
    let r =
      (assemble_output exact config finished dispatcher1.matchers
        (returned (dispatch_all dispatcher1 events))
        (returned (dispatch_all dispatcher2 (event 1 ∷ [])))
        0).metadata in
    (r.total_account_updates
      ≡ ((kinds events).accounts % u64_mod, (kinds (event 1 ∷ [])).accounts % u64_mod))
    × (r.total_transaction_updates
        ≡ ((kinds events).transactions % u64_mod, (kinds (event 1 ∷ [])).transactions % u64_mod))
    × (r.total_block_updates
        ≡ ((kinds events).blocks % u64_mod, (kinds (event 1 ∷ [])).blocks % u64_mod))
    × (r.total_entry_updates
        ≡ ((kinds events).entries % u64_mod, (kinds (event 1 ∷ [])).entries % u64_mod))
report_counts_events_example =
    report_counts_events config finished dispatcher1.matchers dispatcher1 dispatcher2 events
      (event 1 ∷ []) 0 refl refl
