-- ===== src/Report/Assemble.antt =====
-- src/run.rs: the assembly of the report from what a run leaves (`assemble_output`).
use Prim.Native.String.{String}
use grpc_bench.Prelude.{ℕ, Bool, Option, none, some, List, [], ◌∷◌, unwrap_or, if◌then◌else◌}
use grpc_bench.Floats.{Floats}
use grpc_bench.Text.{Text, codes}
use grpc_bench.Subscribe.{EndpointRole, one, two}
use grpc_bench.Subscribe.Plan.{EndpointSpec}
use grpc_bench.Cli.{Config}
use grpc_bench.Proto.{EndpointVersion}
use grpc_bench.Proto.Evaluate.{ProtoMetadata, version_or_unknown}
use grpc_bench.Programs.{ProgramEntry}
use grpc_bench.Env.{HostMetadata}
use grpc_bench.Matching.Slots
use grpc_bench.Matching.Slots.{SlotStatusSummary}
use grpc_bench.Matching.Accounts
use grpc_bench.Matching.Blocks
use grpc_bench.Matching.Transactions
use grpc_bench.Matching.Dispatch.{StreamMatchers, CaptureTotals}
use grpc_bench.CrossStream
use grpc_bench.CrossStream.{CrossStreamTracker, CrossStreamSummary}
use grpc_bench.Stability
use grpc_bench.Stability.{StabilityTracker, StabilitySummary}
use grpc_bench.Run.{PingTracker, average_ms, IngestCountersPartial, zero_counters, DroppedTotals}
use grpc_bench.Report.{
  RunMetadata, IngestCounters, role_label, EndpointInfo, RunOutput, from_config,
}

module _ (N : Floats) where
  unfoldable pub endpoint_info :
      String → EndpointRole → EndpointVersion → ℕ → PingTracker → EndpointInfo N
  endpoint_info url role v total_updates ping = record {
    endpoint = url;
    role = role_label role;
    plugin_type = unwrap_or v.package_name (codes "yellowstone");
    plugin_version = version_or_unknown v;
    avg_ping_ms = average_ms N ping;
    total_updates = total_updates;
    unique_slots = 0;
  }

  -- What a dispatcher returns, or its stand-in where it did not.
  pub record DispatcherReturn : Type 0 where
    pub stability : StabilityTracker N
    pub cross : CrossStreamTracker N
    pub counters : IngestCountersPartial

  unfoldable pub return_or_empty : EndpointRole → Option DispatcherReturn → DispatcherReturn
  return_or_empty role (some d) = d
  return_or_empty role none = record {
    stability = Stability.new N role;
    cross = CrossStream.new N role;
    counters = zero_counters;
  }

  -- `if let (Some(ep2_spec), Some(ep2_v))`
  abbrev pub second_info :
      Option EndpointSpec → Option EndpointVersion → ℕ → PingTracker → List (EndpointInfo N)
  second_info (some e) (some v) total ping = endpoint_info e.url two v total ping ∷ []
  second_info _ _ total ping = []

  -- `if config.with_transactions { Some(..) } else { None }`
  abbrev pub when : {A : Type 0} → Bool → A → Option A
  when flag a = if flag then some a else none

  -- What `assemble_output` is given that the run has not changed, and the build's version.
  pub record Finished : Type 0 where
    pub crate_version : Text
    pub rfc3339_from_wall_ms : ℕ → Text
    pub programs : List ProgramEntry
    pub host_metadata : HostMetadata
    pub proto_metadata : ProtoMetadata
    pub ep1_version : EndpointVersion
    pub ep2_version : Option EndpointVersion
    pub ping_ep1 : PingTracker
    pub ping_ep2 : PingTracker
    pub start_wall_ms : ℕ
    pub duration_ms : ℕ
    pub totals : CaptureTotals
    pub dropped : DroppedTotals

  unfoldable pub run_metadata : ℕ → IngestCounters → DroppedTotals → RunMetadata
  run_metadata duration_ms c dropped = record {
    total_slots_collected = c.total_slots_collected;
    common_slots = 0;
    duration_ms = duration_ms;
    total_account_updates = (c.ep1.accounts, c.ep2.accounts);
    total_transaction_updates = (c.ep1.transactions, c.ep2.transactions);
    total_block_updates = (c.ep1.blocks, c.ep2.blocks);
    total_entry_updates = (c.ep1.entries, c.ep2.entries);
    dropped_events_ep1 = dropped.ep1;
    dropped_events_ep2 = dropped.ep2;
  }

  -- The matchers and the trackers are summarised, and not used again.
  unfoldable pub assemble_output :
      Config → Finished → StreamMatchers N → DispatcherReturn → DispatcherReturn → ℕ → RunOutput N
  assemble_output config f matchers d1 d2 total_slots =
      let (slot_status, _) = Slots.summary matchers.slots in
      let (account_delay, accounts) = Accounts.summary matchers.accounts in
      let (per_program, _) = Accounts.per_program_summary accounts in
      let (transaction_delay, _) = Transactions.summary matchers.transactions in
      let (block_delay, _) = Blocks.summary matchers.blocks in
      record {
        version = f.crate_version;
        harness = codes "grpc-bench";
        run_started_wall_ms = f.start_wall_ms;
        run_started_iso = f.rfc3339_from_wall_ms f.start_wall_ms;
        host_metadata = f.host_metadata;
        proto_metadata = f.proto_metadata;
        config = from_config config;
        programs = f.programs;
        metadata =
            run_metadata f.duration_ms
              (record { total_slots_collected = total_slots; ep1 = d1.counters; ep2 = d2.counters })
              f.dropped;
        endpoints =
            endpoint_info config.endpoint1.url one f.ep1_version f.totals.ep1 f.ping_ep1
            ∷ second_info config.endpoint2 f.ep2_version f.totals.ep2 f.ping_ep2;
        comparative = record {
          slot_status = slot_status;
          account_delay = account_delay;
          transaction_delay = when config.with_transactions transaction_delay;
          block_delay = when config.with_blocks block_delay;
        };
        per_program_account_delay = per_program;
        cross_stream = ((CrossStream.summary d1.cross).0, (CrossStream.summary d2.cross).0);
        stability = ((Stability.summary d1.stability).0, (Stability.summary d2.stability).0);
      }
