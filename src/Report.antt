-- ===== src/Report.antt =====
-- src/summary.rs: the report of a run. Printing it as JSON is left out.
pub mod Assemble
pub mod Echo
pub mod Totals
pub mod Tests
use Prim.Native.String.{String}
use grpc_bench.Prelude.{
  ℕ, Bool, true, false, not, ◌&&◌, ◌||◌, Option, none, some, List, [], ◌∷◌, ◌++◌, push, leb, ltb,
  unwrap_or, if◌then◌else◌,
}
use grpc_bench.Floats.{Floats}
use grpc_bench.Prelude.HashMap.{HashMap}
use grpc_bench.Text.{Text, codes, to_ascii_lowercase, contains_text}
use grpc_bench.Config.{Commitment}
use grpc_bench.Subscribe.{EndpointRole, one, two}
use grpc_bench.Subscribe.Plan.{EndpointSpec}
use grpc_bench.Collect.Affinity.{AffinitySpec, all_cores}
use grpc_bench.Cli.{Allocator, Config}
use grpc_bench.Proto.{EndpointVersion}
use grpc_bench.Proto.Evaluate.{ProtoMetadata, version_or_unknown}
use grpc_bench.Programs.{ProgramEntry}
use grpc_bench.Env.{HostMetadata}
use grpc_bench.Matching.Pair.{LatencyDigestSummary}
use grpc_bench.Matching.Slots
use grpc_bench.Matching.Slots.{SlotStatusSummary}
use grpc_bench.Matching.Accounts
use grpc_bench.Matching.Blocks
use grpc_bench.Matching.Transactions
use grpc_bench.Matching.Dispatch.{StreamMatchers, CaptureTotals}
use grpc_bench.CrossStream
use grpc_bench.CrossStream.{CrossStreamTracker, CrossStreamSummary}
use grpc_bench.Stability
use grpc_bench.Stability.{StabilityTracker, StabilitySummary}
use grpc_bench.Run.{
  StopCondition, PingTracker, average_ms, IngestCountersPartial, zero_counters, DroppedTotals,
}

pub data QnRoleHint : Type 0 where
  endpoint1 endpoint2 both : QnRoleHint

-- `is_quicknode`
abbrev pub is_quicknode : Text → Bool
is_quicknode url =
    let lower = to_ascii_lowercase url in
    contains_text (codes "quiknode") lower || contains_text (codes "quicknode") lower

abbrev pub is_some_and : Option Text → Bool
is_some_and none = false
is_some_and (some url) = is_quicknode url

-- `match (ep1_qn, ep2_qn)`
abbrev pub role_hint : Bool → Bool → QnRoleHint
role_hint true false = endpoint1
role_hint true true = both
role_hint false ep2_qn = endpoint2

unfoldable pub detect_qn_role : Text → Option Text → QnRoleHint
detect_qn_role endpoint1_url endpoint2_url =
    role_hint (is_quicknode endpoint1_url) (is_some_and endpoint2_url)

-- The address of an endpoint is a native string in the configuration.
abbrev pub url_text : Option EndpointSpec → Option Text
url_text none = none
url_text (some e) = some (codes e.url)

abbrev pub url_of : Option EndpointSpec → Option String
url_of none = none
url_of (some e) = some e.url

pub record ConfigEcho : Type 0 where
  pub endpoint1 : String
  pub endpoint2 : Option String
  pub entries_endpoint1 : Option String
  pub entries_endpoint2 : Option String
  pub stop : StopCondition
  pub commitments : List Commitment
  pub with_blocks : Bool
  pub with_transactions : Bool
  pub reconnect_test_secs : Option ℕ
  pub cpu_affinity : List ℕ
  pub cpu_affinity_plan : AffinitySpec
  pub realtime : Bool
  pub allocator : Allocator
  pub qn_role : QnRoleHint
  pub solo : Bool

-- `ConfigEcho::from_config`
unfoldable pub from_config : Config → ConfigEcho
from_config c = record {
  endpoint1 = c.endpoint1.url;
  endpoint2 = url_of c.endpoint2;
  entries_endpoint1 = url_of c.entries_endpoint1;
  entries_endpoint2 = url_of c.entries_endpoint2;
  stop = c.stop;
  commitments = c.commitments;
  with_blocks = c.with_blocks;
  with_transactions = c.with_transactions;
  reconnect_test_secs = c.reconnect_test_secs;
  cpu_affinity = all_cores c.cpu_affinity;
  cpu_affinity_plan = c.cpu_affinity;
  realtime = c.realtime;
  allocator = c.allocator;
  qn_role = detect_qn_role (codes c.endpoint1.url) (url_text c.endpoint2);
  solo = c.solo;
}

pub record RunMetadata : Type 0 where
  pub total_slots_collected : ℕ
  pub common_slots : ℕ
  pub duration_ms : ℕ
  pub total_account_updates : ℕ × ℕ
  pub total_transaction_updates : ℕ × ℕ
  pub total_block_updates : ℕ × ℕ
  pub total_entry_updates : ℕ × ℕ
  pub dropped_events_ep1 : ℕ
  pub dropped_events_ep2 : ℕ

-- `IngestCounters`, built of what the two dispatchers return.
pub record IngestCounters : Type 0 where
  pub total_slots_collected : ℕ
  pub ep1 : IngestCountersPartial
  pub ep2 : IngestCountersPartial

-- `RunOutput::role_label`
abbrev pub role_label : EndpointRole → Text
role_label one = codes "comparison"
role_label two = codes "sut"

module _ (N : Floats) where
  pub record EndpointInfo : Type 0 where
    pub endpoint : String
    pub role : Text
    pub plugin_type : Text
    pub plugin_version : Text
    pub avg_ping_ms : N.F64
    pub total_updates : ℕ
    pub unique_slots : ℕ

  pub record ComparativeSummary : Type 0 where
    pub slot_status : SlotStatusSummary N
    pub account_delay : LatencyDigestSummary N
    pub transaction_delay : Option (LatencyDigestSummary N)
    pub block_delay : Option (LatencyDigestSummary N)

  -- The two `HashMap`s have the keys `endpoint1` and `endpoint2`.
  pub record RunOutput : Type 0 where
    pub version : Text
    pub harness : Text
    pub run_started_wall_ms : ℕ
    pub run_started_iso : Text
    pub host_metadata : HostMetadata
    pub proto_metadata : ProtoMetadata
    pub config : ConfigEcho
    pub programs : List ProgramEntry
    pub metadata : RunMetadata
    pub endpoints : List EndpointInfo
    pub comparative : ComparativeSummary
    pub per_program_account_delay : HashMap String (LatencyDigestSummary N)
    pub cross_stream : CrossStreamSummary N × CrossStreamSummary N
    pub stability : StabilitySummary N × StabilitySummary N
