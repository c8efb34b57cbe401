-- ===== src/Stability.antt =====
-- src/stability.rs: one endpoint's gaps, stalls, drift, disconnects and reconnects.
mod Digest
unfoldable pub use Digest.*
pub mod Stalls
pub mod Drift
pub mod PlannedRun
pub mod Tests
use Prim.Native.String.{String}
use grpc_bench.Prelude.{
  ℕ, Bool, Option, none, some, List, [], ◌∷◌, push, not, if◌then◌else◌, is_some,
}
use grpc_bench.Prelude.Int.{ℤ}
use grpc_bench.Prelude.Words.{i64_diff}
use grpc_bench.Prelude.Eq.{nat_eq}
use grpc_bench.Prelude.HashMap.{HashMap, get, insert, remove}
use grpc_bench.Floats.{Floats, lit, ratio, ns_to_ms}
use grpc_bench.Timing.{EventTimestamp}
use grpc_bench.Config.{Commitment, processed, confirmed, finalized}
use grpc_bench.Subscribe.{EndpointRole, SubscriptionRole, main, entries, endpoint, role_beq}
use grpc_bench.Collect.{
  Event, EventPayload, slot, account, transaction, block, entry, SlotStage, first_shred_received,
  completed, created_bank, processed as stage_processed, confirmed as stage_confirmed,
  finalized as stage_finalized, dead,
}

abbrev pub stall_threshold_ms : ℕ
stall_threshold_ms = 600

pub record StallEvent (N : Floats) : Type 0 where
  pub wall_ms : ℕ
  pub duration_ms : N.F64

pub record DisconnectEvent : Type 0 where
  pub wall_ms : ℕ
  pub status : String
  pub events_received_before : ℕ

pub record SlotGapSummary (N : Floats) : Type 0 where
  pub p50 : N.F64
  pub p90 : N.F64
  pub p99 : N.F64
  pub max : N.F64

pub record DriftSummary (N : Floats) : Type 0 where
  pub p50 : N.F64
  pub p99 : N.F64

pub record ReconnectTtfmSummary (N : Floats) : Type 0 where
  pub p50 : N.F64
  pub p99 : N.F64
  pub max : N.F64

pub record StabilitySummary (N : Floats) : Type 0 where
  pub slot_gap_ms : SlotGapSummary N
  pub stall_events : List (StallEvent N)
  pub processed_confirmed_drift_ms : DriftSummary N
  pub disconnects : List DisconnectEvent
  pub reconnect_ttfm_ms : ReconnectTtfmSummary N

abbrev pub empty_summary : (N : Floats) → StabilitySummary N
empty_summary N = record {
  slot_gap_ms = record { p50 = N.nan; p90 = N.nan; p99 = N.nan; max = lit N 0 };
  stall_events = [];
  processed_confirmed_drift_ms = record { p50 = N.nan; p99 = N.nan };
  disconnects = [];
  reconnect_ttfm_ms = record { p50 = N.nan; p99 = N.nan; max = lit N 0 };
}

pub record StabilityTracker (N : Floats) : Type 0 where
  pub role : EndpointRole
  pub last_slot_event_ts : Option EventTimestamp
  pub slot_gaps : DistributionDigest N
  pub stall_events : List (StallEvent N)
  pub processed_arrivals : HashMap ℕ EventTimestamp
  pub confirmed_arrivals : HashMap ℕ EventTimestamp
  pub drift_digest : DistributionDigest N
  pub disconnects : List DisconnectEvent
  pub reconnect_ttfm : DistributionDigest N
  pub pending_reconnect_mono_ns : Option ℕ

unfoldable pub new : (N : Floats) → EndpointRole → StabilityTracker N
new N role = record {
  role = role;
  last_slot_event_ts = none;
  slot_gaps = new_digest N;
  stall_events = [];
  processed_arrivals = [];
  confirmed_arrivals = [];
  drift_digest = new_digest N;
  disconnects = [];
  reconnect_ttfm = new_digest N;
  pending_reconnect_mono_ns = none;
}

-- `entry(slot).or_insert(ts)`
abbrev pub or_insert : ℕ → EventTimestamp → HashMap ℕ EventTimestamp → HashMap ℕ EventTimestamp
or_insert s ts m = if is_some (get s m) then m else insert s ts m

-- `(ns as f64).max(0.0) / 1_000_000.0`
abbrev pub clamped_ms : (N : Floats) → ℤ → N.F64
clamped_ms N ns = N.div (N.max_f64 (N.of_i64 ns) (lit N 0)) (lit N 1000000)

-- `ttfm_in_ms.max(0.0)`
abbrev pub ttfm_ms : (N : Floats) → ℤ → N.F64
ttfm_ms N ns = N.max_f64 (ns_to_ms N ns) (lit N 0)

module _ {N : Floats} where
  -- `if let Some(ts_at_reconnect_ns) = self.pending_reconnect_mono_ns.take()`
  unfoldable pub take_reconnect : StabilityTracker N → EventTimestamp → StabilityTracker N
  take_reconnect t ts = elim t.pending_reconnect_mono_ns [
    | none ↦ t
    | some at ↦ record t {
      pending_reconnect_mono_ns = none;
      reconnect_ttfm = push_value t.reconnect_ttfm (ttfm_ms N (i64_diff ts.mono_ns at));
    }
  ]

  -- The body of `if let Some(prev) = self.last_slot_event_ts`.
  abbrev pub record_gap : StabilityTracker N → EventTimestamp → EventTimestamp → StabilityTracker N
  record_gap t prev ts =
      let gap_ms = clamped_ms N (i64_diff ts.mono_ns prev.mono_ns) in
      record t {
        slot_gaps = push_value t.slot_gaps gap_ms;
        stall_events =
            if N.ltf (lit N stall_threshold_ms) gap_ms
            then push t.stall_events (record { wall_ms = ts.wall_ms; duration_ms = gap_ms })
            else t.stall_events;
      }

  abbrev pub gap_since :
      StabilityTracker N → Option EventTimestamp → EventTimestamp → StabilityTracker N
  gap_since t none ts = t
  gap_since t (some prev) ts = record_gap t prev ts

  unfoldable pub observe_gap : StabilityTracker N → EventTimestamp → StabilityTracker N
  observe_gap t ts = record (gap_since t t.last_slot_event_ts ts) { last_slot_event_ts = some ts }

  unfoldable pub record_drift :
      StabilityTracker N → EventTimestamp → EventTimestamp → StabilityTracker N
  record_drift t processed_ts confirmed_ts = record t {
    drift_digest =
        push_value t.drift_digest
          (clamped_ms N (i64_diff confirmed_ts.mono_ns processed_ts.mono_ns));
  }

  -- The arm of a processed slot on a processed stream.
  unfoldable pub observe_processed : StabilityTracker N → ℕ → EventTimestamp → StabilityTracker N
  observe_processed t s ts =
      let t1 = record t { processed_arrivals = or_insert s ts t.processed_arrivals } in
      elim (get s t.confirmed_arrivals) [
        | none ↦ t1
        | some c ↦
            let t2 = record t1 { confirmed_arrivals = remove s t1.confirmed_arrivals } in
            let t3 = record_drift t2 ts c in
            record t3 { processed_arrivals = remove s t3.processed_arrivals }
      ]

  -- The arm of a confirmed slot on a confirmed stream.
  unfoldable pub observe_confirmed : StabilityTracker N → ℕ → EventTimestamp → StabilityTracker N
  observe_confirmed t s ts =
      let t1 = record t { confirmed_arrivals = or_insert s ts t.confirmed_arrivals } in
      elim (get s t.processed_arrivals) [
        | none ↦ t1
        | some p ↦
            let t2 = record t1 { processed_arrivals = remove s t1.processed_arrivals } in
            let t3 = record_drift t2 p ts in
            record t3 { confirmed_arrivals = remove s t3.confirmed_arrivals }
      ]

  -- `match (stage, commitment)`
  abbrev pub observe_drift :
      StabilityTracker N → SlotStage → SubscriptionRole → ℕ → EventTimestamp → StabilityTracker N
  observe_drift t stage_processed (main role processed stream) s ts = observe_processed t s ts
  observe_drift t stage_confirmed (main role confirmed stream) s ts = observe_confirmed t s ts
  observe_drift t _ _ s ts = t

  -- What follows the time to first message: nothing unless it is a slot event.
  abbrev pub observe_payload :
      StabilityTracker N → SubscriptionRole → EventTimestamp → EventPayload → StabilityTracker N
  observe_payload t sub ts (slot s stage) = observe_drift (observe_gap t ts) stage sub s ts
  observe_payload t sub ts (account a) = t
  observe_payload t sub ts (transaction s signature index) = t
  observe_payload t sub ts (block b) = t
  observe_payload t sub ts (entry e) = t

  unfoldable pub observe : StabilityTracker N → Event → StabilityTracker N
  observe t event =
      if not (role_beq (endpoint event.subscription) t.role)
      then t
      else observe_payload (take_reconnect t event.ts) event.subscription event.ts event.payload

  unfoldable pub record_disconnect : StabilityTracker N → ℕ → String → ℕ → StabilityTracker N
  record_disconnect t wall_ms status events_received_before = record t {
    disconnects = push t.disconnects (record {
      wall_ms = wall_ms;
      status = status;
      events_received_before = events_received_before;
    });
  }

  unfoldable pub record_reconnect : StabilityTracker N → ℕ → StabilityTracker N
  record_reconnect t mono_ns_at_reconnect = record t {
    pending_reconnect_mono_ns = some mono_ns_at_reconnect;
  }

  unfoldable pub summary : StabilityTracker N → StabilitySummary N × StabilityTracker N
  summary t =
      let (g50, g1) = quantile t.slot_gaps (ratio N 50 100) in
      let (g90, g2) = quantile g1 (ratio N 90 100) in
      let (g99, g3) = quantile g2 (ratio N 99 100) in
      let (d50, d1) = quantile t.drift_digest (ratio N 50 100) in
      let (d99, d2) = quantile d1 (ratio N 99 100) in
      let (r50, r1) = quantile t.reconnect_ttfm (ratio N 50 100) in
      let (r99, r2) = quantile r1 (ratio N 99 100) in
      (
        record {
          slot_gap_ms = record { p50 = g50; p90 = g90; p99 = g99; max = g3.max };
          stall_events = t.stall_events;
          processed_confirmed_drift_ms = record { p50 = d50; p99 = d99 };
          disconnects = t.disconnects;
          reconnect_ttfm_ms = record { p50 = r50; p99 = r99; max = r2.max };
        },
        record t { slot_gaps = g3; drift_digest = d2; reconnect_ttfm = r2 },
      )
