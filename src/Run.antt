-- ===== src/Run.antt =====
-- src/run.rs: the dispatchers that drain the rings into the matchers and trackers, the stop
-- condition and the totals. Threads, clocks, sockets and the log are left out.
pub mod Drain
pub mod Counted
pub mod Reported
pub mod Capacity
pub mod Totals
pub mod Stop
pub mod Loop
pub mod Turns
pub mod Exit
pub mod Tests
use grpc_bench.Prelude.{
  ℕ, zero, suc, ◌+◌, ◌*◌, ◌/◌, min, max, Bool, true, false, not, ◌&&◌, ◌||◌, Option, none, some,
  List, [], ◌∷◌, leb, ltb, push, is_empty, nat_beq, if◌then◌else◌,
}
use grpc_bench.Prelude.Int.{pos}
use grpc_bench.Prelude.Words.{wrapping_add, saturating_add, u64_max}
use grpc_bench.Floats.{Floats, lit}
use grpc_bench.Subscribe.{
  EndpointRole, one, two, role_beq, MainStream, slots, accounts, transactions, blocks,
  SubscriptionRole, main, entries, endpoint,
}
use grpc_bench.Collect.{
  Event, EventPayload, slot, account, transaction, block, entry, SlotStage, first_shred_received,
  completed, created_bank, processed, confirmed, finalized, dead,
}
use grpc_bench.Collect.Stats.{ReceiverStats, ReceiverStatsSnapshot, snapshot}
use grpc_bench.Collect.Ring.{ChannelOps, Ring, RecvOutcome, received, empty, sender_gone, try_recv}
use grpc_bench.Matching.Dispatch.{StreamMatchers, dispatch, CaptureTotals, add}
use grpc_bench.Stability
use grpc_bench.Stability.{StabilityTracker}
use grpc_bench.CrossStream
use grpc_bench.CrossStream.{CrossStreamTracker}

abbrev pub drain_budget_per_ring : ℕ
drain_budget_per_ring = 1024

-- `(mul_num, mul_den)` of a subscription.
abbrev pub capacity_ratio : SubscriptionRole → ℕ × ℕ
capacity_ratio (main role commitment accounts) = (4, 1)
capacity_ratio (main role commitment transactions) = (1, 1)
capacity_ratio (main role commitment blocks) = (1, 2)
capacity_ratio (main role commitment slots) = (1, 8)
capacity_ratio (entries role) = (1, 1)

-- `usize` has 64 bits; `saturating_mul`.
unfoldable pub ring_capacity_for : SubscriptionRole → ℕ → ℕ
ring_capacity_for role baseline =
    let (mul_num, mul_den) = capacity_ratio role in
    max (min (baseline * mul_num) u64_max / max mul_den 1) 1

-- `config.stop`, in slots and seconds.
pub data StopCondition : Type 0 where
  stop_slots stop_duration : ℕ → StopCondition
  stop_either : ℕ → ℕ → StopCondition

-- `elapsed` is `start.elapsed()`, in nanoseconds.
unfoldable pub should_stop : StopCondition → ℕ → ℕ → Bool
should_stop (stop_slots n) elapsed total_slots = leb n total_slots
should_stop (stop_duration secs) elapsed total_slots = leb (secs * 1000000000) elapsed
should_stop (stop_either slot_count duration) elapsed total_slots =
    leb slot_count total_slots || leb (duration * 1000000000) elapsed

pub record PingTracker : Type 0 where
  pub sum_us : ℕ
  pub count : ℕ

-- `PingTracker::record`
unfoldable pub record_ping : PingTracker → ℕ → PingTracker
record_ping t duration_us = record {
  sum_us = wrapping_add t.sum_us duration_us;
  count = wrapping_add t.count 1;
}

unfoldable pub average_ms : (N : Floats) → PingTracker → N.F64
average_ms N t =
    if nat_beq t.count 0 then N.nan else N.div (N.div (lit N t.sum_us) (lit N t.count)) (lit N 1000)

pub record IngestCountersPartial : Type 0 where
  pub accounts : ℕ
  pub transactions : ℕ
  pub blocks : ℕ
  pub entries : ℕ
  pub last_counted_slot : ℕ

-- `IngestCountersPartial::default()`
abbrev pub zero_counters : IngestCountersPartial
zero_counters = record {
  accounts = 0;
  transactions = 0;
  blocks = 0;
  entries = 0;
  last_counted_slot = 0;
}

-- What `dispatch_event` writes to; `raw` are the events handed to the raw writer, if there is one.
pub record Dispatcher (N : Floats) : Type 0 where
  pub matchers : StreamMatchers N
  pub stability : StabilityTracker N
  pub cross : CrossStreamTracker N
  pub raw : Option (List Event)
  pub counters : IngestCountersPartial
  pub total_slots : ℕ

-- `*stage == SlotStage::Processed`
abbrev pub is_processed : SlotStage → Bool
is_processed processed = true
is_processed _ = false

abbrev pub write_raw : Option (List Event) → Event → Option (List Event)
write_raw none event = none
write_raw (some written) event = some (push written event)

-- The last `match` of `dispatch_event`: the counters and the slot total.
unfoldable pub count_payload :
    EndpointRole → EventPayload → IngestCountersPartial × ℕ → IngestCountersPartial × ℕ
count_payload role (slot s stage) (c, total_slots) =
    if role_beq role one && is_processed stage && ltb c.last_counted_slot s
    then (record c { last_counted_slot = s }, wrapping_add total_slots 1)
    else (c, total_slots)
count_payload role (account a) (c, total_slots) =
    (record c { accounts = wrapping_add c.accounts 1 }, total_slots)
count_payload role (transaction s signature index) (c, total_slots) =
    (record c { transactions = wrapping_add c.transactions 1 }, total_slots)
count_payload role (block b) (c, total_slots) =
    (record c { blocks = wrapping_add c.blocks 1 }, total_slots)
count_payload role (entry e) (c, total_slots) =
    (record c { entries = wrapping_add c.entries 1 }, total_slots)

module _ {N : Floats} where
  unfoldable pub dispatch_event : Dispatcher N → Event → Dispatcher N
  dispatch_event d event =
      let (counters, total_slots) =
        count_payload (endpoint event.subscription) event.payload (d.counters, d.total_slots) in
      record {
        matchers = dispatch d.matchers event;
        stability = Stability.observe d.stability event;
        cross = CrossStream.observe d.cross event;
        raw = write_raw d.raw event;
        counters = counters;
        total_slots = total_slots;
      }

-- A run of `dispatch_event`.
abbrev pub dispatch_all : {N : Floats} → Dispatcher N → List Event → Dispatcher N
dispatch_all d [] = d
dispatch_all d (event ∷ events) = dispatch_all (dispatch_event d event) events

abbrev pub count_received : {C : ChannelOps} → Ring C → Ring C
count_received r = record r {
  stats = record r.stats { received = wrapping_add r.stats.received 1 };
}

module _ {N : Floats} {C : ChannelOps} where
  -- The inner `while` of a dispatcher, for what is left of the budget, while the ring's receiver does
  -- nothing (`Run/Loop` has it with the receiver running): whether it got any event, the ring, and the
  -- rest.
  unfoldable pub drain_ring : ℕ → Ring C → Dispatcher N → Bool × Ring C × Dispatcher N
  drain_ring zero r d = (false, r, d)
  drain_ring (suc budget) r d =
      let (outcome, r') = try_recv r in
      elim outcome [
        | received event ↦
            let (got_any, r2, d2) =
              drain_ring budget (count_received r') (dispatch_event d event) in
            (true, r2, d2)
        | empty ↦ (false, r', d)
        | sender_gone ↦ (false, r', d)
      ]

-- `stats.iter().zip(roles)` and `totals.add(..)`
unfoldable pub compute_capture_totals :
    List (ReceiverStats × SubscriptionRole) → CaptureTotals → CaptureTotals
compute_capture_totals [] totals = totals
compute_capture_totals ((s, r) ∷ rest) totals =
    compute_capture_totals rest (add totals (endpoint r) (snapshot s))

pub record DroppedTotals : Type 0 where
  pub ep1 : ℕ
  pub ep2 : ℕ

abbrev pub add_dropped : DroppedTotals → EndpointRole → ReceiverStatsSnapshot → DroppedTotals
add_dropped out one snap = record out { ep1 = saturating_add out.ep1 snap.dropped }
add_dropped out two snap = record out { ep2 = saturating_add out.ep2 snap.dropped }

unfoldable pub compute_dropped_totals :
    List (ReceiverStats × SubscriptionRole) → DroppedTotals → DroppedTotals
compute_dropped_totals [] out = out
compute_dropped_totals ((s, r) ∷ rest) out =
    compute_dropped_totals rest (add_dropped out (endpoint r) (snapshot s))
