-- ===== src/Run/Tests.antt =====
-- The theorems on the run loop at concrete inputs.
use grpc_bench.Prelude.{
  is_some, false, inr, ℕ, push, nat_beq, if◌then◌else◌, ◌+◌, ◌≡◌, refl, true, none, some, List, [],
  ◌∷◌, arith,
}
use grpc_bench.Floats.Exact.{exact}
use grpc_bench.Config.{processed}
use grpc_bench.Subscribe.{SubscriptionRole, two, one, main, slots}
use grpc_bench.Collect.{Event, slot, processed as stage_processed}
use grpc_bench.Collect.Stats
use grpc_bench.Collect.Stats.{ReceiverStats}
use grpc_bench.Collect.Ring.{Ring, try_recv}
use grpc_bench.Collect.Ring.Queue.{queue, queue_laws}
use grpc_bench.Matching.Dispatch
use grpc_bench.Stability
use grpc_bench.CrossStream
use grpc_bench.Run.{
  Dispatcher, zero_counters, stop_slots, should_stop, dispatch_all, drain_ring, ring_capacity_for,
}
use grpc_bench.Run.Drain.{Drained, drain_takes_first}
use grpc_bench.Run.Counted.{processed_slots, new_tops}
use grpc_bench.Run.Reported.{no_disconnect_reported}
use grpc_bench.Run.Loop.{Turn, drain_shared, drain_rings, dispatcher_loop}
use grpc_bench.Run.Exit.{AllDrained, exit_leaves_nothing, exit_comes}
use grpc_bench.Run.Stop.{stop_is_reached_and_kept}

abbrev event : ℕ → Event
event s = record {
  ts = record { mono_ns = 10 + s; wall_ms = 4 };
  subscription = main one processed slots;
  payload = slot s stage_processed;
}

-- Slot 6 arrives twice, and slot 5 late.
abbrev events : List Event
events = event 4 ∷ event 6 ∷ event 5 ∷ event 6 ∷ event 7 ∷ []

abbrev dispatcher : Dispatcher exact
dispatcher = record {
  matchers = Dispatch.new exact [];
  stability = Stability.new exact one;
  cross = CrossStream.new exact one;
  raw = some [];
  counters = zero_counters;
  total_slots = 0;
}

abbrev ring : Ring queue
ring = record { channel = (events, 8); stats = Stats.new }

drain_takes_first_example : Drained queue_laws 3 events 0 dispatcher (drain_ring 3 ring dispatcher)
unfolding Stats.new
drain_takes_first_example = drain_takes_first queue_laws 3 ring dispatcher (omega arith)

two_left : (drain_ring 3 ring dispatcher).1.channel.0 ≡ event 6 ∷ event 7 ∷ []
unfolding drain_ring try_recv
two_left = refl

three_counted : new_tops 0 (processed_slots events) ≡ 3
three_counted = refl

stop_is_reached_and_kept_example :
    should_stop (stop_slots 3) 20 (dispatch_all dispatcher events).total_slots ≡ true
stop_is_reached_and_kept_example =
    stop_is_reached_and_kept (stop_slots 3) dispatcher events 10 20 (omega arith) (omega arith)
      (inr (omega arith))

no_disconnect_reported_example :
    let t = (dispatch_all dispatcher events).stability in
    ((Stability.summary t).0.disconnects ≡ [])
    × (t.reconnect_ttfm ≡ Stability.new_digest exact)
    × (t.pending_reconnect_mono_ns ≡ none)
unfolding Stability.new
no_disconnect_reported_example = no_disconnect_reported dispatcher events refl

-- The receiver of a ring that sends nothing, and one that fills its ring again before each receive.
abbrev quiet : ℕ → ℕ → Ring queue → Ring queue
quiet i k r = r

abbrev refill : ℕ → ℕ → Ring queue → Ring queue
refill i k r = ring

-- A receiver that sends one more event at the third receive of a turn.
abbrev one_more : ℕ → ℕ → Ring queue → Ring queue
one_more i k r =
    if nat_beq k 1021 then record r { channel = (push r.channel.0 (event 8), 8) } else r

abbrev before_shutdown : Turn queue
before_shutdown = record { arrive = one_more; is_shutdown = false; now = 100; later = 100 }

-- One turn before the shutdown, and one in it.
abbrev turns : List (Turn queue)
turns = before_shutdown ∷ record { arrive = quiet; is_shutdown = true; now = 200; later = 201 } ∷ []

abbrev drained_ring : Ring queue
drained_ring = record { channel = ([], 8); stats = record ring.stats { received = 6 } }

exit_leaves_nothing_example :
    AllDrained queue_laws (drained_ring ∷ []) (main one processed slots ∷ [])
unfolding dispatcher_loop drain_rings drain_shared try_recv Stats.new
exit_leaves_nothing_example =
    exit_leaves_nothing queue_laws turns 200 (ring ∷ []) (main one processed slots ∷ []) dispatcher
      (drained_ring ∷ []) (dispatch_all dispatcher (push events (event 8)))
      (tt, ((omega arith, omega arith), tt)) refl

-- The receivers fill the ring again before each receive.
abbrev late_turn : ℕ → Turn queue
late_turn n = record { arrive = refill; is_shutdown = true; now = n; later = n }

exit_comes_example :
    is_some (
      dispatcher_loop
        (before_shutdown ∷ late_turn 200 ∷ late_turn 1000 ∷ late_turn 2000000200 ∷ [])
        none
        (ring ∷ [])
        (main one processed slots ∷ [])
        dispatcher)
    ≡ true
exit_comes_example =
    exit_comes (before_shutdown ∷ []) (late_turn 1000 ∷ []) (late_turn 200) (late_turn 2000000200)
      (ring ∷ []) (main one processed slots ∷ []) dispatcher (refl, tt) refl refl (omega arith)

abbrev rings : List (ReceiverStats × SubscriptionRole)
rings =
    (record Stats.new { received = 7; dropped = 2 }, main one processed slots)
    ∷ (record Stats.new { received = 18446744073709551615 }, main one processed slots)
    ∷ (record Stats.new { received = 5; dropped = 1 }, main two processed slots)
    ∷ []

slots_of_default : ring_capacity_for (main one processed slots) 65536 ≡ 8192
unfolding ring_capacity_for
slots_of_default = refl
