-- ===== src/Stability/Tests.antt =====
-- The stability theorems at concrete inputs.
use grpc_bench.Prelude.{ℕ, ◌≡◌, refl, false, none, some, List, [], ◌∷◌, ◌++◌, inl}
use grpc_bench.Prelude.HashMap.{insert}
use grpc_bench.Floats.Exact.{exact, exact_laws}
use grpc_bench.Timing.{EventTimestamp}
use grpc_bench.Config.{processed, confirmed}
use grpc_bench.Subscribe.{one, main, slots}
use grpc_bench.Subscribe.Requests.{build_slot_request}
use grpc_bench.Subscribe.Plan.{EndpointSpec, PlanConfig, from_run_config, endpoint_specs}
use grpc_bench.Collect.{Event, slot, processed as stage_processed, confirmed as stage_confirmed}
use grpc_bench.Stability.{new, new_digest}
use grpc_bench.Stability.Stalls.{
  observe_all, stall_times, long_gaps, slot_arrivals, stalls_are_long_gaps,
}
use grpc_bench.Stability.PlannedRun.{planned_run_has_no_drift}

abbrev at : ℕ → EventTimestamp
at mono_ns = record { mono_ns = mono_ns; wall_ms = 4 }

-- A processed and a confirmed arrival of one slot, 700 ms apart, on the endpoint's slot stream.
abbrev events : List Event
events =
    record {
      ts = at 100;
      subscription = main one processed slots;
      payload = slot 5 stage_processed;
    }
    ∷ record {
      ts = at 700000100;
      subscription = main one processed slots;
      payload = slot 5 stage_confirmed;
    }
    ∷ []

stalls_are_long_gaps_example :
    stall_times (observe_all (new exact one) events).stall_events
    ≡ stall_times (new exact one).stall_events
      ++ long_gaps (new exact one).last_slot_event_ts (slot_arrivals (new exact one).role events)
stalls_are_long_gaps_example = stalls_are_long_gaps exact_laws (new exact one) events

one_stall : long_gaps none (slot_arrivals one events) ≡ 4 ∷ []
one_stall = refl

abbrev endpoint_spec : EndpointSpec
endpoint_spec = record { url = "host:1"; x_token = "token"; tls_forced = false }

abbrev config : PlanConfig
config = record {
  endpoint1 = endpoint_spec;
  endpoint2 = some endpoint_spec;
  entries_endpoint1 = none;
  entries_endpoint2 = none;
  commitments = processed ∷ confirmed ∷ [];
  with_blocks = false;
  with_transactions = false;
  accounts_programs_per_filter = 1;
  solo = false;
  solo_streams = [];
}

planned_run_has_no_drift_example :
    (observe_all (new exact one) events).drift_digest ≡ new_digest exact
unfolding from_run_config endpoint_specs build_slot_request insert
planned_run_has_no_drift_example =
    planned_run_has_no_drift exact one config [] events refl
      (inl (refl, refl), (inl (refl, refl), tt))
