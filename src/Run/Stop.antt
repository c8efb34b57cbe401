-- ===== src/Run/Stop.antt =====
-- When the stop condition of src/run.rs holds, over a run.
use grpc_bench.Prelude.{inl, inr, ◌⊎◌, ℕ, ◌+◌, ◌<◌, ◌≤◌, ◌≡◌, true, List, length, arith}
use grpc_bench.Prelude.Words.{u64_mod}
use grpc_bench.Floats.{Floats}
use grpc_bench.Collect.{Event}
use grpc_bench.Run.{
  StopCondition, stop_slots, stop_duration, stop_either, should_stop, Dispatcher, dispatch_all,
}
use grpc_bench.Run.Counted.{processed_slots, new_tops, total_slots_counts_tops}

-- The slots after which a stop condition holds, whatever the time.
abbrev pub SlotBound : StopCondition → ℕ → Type 0
SlotBound (stop_slots n) bound = n ≤ bound
SlotBound (stop_duration secs) bound = ⊥
SlotBound (stop_either n secs) bound = n ≤ bound

should_stop-later :
    (c : StopCondition) (elapsed later slots_before slots_after : ℕ)
    → elapsed ≤ later
    → slots_before ≤ slots_after
    → should_stop c elapsed slots_before ≡ true
    → should_stop c later slots_after ≡ true
unfolding should_stop
should_stop-later (stop_slots n) elapsed later a b h k s = ground (arith, h, k, s)
should_stop-later (stop_duration n) elapsed later a b h k s = ground (arith, h, k, s)
should_stop-later (stop_either n m) elapsed later a b h k s = ground (arith, h, k, s)

should_stop-SlotBound :
    (c : StopCondition) (elapsed total : ℕ) → SlotBound c total → should_stop c elapsed total ≡ true
unfolding should_stop
should_stop-SlotBound (stop_slots n) elapsed total h = ground (arith, h)
should_stop-SlotBound (stop_duration n) elapsed total h = absurd h
should_stop-SlotBound (stop_either n m) elapsed total h = ground (arith, h)

module _ {N : Floats} where
  -- Over a run of fewer than 2 ^ 64 events, the stop condition holds after it, at any later time, if
  -- it held before it, or if it has a bound on slots which the slots counted before the run and the
  -- run's new top processed slots of endpoint one reach.
  pub stop_is_reached_and_kept :
      (c : StopCondition) (d : Dispatcher N) (es : List Event) (elapsed later : ℕ)
      → d.total_slots + length es < u64_mod
      → elapsed ≤ later
      → (should_stop c elapsed d.total_slots ≡ true)
        ⊎ SlotBound c (d.total_slots + new_tops d.counters.last_counted_slot (processed_slots es))
      → should_stop c later (dispatch_all d es).total_slots ≡ true
  stop_is_reached_and_kept c d es elapsed later small h (inl held) =
      let counted = total_slots_counts_tops d es small in
      should_stop-later c elapsed later _ _ h (omega (arith, counted)) held
  stop_is_reached_and_kept c d es elapsed later small h (inr bound) =
      rw (total_slots_counts_tops d es small) (should_stop-SlotBound c later _ bound)
