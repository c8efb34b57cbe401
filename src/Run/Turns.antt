-- ===== src/Run/Turns.antt =====
-- What one turn of the dispatcher's loop of src/run.rs comes to.
use grpc_bench.Prelude.{ℕ, zero, suc, ◌-◌, ◌≡◌, refl, ap, true, false, Option, some, List, ◌∷◌}
use grpc_bench.Floats.{Floats}
use grpc_bench.Subscribe.{SubscriptionRole}
use grpc_bench.Collect.{Event}
use grpc_bench.Collect.Ring.{ChannelOps, Ring, RecvOutcome, received, empty, sender_gone, try_recv}
use grpc_bench.Run.{Dispatcher, dispatch_event, count_received, drain_ring}
use grpc_bench.Run.Loop.{
  Turn, started, first_seen, should_exit, drain_shared, drain_rings, dispatcher_loop,
}

module _ {N : Floats} {C : ChannelOps} where
  quiet_recv :
      (budget : ℕ) (r : Ring C) (d : Dispatcher N) (outcome : RecvOutcome)
      → (try_recv r).0 ≡ outcome
      → ((r' : Ring C) (d' : Dispatcher N)
          → drain_shared (λ k r. r) budget r' d' ≡ drain_ring budget r' d')
      → drain_shared (λ k r. r) (suc budget) r d ≡ drain_ring (suc budget) r d
  unfolding drain_shared drain_ring
  quiet_recv budget r d (received event) took rest =
      rw (drain_shared, drain_ring, took)
        (ap (λ o. (true, o.1, o.2)) (rest (count_received (try_recv r).1) (dispatch_event d event)))
  quiet_recv budget r d empty took rest = rw (drain_shared, drain_ring, took) refl
  quiet_recv budget r d sender_gone took rest = rw (drain_shared, drain_ring, took) refl

  -- With a receiver that does nothing meanwhile, a turn through a ring is that of `drain_ring`.
  pub drain_shared-quiet :
      (budget : ℕ) (r : Ring C) (d : Dispatcher N)
      → drain_shared (λ k r. r) budget r d ≡ drain_ring budget r d
  unfolding drain_shared drain_ring
  drain_shared-quiet zero r d = refl
  drain_shared-quiet (suc budget) r d = quiet_recv budget r d _ refl (drain_shared-quiet budget)

  pub busy_ring :
      (arrive : ℕ → Ring C → Ring C) (budget : ℕ) (r : Ring C) (d : Dispatcher N) (event : Event)
      → (C.channel_try_recv (arrive budget r).channel).0 ≡ received event
      → (drain_shared arrive (suc budget) r d).0 ≡ true
  unfolding drain_shared try_recv
  busy_ring arrive budget r d event took = rw (drain_shared, try_recv, took) refl

  module _ (turn : Turn C) (turns : List (Turn C)) (at : Option ℕ) (rings : List (Ring C))
      (roles : List SubscriptionRole) (d : Dispatcher N) where
    pub loop-exits :
        let out = drain_rings turn.arrive rings roles d in
        should_exit turn.is_shutdown out.0 (turn.later - started at turn.now) ≡ true
        → dispatcher_loop (turn ∷ turns) at rings roles d ≡ some (out.1, out.2)
    unfolding dispatcher_loop
    loop-exits ends = rw (dispatcher_loop, ends) refl

    pub loop-goes_on :
        let out = drain_rings turn.arrive rings roles d in
        should_exit turn.is_shutdown out.0 (turn.later - started at turn.now) ≡ false
        → dispatcher_loop (turn ∷ turns) at rings roles d
          ≡ dispatcher_loop turns (first_seen at turn.is_shutdown turn.now) out.1 roles out.2
    unfolding dispatcher_loop
    loop-goes_on more = rw (dispatcher_loop, more) refl
