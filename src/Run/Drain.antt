-- ===== src/Run/Drain.antt =====
-- What one dispatcher of src/run.rs takes from a ring in one turn.
use grpc_bench.Prelude.{
  ℕ, zero, suc, ◌+◌, ◌%◌, ◌<◌, ◌≡◌, refl, sym, ◌∙◌, Bool, false, not, List, [], length, take, drop,
  is_empty, arith,
}
use grpc_bench.Prelude.Words.{u64_mod}
use grpc_bench.Floats.{Floats}
use grpc_bench.Collect.{Event}
use grpc_bench.Collect.Ring.{ChannelOps, Ring, RecvOutcome, received, empty, sender_gone, try_recv}
use grpc_bench.Collect.Ring.Trace.{ChannelLaws, RecvLaw}
use grpc_bench.Run.{Dispatcher, dispatch_event, dispatch_all, count_received, drain_ring}

module _ {N : Floats} {C : ChannelOps} (L : ChannelLaws C) where
  -- Of a turn through a ring: what it read, what is left, and the counter.
  abbrev pub Drained : ℕ → List Event → ℕ → Dispatcher N → Bool × Ring C × Dispatcher N → Type 0
  Drained budget waiting seen d out =
      (out.2 ≡ dispatch_all d (take budget waiting))
      × (L.contents out.1.channel ≡ drop budget waiting)
      × (out.0 ≡ not (is_empty (take budget waiting)))
      × (out.1.stats.received ≡ (seen + length (take budget waiting)) % u64_mod)

  Drained-empty :
      (budget : ℕ) (waiting : List Event) (r : Ring C) (d : Dispatcher N)
      → r.stats.received < u64_mod
      → waiting ≡ []
      → L.contents r.channel ≡ []
      → Drained budget waiting r.stats.received d (false, r, d)
  Drained-empty zero waiting r d small w c = (refl, c ∙ sym w, refl, omega (arith, small))
  Drained-empty (suc n) waiting r d small w c = rw w (refl, c, refl, omega (arith, small))

  after_recv :
      (budget : ℕ) (r : Ring C) (d : Dispatcher N) (outcome : RecvOutcome)
      → (C.channel_try_recv r.channel).0 ≡ outcome
      → RecvLaw (L.contents r.channel) outcome (L.contents (C.channel_try_recv r.channel).1)
      → r.stats.received < u64_mod
      → ((r' : Ring C) (d' : Dispatcher N)
          → r'.stats.received < u64_mod
          → Drained budget (L.contents r'.channel) r'.stats.received d' (drain_ring budget r' d'))
      → Drained (suc budget) (L.contents r.channel) r.stats.received d (drain_ring (suc budget) r d)
  unfolding drain_ring try_recv
  after_recv budget r d (received event) took law small rest =
      let h = rest (count_received (try_recv r).1) (dispatch_event d event) (omega arith) in
      rw (drain_ring, try_recv, took, law) (h.0, h.1, refl, omega (arith, h.3))
  after_recv budget r d empty took law small rest =
      rw (drain_ring, try_recv, took)
        (Drained-empty (suc budget) _ (try_recv r).1 d small law.0 law.1)
  after_recv budget r d sender_gone took law small rest =
      rw (drain_ring, try_recv, took)
        (Drained-empty (suc budget) _ (try_recv r).1 d small law.0 law.1)

  -- While the ring's receiver is idle, a turn through a ring on a budget dispatches what waits in it, in order, up to the budget, and
  -- leaves the rest; it reports whether it dispatched anything; and it adds the number dispatched to
  -- `received`, modulo 2 ^ 64.
  pub drain_takes_first :
      (budget : ℕ) (r : Ring C) (d : Dispatcher N)
      → r.stats.received < u64_mod
      → Drained budget (L.contents r.channel) r.stats.received d (drain_ring budget r d)
  unfolding drain_ring
  drain_takes_first zero r d small = (refl, refl, refl, omega (arith, small))
  drain_takes_first (suc budget) r d small =
      after_recv budget r d _ refl (L.recv r.channel) small (drain_takes_first budget)
