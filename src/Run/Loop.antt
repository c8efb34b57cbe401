-- ===== src/Run/Loop.antt =====
-- src/run.rs: the loop of one dispatcher thread, from its start to its exit.
use grpc_bench.Prelude.{
  ℕ, zero, suc, ◌-◌, Bool, true, false, not, ◌||◌, ◌&&◌, Option, none, some, List, [], ◌∷◌, leb,
}
use grpc_bench.Floats.{Floats}
use grpc_bench.Subscribe.{SubscriptionRole}
use grpc_bench.Collect.Ring.{ChannelOps, Ring, received, empty, sender_gone, try_recv}
use grpc_bench.Run.{Dispatcher, dispatch_event, count_received, drain_budget_per_ring}

-- Two seconds, in nanoseconds.
abbrev pub dispatcher_post_shutdown_budget : ℕ
dispatcher_post_shutdown_budget = 2000000000

-- What one turn of the loop meets. `arrive i k` is what the receiver of the i-th ring did to it between
-- the last receive from it, of this turn or the one before, and the receive at which `k` more are in
-- the budget; receivers may run between any two steps of a turn. `now` and `later` are the two
-- readings of the clock in nanoseconds, that of `Instant::now` and that of `started.elapsed`.
pub record Turn (C : ChannelOps) : Type 1 where
  pub arrive : ℕ → ℕ → Ring C → Ring C
  pub is_shutdown : Bool
  pub now : ℕ
  pub later : ℕ

-- `shutdown_observed_at.get_or_insert_with(Instant::now)`
abbrev pub started : Option ℕ → ℕ → ℕ
started none now = now
started (some at) now = at

-- `shutdown_observed_at` after the turn.
abbrev pub first_seen : Option ℕ → Bool → ℕ → Option ℕ
first_seen at false now = at
first_seen at true now = some (started at now)

-- Whether the turn breaks out of the loop.
abbrev pub should_exit : Bool → Bool → ℕ → Bool
should_exit is_shutdown got_any elapsed =
    is_shutdown && (not got_any || leb dispatcher_post_shutdown_budget elapsed)

module _ {N : Floats} {C : ChannelOps} where
  -- The `while` of a turn with the receiver running: `drain_ring` where it does nothing meanwhile.
  unfoldable pub drain_shared :
      (ℕ → Ring C → Ring C) → ℕ → Ring C → Dispatcher N → Bool × Ring C × Dispatcher N
  drain_shared arrive zero r d = (false, r, d)
  drain_shared arrive (suc budget) r d =
      let (outcome, r') = try_recv (arrive budget r) in
      elim outcome [
        | received event ↦
            let (got_any, r2, d2) =
              drain_shared arrive budget (count_received r') (dispatch_event d event) in
            (true, r2, d2)
        | empty ↦ (false, r', d)
        | sender_gone ↦ (false, r', d)
      ]

  -- The `for`: one turn through `rings.iter().zip(&roles)`. Each ring is given as its last receive
  -- left it.
  unfoldable pub drain_rings :
      (ℕ → ℕ → Ring C → Ring C)
      → List (Ring C)
      → List SubscriptionRole
      → Dispatcher N
      → Bool × List (Ring C) × Dispatcher N
  drain_rings arrive [] roles d = (false, [], d)
  drain_rings arrive (r ∷ rs) [] d = (false, r ∷ rs, d)
  drain_rings arrive (r ∷ rs) (role ∷ roles) d =
      let (got, r', d1) = drain_shared (arrive 0) drain_budget_per_ring r d in
      let (got_rest, rs', d2) = drain_rings (λ i. arrive (suc i)) rs roles d1 in
      (got || got_rest, r' ∷ rs', d2)

  -- The loop over the turns that it meets: `none` if it has not exited by their end. The rings are
  -- given as their last receives left them; what a receiver sends after these is never taken.
  unfoldable pub dispatcher_loop :
      List (Turn C)
      → Option ℕ
      → List (Ring C)
      → List SubscriptionRole
      → Dispatcher N
      → Option (List (Ring C) × Dispatcher N)
  dispatcher_loop [] at rings roles d = none
  dispatcher_loop (turn ∷ turns) at rings roles d =
      let (got_any, rings', d') = drain_rings turn.arrive rings roles d in
      elim (should_exit turn.is_shutdown got_any (turn.later - started at turn.now)) [
        | true ↦ some (rings', d')
        | false ↦ dispatcher_loop turns (first_seen at turn.is_shutdown turn.now) rings' roles d'
      ]
