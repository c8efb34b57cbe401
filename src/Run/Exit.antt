-- ===== src/Run/Exit.antt =====
-- When the loop of a dispatcher of src/run.rs exits, and what its last turn found in its rings.
use grpc_bench.Prelude.{
  ℕ, suc, ◌+◌, ◌-◌, ◌<◌, ◌≤◌, ◌≡◌, refl, ◌∙◌, sym, Bool, true, false, ◌||◌, Option, none, some,
  List, [], ◌∷◌, ◌++◌, All, is_some, Bool-cases, inl, inr, arith,
}
use grpc_bench.Floats.{Floats}
use grpc_bench.Subscribe.{SubscriptionRole}
use grpc_bench.Collect.Ring.{ChannelOps, Ring, RecvOutcome, received, empty, sender_gone, try_recv}
use grpc_bench.Collect.Ring.Trace.{ChannelLaws, RecvLaw}
use grpc_bench.Run.{Dispatcher, drain_budget_per_ring}
use grpc_bench.Run.Turns.{busy_ring, loop-exits, loop-goes_on}
use grpc_bench.Run.Loop.{
  Turn, started, first_seen, should_exit, dispatcher_post_shutdown_budget, drain_shared,
  drain_rings, dispatcher_loop,
}

or-false : (a b : Bool) → (a || b) ≡ false → (a ≡ false) × (b ≡ false)
or-false true b h = absurd (cc)
or-false false b h = (refl, h)

module _ {C : ChannelOps} (L : ChannelLaws C) where
  -- Every ring that has a role is empty.
  abbrev pub AllDrained : List (Ring C) → List SubscriptionRole → Type 0
  AllDrained [] roles = Unit
  AllDrained (r ∷ rs) [] = Unit
  AllDrained (r ∷ rs) (role ∷ roles) = (L.contents r.channel ≡ []) × AllDrained rs roles

-- A turn that sees the shutdown does so from a moment on and within the budget of it.
abbrev pub IsWithin : ℕ → Bool → ℕ → ℕ → Type 0
IsWithin moment false now later = Unit
IsWithin moment true now later = (moment ≤ now) × (later < moment + dispatcher_post_shutdown_budget)

abbrev pub IsInBudget : {C : ChannelOps} → ℕ → Turn C → Type 0
IsInBudget moment turn = IsWithin moment turn.is_shutdown turn.now turn.later

abbrev pub IsUnshut : {C : ChannelOps} → Turn C → Type 0
IsUnshut turn = turn.is_shutdown ≡ false

-- The moment at which the shutdown was first seen, if it was, is not before the given one.
abbrev NotBefore : ℕ → Option ℕ → Type 0
NotBefore moment none = Unit
NotBefore moment (some at) = moment ≤ at

first_seen-NotBefore :
    (moment : ℕ) (at : Option ℕ) (is_shutdown : Bool) (now later : ℕ)
    → IsWithin moment is_shutdown now later
    → NotBefore moment at
    → NotBefore moment (first_seen at is_shutdown now)
first_seen-NotBefore moment at false now later quick h = h
first_seen-NotBefore moment none true now later quick h = quick.0
first_seen-NotBefore moment (some at) true now later quick h = h

started-NotBefore :
    (moment : ℕ) (at : Option ℕ) (now : ℕ)
    → moment ≤ now
    → NotBefore moment at
    → moment ≤ started at now
started-NotBefore moment none now up h = up
started-NotBefore moment (some at) now up h = h

quick_exit :
    (moment : ℕ) (at : Option ℕ) (is_shutdown got_any : Bool) (now later : ℕ)
    → should_exit is_shutdown got_any (later - started at now) ≡ true
    → IsWithin moment is_shutdown now later
    → NotBefore moment at
    → got_any ≡ false
quick_exit moment at s false now later ends quick h = refl
quick_exit moment at false true now later ends quick h = absurd (cc)
quick_exit moment at true true now later ends quick h =
    let up = started-NotBefore moment at now quick.0 h in
    let (from, to) = quick in absurd (ground (arith, ends, up, to))

overdue :
    (is_shutdown got_any : Bool) (waited : ℕ)
    → is_shutdown ≡ true
    → dispatcher_post_shutdown_budget ≤ waited
    → should_exit is_shutdown got_any waited ≡ true
overdue s got_any waited down late = ground (arith, down, late)

goes_on :
    (is_shutdown got_any : Bool) (waited : ℕ)
    → is_shutdown ≡ false
    → should_exit is_shutdown got_any waited ≡ false
goes_on s got_any waited up = rw up refl

-- Once the shutdown has been seen, a later reading of the clock never changes when.
first_seen-kept :
    (at : ℕ) (is_shutdown : Bool) (now : ℕ) → first_seen (some at) is_shutdown now ≡ some at
first_seen-kept at true now = refl
first_seen-kept at false now = refl

module _ {N : Floats} {C : ChannelOps} where
  overdue_exit :
      (between : List (Turn C)) (last : Turn C) (at : ℕ) (rings : List (Ring C))
      (roles : List SubscriptionRole) (d : Dispatcher N)
      → last.is_shutdown ≡ true
      → at + dispatcher_post_shutdown_budget ≤ last.later
      → is_some (dispatcher_loop (between ++ last ∷ []) (some at) rings roles d) ≡ true
  overdue_exit [] last at rings roles d down late =
      rw
        (loop-exits last [] (some at) rings roles d (
          overdue last.is_shutdown (drain_rings last.arrive rings roles d).0 (last.later - at) down
            (omega (arith, late))))
        refl
  overdue_exit (turn ∷ between) last at rings roles d down late =
      let turns = between ++ last ∷ [] in
      let out = drain_rings turn.arrive rings roles d in
      elim (Bool-cases (should_exit turn.is_shutdown out.0 (turn.later - at))) [
        | inl ends ↦ rw (loop-exits turn turns (some at) rings roles d ends) refl
        | inr more ↦
            rw
              (
                loop-goes_on turn turns (some at) rings roles d more,
                first_seen-kept at turn.is_shutdown turn.now,
              )
              (overdue_exit between last at out.1 roles out.2 down late)
      ]

  -- A dispatcher has exited by any turn that sees the shutdown and reads the clock 2 s or more after
  -- the first turn that saw it, even if the receivers go on filling the rings all the while.
  pub exit_comes :
      (before between : List (Turn C)) (first last : Turn C) (rings : List (Ring C))
      (roles : List SubscriptionRole) (d : Dispatcher N)
      → All IsUnshut before
      → first.is_shutdown ≡ true
      → last.is_shutdown ≡ true
      → first.now + dispatcher_post_shutdown_budget ≤ last.later
      → is_some (dispatcher_loop (before ++ first ∷ between ++ last ∷ []) none rings roles d) ≡ true
  exit_comes [] between first last rings roles d unshut seen down late =
      let turns = between ++ last ∷ [] in
      let out = drain_rings first.arrive rings roles d in
      elim (Bool-cases (should_exit first.is_shutdown out.0 (first.later - first.now))) [
        | inl ends ↦ rw (loop-exits first turns none rings roles d ends) refl
        | inr more ↦
            rw (loop-goes_on first turns none rings roles d more, seen)
              (overdue_exit between last first.now out.1 roles out.2 down late)
      ]
  exit_comes (turn ∷ before) between first last rings roles d unshut seen down late =
      let turns = before ++ first ∷ between ++ last ∷ [] in
      let out = drain_rings turn.arrive rings roles d in
      rw
        (
          loop-goes_on turn turns none rings roles d (goes_on turn.is_shutdown out.0 _ unshut.0),
          unshut.0,
        )
        (exit_comes before between first last out.1 roles out.2 unshut.1 seen down late)

some_pair : {A B : Type 0} → {p q : A × B} → some p ≡ some q → p.0 ≡ q.0
some_pair h = cc

module _ {N : Floats} {C : ChannelOps} (L : ChannelLaws C) where
  idle_recv :
      (arrive : ℕ → Ring C → Ring C) (budget : ℕ) (r : Ring C) (d : Dispatcher N)
      (outcome : RecvOutcome)
      → let seen = (arrive budget r).channel in
        (C.channel_try_recv seen).0 ≡ outcome
        → RecvLaw (L.contents seen) outcome (L.contents (C.channel_try_recv seen).1)
        → (drain_shared arrive (suc budget) r d).0 ≡ false
        → L.contents (drain_shared arrive (suc budget) r d).1.channel ≡ []
  unfolding drain_shared try_recv
  idle_recv arrive budget r d (received event) took law idle =
      let busy = busy_ring arrive budget r d event took in absurd (cc)
  idle_recv arrive budget r d empty took law idle = rw (drain_shared, try_recv, took) law.1
  idle_recv arrive budget r d sender_gone took law idle = rw (drain_shared, try_recv, took) law.1

  idle_ring :
      (arrive : ℕ → Ring C → Ring C) (r : Ring C) (d : Dispatcher N)
      → (drain_shared arrive drain_budget_per_ring r d).0 ≡ false
      → L.contents (drain_shared arrive drain_budget_per_ring r d).1.channel ≡ []
  idle_ring arrive r d idle = idle_recv arrive 1023 r d _ refl (L.recv (arrive 1023 r).channel) idle

  idle_rings :
      (arrive : ℕ → ℕ → Ring C → Ring C) (rs : List (Ring C)) (roles : List SubscriptionRole)
      (d : Dispatcher N)
      → (drain_rings arrive rs roles d).0 ≡ false
      → AllDrained L (drain_rings arrive rs roles d).1 roles
  unfolding drain_rings
  idle_rings arrive [] roles d idle = tt
  idle_rings arrive (r ∷ rs) [] d idle = tt
  idle_rings arrive (r ∷ rs) (role ∷ roles) d idle =
      let both = or-false _ _ idle in
      (idle_ring (arrive 0) r d both.0, idle_rings (λ i. arrive (suc i)) rs roles _ both.1)

  idle_exit :
      (turns : List (Turn C)) (moment : ℕ) (at : Option ℕ) (rings : List (Ring C))
      (roles : List SubscriptionRole) (d : Dispatcher N) (left : List (Ring C)) (d' : Dispatcher N)
      → All (IsInBudget moment) turns
      → NotBefore moment at
      → dispatcher_loop turns at rings roles d ≡ some (left, d')
      → AllDrained L left roles
  unfolding dispatcher_loop
  idle_exit [] moment at rings roles d left d' quick h done = absurd (cc)
  idle_exit (turn ∷ turns) moment at rings roles d left d' quick h done =
      let out = drain_rings turn.arrive rings roles d in
      elim (Bool-cases (should_exit turn.is_shutdown out.0 (turn.later - started at turn.now))) [
        | inl ends ↦
            let idle = quick_exit moment at turn.is_shutdown out.0 _ _ ends quick.0 h in
            let same : out.1 ≡ left =
              some_pair {p = (out.1, out.2)} {q = (left, d')}
                (sym (loop-exits turn turns at rings roles d ends) ∙ done) in
            rw (sym same) (idle_rings turn.arrive rings roles d idle)
        | inr more ↦
            idle_exit turns moment (first_seen at turn.is_shutdown turn.now) out.1 roles out.2 left
              d' quick.1
              (first_seen-NotBefore moment at turn.is_shutdown turn.now turn.later quick.0 h)
              (sym (loop-goes_on turn turns at rings roles d more) ∙ done)
      ]

  -- If a dispatcher exits, and all its turns that saw the shutdown lie within 2 s of some moment, then
  -- the last receive from each ring that has a role found it empty, whatever the receivers did before
  -- and between the receives; what they send after that is not taken.
  pub exit_leaves_nothing :
      (turns : List (Turn C)) (moment : ℕ) (rings : List (Ring C)) (roles : List SubscriptionRole)
      (d : Dispatcher N) (left : List (Ring C)) (d' : Dispatcher N)
      → All (IsInBudget moment) turns
      → dispatcher_loop turns none rings roles d ≡ some (left, d')
      → AllDrained L left roles
  exit_leaves_nothing turns moment rings roles d left d' quick done =
      idle_exit turns moment none rings roles d left d' quick tt done
