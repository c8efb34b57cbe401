-- ===== src/Stability/Stalls.antt =====
-- The stalls of src/stability.rs against the arrival times of the slot events.
use grpc_bench.Prelude.{
  ℕ, ◌-◌, ◌≡◌, refl, sym, ap, ◌∙◌, inl, inr, Option, none, some, List, [], ◌∷◌, ◌++◌, push,
  append-nil, ltb, arith, if◌then◌else◌, Option-cases, Bool-cases,
}
use grpc_bench.Prelude.Int.{pos, clamp_zero}
use grpc_bench.Prelude.Words.{i64_diff, to_i64}
use grpc_bench.Prelude.Eq.{nat_eq}
use grpc_bench.Prelude.HashMap.{get}
use grpc_bench.Floats.{Floats, FloatLaws, lit}
use grpc_bench.Timing.{EventTimestamp}
use grpc_bench.Config.{processed, confirmed}
use grpc_bench.Subscribe.{EndpointRole, SubscriptionRole, main, endpoint, role_beq}
use grpc_bench.Collect.{
  Event, EventPayload, slot, account, transaction, block, entry, SlotStage,
  processed as stage_processed, confirmed as stage_confirmed,
}
use grpc_bench.Stability.{
  StabilityTracker, StallEvent, clamped_ms, take_reconnect, gap_since, observe_gap, observe_drift,
  observe_processed, observe_confirmed, record_drift, observe_payload, observe, stall_threshold_ms,
}

-- The arrivals of one endpoint's slot events.
abbrev pub slot_arrivals_of : EventTimestamp → EventPayload → List EventTimestamp
slot_arrivals_of ts (slot s stage) = ts ∷ []
slot_arrivals_of ts (account a) = []
slot_arrivals_of ts (transaction s signature index) = []
slot_arrivals_of ts (block b) = []
slot_arrivals_of ts (entry e) = []

abbrev pub slot_arrivals : EndpointRole → List Event → List EventTimestamp
slot_arrivals role [] = []
slot_arrivals role (e ∷ es) =
    let rest = slot_arrivals role es in
    if role_beq (endpoint e.subscription) role
    then slot_arrivals_of e.ts e.payload ++ rest
    else rest

-- The wall times of the arrivals that come more than 600 ms after the one before, in nanoseconds
-- and integers.
abbrev pub long_gaps : Option EventTimestamp → List EventTimestamp → List ℕ
long_gaps last [] = []
long_gaps none (ts ∷ rest) = long_gaps (some ts) rest
long_gaps (some prev) (ts ∷ rest) =
    let later = long_gaps (some ts) rest in
    if ltb 600000000 (to_i64 ts.mono_ns - to_i64 prev.mono_ns) then ts.wall_ms ∷ later else later

abbrev pub stall_times : {N : Floats} → List (StallEvent N) → List ℕ
stall_times [] = []
stall_times (s ∷ ss) = s.wall_ms ∷ stall_times ss

module _ {N : Floats} where
  stall_times-push :
      (ss : List (StallEvent N)) (s : StallEvent N) (later : List ℕ)
      → stall_times (push ss s) ++ later ≡ stall_times ss ++ s.wall_ms ∷ later
  stall_times-push [] s later = refl
  stall_times-push (x ∷ ss) s later = ap (λ ys. x.wall_ms ∷ ys) (stall_times-push ss s later)

  -- What `observe` keeps outside of its gap step.
  record Same (t t' : StabilityTracker N) : Type 0 where
    role : t'.role ≡ t.role
    last : t'.last_slot_event_ts ≡ t.last_slot_event_ts
    stalls : t'.stall_events ≡ t.stall_events

  take_reconnect-Same :
      (t : StabilityTracker N) (ts : EventTimestamp) → Same t (take_reconnect t ts)
  unfolding take_reconnect
  take_reconnect-Same t ts = elim (Option-cases t.pending_reconnect_mono_ns) [
    | inl absent ↦ rw (take_reconnect, absent) (record { role = refl; last = refl; stalls = refl })
    | inr (at, present) ↦
        rw (take_reconnect, present) (record { role = refl; last = refl; stalls = refl })
  ]

  observe_processed-Same :
      (t : StabilityTracker N) (s : ℕ) (ts : EventTimestamp) → Same t (observe_processed t s ts)
  unfolding observe_processed record_drift
  observe_processed-Same t s ts = elim (Option-cases (get s t.confirmed_arrivals)) [
    | inl absent ↦
        rw (observe_processed, absent) (record { role = refl; last = refl; stalls = refl })
    | inr (c, present) ↦
        rw (observe_processed, present) (record { role = refl; last = refl; stalls = refl })
  ]

  observe_confirmed-Same :
      (t : StabilityTracker N) (s : ℕ) (ts : EventTimestamp) → Same t (observe_confirmed t s ts)
  unfolding observe_confirmed record_drift
  observe_confirmed-Same t s ts = elim (Option-cases (get s t.processed_arrivals)) [
    | inl absent ↦
        rw (observe_confirmed, absent) (record { role = refl; last = refl; stalls = refl })
    | inr (c, present) ↦
        rw (observe_confirmed, present) (record { role = refl; last = refl; stalls = refl })
  ]

  observe_drift-Same :
      (t : StabilityTracker N) (stage : SlotStage) (sub : SubscriptionRole) (s : ℕ)
      (ts : EventTimestamp)
      → Same t (observe_drift t stage sub s ts)
  observe_drift-Same t stage_processed (main role processed stream) s ts =
      observe_processed-Same t s ts
  observe_drift-Same t stage_confirmed (main role confirmed stream) s ts =
      observe_confirmed-Same t s ts
  observe_drift-Same t _ _ s ts = record { role = refl; last = refl; stalls = refl }

  role-gap_since :
      (t : StabilityTracker N) (last : Option EventTimestamp) (ts : EventTimestamp)
      → (gap_since t last ts).role ≡ t.role
  role-gap_since t none ts = refl
  role-gap_since t (some prev) ts = refl

  unfoldable pub observe_all : StabilityTracker N → List Event → StabilityTracker N
  observe_all t [] = t
  observe_all t (e ∷ es) = observe_all (observe t e) es

module _ {N : Floats} (F : FloatLaws N) where
  -- The float test is the integer one.
  stall_test :
      (a b : ℕ)
      → N.ltf (lit N stall_threshold_ms) (clamped_ms N (i64_diff a b))
        ≡ ltb 600000000 (to_i64 a - to_i64 b)
  stall_test a b =
      let clamp : clamp_zero (i64_diff a b) ≡ pos (to_i64 a - to_i64 b) = ground arith in
      ap (λ x. N.ltf (lit N 600) (N.div x (lit N 1000000)))
        (F.max_zero (i64_diff a b) ∙ ap N.of_i64 clamp)
      ∙ F.lit_lt_ms 600 (to_i64 a - to_i64 b) (omega arith) (omega arith)

  stalls-gap_since :
      (t : StabilityTracker N) (last : Option EventTimestamp) (ts : EventTimestamp)
      (rest : List EventTimestamp)
      → stall_times (gap_since t last ts).stall_events ++ long_gaps (some ts) rest
        ≡ stall_times t.stall_events ++ long_gaps last (ts ∷ rest)
  stalls-gap_since t none ts rest = refl
  stalls-gap_since t (some prev) ts rest =
      let test = stall_test ts.mono_ns prev.mono_ns in
      elim (Bool-cases (ltb 600000000 (to_i64 ts.mono_ns - to_i64 prev.mono_ns))) [
        | inl long ↦ rw (test, long) (stall_times-push t.stall_events _ (long_gaps (some ts) rest))
        | inr short ↦ rw (test, short) refl
      ]

  stalls-observe_payload :
      (t : StabilityTracker N) (sub : SubscriptionRole) (ts : EventTimestamp) (p : EventPayload)
      (rest : List EventTimestamp)
      → let t' = observe_payload t sub ts p in
        (t'.role ≡ t.role)
        × (stall_times t'.stall_events ++ long_gaps t'.last_slot_event_ts rest
            ≡ stall_times t.stall_events
              ++ long_gaps t.last_slot_event_ts (slot_arrivals_of ts p ++ rest))
  unfolding observe_gap
  stalls-observe_payload t sub ts (slot s stage) rest =
      let same = observe_drift-Same (observe_gap t ts) stage sub s ts in
      (
        same.role ∙ role-gap_since t t.last_slot_event_ts ts,
        rw (same.last, same.stalls) (stalls-gap_since t t.last_slot_event_ts ts rest),
      )
  stalls-observe_payload t sub ts (account a) rest = (refl, refl)
  stalls-observe_payload t sub ts (transaction s signature index) rest = (refl, refl)
  stalls-observe_payload t sub ts (block b) rest = (refl, refl)
  stalls-observe_payload t sub ts (entry e) rest = (refl, refl)

  stalls-observe :
      (t : StabilityTracker N) (e : Event) (es : List Event)
      → let t' = observe t e in
        (t'.role ≡ t.role)
        × (stall_times t'.stall_events ++ long_gaps t'.last_slot_event_ts (slot_arrivals t.role es)
            ≡ stall_times t.stall_events
              ++ long_gaps t.last_slot_event_ts (slot_arrivals t.role (e ∷ es)))
  unfolding observe
  stalls-observe t e es = elim (Bool-cases (role_beq (endpoint e.subscription) t.role)) [
    | inl own ↦
        let same = take_reconnect-Same t e.ts in
        let next =
          stalls-observe_payload (take_reconnect t e.ts) e.subscription e.ts e.payload
            (slot_arrivals t.role es) in
        rw own (next.0 ∙ same.role, next.1 ∙ rw (same.stalls, same.last) refl)
    | inr other ↦ rw other (refl, refl)
  ]

  -- After any events, of either endpoint, the stalls of a tracker are those it had and then, in
  -- order, one for each slot event of its own endpoint that came more than 600 ms after its previous
  -- one, counted in whole nanoseconds and with the wall time of the late arrival.
  pub stalls_are_long_gaps :
      (t : StabilityTracker N) (es : List Event)
      → stall_times (observe_all t es).stall_events
        ≡ stall_times t.stall_events ++ long_gaps t.last_slot_event_ts (slot_arrivals t.role es)
  unfolding observe_all
  stalls_are_long_gaps t [] = sym (append-nil (stall_times t.stall_events))
  stalls_are_long_gaps t (e ∷ es) =
      let next = stalls-observe t e es in stalls_are_long_gaps (observe t e) es ∙ rw next.0 next.1
