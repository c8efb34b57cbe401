-- ===== src/Stability/Drift.antt =====
-- The drift between a slot's processed and confirmed arrivals (src/stability.rs).
use grpc_bench.Prelude.{
  ℕ, ◌≡◌, refl, inl, inr, Option, none, some, List, [], ◌∷◌, Option-cases, Bool-cases,
}
use grpc_bench.Prelude.Words.{i64_diff}
use grpc_bench.Prelude.Eq.{nat_eq}
use grpc_bench.Prelude.HashMap.{HashMap, get}
use grpc_bench.Prelude.HashMap.Retain.{remove-insert, get-insert_here}
use grpc_bench.Floats.{Floats}
use grpc_bench.Timing.{EventTimestamp}
use grpc_bench.Config.{Commitment, processed, confirmed, finalized}
use grpc_bench.Subscribe.{
  EndpointRole, SubscriptionRole, MainStream, main, entries, endpoint, role_beq, IsLabelled,
}
use grpc_bench.Collect.{
  Event, EventPayload, slot, account, transaction, block, entry, SlotStage,
  processed as stage_processed, confirmed as stage_confirmed,
}
use grpc_bench.Stability.{
  StabilityTracker, new, new_digest, clamped_ms, take_reconnect, gap_since, observe_gap,
  observe_drift, observe_processed, observe_confirmed, record_drift, observe_payload, observe,
  push_value,
}
use grpc_bench.Stability.Stalls.{observe_all}

module _ {N : Floats} where
  -- The processed and the confirmed arrival of a slot that had neither: in either order the
  -- tracker ends in the same state, which has recorded the one drift, confirmed minus processed and
  -- not below zero, and keeps nothing of the slot.
  pub drift_either_order :
      (t : StabilityTracker N) (s : ℕ) (p_ts c_ts : EventTimestamp)
      → get s t.processed_arrivals ≡ none
      → get s t.confirmed_arrivals ≡ none
      → let latency = clamped_ms N (i64_diff c_ts.mono_ns p_ts.mono_ns) in
        let after = record t { drift_digest = push_value t.drift_digest latency } in
        (observe_confirmed (observe_processed t s p_ts) s c_ts ≡ after)
        × (observe_processed (observe_confirmed t s c_ts) s p_ts ≡ after)
  unfolding observe_confirmed observe_processed record_drift
  drift_either_order t s p_ts c_ts no_p no_c = (
    rw (observe_processed, no_c, no_p)
        (rw
          (
            observe_confirmed,
            get-insert_here s p_ts t.processed_arrivals,
            no_c,
            remove-insert s p_ts t.processed_arrivals no_p,
            remove-insert s c_ts t.confirmed_arrivals no_c,
          )
          refl),
    rw (observe_confirmed, no_p, no_c)
        (rw
          (
            observe_processed,
            get-insert_here s c_ts t.confirmed_arrivals,
            no_p,
            remove-insert s p_ts t.processed_arrivals no_p,
            remove-insert s c_ts t.confirmed_arrivals no_c,
          )
          refl),
  )

-- The slot events are labelled so.
abbrev pub SlotLabelled : Commitment → SubscriptionRole → EventPayload → Type 0
SlotLabelled c sub (slot s stage) = IsLabelled c sub
SlotLabelled c sub (account a) = Unit
SlotLabelled c sub (transaction s signature index) = Unit
SlotLabelled c sub (block b) = Unit
SlotLabelled c sub (entry e) = Unit

abbrev pub SlotsLabelled : Commitment → List Event → Type 0
SlotsLabelled c [] = Unit
SlotsLabelled c (e ∷ es) = SlotLabelled c e.subscription e.payload × SlotsLabelled c es

-- The map that a slot stream of the commitment never fills.
abbrev other_arrivals :
    Commitment → HashMap ℕ EventTimestamp → HashMap ℕ EventTimestamp → HashMap ℕ EventTimestamp
other_arrivals processed processed_map confirmed_map = confirmed_map
other_arrivals confirmed processed_map confirmed_map = processed_map
other_arrivals finalized processed_map confirmed_map = processed_map

other_arrivals_empty : (c : Commitment) → other_arrivals c [] [] ≡ []
other_arrivals_empty processed = refl
other_arrivals_empty confirmed = refl
other_arrivals_empty finalized = refl

get_empty : (s : ℕ) (m : HashMap ℕ EventTimestamp) → m ≡ [] → get s m ≡ none
unfolding get
get_empty s m h = rw h refl

module _ {N : Floats} where
  record Quiet (c : Commitment) (t : StabilityTracker N) : Type 0 where
    unrecorded : t.drift_digest ≡ new_digest N
    empty : other_arrivals c t.processed_arrivals t.confirmed_arrivals ≡ []

  take_reconnect-Quiet :
      (c : Commitment) (t : StabilityTracker N) (ts : EventTimestamp)
      → Quiet c t
      → Quiet c (take_reconnect t ts)
  unfolding take_reconnect
  take_reconnect-Quiet c t ts q = elim (Option-cases t.pending_reconnect_mono_ns) [
    | inl absent ↦ rw (take_reconnect, absent) q
    | inr (at, present) ↦
        rw (take_reconnect, present) (record { unrecorded = q.unrecorded; empty = q.empty })
  ]

  gap_since-Quiet :
      (c : Commitment) (t : StabilityTracker N) (last : Option EventTimestamp) (ts : EventTimestamp)
      → Quiet c t
      → Quiet c (record (gap_since t last ts) { last_slot_event_ts = some ts })
  gap_since-Quiet c t none ts q = record { unrecorded = q.unrecorded; empty = q.empty }
  gap_since-Quiet c t (some prev) ts q = record { unrecorded = q.unrecorded; empty = q.empty }

  observe_drift-finalized :
      (t : StabilityTracker N) (stage : SlotStage) (role : EndpointRole) (stream : MainStream)
      (s : ℕ) (ts : EventTimestamp)
      → observe_drift t stage (main role finalized stream) s ts ≡ t
  observe_drift-finalized t stage_processed role stream s ts = refl
  observe_drift-finalized t stage_confirmed role stream s ts = refl
  observe_drift-finalized t _ role stream s ts = refl

  observe_drift-Quiet :
      (c : Commitment) (t : StabilityTracker N) (stage : SlotStage) (role : EndpointRole)
      (stream : MainStream) (s : ℕ) (ts : EventTimestamp)
      → Quiet c t
      → Quiet c (observe_drift t stage (main role c stream) s ts)
  unfolding observe_processed observe_confirmed
  observe_drift-Quiet processed t stage_processed role stream s ts q =
      rw (observe_processed, get_empty s t.confirmed_arrivals q.empty)
        (record { unrecorded = q.unrecorded; empty = q.empty })
  observe_drift-Quiet confirmed t stage_confirmed role stream s ts q =
      rw (observe_confirmed, get_empty s t.processed_arrivals q.empty)
        (record { unrecorded = q.unrecorded; empty = q.empty })
  observe_drift-Quiet finalized t stage role stream s ts q =
      rw (observe_drift-finalized t stage role stream s ts) q
  observe_drift-Quiet _ t _ role stream s ts q = q

  observe_drift-entries :
      (t : StabilityTracker N) (stage : SlotStage) (role : EndpointRole) (s : ℕ)
      (ts : EventTimestamp)
      → observe_drift t stage (entries role) s ts ≡ t
  observe_drift-entries t stage_processed role s ts = refl
  observe_drift-entries t stage_confirmed role s ts = refl
  observe_drift-entries t _ role s ts = refl

  observe_payload-Quiet :
      (c : Commitment) (t : StabilityTracker N) (sub : SubscriptionRole) (ts : EventTimestamp)
      (p : EventPayload)
      → SlotLabelled c sub p
      → Quiet c t
      → Quiet c (observe_payload t sub ts p)
  unfolding observe_gap
  observe_payload-Quiet c t (main role d stream) ts (slot s stage) same q = rw same (
      observe_drift-Quiet c (observe_gap t ts) stage role stream s ts
        (gap_since-Quiet c t t.last_slot_event_ts ts q))
  observe_payload-Quiet c t (entries role) ts (slot s stage) same q =
      rw (observe_drift-entries (observe_gap t ts) stage role s ts)
        (gap_since-Quiet c t t.last_slot_event_ts ts q)
  observe_payload-Quiet c t sub ts (account a) same q = q
  observe_payload-Quiet c t sub ts (transaction s signature index) same q = q
  observe_payload-Quiet c t sub ts (block b) same q = q
  observe_payload-Quiet c t sub ts (entry e) same q = q

  observe-Quiet :
      (c : Commitment) (t : StabilityTracker N) (e : Event)
      → SlotLabelled c e.subscription e.payload
      → Quiet c t
      → Quiet c (observe t e)
  unfolding observe
  observe-Quiet c t e same q = elim (Bool-cases (role_beq (endpoint e.subscription) t.role)) [
    | inl own ↦ rw own (
        observe_payload-Quiet c (take_reconnect t e.ts) e.subscription e.ts e.payload same
          (take_reconnect-Quiet c t e.ts q))
    | inr other ↦ rw other q
  ]

  observe_all-Quiet :
      (c : Commitment) (t : StabilityTracker N) (es : List Event)
      → SlotsLabelled c es
      → Quiet c t
      → Quiet c (observe_all t es)
  unfolding observe_all
  observe_all-Quiet c t [] same q = q
  observe_all-Quiet c t (e ∷ es) same q =
      observe_all-Quiet c (observe t e) es same.1 (observe-Quiet c t e same.0 q)

-- When every slot event of a run is labelled with one and the same commitment, as those of the
-- plan's one slot subscription for an endpoint are, a tracker records no drift at all, whatever
-- stages arrive.
pub drift_never_recorded :
    (N : Floats) (role : EndpointRole) (c : Commitment) (es : List Event)
    → SlotsLabelled c es
    → (observe_all (new N role) es).drift_digest ≡ new_digest N
drift_never_recorded N role c es same =
    let fresh : Quiet c (new N role) =
      unfold new in record { unrecorded = refl; empty = other_arrivals_empty c } in
    (observe_all-Quiet c (new N role) es same fresh).unrecorded
