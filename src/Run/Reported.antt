-- ===== src/Run/Reported.antt =====
-- What a run of `dispatch_event` of src/run.rs leaves of disconnects and reconnects to report.
use grpc_bench.Prelude.{
  ℕ, ◌≡◌, refl, ◌∙◌, Option, none, some, List, [], ◌∷◌, Bool-cases, Option-cases, inl, inr,
}
use grpc_bench.Prelude.Eq.{nat_eq}
use grpc_bench.Prelude.HashMap.{get}
use grpc_bench.Floats.{Floats}
use grpc_bench.Timing.{EventTimestamp}
use grpc_bench.Config.{processed, confirmed}
use grpc_bench.Subscribe.{SubscriptionRole, main, role_beq, endpoint}
use grpc_bench.Collect.{
  Event, EventPayload, slot, account, transaction, block, entry, SlotStage,
  processed as stage_processed, confirmed as stage_confirmed,
}
use grpc_bench.Stability.{
  StabilityTracker, take_reconnect, gap_since, observe_gap, record_drift, observe_processed,
  observe_confirmed, observe_drift, observe_payload, observe, summary,
}
use grpc_bench.Run.{Dispatcher, dispatch_event, dispatch_all}

module _ {N : Floats} where
  -- `u` has the disconnects, the reconnect times and the open reconnect of `t`.
  abbrev pub IsQuiet : StabilityTracker N → StabilityTracker N → Type 0
  IsQuiet t u =
      (u.disconnects ≡ t.disconnects)
      × (u.reconnect_ttfm ≡ t.reconnect_ttfm)
      × (u.pending_reconnect_mono_ns ≡ t.pending_reconnect_mono_ns)

  gap_since-IsQuiet :
      (t : StabilityTracker N) (last : Option EventTimestamp) (ts : EventTimestamp)
      → IsQuiet t (gap_since t last ts)
  gap_since-IsQuiet t none ts = (refl, refl, refl)
  gap_since-IsQuiet t (some prev) ts = (refl, refl, refl)

  processed-IsQuiet :
      (t : StabilityTracker N) (s : ℕ) (ts : EventTimestamp) → IsQuiet t (observe_processed t s ts)
  unfolding observe_processed record_drift
  processed-IsQuiet t s ts = elim (Option-cases (get s t.confirmed_arrivals)) [
    | inl absent ↦ rw (observe_processed, absent) (refl, refl, refl)
    | inr (c, present) ↦ rw (observe_processed, present) (refl, refl, refl)
  ]

  confirmed-IsQuiet :
      (t : StabilityTracker N) (s : ℕ) (ts : EventTimestamp) → IsQuiet t (observe_confirmed t s ts)
  unfolding observe_confirmed record_drift
  confirmed-IsQuiet t s ts = elim (Option-cases (get s t.processed_arrivals)) [
    | inl absent ↦ rw (observe_confirmed, absent) (refl, refl, refl)
    | inr (p, present) ↦ rw (observe_confirmed, present) (refl, refl, refl)
  ]

  drift-IsQuiet :
      (t : StabilityTracker N) (stage : SlotStage) (sub : SubscriptionRole) (s : ℕ)
      (ts : EventTimestamp)
      → IsQuiet t (observe_drift t stage sub s ts)
  drift-IsQuiet t stage_processed (main role processed stream) s ts = processed-IsQuiet t s ts
  drift-IsQuiet t stage_confirmed (main role confirmed stream) s ts = confirmed-IsQuiet t s ts
  drift-IsQuiet t _ _ s ts = (refl, refl, refl)

  payload-IsQuiet :
      (t : StabilityTracker N) (sub : SubscriptionRole) (ts : EventTimestamp) (p : EventPayload)
      → IsQuiet t (observe_payload t sub ts p)
  unfolding observe_gap
  payload-IsQuiet t sub ts (slot s stage) =
      let g = gap_since-IsQuiet t t.last_slot_event_ts ts in
      let q = drift-IsQuiet (observe_gap t ts) stage sub s ts in (q.0 ∙ g.0, q.1 ∙ g.1, q.2 ∙ g.2)
  payload-IsQuiet t sub ts (account a) = (refl, refl, refl)
  payload-IsQuiet t sub ts (transaction s signature index) = (refl, refl, refl)
  payload-IsQuiet t sub ts (block b) = (refl, refl, refl)
  payload-IsQuiet t sub ts (entry e) = (refl, refl, refl)

  take_reconnect-none :
      (t : StabilityTracker N) (ts : EventTimestamp)
      → t.pending_reconnect_mono_ns ≡ none
      → take_reconnect t ts ≡ t
  unfolding take_reconnect
  take_reconnect-none t ts closed = simp (take_reconnect, closed) refl

  observe-IsQuiet :
      (t : StabilityTracker N) (e : Event)
      → t.pending_reconnect_mono_ns ≡ none
      → IsQuiet t (observe t e)
  unfolding observe
  observe-IsQuiet t e closed = elim (Bool-cases (role_beq (endpoint e.subscription) t.role)) [
    | inl own ↦
        rw (observe, own, take_reconnect-none t e.ts closed)
          (payload-IsQuiet t e.subscription e.ts e.payload)
    | inr other ↦ rw (observe, other) (refl, refl, refl)
  ]

  dispatch_all-IsQuiet :
      (d : Dispatcher N) (es : List Event)
      → d.stability.pending_reconnect_mono_ns ≡ none
      → IsQuiet d.stability (dispatch_all d es).stability
  unfolding dispatch_event
  dispatch_all-IsQuiet d [] closed = (refl, refl, refl)
  dispatch_all-IsQuiet d (e ∷ es) closed =
      let q = observe-IsQuiet d.stability e closed in
      let later = dispatch_all-IsQuiet (dispatch_event d e) es (q.2 ∙ closed) in
      (later.0 ∙ q.0, later.1 ∙ q.1, later.2 ∙ q.2)

  -- A run of the dispatcher that starts with no open reconnect, as a new tracker does, adds no
  -- disconnect and no time to first message: the summary's disconnects are those of the start, the
  -- digest of those times is the one of the start, and no reconnect is open after it.
  pub no_disconnect_reported :
      (d : Dispatcher N) (es : List Event)
      → d.stability.pending_reconnect_mono_ns ≡ none
      → let t = (dispatch_all d es).stability in
        ((summary t).0.disconnects ≡ d.stability.disconnects)
        × (t.reconnect_ttfm ≡ d.stability.reconnect_ttfm)
        × (t.pending_reconnect_mono_ns ≡ none)
  unfolding summary
  no_disconnect_reported d es closed =
      let q = dispatch_all-IsQuiet d es closed in (q.0, q.1, q.2 ∙ closed)
