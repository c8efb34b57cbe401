-- ===== src/Stability/PlannedRun.antt =====
-- The drift of src/stability.rs in a run of the plan of src/subscribe/mod.rs.
use Prim.Native.String.{String}
use grpc_bench.Prelude.{◌≡◌, inl, inr, ◌⊎◌, false, List, [], ◌∷◌, is_empty, All}
use grpc_bench.Floats.{Floats}
use grpc_bench.Config.{Commitment}
use grpc_bench.Subscribe.{EndpointRole, SubscriptionRole, IsLabelled}
use grpc_bench.Subscribe.Plan.{PlanConfig, SubscriptionSpec, first_commitment, from_run_config}
use grpc_bench.Collect.{Event, EventPayload, slot, account, transaction, block, entry}
use grpc_bench.Stability.{new, new_digest}
use grpc_bench.Stability.Stalls.{observe_all}
use grpc_bench.Stability.Drift.{SlotLabelled, SlotsLabelled, drift_never_recorded}
use grpc_bench.Subscribe.Plan.Labels.{LabelledIfSlots, slots_have_one_label}

-- A subscription of the list has the role and asks for slots.
abbrev pub AsksForSlots : SubscriptionRole → List SubscriptionSpec → Type 0
AsksForSlots sub [] = ⊥
AsksForSlots sub (spec ∷ specs) =
    ((spec.role ≡ sub) × (is_empty spec.request.slots ≡ false)) ⊎ AsksForSlots sub specs

-- The event came of one of the subscriptions, in that a slot update comes only of one that asks for
-- slots.
abbrev pub DeliveredBy : List SubscriptionSpec → SubscriptionRole → EventPayload → Type 0
DeliveredBy specs sub (slot s stage) = AsksForSlots sub specs
DeliveredBy specs sub (account a) = Unit
DeliveredBy specs sub (transaction s signature index) = Unit
DeliveredBy specs sub (block b) = Unit
DeliveredBy specs sub (entry e) = Unit

abbrev pub AllDelivered : List SubscriptionSpec → List Event → Type 0
AllDelivered specs [] = Unit
AllDelivered specs (e ∷ es) = DeliveredBy specs e.subscription e.payload × AllDelivered specs es

label_of_slots :
    (c : Commitment) (sub : SubscriptionRole) (specs : List SubscriptionSpec)
    → All (LabelledIfSlots c) specs
    → AsksForSlots sub specs
    → IsLabelled c sub
label_of_slots c sub [] h delivered = elim delivered [ ]
label_of_slots c sub (spec ∷ specs) h (inl here) = rw (← here.0) (h.0 here.1)
label_of_slots c sub (spec ∷ specs) h (inr there) = label_of_slots c sub specs h.1 there

delivered_labelled :
    (c : Commitment) (specs : List SubscriptionSpec) (sub : SubscriptionRole) (p : EventPayload)
    → All (LabelledIfSlots c) specs
    → DeliveredBy specs sub p
    → SlotLabelled c sub p
delivered_labelled c specs sub (slot s stage) h d = label_of_slots c sub specs h d
delivered_labelled c specs sub (account a) h d = tt
delivered_labelled c specs sub (transaction s signature index) h d = tt
delivered_labelled c specs sub (block b) h d = tt
delivered_labelled c specs sub (entry e) h d = tt

AllDelivered-labelled :
    (c : Commitment) (specs : List SubscriptionSpec) (es : List Event)
    → All (LabelledIfSlots c) specs
    → AllDelivered specs es
    → SlotsLabelled c es
AllDelivered-labelled c specs [] h d = tt
AllDelivered-labelled c specs (e ∷ es) h d = (
  delivered_labelled c specs e.subscription e.payload h d.0,
  AllDelivered-labelled c specs es h d.1,
)

-- A run of two endpoints records no drift between processed and confirmed, whatever commitments are
-- configured: after any events that the plan's subscriptions can deliver, the tracker of either
-- endpoint has the empty drift digest that it began with.
pub planned_run_has_no_drift :
    (N : Floats) (role : EndpointRole) (config : PlanConfig) (program_ids : List String)
    (es : List Event)
    → config.solo ≡ false
    → AllDelivered (from_run_config config program_ids) es
    → (observe_all (new N role) es).drift_digest ≡ new_digest N
planned_run_has_no_drift N role config program_ids es pair delivered =
    let c = first_commitment config.commitments in
    drift_never_recorded N role c es (
      AllDelivered-labelled c (from_run_config config program_ids) es
        (slots_have_one_label config program_ids pair) delivered)
