-- ===== src/Run/Counted.antt =====
-- What `dispatch_event` of src/run.rs counts over a run.
use grpc_bench.Prelude.{
  ℕ, ◌+◌, ◌<◌, ◌≤◌, ◌≡◌, refl, max, Bool, true, false, ◌&&◌, List, [], ◌∷◌, length, ltb,
  if◌then◌else◌, arith,
}
use grpc_bench.Prelude.Words.{u64_mod}
use grpc_bench.Floats.{Floats}
use grpc_bench.Subscribe.{EndpointRole, one, role_beq, endpoint}
use grpc_bench.Collect.{Event, EventPayload, slot, account, transaction, block, entry}
use grpc_bench.Run.{
  IngestCountersPartial, Dispatcher, is_processed, count_payload, dispatch_event, dispatch_all,
}

-- The slot of an event that says its slot was processed, on endpoint one.
abbrev pub cons_if : Bool → ℕ → List ℕ → List ℕ
cons_if true s slots_after = s ∷ slots_after
cons_if false s slots_after = slots_after

abbrev pub cons_processed : EndpointRole → EventPayload → List ℕ → List ℕ
cons_processed role (slot s stage) after = cons_if (role_beq role one && is_processed stage) s after
cons_processed role (account a) after = after
cons_processed role (transaction s signature index) after = after
cons_processed role (block b) after = after
cons_processed role (entry e) after = after

abbrev pub processed_slots : List Event → List ℕ
processed_slots [] = []
processed_slots (e ∷ es) = cons_processed (endpoint e.subscription) e.payload (processed_slots es)

-- How many of the slots are above all before them, and above `top`.
abbrev pub new_tops : ℕ → List ℕ → ℕ
new_tops top [] = 0
new_tops top (s ∷ rest) = (if ltb top s then 1 else 0) + new_tops (max top s) rest

abbrev pub is_account : EventPayload → ℕ
is_account (account a) = 1
is_account _ = 0

abbrev pub count_accounts : List Event → ℕ
count_accounts [] = 0
count_accounts (e ∷ es) = is_account e.payload + count_accounts es

-- Each slot is above the one before it.
abbrev pub IsRising : ℕ → List ℕ → Type 0
IsRising top [] = Unit
IsRising top (s ∷ rest) = (top < s) × IsRising s rest

-- If the slots rise throughout, all of them count.
new_tops-IsRising : (top : ℕ) (rest : List ℕ) → IsRising top rest → new_tops top rest ≡ length rest
new_tops-IsRising top [] h = refl
new_tops-IsRising top (s ∷ rest) h = ground (arith, new_tops-IsRising s rest, h)

payload_tops :
    (role : EndpointRole) (p : EventPayload) (c : IngestCountersPartial) (total : ℕ)
    (after : List ℕ)
    → total + 1 < u64_mod
    → let out = count_payload role p (c, total) in
      (out.1 + new_tops out.0.last_counted_slot after
        ≡ total + new_tops c.last_counted_slot (cons_processed role p after))
      × (out.1 ≤ total + 1)
unfolding count_payload
payload_tops role (slot s stage) c total after small = ground arith
payload_tops role (account a) c total after small = (refl, omega arith)
payload_tops role (transaction s signature index) c total after small = (refl, omega arith)
payload_tops role (block b) c total after small = (refl, omega arith)
payload_tops role (entry e) c total after small = (refl, omega arith)

module _ {N : Floats} where
  pub total_slots_counts_tops :
      (d : Dispatcher N) (es : List Event)
      → d.total_slots + length es < u64_mod
      → (dispatch_all d es).total_slots
        ≡ d.total_slots + new_tops d.counters.last_counted_slot (processed_slots es)
  unfolding dispatch_event
  total_slots_counts_tops d [] small = omega arith
  total_slots_counts_tops d (e ∷ es) small =
      let h =
        payload_tops (endpoint e.subscription) e.payload d.counters d.total_slots
          (processed_slots es) (omega (arith, small)) in
      omega (
        arith,
        small,
        h.0,
        h.1,
        total_slots_counts_tops (dispatch_event d e) es (omega (arith, small, h.1)),
      )
