-- ===== src/Matching/Slots/Stages.antt =====
-- The stages of src/matching/slots.rs are matched apart.
use grpc_bench.Prelude.{ℕ, Bool, true, false, if◌then◌else◌, List, [], ◌∷◌}
use grpc_bench.Prelude.Eq.{nat_eq}
use grpc_bench.Floats.{Floats}
use grpc_bench.Timing.{EventTimestamp}
use grpc_bench.Subscribe.{EndpointRole}
use grpc_bench.Collect.{
  SlotStage, first_shred_received, completed, created_bank, processed, confirmed, finalized, dead,
}
use grpc_bench.Matching.Pair
use grpc_bench.Matching.Pair.{EvictionPolicy}
use grpc_bench.Matching.Pair.History.{Observation}
use grpc_bench.Matching.Slots.{SlotMatcher, observe_stage}

-- `==` of `SlotStage`
abbrev pub stage_beq : SlotStage → SlotStage → Bool
stage_beq first_shred_received first_shred_received = true
stage_beq completed completed = true
stage_beq created_bank created_bank = true
stage_beq processed processed = true
stage_beq confirmed confirmed = true
stage_beq finalized finalized = true
stage_beq dead dead = true
stage_beq _ _ = false

pub record SlotUpdate : Type 0 where
  pub endpoint : EndpointRole
  pub slot : ℕ
  pub stage : SlotStage
  pub ts : EventTimestamp

-- The updates of one stage, as observations of a matcher keyed by the slot.
abbrev pub of_stage : SlotStage → List SlotUpdate → List (Observation ℕ)
of_stage stage [] = []
of_stage stage (u ∷ us) =
    let rest = of_stage stage us in
    if stage_beq stage u.stage
    then record { endpoint = u.endpoint; key = u.slot; ts = u.ts; slot = u.slot } ∷ rest
    else rest

module _ {N : Floats} where
  unfoldable pub observe_all : SlotMatcher N → List SlotUpdate → SlotMatcher N
  observe_all m [] = m
  observe_all m (u ∷ us) = observe_all (observe_stage m u.endpoint u.slot u.stage u.ts) us
