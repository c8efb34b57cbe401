-- ===== src/Matching/Slots.antt =====
-- src/matching/slots.rs: one `PairMatcher` for each stage of a slot.
pub mod Stages
use grpc_bench.Prelude.{ℕ, Option, none, some}
use grpc_bench.Floats.{Floats}
use grpc_bench.Timing.{EventTimestamp}
use grpc_bench.Subscribe.{EndpointRole}
use grpc_bench.Collect.{
  SlotStage, first_shred_received, completed, created_bank, processed, confirmed, finalized, dead,
}
use grpc_bench.Prelude.Eq.{nat_eq}
use grpc_bench.Matching.Pair
use grpc_bench.Matching.Pair.{PairMatcher, EvictionPolicy, LatencyDigestSummary, from_matcher}

pub record SlotMatcher (N : Floats) : Type 0 where
  pub first_shred_received : PairMatcher N ℕ
  pub completed : PairMatcher N ℕ
  pub created_bank : PairMatcher N ℕ
  pub processed : PairMatcher N ℕ
  pub confirmed : PairMatcher N ℕ
  pub finalized : PairMatcher N ℕ

pub record SlotStatusSummary (N : Floats) : Type 0 where
  pub first_shred_delay : LatencyDigestSummary N
  pub completed_delay : LatencyDigestSummary N
  pub created_bank_delay : LatencyDigestSummary N
  pub processed_delay : LatencyDigestSummary N
  pub confirmed_delay : LatencyDigestSummary N
  pub finalized_delay : LatencyDigestSummary N

unfoldable pub new : (N : Floats) → EvictionPolicy → SlotMatcher N
new N eviction = record {
  first_shred_received = Pair.new N ℕ eviction;
  completed = Pair.new N ℕ eviction;
  created_bank = Pair.new N ℕ eviction;
  processed = Pair.new N ℕ eviction;
  confirmed = Pair.new N ℕ eviction;
  finalized = Pair.new N ℕ eviction;
}

module _ {N : Floats} where
  -- The matcher behind the reference that `matcher_for` returns.
  unfoldable pub matcher_for : SlotMatcher N → SlotStage → Option (PairMatcher N ℕ)
  matcher_for m first_shred_received = some m.first_shred_received
  matcher_for m completed = some m.completed
  matcher_for m created_bank = some m.created_bank
  matcher_for m processed = some m.processed
  matcher_for m confirmed = some m.confirmed
  matcher_for m finalized = some m.finalized
  matcher_for m dead = none

  -- A write through that reference.
  unfoldable pub with_matcher : SlotMatcher N → SlotStage → PairMatcher N ℕ → SlotMatcher N
  with_matcher m first_shred_received p = record m { first_shred_received = p }
  with_matcher m completed p = record m { completed = p }
  with_matcher m created_bank p = record m { created_bank = p }
  with_matcher m processed p = record m { processed = p }
  with_matcher m confirmed p = record m { confirmed = p }
  with_matcher m finalized p = record m { finalized = p }
  with_matcher m dead p = m

  unfoldable pub observe_stage :
      SlotMatcher N → EndpointRole → ℕ → SlotStage → EventTimestamp → SlotMatcher N
  observe_stage m endpoint slot stage ts = elim (matcher_for m stage) [
    | none ↦ m
    | some p ↦ with_matcher m stage (Pair.observe p endpoint slot ts slot).1
  ]

  unfoldable pub summary : SlotMatcher N → SlotStatusSummary N × SlotMatcher N
  summary m =
      let (s1, p1) = from_matcher m.first_shred_received in
      let (s2, p2) = from_matcher m.completed in
      let (s3, p3) = from_matcher m.created_bank in
      let (s4, p4) = from_matcher m.processed in
      let (s5, p5) = from_matcher m.confirmed in
      let (s6, p6) = from_matcher m.finalized in
      (
        record {
          first_shred_delay = s1;
          completed_delay = s2;
          created_bank_delay = s3;
          processed_delay = s4;
          confirmed_delay = s5;
          finalized_delay = s6;
        },
        record {
          first_shred_received = p1;
          completed = p2;
          created_bank = p3;
          processed = p4;
          confirmed = p5;
          finalized = p6;
        },
      )
