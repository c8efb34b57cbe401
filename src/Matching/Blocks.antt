-- ===== src/Matching/Blocks.antt =====
-- src/matching/blocks.rs
pub mod Commitments
use grpc_bench.Prelude.{ℕ}
use grpc_bench.Prelude.Eq.{nat_eq, list_eq, triple_eq}
use grpc_bench.Floats.{Floats}
use grpc_bench.Timing.{EventTimestamp}
use grpc_bench.Config.{Commitment, commitment_eq}
use grpc_bench.Subscribe.{EndpointRole}
use grpc_bench.Collect.{Pubkey32}
use grpc_bench.Matching.Pair
use grpc_bench.Matching.Pair.{PairMatcher, EvictionPolicy, LatencyDigestSummary, from_matcher}

abbrev pub BlockKey : Type 0
BlockKey = Commitment × ℕ × Pubkey32

pub record BlockMatcher (N : Floats) : Type 0 where
  pub inner : PairMatcher N BlockKey

unfoldable pub new : (N : Floats) → EvictionPolicy → BlockMatcher N
new N eviction = record { inner = Pair.new N BlockKey eviction }

module _ {N : Floats} where
  unfoldable pub observe :
      BlockMatcher N → EndpointRole → Commitment → ℕ → Pubkey32 → EventTimestamp → BlockMatcher N
  observe m endpoint commitment slot blockhash ts = record {
    inner = (Pair.observe m.inner endpoint (commitment, slot, blockhash) ts slot).1;
  }

  unfoldable pub summary : BlockMatcher N → LatencyDigestSummary N × BlockMatcher N
  summary m = let (s, inner) = from_matcher m.inner in (s, record { inner = inner })
