-- ===== src/Matching/Transactions.antt =====
-- src/matching/transactions.rs
pub mod Slots
use grpc_bench.Prelude.{ℕ}
use grpc_bench.Prelude.Eq.{nat_eq, list_eq, pair_eq}
use grpc_bench.Floats.{Floats}
use grpc_bench.Timing.{EventTimestamp}
use grpc_bench.Subscribe.{EndpointRole}
use grpc_bench.Collect.{Signature64}
use grpc_bench.Matching.Pair
use grpc_bench.Matching.Pair.{PairMatcher, EvictionPolicy, LatencyDigestSummary, from_matcher}

abbrev pub TxKey : Type 0
TxKey = ℕ × Signature64

pub record TransactionMatcher (N : Floats) : Type 0 where
  pub inner : PairMatcher N TxKey

unfoldable pub new : (N : Floats) → EvictionPolicy → TransactionMatcher N
new N eviction = record { inner = Pair.new N TxKey eviction }

module _ {N : Floats} where
  unfoldable pub observe :
      TransactionMatcher N → EndpointRole → ℕ → Signature64 → EventTimestamp → TransactionMatcher N
  observe m endpoint slot signature ts = record {
    inner = (Pair.observe m.inner endpoint (slot, signature) ts slot).1;
  }

  unfoldable pub summary : TransactionMatcher N → LatencyDigestSummary N × TransactionMatcher N
  summary m = let (s, inner) = from_matcher m.inner in (s, record { inner = inner })
