-- ===== src/Collect/Stats.antt =====
-- src/collect/mod.rs: `ReceiverStats`, the counters that a receiver and its ring share. The atomics
-- are loaded and stored one at a time, so here they are plain numbers.
use grpc_bench.Prelude.{ℕ, Bool, false}

pub record ReceiverStats : Type 0 where
  pub received : ℕ
  pub dropped : ℕ
  pub decode_errors : ℕ
  pub disconnects : ℕ
  pub shutdown : Bool

pub record ReceiverStatsSnapshot : Type 0 where
  pub received : ℕ
  pub dropped : ℕ
  pub decode_errors : ℕ
  pub disconnects : ℕ

unfoldable pub new : ReceiverStats
new = record { received = 0; dropped = 0; decode_errors = 0; disconnects = 0; shutdown = false }

unfoldable pub snapshot : ReceiverStats → ReceiverStatsSnapshot
snapshot s = record {
  received = s.received;
  dropped = s.dropped;
  decode_errors = s.decode_errors;
  disconnects = s.disconnects;
}
