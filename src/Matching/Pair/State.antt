-- ===== src/Matching/Pair/State.antt =====
-- src/matching/mod.rs: the state of a `PairMatcher` and the values around it.
use grpc_bench.Prelude.{ℕ, List, [], if◌then◌else◌}
use grpc_bench.Prelude.Int.{ℤ, pos, ltb_ℤ}
use grpc_bench.Prelude.Words.{wrapping_add, i64_diff}
use grpc_bench.Prelude.HashMap.{HashMap}
use grpc_bench.Floats.{Floats}
use grpc_bench.Timing.{EventTimestamp}
use grpc_bench.Subscribe.{EndpointRole, one, two}

abbrev pub tdigest_buffer_flush : ℕ
tdigest_buffer_flush = 1024

abbrev pub tdigest_compression : ℕ
tdigest_compression = 100

abbrev pub evict_every : ℕ
evict_every = 256

pub data EvictionPolicy : Type 0 where
  slot_window lru : ℕ → EvictionPolicy

pub record MatchCounts : Type 0 where
  pub matched : ℕ
  pub ep1_faster : ℕ
  pub ep2_faster : ℕ
  pub ep1_unmatched_evicted : ℕ
  pub ep2_unmatched_evicted : ℕ

-- `MatchCounts::default()`
abbrev pub zero_counts : MatchCounts
zero_counts = record {
  matched = 0;
  ep1_faster = 0;
  ep2_faster = 0;
  ep1_unmatched_evicted = 0;
  ep2_unmatched_evicted = 0;
}

pub record MatchPending : Type 0 where
  pub ts : EventTimestamp
  pub slot : ℕ

pub record PairMatcher (N : Floats) (K : Type 0) : Type 0 where
  pub pending_ep1 : HashMap K MatchPending
  pub pending_ep2 : HashMap K MatchPending
  pub digest : N.TDigest
  pub buffer : List N.F64
  pub counts : MatchCounts
  pub eviction : EvictionPolicy
  pub high_water_slot : ℕ
  pub obs_count : ℕ

pub record MatchResult (N : Floats) : Type 0 where
  pub delta_ms : N.F64
  pub ep1_ts : EventTimestamp
  pub ep2_ts : EventTimestamp

pub record LatencyDigestSummary (N : Floats) : Type 0 where
  pub p50 : N.F64
  pub p90 : N.F64
  pub p99 : N.F64
  pub p99_9 : N.F64
  pub matched : ℕ
  pub ep1_faster : ℕ
  pub ep2_faster : ℕ

unfoldable pub new : (N : Floats) (K : Type 0) → EvictionPolicy → PairMatcher N K
new N K eviction = record {
  pending_ep1 = [];
  pending_ep2 = [];
  digest = N.new_with_size tdigest_compression;
  buffer = [];
  counts = zero_counts;
  eviction = eviction;
  high_water_slot = 0;
  obs_count = 0;
}

-- The three arms of `delta_ns.cmp(&0)`, after `matched += 1`.
unfoldable pub count_match : MatchCounts → ℤ → MatchCounts
count_match c delta_ns = record c {
  matched = wrapping_add c.matched 1;
  ep1_faster = if ltb_ℤ (pos 0) delta_ns then wrapping_add c.ep1_faster 1 else c.ep1_faster;
  ep2_faster = if ltb_ℤ delta_ns (pos 0) then wrapping_add c.ep2_faster 1 else c.ep2_faster;
}

-- The two sides of `let (own_pending, other_pending, sign) = match endpoint`.
abbrev pub opposite : EndpointRole → EndpointRole
opposite one = two
opposite two = one

-- The arrival of endpoint 1 and of endpoint 2, from one's own and the other's.
abbrev pub ep1_of : EndpointRole → EventTimestamp → EventTimestamp → EventTimestamp
ep1_of one ts other = ts
ep1_of two ts other = other

abbrev pub ep2_of : EndpointRole → EventTimestamp → EventTimestamp → EventTimestamp
ep2_of one ts other = other
ep2_of two ts other = ts

-- `delta_ns`: ep2 - ep1, whichever came second.
abbrev pub delta_of : EndpointRole → EventTimestamp → EventTimestamp → ℤ
delta_of endpoint ts other =
    i64_diff (ep2_of endpoint ts other).mono_ns (ep1_of endpoint ts other).mono_ns
