-- ===== src/Matching/Pair.antt =====
-- src/matching/mod.rs: the operations of `PairMatcher`, the core that every stream's matcher wraps.
mod State
pub mod Frame
pub mod Trim
pub mod Accounting
pub mod History
pub mod Pairing
pub mod Window
pub mod Pass
pub mod Tally
pub mod Results
pub mod Miss
pub mod Counting
pub mod Tests
unfoldable pub use State.*
use grpc_bench.Prelude.{
  ℕ, ◌-◌, ◌%◌, Bool, Option, none, some, [], length, take, is_empty, push, ltb, leb, nat_beq,
  if◌then◌else◌,
}
use grpc_bench.Prelude.Words.{wrapping_add, saturating_sub}
use grpc_bench.Prelude.Eq.{Eq}
use grpc_bench.Prelude.HashMap.{HashMap, get, insert, remove, retain, keys, remove_all}
use grpc_bench.Floats.{Floats, ratio, ns_to_ms}
use grpc_bench.Timing.{EventTimestamp}
use grpc_bench.Subscribe.{EndpointRole, one, two}

-- Whether the slot window keeps an entry.
abbrev pub is_recent : {K : Type 0} → ℕ → K → MatchPending → Bool
is_recent c k v = leb c v.slot

module _ {N : Floats} {K : Type 0} where
  abbrev pub pending : EndpointRole → PairMatcher N K → HashMap K MatchPending
  pending one m = m.pending_ep1
  pending two m = m.pending_ep2

  abbrev pub with_pending :
      EndpointRole → HashMap K MatchPending → PairMatcher N K → PairMatcher N K
  with_pending one p m = record m { pending_ep1 = p }
  with_pending two p m = record m { pending_ep2 = p }

  -- `std::mem::take` and `merge_unsorted`
  unfoldable pub flush : PairMatcher N K → PairMatcher N K
  flush m =
      if is_empty m.buffer
      then m
      else record m { digest = N.merge_unsorted m.digest m.buffer; buffer = [] }

  unfoldable pub push_delta : PairMatcher N K → N.F64 → PairMatcher N K
  push_delta m delta_ms =
      let m' = record m { buffer = push m.buffer delta_ms } in
      if leb tdigest_buffer_flush (length m'.buffer) then flush m' else m'

  unfoldable pub quantile : PairMatcher N K → N.F64 → N.F64 × PairMatcher N K
  quantile m q =
      let m' = flush m in
      (if N.no_samples m'.digest then N.nan else N.estimate_quantile m'.digest q, m')

  unfoldable pub snapshot_digest : PairMatcher N K → N.TDigest × PairMatcher N K
  snapshot_digest m = let m' = flush m in (m'.digest, m')

  unfoldable pub pending_counts : PairMatcher N K → ℕ × ℕ
  pending_counts m = (length m.pending_ep1, length m.pending_ep2)

  -- The cutoff of a slot window.
  abbrev pub cutoff : PairMatcher N K → ℕ → ℕ
  cutoff m window = saturating_sub m.high_water_slot window

  unfoldable pub evict_window : ℕ → PairMatcher N K → PairMatcher N K
  evict_window window m =
      let kept1 = retain (is_recent (cutoff m window)) m.pending_ep1 in
      let kept2 = retain (is_recent (cutoff m window)) m.pending_ep2 in
      record m {
        pending_ep1 = kept1;
        pending_ep2 = kept2;
        counts = record m.counts {
          ep1_unmatched_evicted =
              wrapping_add m.counts.ep1_unmatched_evicted (length m.pending_ep1 - length kept1);
          ep2_unmatched_evicted =
              wrapping_add m.counts.ep2_unmatched_evicted (length m.pending_ep2 - length kept2);
        };
      }

  -- The head of `observe`: the high-water mark and the counter.
  abbrev pub bump : PairMatcher N K → ℕ → PairMatcher N K
  bump m slot = record m {
    high_water_slot = if ltb m.high_water_slot slot then slot else m.high_water_slot;
    obs_count = wrapping_add m.obs_count 1;
  }

  -- The body of `if let Some(other)`, after the removal of `other`.
  unfoldable pub record_match :
      PairMatcher N K
      → EndpointRole
      → EventTimestamp
      → EventTimestamp
      → Option (MatchResult N) × PairMatcher N K
  record_match m endpoint ts other =
      let ep1_ts = ep1_of endpoint ts other in
      let ep2_ts = ep2_of endpoint ts other in
      let delta_ns = delta_of endpoint ts other in
      let m' = push_delta m (ns_to_ms N delta_ns) in
      (
        some (record { delta_ms = ns_to_ms N delta_ns; ep1_ts = ep1_ts; ep2_ts = ep2_ts }),
        record m' { counts = count_match m'.counts delta_ns },
      )

-- One endpoint of the `Lru` arm: the pending entries and the eviction count.
unfoldable pub trim : {K V : Type 0} ⦃e : Eq K⦄ → ℕ → HashMap K V → ℕ → HashMap K V × ℕ
trim max_pending p evicted =
    if ltb max_pending (length p)
    then (
      remove_all (take (length p - max_pending) (keys p)) p,
      wrapping_add evicted (length p - max_pending),
    )
    else (p, evicted)

module _ {N : Floats} {K : Type 0} ⦃e : Eq K⦄ where
  unfoldable pub evict_lru : ℕ → PairMatcher N K → PairMatcher N K
  evict_lru max_pending m =
      let (kept1, evicted1) = trim max_pending m.pending_ep1 m.counts.ep1_unmatched_evicted in
      let (kept2, evicted2) = trim max_pending m.pending_ep2 m.counts.ep2_unmatched_evicted in
      record m {
        pending_ep1 = kept1;
        pending_ep2 = kept2;
        counts = record m.counts {
          ep1_unmatched_evicted = evicted1;
          ep2_unmatched_evicted = evicted2;
        };
      }

  -- `match self.eviction`
  unfoldable pub evict_by : EvictionPolicy → PairMatcher N K → PairMatcher N K
  evict_by (slot_window window) m = evict_window window m
  evict_by (lru max_pending) m = evict_lru max_pending m

  unfoldable pub evict : PairMatcher N K → PairMatcher N K
  unfolding evict_by
  evict m = evict_by m.eviction m

  -- `bump`, then the batched eviction.
  unfoldable pub advance : PairMatcher N K → ℕ → PairMatcher N K
  advance m slot =
      let m' = bump m slot in if nat_beq (m'.obs_count % evict_every) 0 then evict m' else m'

  -- The rest of `observe`: match against the other endpoint, or wait.
  unfoldable pub pair_up :
      PairMatcher N K
      → EndpointRole
      → K
      → EventTimestamp
      → ℕ
      → Option (MatchResult N) × PairMatcher N K
  pair_up m endpoint key ts slot = elim (get key (pending (opposite endpoint) m)) [
    | none ↦ (
      none,
      with_pending endpoint (insert key (record { ts = ts; slot = slot }) (pending endpoint m)) m,
    )
    | some other ↦
        record_match
          (with_pending (opposite endpoint) (remove key (pending (opposite endpoint) m)) m) endpoint
          ts other.ts
  ]

  unfoldable pub observe :
      PairMatcher N K
      → EndpointRole
      → K
      → EventTimestamp
      → ℕ
      → Option (MatchResult N) × PairMatcher N K
  observe m endpoint key ts slot = pair_up (advance m slot) endpoint key ts slot

  -- `LatencyDigestSummary::from_matcher`; the counts are read before the quantiles.
  unfoldable pub from_matcher : PairMatcher N K → LatencyDigestSummary N × PairMatcher N K
  from_matcher m =
      let m0 = evict m in
      let counts = m0.counts in
      let (q50, m1) = quantile m0 (ratio N 50 100) in
      let (q90, m2) = quantile m1 (ratio N 90 100) in
      let (q99, m3) = quantile m2 (ratio N 99 100) in
      let (q999, m4) = quantile m3 (ratio N 999 1000) in
      (
        record {
          p50 = q50;
          p90 = q90;
          p99 = q99;
          p99_9 = q999;
          matched = counts.matched;
          ep1_faster = counts.ep1_faster;
          ep2_faster = counts.ep2_faster;
        },
        m4,
      )
