-- ===== src/Matching/Accounts/Digest.antt =====
-- src/matching/accounts.rs: `ProgramDigest`, the latencies of one program.
use grpc_bench.Prelude.{List, [], length, is_empty, push, leb, if◌then◌else◌}
use grpc_bench.Prelude.Words.{wrapping_add}
use grpc_bench.Floats.{Floats, lit, ratio}
use grpc_bench.Matching.Pair.{
  MatchCounts, LatencyDigestSummary, zero_counts, tdigest_compression, tdigest_buffer_flush,
}

pub record ProgramDigest (N : Floats) : Type 0 where
  pub digest : N.TDigest
  pub buffer : List N.F64
  pub counts : MatchCounts

-- `ProgramDigest::new`
unfoldable pub new_digest : (N : Floats) → ProgramDigest N
new_digest N = record {
  digest = N.new_with_size tdigest_compression;
  buffer = [];
  counts = zero_counts;
}

-- `matched += 1` and the two directions, by the sign of the latency.
unfoldable pub count_delta : (N : Floats) → MatchCounts → N.F64 → MatchCounts
count_delta N c delta_ms = record c {
  matched = wrapping_add c.matched 1;
  ep1_faster = if N.ltf (lit N 0) delta_ms then wrapping_add c.ep1_faster 1 else c.ep1_faster;
  ep2_faster =
      if N.ltf (lit N 0) delta_ms
      then c.ep2_faster
      else if N.ltf delta_ms (lit N 0)
      then wrapping_add c.ep2_faster 1
      else c.ep2_faster;
}

module _ {N : Floats} where
  unfoldable pub flush : ProgramDigest N → ProgramDigest N
  flush d =
      if is_empty d.buffer
      then d
      else record d { digest = N.merge_unsorted d.digest d.buffer; buffer = [] }

  -- `ProgramDigest::push`
  unfoldable pub push_delta : ProgramDigest N → N.F64 → ProgramDigest N
  unfolding count_delta
  push_delta d delta_ms =
      let d' = record d {
        buffer = push d.buffer delta_ms;
        counts = count_delta N d.counts delta_ms;
      } in
      if leb tdigest_buffer_flush (length d'.buffer) then flush d' else d'

  unfoldable pub quantile : ProgramDigest N → N.F64 → N.F64 × ProgramDigest N
  quantile d q =
      let d' = flush d in
      (if N.no_samples d'.digest then N.nan else N.estimate_quantile d'.digest q, d')

  -- `ProgramDigest::summary`
  unfoldable pub digest_summary : ProgramDigest N → LatencyDigestSummary N × ProgramDigest N
  digest_summary d =
      let counts = d.counts in
      let (q50, d1) = quantile d (ratio N 50 100) in
      let (q90, d2) = quantile d1 (ratio N 90 100) in
      let (q99, d3) = quantile d2 (ratio N 99 100) in
      let (q999, d4) = quantile d3 (ratio N 999 1000) in
      (
        record {
          p50 = q50;
          p90 = q90;
          p99 = q99;
          p99_9 = q999;
          matched = counts.matched;
          ep1_faster = counts.ep1_faster;
          ep2_faster = counts.ep2_faster;
        },
        d4,
      )
