-- ===== src/Stability/Digest.antt =====
-- src/stability.rs: `DistributionDigest`, latencies and their maximum.
use grpc_bench.Prelude.{List, [], length, is_empty, push, leb, if◌then◌else◌}
use grpc_bench.Floats.{Floats, lit}
use grpc_bench.Matching.Pair.{tdigest_compression, tdigest_buffer_flush}

pub record DistributionDigest (N : Floats) : Type 0 where
  pub digest : N.TDigest
  pub buffer : List N.F64
  pub max : N.F64

unfoldable pub new_digest : (N : Floats) → DistributionDigest N
new_digest N = record { digest = N.new_with_size tdigest_compression; buffer = []; max = lit N 0 }

module _ {N : Floats} where
  unfoldable pub flush : DistributionDigest N → DistributionDigest N
  flush d =
      if is_empty d.buffer
      then d
      else record d { digest = N.merge_unsorted d.digest d.buffer; buffer = [] }

  unfoldable pub push_value : DistributionDigest N → N.F64 → DistributionDigest N
  push_value d v =
      let d' = record d { max = if N.ltf d.max v then v else d.max; buffer = push d.buffer v } in
      if leb tdigest_buffer_flush (length d'.buffer) then flush d' else d'

  unfoldable pub quantile : DistributionDigest N → N.F64 → N.F64 × DistributionDigest N
  quantile d q =
      let d' = flush d in
      (if N.no_samples d'.digest then N.nan else N.estimate_quantile d'.digest q, d')
