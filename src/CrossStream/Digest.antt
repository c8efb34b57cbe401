-- ===== src/CrossStream/Digest.antt =====
-- src/crossstream.rs: `StreamingDigest`, and the quartiles that it reports.
use grpc_bench.Prelude.{Option, none, some, List, [], length, is_empty, push, leb, if◌then◌else◌}
use grpc_bench.Floats.{Floats, ratio}
use grpc_bench.Matching.Pair.{tdigest_compression, tdigest_buffer_flush}

pub record Quartiles (N : Floats) : Type 0 where
  pub p50 : N.F64
  pub p90 : N.F64
  pub p99 : N.F64

pub record StreamingDigest (N : Floats) : Type 0 where
  pub digest : N.TDigest
  pub buffer : List N.F64

unfoldable pub new_digest : (N : Floats) → StreamingDigest N
new_digest N = record { digest = N.new_with_size tdigest_compression; buffer = [] }

module _ {N : Floats} where
  unfoldable pub flush : StreamingDigest N → StreamingDigest N
  flush d =
      if is_empty d.buffer
      then d
      else record { digest = N.merge_unsorted d.digest d.buffer; buffer = [] }

  unfoldable pub push_value : StreamingDigest N → N.F64 → StreamingDigest N
  push_value d v =
      let d' = record d { buffer = push d.buffer v } in
      if leb tdigest_buffer_flush (length d'.buffer) then flush d' else d'

  unfoldable pub quantile : StreamingDigest N → N.F64 → N.F64 × StreamingDigest N
  quantile d q =
      let d' = flush d in
      (if N.no_samples d'.digest then N.nan else N.estimate_quantile d'.digest q, d')

  -- `StreamingDigest::summary`
  unfoldable pub quartiles : StreamingDigest N → Option (Quartiles N) × StreamingDigest N
  quartiles d =
      let d' = flush d in
      let (q50, d1) = quantile d' (ratio N 50 100) in
      let (q90, d2) = quantile d1 (ratio N 90 100) in
      let (q99, d3) = quantile d2 (ratio N 99 100) in
      if N.no_samples d'.digest
      then (none, d')
      else (some (record { p50 = q50; p90 = q90; p99 = q99 }), d3)
