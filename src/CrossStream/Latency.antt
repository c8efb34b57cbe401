-- ===== src/CrossStream/Latency.antt =====
-- A transaction and its account update pair in either order (src/crossstream.rs).
use grpc_bench.Prelude.Eq.{nat_eq, list_eq, pair_eq}
use grpc_bench.Prelude.HashMap.{HashMap, retain}
use grpc_bench.Floats.{Floats}
use grpc_bench.Timing.{EventTimestamp}
use grpc_bench.CrossStream.{Key, TxAccountPairer, cutoff, evict, is_recent, record_delta}

module _ {N : Floats} where
  -- One eviction's effect on the maps that it reads the cutoff beside.
  abbrev recent : TxAccountPairer N → HashMap Key EventTimestamp → HashMap Key EventTimestamp
  recent q m = retain (is_recent (cutoff q)) m

  -- The state after both: one latency more, nothing more that waits.
  abbrev pub paired : TxAccountPairer N → EventTimestamp → EventTimestamp → TxAccountPairer N
  paired q acc_ts tx_ts = evict (record_delta (evict q) acc_ts tx_ts)
