-- ===== src/Timing/Kernel.antt =====
-- The differences of kernel timestamps, for src/timing/mod.rs.
use grpc_bench.Prelude.{ℕ, ◌+◌, ◌≤◌, ◌≡◌, some, ltb, if◌then◌else◌, arith}
use grpc_bench.Prelude.Int.{sub_ℕ}
use grpc_bench.Prelude.Words.{u64_max, i64_max, i64_diff}
use grpc_bench.Timing.{capture, from_kernel_realtime_ns}

-- Two kernel timestamps taken at or after the origin differ on the monotonic clock by exactly what
-- they differ by on the kernel's clock, as the signed difference that every latency is computed
-- from, and the differences fit an `i64`; a timestamp before the origin is moved to the origin.
-- The origin is one that `capture` made.
pub kernel_difference :
    (instant since_epoch a b : ℕ)
    → since_epoch ≤ u64_max
    → a ≤ since_epoch + i64_max
    → b ≤ since_epoch + i64_max
    → let origin = capture instant (some since_epoch) in
      let from_start = λ (t : ℕ). if ltb t since_epoch then since_epoch else t in
      i64_diff (from_kernel_realtime_ns origin a).mono_ns (from_kernel_realtime_ns origin b).mono_ns
      ≡ sub_ℕ (from_start a) (from_start b)
unfolding capture from_kernel_realtime_ns
kernel_difference instant since_epoch a b h ha hb = ground arith
