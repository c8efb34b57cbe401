-- ===== src/Timing/Tests.antt =====
-- A kernel timestamp at concrete inputs.
use grpc_bench.Prelude.{◌≡◌, refl, some}
use grpc_bench.Timing.{capture, from_kernel_realtime_ns}

five_ms_later :
    from_kernel_realtime_ns (capture 0 (some 1000000)) 6000000
    ≡ record { mono_ns = 5000000; wall_ms = 6 }
unfolding from_kernel_realtime_ns capture
five_ms_later = refl
