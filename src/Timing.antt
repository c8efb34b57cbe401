-- ===== src/Timing.antt =====
-- src/timing/mod.rs: the two clocks of an event, and kernel timestamps turned into them. The
-- clocks themselves (`Instant`, `SystemTime`) are arguments.
pub mod Kernel
pub mod Tests
use grpc_bench.Prelude.{ℕ, ◌+◌, ◌-◌, ◌/◌, ◌%◌, min, Option, none, some}
use grpc_bench.Prelude.Words.{u64_max, wrapping_add, saturating_add, saturating_sub}

pub record EventTimestamp : Type 0 where
  pub mono_ns : ℕ
  pub wall_ms : ℕ

-- `mono_origin` is an `Instant`; here the nanoseconds of the monotonic clock at that moment.
pub record ClockOrigin : Type 0 where
  pub mono_origin : ℕ
  pub mono_anchor_ns : ℕ
  pub realtime_anchor_ns : ℕ

-- `since_epoch` is what `duration_since(UNIX_EPOCH)` returns, in nanoseconds (a `u128`).
pub realtime_now_ns : Option ℕ → ℕ
realtime_now_ns none = 0
realtime_now_ns (some since_epoch) = min since_epoch u64_max

pub capture : ℕ → Option ℕ → ClockOrigin
unfolding realtime_now_ns
capture instant since_epoch = record {
  mono_origin = instant;
  mono_anchor_ns = 0;
  realtime_anchor_ns = realtime_now_ns since_epoch;
}

-- `instant` and `since_epoch` are the readings of the two clocks at the call.
pub now_user_space : ClockOrigin → ℕ → Option ℕ → EventTimestamp
unfolding realtime_now_ns
now_user_space origin instant since_epoch = record {
  mono_ns = wrapping_add origin.mono_anchor_ns (min (instant - origin.mono_origin) u64_max);
  wall_ms = realtime_now_ns since_epoch / 1000000;
}

pub from_kernel_realtime_ns : ClockOrigin → ℕ → EventTimestamp
from_kernel_realtime_ns origin kernel_realtime_ns = record {
  mono_ns =
      saturating_add origin.mono_anchor_ns
        (saturating_sub kernel_realtime_ns origin.realtime_anchor_ns);
  wall_ms = kernel_realtime_ns / 1000000;
}
