-- ===== src/Collect/Ring.antt =====
-- src/collect/ring.rs: the bounded ring between a receiver and the thread that consumes its events.
pub mod Trace
pub mod Capture
pub mod Queue
use grpc_bench.Prelude.{ℕ, Bool, true, false, Option, none, some, List, ltb, if◌then◌else◌}
use grpc_bench.Prelude.Words.{wrapping_add}
use grpc_bench.Collect.{Event}
use grpc_bench.Collect.Stats
use grpc_bench.Collect.Stats.{ReceiverStats}

-- What `Sender::try_send` and `Receiver::try_recv` of `crossbeam_channel` may return.
pub data SendOutcome : Type 0 where
  sent full receiver_gone : SendOutcome

pub data RecvOutcome : Type 0 where
  received : Event → RecvOutcome
  empty sender_gone : RecvOutcome

-- The channel of `crossbeam_channel`.
pub record ChannelOps : Type 1 where
  pub Channel : Type 0
  pub bounded : ℕ → Channel
  pub channel_try_send : Channel → Event → SendOutcome × Channel
  pub channel_try_recv : Channel → RecvOutcome × Channel
  pub len : Channel → ℕ

-- Both halves share one channel and one set of counters.
pub record Ring (C : ChannelOps) : Type 0 where
  pub channel : C.Channel
  pub stats : ReceiverStats

-- The arms of `match self.inner.try_send(event)`.
abbrev pub after_send : ReceiverStats → SendOutcome → Bool × ReceiverStats
after_send stats sent = (true, stats)
after_send stats full = (false, record stats { dropped = wrapping_add stats.dropped 1 })
after_send stats receiver_gone = (false, stats)

module _ {C : ChannelOps} where
  -- `none` for the panic on capacity 0.
  unfoldable pub with_capacity : ℕ → Option (Ring C)
  with_capacity capacity =
      if ltb 0 capacity
      then some (record { channel = C.bounded capacity; stats = Stats.new })
      else none

  unfoldable pub try_send : Ring C → Event → Bool × Ring C
  try_send r event =
      let (outcome, channel) = C.channel_try_send r.channel event in
      let (accepted, stats) = after_send r.stats outcome in
      (accepted, record { channel = channel; stats = stats })

  unfoldable pub try_recv : Ring C → RecvOutcome × Ring C
  try_recv r =
      let (outcome, channel) = C.channel_try_recv r.channel in
      (outcome, record r { channel = channel })

  unfoldable pub pending : Ring C → ℕ
  pending r = C.len r.channel
