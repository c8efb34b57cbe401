-- ===== src/Collect/Ring/Trace.antt =====
-- Runs of a ring of src/collect/ring.rs, and what it relies on of its channel.
use grpc_bench.Prelude.{ℕ, ◌+◌, ◌≤◌, ◌<◌, ◌≡◌, Bool, true, false, List, [], ◌∷◌, length, push}
use grpc_bench.Collect.{Event}
use grpc_bench.Collect.Ring.{
  SendOutcome, sent, full, receiver_gone, RecvOutcome, received, empty, sender_gone, ChannelOps,
  Ring, try_send, try_recv,
}

-- What the outcome of a send says of the channel before and after.
abbrev pub SendLaw : ℕ → List Event → Event → SendOutcome → List Event → Type 0
SendLaw capacity before e sent after = (after ≡ push before e) × (length before < capacity)
SendLaw capacity before e full after = (after ≡ before) × (capacity ≤ length before)
SendLaw capacity before e receiver_gone after = after ≡ before

abbrev pub RecvLaw : List Event → RecvOutcome → List Event → Type 0
RecvLaw before (received e) after = before ≡ e ∷ after
RecvLaw before empty after = (before ≡ []) × (after ≡ [])
RecvLaw before sender_gone after = (before ≡ []) × (after ≡ [])

-- A bounded channel holds a queue of at most its capacity: a send appends to it, or is refused
-- because it is full or the receiver is gone, and a receive takes its first.
pub record ChannelLaws (C : ChannelOps) : Type 0 where
  pub contents : C.Channel → List Event
  pub capacity : C.Channel → ℕ
  pub contents_bounded : (n : ℕ) → contents (C.bounded n) ≡ []
  pub capacity_bounded : (n : ℕ) → capacity (C.bounded n) ≡ n
  pub send :
      (c : C.Channel) (e : Event)
      → SendLaw
          (capacity c)
          (contents c)
          e
          (C.channel_try_send c e).0
          (contents (C.channel_try_send c e).1)
  pub capacity_send : (c : C.Channel) (e : Event) → capacity (C.channel_try_send c e).1 ≡ capacity c
  pub recv :
      (c : C.Channel)
      → RecvLaw (contents c) (C.channel_try_recv c).0 (contents (C.channel_try_recv c).1)
  pub capacity_recv : (c : C.Channel) → capacity (C.channel_try_recv c).1 ≡ capacity c
  pub len : (c : C.Channel) → C.len c ≡ length (contents c)

-- The receiver's and the consumer's calls, in the order in which they take effect.
pub data RingCall : Type 0 where
  offer : Event → RingCall
  take_next : RingCall

-- A ring, and what went through it so far.
pub record Trace (C : ChannelOps) : Type 0 where
  pub ring : Ring C
  pub offered : ℕ
  pub accepted : List Event
  pub delivered : List Event
  pub refused_gone : ℕ

abbrev pub count_gone : SendOutcome → ℕ
count_gone sent = 0
count_gone full = 0
count_gone receiver_gone = 1

abbrev pub add_accepted : List Event → Event → Bool → List Event
add_accepted es e true = push es e
add_accepted es e false = es

abbrev pub add_delivered : List Event → RecvOutcome → List Event
add_delivered es (received e) = push es e
add_delivered es empty = es
add_delivered es sender_gone = es

module _ {C : ChannelOps} where
  abbrev pub start : Ring C → Trace C
  start r = record { ring = r; offered = 0; accepted = []; delivered = []; refused_gone = 0 }

  unfoldable pub call : Trace C → RingCall → Trace C
  call t (offer e) =
      let (accepted, ring) = try_send t.ring e in
      record {
        ring = ring;
        offered = t.offered + 1;
        accepted = add_accepted t.accepted e accepted;
        delivered = t.delivered;
        refused_gone = t.refused_gone + count_gone (C.channel_try_send t.ring.channel e).0;
      }
  call t take_next =
      let (outcome, ring) = try_recv t.ring in
      record t { ring = ring; delivered = add_delivered t.delivered outcome }

  unfoldable pub calls : Trace C → List RingCall → Trace C
  calls t [] = t
  calls t (c ∷ cs) = calls (call t c) cs
