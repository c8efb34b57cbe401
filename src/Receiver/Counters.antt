-- ===== src/Receiver/Counters.antt =====
-- src/run.rs: what a receiver counts and hands to its ring.
use grpc_bench.Prelude.{ℕ, suc, ◌%◌, ◌≡◌, false, Option, none, some, List, [], ◌∷◌}
use grpc_bench.Prelude.Words.{u64_mod}
use grpc_bench.Prelude.Result.{Result, ok, err}
use grpc_bench.Text.{Text}
use grpc_bench.Subscribe.{SubscriptionRole}
use grpc_bench.Collect.{Event}
use grpc_bench.Collect.Decode.{Codec, DecodeError, decode}
use grpc_bench.Collect.Ring.{ChannelOps, Ring, SendOutcome, sent, full, receiver_gone}
use grpc_bench.Receiver.{update, status, Round, polled, Receiver}

abbrev pub count_status : {D : Codec} → List (Round D) → ℕ
count_status [] = 0
count_status (polled false (status t) ∷ rounds) = suc (count_status rounds)
count_status (_ ∷ rounds) = count_status rounds

abbrev pub count_error : Result DecodeError (Option Event) → ℕ → ℕ
count_error (ok event) n = n
count_error (err e) n = suc n

abbrev pub count_undecodable : {D : Codec} → SubscriptionRole → List (Round D) → ℕ
count_undecodable role [] = 0
count_undecodable role (polled false (update ts payload) ∷ rounds) =
    count_error (decode ts payload role) (count_undecodable role rounds)
count_undecodable role (_ ∷ rounds) = count_undecodable role rounds

abbrev pub add_event : Result DecodeError (Option Event) → List Event → List Event
add_event (ok (some event)) events = event ∷ events
add_event (ok none) events = events
add_event (err e) events = events

-- The events that the updates decode to, the last first.
abbrev pub decoded : {D : Codec} → SubscriptionRole → List (Round D) → List Event
decoded role [] = []
decoded role (polled false (update ts payload) ∷ rounds) =
    add_event (decode ts payload role) (decoded role rounds)
decoded role (_ ∷ rounds) = decoded role rounds

abbrev pub add_full : SendOutcome → ℕ → ℕ
add_full sent n = n
add_full full n = suc n
add_full receiver_gone n = n

-- A channel after each of the events was sent to it.
abbrev pub send_all : (C : ChannelOps) → C.Channel → List Event → C.Channel
send_all C ch [] = ch
send_all C ch (event ∷ events) = (C.channel_try_send (send_all C ch events) event).1

-- The refusals of a full channel among the sends of the events to it.
abbrev pub count_full : (C : ChannelOps) → C.Channel → List Event → ℕ
count_full C ch [] = 0
count_full C ch (event ∷ events) =
    add_full (C.channel_try_send (send_all C ch events) event).0 (count_full C ch events)

-- The counters of a ring are the given ones, to 64 bits, and its channel is the given one; the count
-- of received events and the flag are those of the start.
pub record Holds {C : ChannelOps} (start sender : Ring C) (events : List Event)
    (ended_by_status undecoded : ℕ) : Type 0 where
  pub channel : sender.channel ≡ send_all C start.channel events
  pub disconnects : sender.stats.disconnects ≡ ended_by_status % u64_mod
  pub decode_errors : sender.stats.decode_errors ≡ undecoded % u64_mod
  pub dropped : sender.stats.dropped ≡ count_full C start.channel events % u64_mod
  pub received : sender.stats.received ≡ start.stats.received
  pub shutdown : sender.stats.shutdown ≡ start.stats.shutdown

module _ {C : ChannelOps} where
  -- What the rounds say of the ring.
  abbrev pub HoldsRounds :
      {D : Codec} → SubscriptionRole → Ring C → List (Round D) → Ring C → Type 0
  HoldsRounds role start rounds sender =
      Holds start sender (decoded role rounds) (count_status rounds) (count_undecodable role rounds)
