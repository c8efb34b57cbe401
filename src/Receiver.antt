-- ===== src/Receiver.antt =====
-- src/run.rs: the loop of a receiver thread (`receiver_thread_main`), which connects, subscribes,
-- hands the decoded events to its ring and connects again. What the network, the clock and the
-- shutdown flag answer is the input of each round.
pub mod Errors
pub mod Streak
pub mod Counters
pub mod Tests
use grpc_bench.Prelude.{
  ℕ, ◌+◌, ◌*◌, ◌≡◌, Bool, true, false, Option, none, some, List, [], ◌∷◌, leb, if◌then◌else◌,
}
use grpc_bench.Prelude.Words.{wrapping_add}
use grpc_bench.Prelude.Result.{Result, ok, err}
use grpc_bench.Text.{Text, text_beq}
use grpc_bench.Timing.{EventTimestamp}
use grpc_bench.Subscribe.{SubscriptionRole}
use grpc_bench.Collect.{Event}
use grpc_bench.Collect.Decode.{Codec, UpdateOneof, DecodeError, decode}
use grpc_bench.Collect.Stats.{ReceiverStats}
use grpc_bench.Collect.Ring.{ChannelOps, Ring, try_send}

abbrev pub max_consecutive_same_error : ℕ
max_consecutive_same_error = 5

-- `Duration::from_secs(2)`, in milliseconds.
abbrev pub retry_delay : ℕ
retry_delay = 2000

-- Which loop the thread is in; `stopped` once it has returned.
pub data Phase : Type 0 where
  connecting draining stopped : Phase

-- What `connect_with_decode_limit` and `open_subscription` give, with the text of an error.
pub data Attempt : Type 0 where
  connect_failed open_failed : Text → Attempt
  opened : Attempt

-- What the timed wait for the next message gives: an update with its timestamp, a status, the end
-- of the stream, or nothing in time.
pub data Poll (C : Codec) : Type 0 where
  update : EventTimestamp → Option (UpdateOneof C) → Poll C
  status : Text → Poll C
  ended timed_out : Poll C

-- The locals of the loops, the sender with its counters, and the milliseconds slept so far.
pub record Receiver (C : ChannelOps) : Type 0 where
  pub phase : Phase
  pub last_error_text : Option Text
  pub same_error_count : ℕ
  pub sender : Ring C
  pub slept : ℕ

-- `last_error_text.as_deref().is_none_or(|t| t != text.as_str())`, negated.
abbrev pub is_same_error : Option Text → Text → Bool
is_same_error none text = false
is_same_error (some t) text = text_beq t text

-- The arms of `match decode(timed, role)` count an error and give the event.
abbrev pub add_decode_error : ReceiverStats → ReceiverStats
add_decode_error stats = record stats { decode_errors = wrapping_add stats.decode_errors 1 }

abbrev pub add_disconnect : ReceiverStats → ReceiverStats
add_disconnect stats = record stats { disconnects = wrapping_add stats.disconnects 1 }

module _ {C : ChannelOps} where
  -- A thread that has entered the loops with its ring.
  abbrev pub enter : Ring C → Receiver C
  enter sender = record {
    phase = connecting;
    last_error_text = none;
    same_error_count = 0;
    sender = sender;
    slept = 0;
  }

  -- The count stays below the limit while the loop runs, so that `+= 1` does not overflow.
  unfoldable pub note_error : Text → Receiver C → Receiver C
  note_error text r =
      if is_same_error r.last_error_text text
      then record r { same_error_count = r.same_error_count + 1 }
      else record r { last_error_text = some text; same_error_count = 1 }

  -- `if same_error_count >= MAX_CONSECUTIVE_SAME_ERROR { return }`, else what follows.
  abbrev pub unless_repeated : Receiver C → Receiver C → Receiver C
  unless_repeated r next =
      if leb max_consecutive_same_error r.same_error_count
      then record r { phase = stopped }
      else next

  -- The arm of a failed connection and that of a failed subscription.
  unfoldable pub retry : Text → Receiver C → Receiver C
  retry text r =
      let noted = note_error text r in
      unless_repeated noted (record noted { slept = noted.slept + retry_delay })

  -- The outer loop up to the inner one.
  unfoldable pub attempt : Bool → Attempt → Receiver C → Receiver C
  attempt true a r = record r { phase = stopped }
  attempt false (connect_failed text) r = retry text r
  attempt false (open_failed text) r = retry text r
  attempt false opened r = record r { phase = draining }

  abbrev pub with_stats : Receiver C → ReceiverStats → Receiver C
  with_stats r stats = record r { sender = record r.sender { stats = stats } }

  -- The arm of a decoded event; the answer of `try_send` is dropped.
  unfoldable pub send_event : Event → Receiver C → Receiver C
  send_event event r = record r {
    last_error_text = none;
    same_error_count = 0;
    sender = (try_send r.sender event).1;
  }

  abbrev pub after_decode : Result DecodeError (Option Event) → Receiver C → Receiver C
  after_decode (ok (some event)) r = send_event event r
  after_decode (ok none) r = r
  after_decode (err e) r = with_stats r (add_decode_error r.sender.stats)

  -- The arm of a status: the disconnect is counted also where the thread gives up.
  unfoldable pub stream_failed : Text → Receiver C → Receiver C
  stream_failed text r =
      let noted = note_error text r in
      let counted = with_stats noted (add_disconnect noted.sender.stats) in
      unless_repeated counted (record counted { phase = connecting })

  -- One round of the inner loop.
  unfoldable pub poll : {D : Codec} → SubscriptionRole → Bool → Poll D → Receiver C → Receiver C
  poll role true p r = record r { phase = stopped }
  poll role false (update ts payload) r = after_decode (decode ts payload role) r
  poll role false (status text) r = stream_failed text r
  poll role false ended r = record r { phase = connecting }
  poll role false timed_out r = r

-- A round of either loop; the flag is what `shutdown.load` gave. Where it is set, the source makes no
-- attempt and waits for no message, and the round's is not looked at.
pub data Round (D : Codec) : Type 0 where
  attempted : Bool → Attempt → Round D
  polled : Bool → Poll D → Round D

-- The runs of a thread, the last round first. A round is of the loop that the thread is in.
pub data Runs {C : ChannelOps} (D : Codec) (role : SubscriptionRole) (start : Ring C)
    : List (Round D) → Receiver C → Type 0 where
  begun : Runs D role start [] (enter start)
  attempts :
      {rounds : List (Round D)} {r : Receiver C}
      → (shutdown : Bool) (a : Attempt) → Runs D role start rounds r
      → r.phase ≡ connecting
      → Runs D role start (attempted shutdown a ∷ rounds) (attempt shutdown a r)
  polls :
      {rounds : List (Round D)} {r : Receiver C}
      → (shutdown : Bool) (p : Poll D) → Runs D role start rounds r
      → r.phase ≡ draining
      → Runs D role start (polled shutdown p ∷ rounds) (poll role shutdown p r)
