-- ===== src/Receiver/Streak.antt =====
-- src/run.rs: when a receiver gives up.
use grpc_bench.Prelude.{
  ◌+◌, ◌≤◌, ◌≡◌, ◌↔◌, ◌⊎◌, refl, sym, ap, ◌∙◌, inl, inr, Bool, true, false, ◌||◌, Option, none,
  some, List, ◌∷◌, leb, Bool-cases, arith,
}
use grpc_bench.Prelude.Result.{Result, ok, err}
use grpc_bench.Text.{Text}
use grpc_bench.Subscribe.{SubscriptionRole}
use grpc_bench.Collect.{Event}
use grpc_bench.Collect.Decode.{Codec, DecodeError, decode}
use grpc_bench.Collect.Ring.{ChannelOps, Ring}
use grpc_bench.Receiver.{
  Phase, connecting, draining, stopped, Attempt, connect_failed, open_failed, opened, Poll, update,
  status, ended, timed_out, Round, attempted, polled, is_same_error, Receiver, note_error, retry,
  attempt, send_event, after_decode, stream_failed, poll, unless_repeated, with_stats,
  add_disconnect, Runs, begun, attempts, polls,
}
use grpc_bench.Receiver.Errors.{
  first, streak, unless_event, recent, asked_to_stop, streak-cons, is_same_error-some,
}

abbrev is_stopped : Phase → Bool
is_stopped connecting = false
is_stopped draining = false
is_stopped stopped = true

module _ {C : ChannelOps} where
  -- The locals hold the last failure and how often it has come.
  record Agrees (ts : List Text) (r : Receiver C) : Type 0 where
    last : r.last_error_text ≡ first ts
    count : r.same_error_count ≡ streak ts

  note_error-Agrees :
      (t : Text) (ts : List Text) (r : Receiver C) → Agrees ts r → Agrees (t ∷ ts) (note_error t r)
  unfolding note_error
  note_error-Agrees t ts r a =
      let known : is_same_error r.last_error_text t ≡ is_same_error (first ts) t =
        ap (λ o. is_same_error o t) a.last in
      elim (Bool-cases (is_same_error r.last_error_text t)) [
        | inl same ↦ record {
          last = rw (note_error, same) (is_same_error-some r.last_error_text t same);
          count =
              rw (note_error, same)
                (rw (streak-cons t ts, ← known, same) (ap (λ n. n + 1) a.count));
        }
        | inr other ↦ record {
          last = rw (note_error, other) refl;
          count = rw (note_error, other) (rw (streak-cons t ts, ← known, other) refl);
        }
      ]

  note_error-phase : (t : Text) (r : Receiver C) → (note_error t r).phase ≡ r.phase
  unfolding note_error
  note_error-phase t r = ground arith

  -- What a round leaves: the locals agree, and the thread has returned exactly when it was asked to
  -- or one failure came five times on end.
  record IsJudged (asked : Bool) (ts : List Text) (r : Receiver C) : Type 0 where
    agrees : Agrees ts r
    returned : is_stopped r.phase ≡ asked || leb 5 (streak ts)

  unless_repeated-IsJudged :
      (ts : List Text) (r next : Receiver C)
      → Agrees ts r
      → Agrees ts next
      → is_stopped next.phase ≡ false
      → IsJudged false ts (unless_repeated r next)
  unless_repeated-IsJudged ts r next a b runs =
      let known : leb 5 (streak ts) ≡ leb 5 r.same_error_count = ap (leb 5) (sym a.count) in
      elim (Bool-cases (leb 5 r.same_error_count)) [
        | inl often ↦ record {
          agrees = record { last = rw often a.last; count = rw often a.count };
          returned = rw often (sym (known ∙ often));
        }
        | inr seldom ↦ record {
          agrees = record { last = rw seldom b.last; count = rw seldom b.count };
          returned = rw seldom (runs ∙ sym (known ∙ seldom));
        }
      ]

  retry-IsJudged :
      (t : Text) (ts : List Text) (r : Receiver C)
      → is_stopped r.phase ≡ false
      → Agrees ts r
      → IsJudged false (t ∷ ts) (retry t r)
  unfolding retry
  retry-IsJudged t ts r runs a =
      let n = note_error-Agrees t ts r a in
      unless_repeated-IsJudged (t ∷ ts) (note_error t r) _ n
        (record { last = n.last; count = n.count }) (ap is_stopped (note_error-phase t r) ∙ runs)

  stream_failed-IsJudged :
      (t : Text) (ts : List Text) (r : Receiver C)
      → Agrees ts r
      → IsJudged false (t ∷ ts) (stream_failed t r)
  unfolding stream_failed
  stream_failed-IsJudged t ts r a =
      let n = note_error-Agrees t ts r a in
      let noted = note_error t r in
      let counted = with_stats noted (add_disconnect noted.sender.stats) in
      unless_repeated-IsJudged (t ∷ ts) counted (record counted { phase = connecting })
        (record { last = n.last; count = n.count }) (record { last = n.last; count = n.count }) refl

  -- A thread that still runs, with fewer than five of the last failure on end.
  record IsRunning (ts : List Text) (r : Receiver C) : Type 0 where
    agrees : Agrees ts r
    runs : is_stopped r.phase ≡ false
    few : leb 5 (streak ts) ≡ false

  still : (ts : List Text) (r : Receiver C) → IsRunning ts r → IsJudged false ts r
  still ts r a = record { agrees = a.agrees; returned = a.runs ∙ sym a.few }

  attempt-IsJudged :
      {D : Codec}
      → (role : SubscriptionRole) (rounds : List (Round D)) (r : Receiver C) (shutdown : Bool)
        (a : Attempt)
      → IsRunning (recent role rounds) r
      → IsJudged shutdown (recent role (attempted shutdown a ∷ rounds)) (attempt shutdown a r)
  unfolding attempt
  attempt-IsJudged role rounds r true a i = record {
    agrees = record { last = i.agrees.last; count = i.agrees.count };
    returned = refl;
  }
  attempt-IsJudged role rounds r false (connect_failed t) i =
      retry-IsJudged t (recent role rounds) r i.runs i.agrees
  attempt-IsJudged role rounds r false (open_failed t) i =
      retry-IsJudged t (recent role rounds) r i.runs i.agrees
  attempt-IsJudged role rounds r false opened i = record {
    agrees = record { last = i.agrees.last; count = i.agrees.count };
    returned = sym i.few;
  }

  after_decode-IsJudged :
      (ts : List Text) (r : Receiver C) (d : Result DecodeError (Option Event))
      → IsRunning ts r
      → IsJudged false (unless_event d ts) (after_decode d r)
  unfolding send_event
  after_decode-IsJudged ts r (ok (some event)) i = record {
    agrees = record { last = refl; count = refl };
    returned = i.runs;
  }
  after_decode-IsJudged ts r (ok none) i = still ts r i
  after_decode-IsJudged ts r (err e) i = record {
    agrees = record { last = i.agrees.last; count = i.agrees.count };
    returned = i.runs ∙ sym i.few;
  }

  poll-IsJudged :
      {D : Codec}
      → (role : SubscriptionRole) (rounds : List (Round D)) (r : Receiver C) (shutdown : Bool)
        (p : Poll D)
      → IsRunning (recent role rounds) r
      → IsJudged shutdown (recent role (polled shutdown p ∷ rounds)) (poll role shutdown p r)
  unfolding poll
  poll-IsJudged role rounds r true p i = record {
    agrees = record { last = i.agrees.last; count = i.agrees.count };
    returned = refl;
  }
  poll-IsJudged role rounds r false (update ts payload) i =
      after_decode-IsJudged (recent role rounds) r (decode ts payload role) i
  poll-IsJudged role rounds r false (status t) i =
      stream_failed-IsJudged t (recent role rounds) r i.agrees
  poll-IsJudged role rounds r false ended i = record {
    agrees = record { last = i.agrees.last; count = i.agrees.count };
    returned = sym i.few;
  }
  poll-IsJudged role rounds r false timed_out i = still (recent role rounds) r i

or-false : (a b : Bool) → a || b ≡ false → b ≡ false
or-false true b h = absurd (cc)
or-false false b h = h

module _ {C : ChannelOps} {D : Codec} (role : SubscriptionRole) (start : Ring C) where
  running :
      (rounds : List (Round D)) (r : Receiver C) (phase : Phase)
      → IsJudged (asked_to_stop rounds) (recent role rounds) r
      → r.phase ≡ phase
      → is_stopped phase ≡ false
      → IsRunning (recent role rounds) r
  running rounds r phase j e f =
      let runs = ap is_stopped e ∙ f in
      record {
        agrees = j.agrees;
        runs = runs;
        few = or-false (asked_to_stop rounds) _ (sym j.returned ∙ runs);
      }

  Runs-IsJudged :
      {rounds : List (Round D)} {r : Receiver C}
      → Runs D role start rounds r
      → IsJudged (asked_to_stop rounds) (recent role rounds) r
  Runs-IsJudged begun = record { agrees = record { last = refl; count = refl }; returned = refl }
  Runs-IsJudged (attempts {rounds} {r} shutdown a before e) =
      attempt-IsJudged role rounds r shutdown a
        (running rounds r connecting (Runs-IsJudged before) e refl)
  Runs-IsJudged (polls {rounds} {r} shutdown p before e) =
      poll-IsJudged role rounds r shutdown p
        (running rounds r draining (Runs-IsJudged before) e refl)

is_stopped_iff : (p : Phase) → (is_stopped p ≡ true) ↔ (p ≡ stopped)
is_stopped_iff p = ground arith

-- A receiver returns exactly when its last round saw the shutdown flag, or when the last five
-- failures since it last decoded an event, of a connection, a subscription or a stream, had one
-- text. A stream that ends without a status is no failure, and does not come between failures.
pub gives_up_exactly :
    {C : ChannelOps} {D : Codec}
    → (role : SubscriptionRole) (start : Ring C) (rounds : List (Round D)) (r : Receiver C)
    → Runs D role start rounds r
    → (r.phase ≡ stopped) ↔ ((asked_to_stop rounds ≡ true) ⊎ (5 ≤ streak (recent role rounds)))
gives_up_exactly role start rounds r run =
    let j = Runs-IsJudged role start run in ground (arith, j.returned, is_stopped_iff r.phase)
