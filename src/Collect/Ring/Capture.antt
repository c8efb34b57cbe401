-- ===== src/Collect/Ring/Capture.antt =====
-- What a ring of src/collect/ring.rs delivers of what it is offered.
use grpc_bench.Prelude.{
  ℕ, ◌+◌, ◌≤◌, ◌<◌, ◌≡◌, refl, sym, ap, ◌∙◌, some, List, [], ◌∷◌, ◌++◌, length, push, append_assoc,
  length-push, arith,
}
use grpc_bench.Prelude.Words.{u64_mod}
use grpc_bench.Collect.{Event}
use grpc_bench.Collect.Stats
use grpc_bench.Collect.Stats.{ReceiverStats}
use grpc_bench.Collect.Ring.{
  SendOutcome, sent, full, receiver_gone, RecvOutcome, received, empty, sender_gone, ChannelOps,
  Ring, with_capacity, after_send, try_send, try_recv, pending,
}
use grpc_bench.Collect.Ring.Trace.{
  SendLaw, RecvLaw, ChannelLaws, RingCall, offer, take_next, Trace, count_gone, add_accepted,
  add_delivered, start, call, calls,
}

module _ {C : ChannelOps} (L : ChannelLaws C) where
  record Kept (n : ℕ) (t : Trace C) : Type 0 where
    fifo : t.delivered ++ L.contents t.ring.channel ≡ t.accepted
    capacity : L.capacity t.ring.channel ≡ n
    bounded : length (L.contents t.ring.channel) ≤ n
    counted : length t.accepted + t.ring.stats.dropped + t.refused_gone ≡ t.offered

  after_send-Kept :
      (n : ℕ) (t : Trace C) (e : Event) (outcome : SendOutcome) (channel : C.Channel)
      → SendLaw
          (L.capacity t.ring.channel)
          (L.contents t.ring.channel)
          e
          outcome
          (L.contents channel)
      → L.capacity channel ≡ L.capacity t.ring.channel
      → t.offered + 1 < u64_mod
      → Kept n t
      → Kept n (record {
        ring = record { channel = channel; stats = (after_send t.ring.stats outcome).1 };
        offered = t.offered + 1;
        accepted = add_accepted t.accepted e (after_send t.ring.stats outcome).0;
        delivered = t.delivered;
        refused_gone = t.refused_gone + count_gone outcome;
      })
  after_send-Kept n t e sent channel law cap small k = record {
    fifo =
        ap (λ c. t.delivered ++ c) law.0
        ∙ sym (append_assoc t.delivered (L.contents t.ring.channel) (e ∷ []))
        ∙ ap (λ es. push es e) k.fifo;
    capacity = cap ∙ k.capacity;
    bounded = rw (law.0, length-push) (omega (arith, law.1, k.capacity));
    counted = rw length-push (omega (arith, k.counted));
  }
  after_send-Kept n t e full channel law cap small k = record {
    fifo = rw law.0 k.fifo;
    capacity = cap ∙ k.capacity;
    bounded = rw law.0 k.bounded;
    counted = omega (arith, k.counted);
  }
  after_send-Kept n t e receiver_gone channel law cap small k = record {
    fifo = rw law k.fifo;
    capacity = cap ∙ k.capacity;
    bounded = rw law k.bounded;
    counted = omega (arith, k.counted);
  }

  recv-Kept :
      (n : ℕ) (t : Trace C) (outcome : RecvOutcome) (channel : C.Channel)
      → RecvLaw (L.contents t.ring.channel) outcome (L.contents channel)
      → L.capacity channel ≡ L.capacity t.ring.channel
      → Kept n t
      → Kept n (record t {
        ring = record t.ring { channel = channel };
        delivered = add_delivered t.delivered outcome;
      })
  recv-Kept n t (received e) channel law cap k = record {
    fifo =
        append_assoc t.delivered (e ∷ []) (L.contents channel)
        ∙ ap (λ c. t.delivered ++ c) (sym law)
        ∙ k.fifo;
    capacity = cap ∙ k.capacity;
    bounded = omega (arith, ap (λ es. length es) law, k.bounded);
    counted = k.counted;
  }
  recv-Kept n t empty channel law cap k = record {
    fifo = ap (λ c. t.delivered ++ c) (law.1 ∙ sym law.0) ∙ k.fifo;
    capacity = cap ∙ k.capacity;
    bounded = rw law.1 (omega arith);
    counted = k.counted;
  }
  recv-Kept n t sender_gone channel law cap k = record {
    fifo = ap (λ c. t.delivered ++ c) (law.1 ∙ sym law.0) ∙ k.fifo;
    capacity = cap ∙ k.capacity;
    bounded = rw law.1 (omega arith);
    counted = k.counted;
  }

  call-Kept :
      (n : ℕ) (t : Trace C) (c : RingCall) → t.offered + 1 < u64_mod → Kept n t → Kept n (call t c)
  unfolding call try_send try_recv
  call-Kept n t (offer e) small k =
      let (outcome, channel) = C.channel_try_send t.ring.channel e in
      after_send-Kept n t e _ _ (L.send t.ring.channel e) (L.capacity_send t.ring.channel e) small k
  call-Kept n t take_next small k =
      recv-Kept n t _ _ (L.recv t.ring.channel) (L.capacity_recv t.ring.channel) k

  offered-call : (t : Trace C) (c : RingCall) → (call t c).offered ≤ t.offered + 1
  unfolding call
  offered-call t (offer e) = omega arith
  offered-call t take_next = omega arith

  calls-Kept :
      (n : ℕ) (t : Trace C) (cs : List RingCall)
      → t.offered + length cs < u64_mod
      → Kept n t
      → Kept n (calls t cs)
  unfolding calls
  calls-Kept n t [] small k = k
  calls-Kept n t (c ∷ cs) small k =
      let grown = offered-call t c in
      calls-Kept n (call t c) cs (omega (arith, small, grown))
        (call-Kept n t c (omega (arith, small)) k)

  with_capacity-some :
      (n : ℕ) (r : Ring C)
      → with_capacity n ≡ some r
      → (r.channel ≡ C.bounded n) × (r.stats ≡ Stats.new)
  unfolding with_capacity
  with_capacity-some n r made = (ground (arith, made), ground (arith, made))

  with_capacity-Kept : (n : ℕ) (r : Ring C) → with_capacity n ≡ some r → Kept n (start r)
  unfolding Stats.new
  with_capacity-Kept n r made =
      let e = with_capacity-some n r made in
      record {
        fifo = rw e.0 (L.contents_bounded n);
        capacity = rw e.0 (L.capacity_bounded n);
        bounded = rw (e.0, L.contents_bounded n) (omega arith);
        counted = rw e.1 refl;
      }

  -- Of a ring of positive capacity, after any calls of `try_send` and `try_recv`, fewer than 2 ^ 64:
  -- what was delivered, and after it what still waits, is what was accepted, in its order; at most
  -- the capacity waits; and each event offered was accepted, or counted in `dropped`, or refused
  -- because the receiver was gone.
  pub ring_keeps :
      (n : ℕ) (cs : List RingCall) (r : Ring C)
      → with_capacity n ≡ some r
      → length cs < u64_mod
      → let t = calls (start r) cs in
        (t.delivered ++ L.contents t.ring.channel ≡ t.accepted)
        × (pending t.ring ≤ n)
        × (length t.accepted + t.ring.stats.dropped + t.refused_gone ≡ t.offered)
  unfolding pending
  ring_keeps n cs r made small =
      let t = calls (start r) cs in
      let fresh = with_capacity-Kept n r made in
      let k = calls-Kept n (start r) cs (omega (arith, small)) fresh in
      (k.fifo, rw (L.len t.ring.channel) k.bounded, k.counted)
