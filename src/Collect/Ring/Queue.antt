-- ===== src/Collect/Ring/Queue.antt =====
-- A channel for the ring of src/collect/ring.rs: a queue of bounded length.
use grpc_bench.Prelude.{
  ℕ, ◌≡◌, refl, inl, inr, List, [], ◌∷◌, length, push, ltb, if◌then◌else◌, Bool-cases, arith,
}
use grpc_bench.Collect.{Event}
use grpc_bench.Collect.Ring.{ChannelOps, SendOutcome, sent, full, RecvOutcome, received, empty}
use grpc_bench.Collect.Ring.Trace.{ChannelLaws, SendLaw, RecvLaw}

-- The events that wait, and the capacity.
abbrev pub queue_send : List Event × ℕ → Event → SendOutcome × (List Event × ℕ)
queue_send (es, n) e = if ltb (length es) n then (sent, (push es e, n)) else (full, (es, n))

abbrev pub queue_recv : List Event × ℕ → RecvOutcome × (List Event × ℕ)
queue_recv ([], n) = (empty, ([], n))
queue_recv (e ∷ es, n) = (received e, (es, n))

abbrev pub queue : ChannelOps
queue = record {
  Channel = List Event × ℕ;
  bounded = λ n. ([], n);
  channel_try_send = queue_send;
  channel_try_recv = queue_recv;
  len = λ c. length c.0;
}

pub queue_laws_send :
    (c : List Event × ℕ) (e : Event) → SendLaw c.1 c.0 e (queue_send c e).0 (queue_send c e).1.0
queue_laws_send (es, n) e = elim (Bool-cases (ltb (length es) n)) [
  | inl room ↦ rw room (refl, ground (arith, room))
  | inr no_room ↦ rw no_room (refl, ground (arith, no_room))
]

pub queue_laws_capacity_send : (c : List Event × ℕ) (e : Event) → (queue_send c e).1.1 ≡ c.1
queue_laws_capacity_send (es, n) e = elim (Bool-cases (ltb (length es) n)) [
  | inl room ↦ rw room refl
  | inr no_room ↦ rw no_room refl
]

pub queue_laws_recv : (c : List Event × ℕ) → RecvLaw c.0 (queue_recv c).0 (queue_recv c).1.0
queue_laws_recv ([], n) = (refl, refl)
queue_laws_recv (e ∷ es, n) = refl

pub queue_laws_capacity_recv : (c : List Event × ℕ) → (queue_recv c).1.1 ≡ c.1
queue_laws_capacity_recv ([], n) = refl
queue_laws_capacity_recv (e ∷ es, n) = refl

abbrev pub queue_laws : ChannelLaws queue
queue_laws = record {
  contents = λ c. c.0;
  capacity = λ c. c.1;
  contents_bounded = λ n. refl;
  capacity_bounded = λ n. refl;
  send = queue_laws_send;
  capacity_send = queue_laws_capacity_send;
  recv = queue_laws_recv;
  capacity_recv = queue_laws_capacity_recv;
  len = λ c. refl;
}
