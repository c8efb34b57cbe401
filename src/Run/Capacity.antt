-- ===== src/Run/Capacity.antt =====
-- The ring capacities of src/run.rs and the rings made of them.
use grpc_bench.Prelude.{ℕ, ◌≤◌, ◌≡◌, some, [], arith}
use grpc_bench.Subscribe.{slots, accounts, transactions, blocks, SubscriptionRole, main, entries}
use grpc_bench.Collect.Stats
use grpc_bench.Collect.Ring.{ChannelOps, Ring, with_capacity}
use grpc_bench.Collect.Ring.Trace.{ChannelLaws}
use grpc_bench.Run.{ring_capacity_for}

ring_capacity_for-positive :
    (role : SubscriptionRole) (baseline : ℕ) → 1 ≤ ring_capacity_for role baseline
unfolding ring_capacity_for
ring_capacity_for-positive role baseline = omega arith

ring_capacity_for-le :
    (role : SubscriptionRole) (a b : ℕ)
    → a ≤ b
    → ring_capacity_for role a ≤ ring_capacity_for role b
unfolding ring_capacity_for
ring_capacity_for-le (main role commitment accounts) a b h = omega (arith, h)
ring_capacity_for-le (main role commitment transactions) a b h = omega (arith, h)
ring_capacity_for-le (main role commitment blocks) a b h = omega (arith, h)
ring_capacity_for-le (main role commitment slots) a b h = omega (arith, h)
ring_capacity_for-le (entries role) a b h = omega (arith, h)

module _ {C : ChannelOps} (L : ChannelLaws C) where
  -- Whatever `--ring-capacity` is, 0 included, `with_capacity` makes each stream's ring: it is empty,
  -- its channel holds exactly the capacity computed, and that is at most the one of a larger baseline.
  pub every_ring_made :
      (role : SubscriptionRole) (baseline larger : ℕ)
      → baseline ≤ larger
      → (r : Ring C) × (with_capacity (ring_capacity_for role baseline) ≡ some r)
        × (L.contents r.channel ≡ [])
        × (L.capacity r.channel ≡ ring_capacity_for role baseline)
        × (L.capacity r.channel ≤ ring_capacity_for role larger)
  unfolding with_capacity
  every_ring_made role baseline larger h =
      let n = ring_capacity_for role baseline in
      let positive = ring_capacity_for-positive role baseline in
      let grown = ring_capacity_for-le role baseline larger h in
      let r : Ring C = record { channel = C.bounded n; stats = Stats.new } in
      let full = L.capacity_bounded n in
      (r, ground (arith, positive), L.contents_bounded n, full, omega (arith, full, grown))
