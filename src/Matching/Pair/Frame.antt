-- ===== src/Matching/Pair/Frame.antt =====
-- What the steps of `PairMatcher::observe` (src/matching/mod.rs) leave alone, and its cases.
use grpc_bench.Prelude.{
  ℕ, ◌%◌, ◌≡◌, refl, ap, inl, inr, Option, none, some, nat_beq, Bool-cases, Option-cases, arith,
}
use grpc_bench.Prelude.Eq.{Eq}
use grpc_bench.Prelude.HashMap.{get, insert, remove}
use grpc_bench.Floats.{Floats, ns_to_ms}
use grpc_bench.Timing.{EventTimestamp}
use grpc_bench.Subscribe.{EndpointRole}
use grpc_bench.Matching.Pair.{
  PairMatcher, MatchPending, MatchResult, EvictionPolicy, slot_window, lru, evict_every, flush,
  push_delta, evict, evict_by, evict_window, evict_lru, advance, bump, pair_up, record_match,
  count_match, delta_of, pending, with_pending, opposite,
}

module _ {N : Floats} {K : Type 0} where
  -- `flush` and `push_delta` write the digest and the buffer only.
  pub push_delta_frame :
      (m : PairMatcher N K) (d : N.F64)
      → ((push_delta m d).pending_ep1 ≡ m.pending_ep1)
        × ((push_delta m d).pending_ep2 ≡ m.pending_ep2)
        × ((push_delta m d).counts ≡ m.counts)
        × ((push_delta m d).eviction ≡ m.eviction)
        × ((push_delta m d).high_water_slot ≡ m.high_water_slot)
        × ((push_delta m d).obs_count ≡ m.obs_count)
  unfolding push_delta flush
  push_delta_frame m d = ground arith

  -- A match leaves the maps and the eviction state alone, and counts the pair.
  pub record_match_frame :
      (m : PairMatcher N K) (endpoint : EndpointRole) (ts other : EventTimestamp)
      → let m' = (record_match m endpoint ts other).1 in
        (m'.pending_ep1 ≡ m.pending_ep1)
        × (m'.pending_ep2 ≡ m.pending_ep2)
        × (m'.counts ≡ count_match m.counts (delta_of endpoint ts other))
        × (m'.eviction ≡ m.eviction)
        × (m'.high_water_slot ≡ m.high_water_slot)
        × (m'.obs_count ≡ m.obs_count)
  unfolding record_match
  record_match_frame m endpoint ts other =
      let delta = delta_of endpoint ts other in
      let f = push_delta_frame m (ns_to_ms N delta) in
      (f.0, f.1, ap (λ c. count_match c delta) f.2, f.3, f.4, f.5)

module _ {N : Floats} {K : Type 0} ⦃e : Eq K⦄ where
  -- What holds after either policy holds after `evict`.
  pub evict_rule {ℓ} :
      (P : PairMatcher N K → Type ℓ) (m : PairMatcher N K)
      → ((window : ℕ) → m.eviction ≡ slot_window window → P (evict_window window m))
      → ((max_pending : ℕ) → m.eviction ≡ lru max_pending → P (evict_lru max_pending m))
      → P (evict m)
  unfolding evict
  evict_rule P m f g = go m.eviction refl
    where
      go : (p : EvictionPolicy) → m.eviction ≡ p → P (evict_by p m)
      go (slot_window window) h = f window h
      go (lru max_pending) h = g max_pending h

  -- What holds with and without the eviction pass holds after `advance`.
  pub advance_rule {ℓ} :
      (P : PairMatcher N K → Type ℓ) (m : PairMatcher N K) (slot : ℕ)
      → P (bump m slot)
      → P (evict (bump m slot))
      → P (advance m slot)
  unfolding advance
  advance_rule P m slot quiet pass =
      elim (Bool-cases (nat_beq ((bump m slot).obs_count % evict_every) 0)) [
        | inl due ↦ rw due pass
        | inr early ↦ rw early quiet
      ]

  -- The two branches of `observe` behind `advance`.
  pub pair_up_rule {ℓ} :
      (P : Option (MatchResult N) × PairMatcher N K → Type ℓ) (m : PairMatcher N K)
      (endpoint : EndpointRole) (key : K) (ts : EventTimestamp) (slot : ℕ)
      → (get key (pending (opposite endpoint) m) ≡ none
          → P (
            none,
            with_pending endpoint
                (insert key (record { ts = ts; slot = slot }) (pending endpoint m))
                m,
          ))
      → ((other : MatchPending)
          → get key (pending (opposite endpoint) m) ≡ some other
          → P (
              record_match
                (with_pending (opposite endpoint) (remove key (pending (opposite endpoint) m)) m)
                endpoint
                ts
                other.ts))
      → P (pair_up m endpoint key ts slot)
  unfolding pair_up
  pair_up_rule P m endpoint key ts slot wait meet =
      elim (Option-cases (get key (pending (opposite endpoint) m))) [
        | inl absent ↦ rw (absent, pair_up) (wait absent)
        | inr (other, present) ↦ rw (present, pair_up) (meet other present)
      ]

  pub evict-slot_window :
      (m : PairMatcher N K) (window : ℕ)
      → m.eviction ≡ slot_window window
      → evict m ≡ evict_window window m
  unfolding evict
  evict-slot_window m window policy = ap (λ p. evict_by p m) policy

  pub evict-lru :
      (m : PairMatcher N K) (max_pending : ℕ)
      → m.eviction ≡ lru max_pending
      → evict m ≡ evict_lru max_pending m
  unfolding evict
  evict-lru m max_pending policy = ap (λ p. evict_by p m) policy
