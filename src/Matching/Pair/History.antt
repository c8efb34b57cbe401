-- ===== src/Matching/Pair/History.antt =====
-- Histories of a `PairMatcher` (src/matching/mod.rs), and where their observations go.
use grpc_bench.Prelude.{ℕ, suc, ◌+◌, ◌-◌, ◌*◌, ◌≤◌, ◌<◌, ◌≡◌, refl, List, [], ◌∷◌, length, arith}
use grpc_bench.Prelude.Words.{u64_mod}
use grpc_bench.Prelude.Eq.{Eq}
use grpc_bench.Prelude.HashMap.{get}
use grpc_bench.Floats.{Floats}
use grpc_bench.Timing.{EventTimestamp}
use grpc_bench.Subscribe.{EndpointRole}
use grpc_bench.Matching.Pair.{PairMatcher, EvictionPolicy, new, advance, observe}
use grpc_bench.Prelude.HashMap.Apart.{Apart}
use grpc_bench.Matching.Pair.Accounting.{Balanced, overwrites, advance-Balanced, pair_up-Balanced}

pub record Observation (K : Type 0) : Type 0 where
  pub endpoint : EndpointRole
  pub key : K
  pub ts : EventTimestamp
  pub slot : ℕ

module _ {N : Floats} {K : Type 0} ⦃e : Eq K⦄ where
  -- One observation, and a history of them.
  unfoldable pub step : PairMatcher N K → Observation K → PairMatcher N K
  step m o = (observe m o.endpoint o.key o.ts o.slot).1

  unfoldable pub run : PairMatcher N K → List (Observation K) → PairMatcher N K
  run m [] = m
  run m (o ∷ os) = run (step m o) os

  -- How many observations of a history replace one that waited.
  unfoldable pub overwritten : PairMatcher N K → List (Observation K) → ℕ
  overwritten m [] = 0
  overwritten m (o ∷ os) =
      overwrites (advance m o.slot) o.endpoint o.key + overwritten (step m o) os

  overwrites-le :
      (m : PairMatcher N K) (endpoint : EndpointRole) (key : K) → overwrites m endpoint key ≤ 1
  overwrites-le m endpoint key = ground arith

  step-Balanced :
      (n : ℕ) (m : PairMatcher N K) (o : Observation K)
      → n + 1 < u64_mod
      → Balanced n m
      → Balanced (n + 1 - overwrites (advance m o.slot) o.endpoint o.key) (step m o)
  unfolding step observe
  step-Balanced n m o h b =
      pair_up-Balanced n (advance m o.slot) o.endpoint o.key o.ts o.slot h
        (advance-Balanced n o.slot m (omega arith) b)

  pub run-Balanced :
      (n : ℕ) (m : PairMatcher N K) (os : List (Observation K))
      → n + length os < u64_mod
      → Balanced n m
      → Balanced (n + length os - overwritten m os) (run m os)
  unfolding run overwritten
  run-Balanced n m [] h b = let e : n + 0 - 0 ≡ n = omega arith in rw e b
  run-Balanced n m (o ∷ os) h b =
      let w = overwrites (advance m o.slot) o.endpoint o.key in
      let small = overwrites-le (advance m o.slot) o.endpoint o.key in
      let e : n + suc (length os) - (w + overwritten (step m o) os)
          ≡ n + 1 - w + length os - overwritten (step m o) os =
        omega (arith, small) in
      rw e (
        run-Balanced (n + 1 - w) (step m o) os (omega (arith, small))
          (step-Balanced n m o (omega arith) b))

  pub new-Balanced : (eviction : EvictionPolicy) → Balanced 0 (new N K eviction)
  unfolding new get
  new-Balanced eviction = record {
    maps = record { unique1 = tt; unique2 = tt; apart = λ k. omega arith };
    total = refl;
  }

  overwritten-le : (m : PairMatcher N K) (os : List (Observation K)) → overwritten m os ≤ length os
  unfolding overwritten
  overwritten-le m [] = omega arith
  overwritten-le m (o ∷ os) =
      omega (arith, overwrites-le (advance m o.slot) o.endpoint o.key, overwritten-le (step m o) os)

-- From a fresh matcher, after any history of fewer than 2 ^ 64 observations under either eviction
-- policy, every observation is accounted for exactly once: it is one of the two of a match, or it
-- still waits, or it was counted as evicted, or a later observation of its own endpoint under the
-- same key replaced it. No key waits on both endpoints, and none waits twice.
pub conservation :
    (N : Floats) {K : Type 0} ⦃e : Eq K⦄ (eviction : EvictionPolicy) (os : List (Observation K))
    → length os < u64_mod
    → let m = run (new N K eviction) os in
      (2 * m.counts.matched
          + length m.pending_ep1
          + length m.pending_ep2
          + m.counts.ep1_unmatched_evicted
          + m.counts.ep2_unmatched_evicted
          + overwritten (new N K eviction) os
        ≡ length os)
      × Apart m.pending_ep1 m.pending_ep2
conservation N {K} eviction os h =
    let b = run-Balanced 0 (new N K eviction) os (omega arith) (new-Balanced eviction) in
    (omega (arith, b.total, overwritten-le (new N K eviction) os), b.maps)
