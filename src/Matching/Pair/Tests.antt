-- ===== src/Matching/Pair/Tests.antt =====
-- The theorems on pair matchers at concrete inputs.
use grpc_bench.Prelude.{
  ℕ, ◌+◌, ◌*◌, ◌≤◌, ◌≡◌, ◌↔◌, refl, Option, some, List, [], ◌∷◌, length, is_empty, if◌then◌else◌,
  arith,
}
use grpc_bench.Prelude.Words.{i64_diff}
use grpc_bench.Prelude.Eq.{nat_eq, list_eq, option_eq, pair_eq, triple_eq, quadruple_eq}
use grpc_bench.Prelude.HashMap.{get, retain, insert}
use grpc_bench.Prelude.HashMap.Apart.{Apart}
use grpc_bench.Floats.{ns_to_ms, ratio}
use grpc_bench.Floats.Exact.{exact, exact_digests}
use grpc_bench.Timing.{EventTimestamp}
use grpc_bench.Subscribe.{EndpointRole, one, two}
use grpc_bench.Matching.Pair
use grpc_bench.Matching.Pair.{
  PairMatcher, MatchPending, MatchResult, zero_counts, EvictionPolicy, slot_window, lru, pending,
  opposite, evict, from_matcher, new,
}
use grpc_bench.Matching.Pair.History.{Observation, run, overwritten, conservation}
use grpc_bench.Matching.Pair.Pairing.{order_independent}
use grpc_bench.Matching.Pair.Window.{evict_window_exact}
use grpc_bench.Matching.Pair.Pass.{pass_clears}
use grpc_bench.Matching.Pair.Tally.{results, count_if, ep1_first, ep2_first}
use grpc_bench.Matching.Pair.Results.{summary_of_results}

abbrev at : ℕ → EventTimestamp
at mono_ns = record { mono_ns = mono_ns; wall_ms = 0 }

abbrev seen : EndpointRole → ℕ → ℕ → ℕ → Observation ℕ
seen endpoint key mono_ns slot = record {
  endpoint = endpoint;
  key = key;
  ts = at mono_ns;
  slot = slot;
}

-- Two matches, one in each direction, one that waits, and one that is replaced.
abbrev history : List (Observation ℕ)
history =
    seen one 5 1000000 5
    ∷ seen two 5 4000000 5
    ∷ seen two 6 5000000 6
    ∷ seen one 6 9000000 6
    ∷ seen one 7 9000001 7
    ∷ seen one 7 9000002 7
    ∷ []

abbrev waiting : EvictionPolicy → ℕ → PairMatcher exact ℕ
waiting policy obs_count = record {
  pending_ep1 = (3, record { ts = at 30; slot = 30 }) ∷ (9, record { ts = at 9; slot = 2 }) ∷ [];
  pending_ep2 = (4, record { ts = at 31; slot = 31 }) ∷ [];
  digest = [];
  buffer = [];
  counts = zero_counts;
  eviction = policy;
  high_water_slot = 70;
  obs_count = obs_count;
}

waiting-Apart :
    (policy : EvictionPolicy) (obs_count : ℕ)
    → Apart (waiting policy obs_count).pending_ep1 (waiting policy obs_count).pending_ep2
unfolding get
waiting-Apart policy obs_count = record {
  unique1 = (refl, (refl, tt));
  unique2 = (refl, tt);
  apart = λ k. ground arith;
}

conservation_example :
    let m = run (new exact ℕ (slot_window 64)) history in
    (2 * m.counts.matched
        + length m.pending_ep1
        + length m.pending_ep2
        + m.counts.ep1_unmatched_evicted
        + m.counts.ep2_unmatched_evicted
        + overwritten (new exact ℕ (slot_window 64)) history
      ≡ length history)
    × Apart m.pending_ep1 m.pending_ep2
conservation_example = conservation exact (slot_window 64) history (omega arith)

order_independent_example :
    let m = waiting (slot_window 64) 7 in
    let pair : Option (MatchResult exact) =
      some (record {
        delta_ms = ns_to_ms exact (i64_diff 700 900);
        ep1_ts = at 900;
        ep2_ts = at 700;
      }) in
    ((Pair.observe (Pair.observe m one 8 (at 900) 71).1 two 8 (at 700) 71).0 ≡ pair)
    × ((Pair.observe (Pair.observe m two 8 (at 700) 71).1 one 8 (at 900) 71).0 ≡ pair)
unfolding get
order_independent_example =
    order_independent (waiting (slot_window 64) 7) 8 (at 900) (at 700) 71 64
      (waiting-Apart (slot_window 64) 7) refl refl refl (omega arith)

evict_window_exact_example :
    let m = waiting (slot_window 64) 7 in
    let m' = evict m in
    ((side : EndpointRole) (k : ℕ) (v : MatchPending)
      → (get k (pending side m') ≡ some v)
        ↔ ((get k (pending side m) ≡ some v) × (70 ≤ v.slot + 64)))
    × (length m'.pending_ep1 + m'.counts.ep1_unmatched_evicted ≡ 2)
    × (length m'.pending_ep2 + m'.counts.ep2_unmatched_evicted ≡ 1)
    × (m'.counts.matched ≡ 0)
    × (m'.buffer ≡ [])
    × (m'.digest ≡ [])
    × (m'.high_water_slot ≡ 70)
evict_window_exact_example =
    evict_window_exact (waiting (slot_window 64) 7) 64 (waiting-Apart (slot_window 64) 7) refl
      (omega arith) (omega arith)

pass_clears_example :
    (Pair.observe (waiting (slot_window 64) 255) one 8 (at 900) 80).1.high_water_slot ≤ 30 + 64
unfolding get Pair.observe Pair.pair_up Pair.advance Pair.evict Pair.evict_by Pair.evict_window
    retain insert
pass_clears_example =
    pass_clears (waiting (slot_window 64) 255) one 8 (at 900) 80 64 one 3
      (record { ts = at 30; slot = 30 }) (waiting-Apart (slot_window 64) 255) refl refl
      (λ same. omega (arith, same)) refl

summary_of_results_example :
    let rs = results (new exact ℕ (slot_window 64)) history in
    let s = (from_matcher (run (new exact ℕ (slot_window 64)) history)).0 in
    let d = (from_matcher (run (new exact ℕ (slot_window 64)) history)).1.digest in
    let q = λ (x : exact.F64). if is_empty rs then exact.nan else exact.estimate_quantile d x in
    (s ≡ record {
      p50 = q (ratio exact 50 100);
      p90 = q (ratio exact 90 100);
      p99 = q (ratio exact 99 100);
      p99_9 = q (ratio exact 999 1000);
      matched = length rs;
      ep1_faster = count_if ep1_first rs;
      ep2_faster = count_if ep2_first rs;
    })
    × (length d ≡ length rs)
summary_of_results_example = summary_of_results exact_digests (slot_window 64) history (omega arith)
