-- ===== src/Matching/Pair/Tally.antt =====
-- The digest and the directional counters of a `PairMatcher` (src/matching/mod.rs) against the
-- matches that it reported.
use grpc_bench.Prelude.{
  ℕ, ◌+◌, ◌≤◌, ◌<◌, ◌≡◌, Bool, Option, none, some, List, [], ◌∷◌, length, length-push, push, ltb,
  arith, if◌then◌else◌,
}
use grpc_bench.Prelude.Words.{u64_mod, to_i64}
use grpc_bench.Prelude.Eq.{Eq}
use grpc_bench.Floats.{Floats, TDigestLaws, ns_to_ms}
use grpc_bench.Timing.{EventTimestamp}
use grpc_bench.Subscribe.{EndpointRole, one, two}
use grpc_bench.Matching.Pair.Frame.{evict_rule, advance_rule, pair_up_rule, push_delta_frame}
use grpc_bench.Matching.Pair.History.{Observation, step}
use grpc_bench.Matching.Pair.{
  PairMatcher, MatchResult, flush, push_delta, evict, evict_window, evict_lru, advance, bump,
  observe, record_match, count_match, with_pending, opposite, delta_of, ep1_of, ep2_of,
}

module _ {N : Floats} {K : Type 0} ⦃e : Eq K⦄ where
  -- The matches that a history reports, in order.
  unfoldable pub results : PairMatcher N K → List (Observation K) → List (MatchResult N)
  results m [] = []
  results m (o ∷ os) =
      let rest = results (step m o) os in
      elim (observe m o.endpoint o.key o.ts o.slot).0 [ none ↦ rest | some r ↦ r ∷ rest ]

module _ {N : Floats} where
  -- Endpoint 1 was first, or endpoint 2, on clocks that are cut off at `i64::MAX`.
  abbrev pub ep1_first : MatchResult N → Bool
  ep1_first r = ltb (to_i64 r.ep1_ts.mono_ns) (to_i64 r.ep2_ts.mono_ns)

  abbrev pub ep2_first : MatchResult N → Bool
  ep2_first r = ltb (to_i64 r.ep2_ts.mono_ns) (to_i64 r.ep1_ts.mono_ns)

-- How many elements pass a test.
abbrev pub count_if : {A : Type 0} → (A → Bool) → List A → ℕ
count_if p [] = 0
count_if p (x ∷ xs) = (if p x then 1 else 0) + count_if p xs

module _ {N : Floats} (L : TDigestLaws N) {K : Type 0} where
  -- `c` matches, of which `f1` and `f2` in either direction; every one is a sample of the digest or
  -- waits in the buffer, which has not reached its limit.
  pub record Tally (c f1 f2 : ℕ) (m : PairMatcher N K) : Type 0 where
    pub matched : m.counts.matched ≡ c
    pub ep1_faster : m.counts.ep1_faster ≡ f1
    pub ep2_faster : m.counts.ep2_faster ≡ f2
    pub sampled : L.count m.digest + length m.buffer ≡ c
    pub room : length m.buffer < 1024

  push_delta_sampled :
      (m : PairMatcher N K) (d : N.F64)
      → length m.buffer < 1024
      → (L.count (push_delta m d).digest + length (push_delta m d).buffer
          ≡ L.count m.digest + length m.buffer + 1)
        × (length (push_delta m d).buffer < 1024)
  unfolding push_delta flush
  push_delta_sampled m d room =
      ground (arith, length-push m.buffer d, L.count_merge m.digest (push m.buffer d))

  -- After an operation that reported `o`.
  abbrev pub Next : ℕ → ℕ → ℕ → Option (MatchResult N) × PairMatcher N K → Type 0
  Next c f1 f2 (none, m) = Tally c f1 f2 m
  Next c f1 f2 (some r, m) =
      Tally (c + 1) (f1 + (if ep1_first r then 1 else 0)) (f2 + (if ep2_first r then 1 else 0)) m

  record_match-Tally :
      (c f1 f2 : ℕ) (m : PairMatcher N K) (endpoint : EndpointRole) (ts other : EventTimestamp)
      → c + 1 < u64_mod
      → f1 ≤ c
      → f2 ≤ c
      → Tally c f1 f2 m
      → Next c f1 f2 (record_match m endpoint ts other)
  unfolding record_match count_match
  record_match-Tally c f1 f2 m endpoint ts other small le1 le2 t =
      let delta = delta_of endpoint ts other in
      let frame = push_delta_frame m (ns_to_ms N delta) in
      let (sampled, room) = push_delta_sampled m (ns_to_ms N delta) t.room in
      let a = to_i64 (ep1_of endpoint ts other).mono_ns in
      let b = to_i64 (ep2_of endpoint ts other).mono_ns in
      record {
        matched = rw frame.2 (ground (arith, t.matched));
        ep1_faster = rw frame.2 (ground (arith, t.ep1_faster));
        ep2_faster = rw frame.2 (ground (arith, t.ep2_faster));
        sampled = omega (arith, sampled, t.sampled);
        room = room;
      }

module _ {N : Floats} (L : TDigestLaws N) {K : Type 0} ⦃e : Eq K⦄ where
  pub evict-Tally :
      (c f1 f2 : ℕ) (m : PairMatcher N K) → Tally L c f1 f2 m → Tally L c f1 f2 (evict m)
  evict-Tally c f1 f2 m t =
      evict_rule (Tally L c f1 f2) m
        (λ window _.
          unfold evict_window in
          record {
            matched = t.matched;
            ep1_faster = t.ep1_faster;
            ep2_faster = t.ep2_faster;
            sampled = t.sampled;
            room = t.room;
          })
        (λ max_pending _.
          unfold evict_lru in
          record {
            matched = t.matched;
            ep1_faster = t.ep1_faster;
            ep2_faster = t.ep2_faster;
            sampled = t.sampled;
            room = t.room;
          })

  Tally-bump :
      (c f1 f2 slot : ℕ) (m : PairMatcher N K) → Tally L c f1 f2 m → Tally L c f1 f2 (bump m slot)
  Tally-bump c f1 f2 slot m t = record {
    matched = t.matched;
    ep1_faster = t.ep1_faster;
    ep2_faster = t.ep2_faster;
    sampled = t.sampled;
    room = t.room;
  }

  advance-Tally :
      (c f1 f2 slot : ℕ) (m : PairMatcher N K)
      → Tally L c f1 f2 m
      → Tally L c f1 f2 (advance m slot)
  advance-Tally c f1 f2 slot m t =
      let b = Tally-bump c f1 f2 slot m t in
      advance_rule (Tally L c f1 f2) m slot b (evict-Tally c f1 f2 (bump m slot) b)

  with_pending-Tally :
      (c f1 f2 : ℕ) (side : EndpointRole) (p : _) (m : PairMatcher N K)
      → Tally L c f1 f2 m
      → Tally L c f1 f2 (with_pending side p m)
  with_pending-Tally c f1 f2 one p m t = record {
    matched = t.matched;
    ep1_faster = t.ep1_faster;
    ep2_faster = t.ep2_faster;
    sampled = t.sampled;
    room = t.room;
  }
  with_pending-Tally c f1 f2 two p m t = record {
    matched = t.matched;
    ep1_faster = t.ep1_faster;
    ep2_faster = t.ep2_faster;
    sampled = t.sampled;
    room = t.room;
  }

  pub observe-Tally :
      (c f1 f2 : ℕ) (m : PairMatcher N K) (o : Observation K)
      → c + 1 < u64_mod
      → f1 ≤ c
      → f2 ≤ c
      → Tally L c f1 f2 m
      → Next L c f1 f2 (observe m o.endpoint o.key o.ts o.slot)
  unfolding observe
  observe-Tally c f1 f2 m o small le1 le2 t =
      let t' = advance-Tally c f1 f2 o.slot m t in
      pair_up_rule (Next L c f1 f2) (advance m o.slot) o.endpoint o.key o.ts o.slot
        (λ absent. with_pending-Tally c f1 f2 o.endpoint _ (advance m o.slot) t')
        (λ other present.
          record_match-Tally L c f1 f2 _ o.endpoint o.ts other.ts small le1 le2
            (with_pending-Tally c f1 f2 (opposite o.endpoint) _ (advance m o.slot) t'))
