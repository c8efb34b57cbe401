-- ===== src/Matching/Pair/Counting.antt =====
-- How one call of `PairMatcher::observe` (src/matching/mod.rs) moves the match counters.
use grpc_bench.Prelude.{ℕ, ◌≡◌, refl, Option, none, some}
use grpc_bench.Prelude.Int.{ℤ}
use grpc_bench.Prelude.Eq.{Eq}
use grpc_bench.Floats.{Floats, ns_to_ms}
use grpc_bench.Timing.{EventTimestamp}
use grpc_bench.Subscribe.{EndpointRole, one, two}
use grpc_bench.Matching.Pair.Frame.{evict_rule, advance_rule, pair_up_rule, record_match_frame}
use grpc_bench.Matching.Pair.{
  PairMatcher, MatchCounts, MatchResult, evict, evict_window, evict_lru, advance, bump, observe,
  record_match, count_match, with_pending, opposite, delta_of,
}

-- The three counters of matches agree; those of evictions may not.
pub record SameMatches (a b : MatchCounts) : Type 0 where
  pub matched : a.matched ≡ b.matched
  pub ep1_faster : a.ep1_faster ≡ b.ep1_faster
  pub ep2_faster : a.ep2_faster ≡ b.ep2_faster

SameMatches-refl : (a : MatchCounts) → SameMatches a a
SameMatches-refl a = record { matched = refl; ep1_faster = refl; ep2_faster = refl }

pub SameMatches-count_match :
    (a b : MatchCounts) (delta : ℤ)
    → SameMatches a b
    → SameMatches (count_match a delta) (count_match b delta)
unfolding count_match
SameMatches-count_match a b delta s = record {
  matched = rw s.matched refl;
  ep1_faster = rw s.ep1_faster refl;
  ep2_faster = rw s.ep2_faster refl;
}

module _ {N : Floats} {K : Type 0} where
  -- The counters after a call, from those before and the result.
  abbrev pub Counted : MatchCounts → Option (MatchResult N) × PairMatcher N K → Type 0
  Counted before (none, m) = SameMatches m.counts before
  Counted before (some r, m) =
      (delta : ℤ) × (r.delta_ms ≡ ns_to_ms N delta)
      × SameMatches m.counts (count_match before delta)

  record_match-Counted :
      (before : MatchCounts) (m : PairMatcher N K) (endpoint : EndpointRole)
      (ts other : EventTimestamp)
      → SameMatches m.counts before
      → Counted before (record_match m endpoint ts other)
  unfolding record_match
  record_match-Counted before m endpoint ts other s =
      let delta = delta_of endpoint ts other in
      (
        delta,
        refl,
        rw (record_match_frame m endpoint ts other).2
            (SameMatches-count_match m.counts before delta s),
      )

  with_pending-SameMatches :
      (before : MatchCounts) (m : PairMatcher N K) (side : EndpointRole) (p : _)
      → SameMatches m.counts before
      → SameMatches (with_pending side p m).counts before
  with_pending-SameMatches before m one p s = s
  with_pending-SameMatches before m two p s = s

module _ {N : Floats} {K : Type 0} ⦃e : Eq K⦄ where
  pub evict-SameMatches : (m : PairMatcher N K) → SameMatches (evict m).counts m.counts
  evict-SameMatches m =
      evict_rule (λ m'. SameMatches m'.counts m.counts) m
        (λ window _.
          unfold evict_window in record { matched = refl; ep1_faster = refl; ep2_faster = refl })
        (λ max_pending _.
          unfold evict_lru in record { matched = refl; ep1_faster = refl; ep2_faster = refl })

  advance-SameMatches :
      (m : PairMatcher N K) (slot : ℕ) → SameMatches (advance m slot).counts m.counts
  advance-SameMatches m slot =
      advance_rule (λ m'. SameMatches m'.counts m.counts) m slot (SameMatches-refl m.counts)
        (evict-SameMatches (bump m slot))

  pub observe-Counted :
      (m : PairMatcher N K) (endpoint : EndpointRole) (key : K) (ts : EventTimestamp) (slot : ℕ)
      → Counted m.counts (observe m endpoint key ts slot)
  unfolding observe
  observe-Counted m endpoint key ts slot =
      let s = advance-SameMatches m slot in
      pair_up_rule (Counted m.counts) (advance m slot) endpoint key ts slot
        (λ absent. with_pending-SameMatches m.counts (advance m slot) endpoint _ s)
        (λ other present.
          record_match-Counted m.counts _ endpoint ts other.ts
            (with_pending-SameMatches m.counts (advance m slot) (opposite endpoint) _ s))
