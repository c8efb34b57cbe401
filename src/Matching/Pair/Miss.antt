-- ===== src/Matching/Pair/Miss.antt =====
-- When `PairMatcher::observe` (src/matching/mod.rs) reports no match.
use grpc_bench.Prelude.{ℕ, ◌≡◌, ◌≢◌, refl, ap, ◌∙◌, is_some, if◌then◌else◌, none}
use grpc_bench.Prelude.Eq.{Eq}
use grpc_bench.Prelude.Words.{wrapping_add}
use grpc_bench.Prelude.HashMap.{get, remove, get-retain-none, get-drop-none}
use grpc_bench.Floats.{Floats}
use grpc_bench.Timing.{EventTimestamp}
use grpc_bench.Subscribe.{EndpointRole, one, two}
use grpc_bench.Matching.Pair.Frame.{evict_rule, advance_rule, pair_up_rule, record_match_frame}
use grpc_bench.Prelude.HashMap.Apart.{remove-Apart, swap-Apart}
use grpc_bench.Matching.Pair.Trim.{trim-drop}
use grpc_bench.Matching.Pair.Pairing.{IsApart, advance-Apart, wait-Apart}
use grpc_bench.Matching.Pair.Pass.{pair_up_others}
use grpc_bench.Matching.Pair.{
  PairMatcher, evict, evict_window, evict_lru, advance, bump, observe, pending, with_pending,
  opposite, is_recent, cutoff, record_match, count_match,
}

module _ {N : Floats} {K : Type 0} ⦃e : Eq K⦄ where
  evict-absent :
      (m : PairMatcher N K) (side : EndpointRole) (k : K)
      → IsApart m
      → get k (pending side m) ≡ none
      → get k (pending side (evict m)) ≡ none
  evict-absent m one k a absent =
      evict_rule (λ m'. get k m'.pending_ep1 ≡ none) m
        (λ window _.
          unfold evict_window in
          get-retain-none (is_recent (cutoff m window)) k m.pending_ep1 absent)
        (λ max_pending _.
          unfold evict_lru in
          rw (trim-drop max_pending m.pending_ep1 m.counts.ep1_unmatched_evicted a.unique1)
            (get-drop-none _ k m.pending_ep1 absent))
  evict-absent m two k a absent =
      evict_rule (λ m'. get k m'.pending_ep2 ≡ none) m
        (λ window _.
          unfold evict_window in
          get-retain-none (is_recent (cutoff m window)) k m.pending_ep2 absent)
        (λ max_pending _.
          unfold evict_lru in
          rw (trim-drop max_pending m.pending_ep2 m.counts.ep2_unmatched_evicted a.unique2)
            (get-drop-none _ k m.pending_ep2 absent))

  bump-absent :
      (m : PairMatcher N K) (slot : ℕ) (side : EndpointRole) (k : K)
      → get k (pending side m) ≡ none
      → get k (pending side (bump m slot)) ≡ none
  bump-absent m slot one k absent = absent
  bump-absent m slot two k absent = absent

  -- Eviction makes nothing wait.
  pub advance-absent :
      (m : PairMatcher N K) (slot : ℕ) (side : EndpointRole) (k : K)
      → IsApart m
      → get k (pending side m) ≡ none
      → get k (pending side (advance m slot)) ≡ none
  advance-absent m slot side k a absent =
      advance_rule (λ m'. get k (pending side m') ≡ none) m slot (bump-absent m slot side k absent)
        (evict-absent (bump m slot) side k a (bump-absent m slot side k absent))

  -- A key that does not wait on the other side makes no match.
  pub observe-absent :
      (m : PairMatcher N K) (endpoint : EndpointRole) (key : K) (ts : EventTimestamp) (slot : ℕ)
      → IsApart m
      → get key (pending (opposite endpoint) m) ≡ none
      → (observe m endpoint key ts slot).0 ≡ none
  unfolding observe
  observe-absent m endpoint key ts slot a absent =
      let absent' = advance-absent m slot (opposite endpoint) key a absent in
      pair_up_rule (λ r. r.0 ≡ none) (advance m slot) endpoint key ts slot (λ _. refl)
        (λ other present. absurd (cc (absent', present)))

  -- An observation under another key makes no key wait.
  pub observe-absent_other :
      (m : PairMatcher N K) (endpoint side : EndpointRole) (key k : K) (ts : EventTimestamp)
      (slot : ℕ)
      → IsApart m
      → k ≢ key
      → get k (pending side m) ≡ none
      → get k (pending side (observe m endpoint key ts slot).1) ≡ none
  unfolding observe
  observe-absent_other m endpoint side key k ts slot a n absent =
      (pair_up_others (advance m slot) endpoint key ts slot side k n).0
      ∙ advance-absent m slot side k a absent

  take_out-Apart :
      (m : PairMatcher N K) (side : EndpointRole) (key : K)
      → IsApart m
      → IsApart (with_pending side (remove key (pending side m)) m)
  take_out-Apart m one key a = remove-Apart key m.pending_ep1 m.pending_ep2 a
  take_out-Apart m two key a =
      swap-Apart (remove key m.pending_ep2) m.pending_ep1
        (remove-Apart key m.pending_ep2 m.pending_ep1 (swap-Apart m.pending_ep1 m.pending_ep2 a))

  record_match-Apart :
      (m : PairMatcher N K) (endpoint : EndpointRole) (ts other : EventTimestamp)
      → IsApart m
      → IsApart (record_match m endpoint ts other).1
  record_match-Apart m endpoint ts other a =
      let f = record_match_frame m endpoint ts other in rw (f.0, f.1) a

  -- No key waits on both sides, or twice, after any observation.
  pub observe-Apart :
      (m : PairMatcher N K) (endpoint : EndpointRole) (key : K) (ts : EventTimestamp) (slot : ℕ)
      → IsApart m
      → IsApart (observe m endpoint key ts slot).1
  unfolding observe
  observe-Apart m endpoint key ts slot a =
      let a' = advance-Apart m slot a in
      pair_up_rule (λ r. IsApart r.1) (advance m slot) endpoint key ts slot
        (λ absent. wait-Apart (advance m slot) endpoint key _ a' absent)
        (λ other present.
          record_match-Apart _ endpoint ts other.ts
            (take_out-Apart (advance m slot) (opposite endpoint) key a'))

  matched-advance :
      (m : PairMatcher N K) (slot : ℕ) → (advance m slot).counts.matched ≡ m.counts.matched
  matched-advance m slot =
      advance_rule (λ m'. m'.counts.matched ≡ m.counts.matched) m slot refl
        (evict_rule (λ m'. m'.counts.matched ≡ m.counts.matched) (bump m slot)
          (λ window _. unfold evict_window in refl) (λ max_pending _. unfold evict_lru in refl))

  matched-with_pending :
      (m : PairMatcher N K) (side : EndpointRole) (p : _)
      → (with_pending side p m).counts.matched ≡ m.counts.matched
  matched-with_pending m one p = refl
  matched-with_pending m two p = refl

  -- `matched` counts the matches that are reported.
  pub matched-observe :
      (m : PairMatcher N K) (endpoint : EndpointRole) (key : K) (ts : EventTimestamp) (slot : ℕ)
      → let (r, m') = observe m endpoint key ts slot in
        m'.counts.matched
        ≡ (if is_some r then wrapping_add m.counts.matched 1 else m.counts.matched)
  unfolding observe count_match record_match
  matched-observe m endpoint key ts slot =
      pair_up_rule
        (λ r.
          r.1.counts.matched
          ≡ (if is_some r.0 then wrapping_add m.counts.matched 1 else m.counts.matched))
        (advance m slot) endpoint key ts slot
        (λ absent. matched-with_pending (advance m slot) endpoint _ ∙ matched-advance m slot)
        (λ other present.
          ap (λ c. c.matched) (record_match_frame _ endpoint ts other.ts).2
          ∙ ap (λ n. wrapping_add n 1)
              (matched-with_pending (advance m slot) (opposite endpoint) _
                ∙ matched-advance m slot))

  absent_no_match :
      (m : PairMatcher N K) (endpoint : EndpointRole) (key : K) (ts : EventTimestamp) (slot : ℕ)
      → IsApart m
      → get key (pending (opposite endpoint) m) ≡ none
      → (observe m endpoint key ts slot).1.counts.matched ≡ m.counts.matched
  absent_no_match m endpoint key ts slot a absent =
      matched-observe m endpoint key ts slot
      ∙ rw (observe-absent m endpoint key ts slot a absent) refl

  -- Arrivals under two keys do not pair.
  pub other_key_no_match :
      (m : PairMatcher N K) (endpoint : EndpointRole) (k k' : K) (ts ts' : EventTimestamp)
      (slot slot' : ℕ)
      → IsApart m
      → k' ≢ k
      → get k' (pending endpoint m) ≡ none
      → let m1 = (observe m endpoint k ts slot).1 in
        (observe m1 (opposite endpoint) k' ts' slot').1.counts.matched ≡ m1.counts.matched
  other_key_no_match m one k k' ts ts' slot slot' a n absent =
      absent_no_match _ two k' ts' slot' (observe-Apart m one k ts slot a)
        (observe-absent_other m one one k k' ts slot a n absent)
  other_key_no_match m two k k' ts ts' slot slot' a n absent =
      absent_no_match _ one k' ts' slot' (observe-Apart m two k ts slot a)
        (observe-absent_other m two two k k' ts slot a n absent)
