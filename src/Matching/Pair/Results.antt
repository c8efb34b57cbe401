-- ===== src/Matching/Pair/Results.antt =====
-- What `PairMatcher` and `LatencyDigestSummary::from_matcher` (src/matching/mod.rs) report of a
-- history.
use grpc_bench.Prelude.{
  ℕ, ◌+◌, ◌≤◌, ◌<◌, ◌≡◌, refl, ap, ◌∙◌, inl, inr, Option, none, some, List, [], ◌∷◌, length,
  is_empty, nat_beq, arith, if◌then◌else◌, Option-cases,
}
use grpc_bench.Prelude.Words.{u64_mod}
use grpc_bench.Prelude.Eq.{Eq}
use grpc_bench.Floats.{Floats, TDigestLaws, ratio}
use grpc_bench.Matching.Pair.History.{Observation, step, run}
use grpc_bench.Matching.Pair.Tally.{
  Tally, Next, observe-Tally, evict-Tally, results, ep1_first, ep2_first, count_if,
}
use grpc_bench.Matching.Pair.{
  PairMatcher, MatchResult, EvictionPolicy, new, flush, evict, observe, quantile, from_matcher,
}

length_zero : {A : Type 0} (xs : List A) → nat_beq (length xs) 0 ≡ is_empty xs
length_zero [] = refl
length_zero (x ∷ xs) = ground arith

module _ {N : Floats} (L : TDigestLaws N) {K : Type 0} where
  Next-none :
      (c f1 f2 : ℕ) (p : Option (MatchResult N) × PairMatcher N K)
      → p.0 ≡ none
      → Next L c f1 f2 p
      → Tally L c f1 f2 p.1
  Next-none c f1 f2 (none, m) h t = t
  Next-none c f1 f2 (some r, m) h t = absurd (cc h)

  Next-some :
      (c f1 f2 : ℕ) (p : Option (MatchResult N) × PairMatcher N K) (r : MatchResult N)
      → p.0 ≡ some r
      → Next L c f1 f2 p
      → Tally L
          (c + 1)
          (f1 + (if ep1_first r then 1 else 0))
          (f2 + (if ep2_first r then 1 else 0))
          p.1
  Next-some c f1 f2 (none, m) r h t = absurd (cc h)
  Next-some c f1 f2 (some s, m) r h t = let same : s ≡ r = cc h in rw (← same) t

  Tally-eq :
      (c c' f1 f1' f2 f2' : ℕ) (m : PairMatcher N K)
      → c ≡ c'
      → f1 ≡ f1'
      → f2 ≡ f2'
      → Tally L c f1 f2 m
      → Tally L c' f1' f2' m
  Tally-eq c c' f1 f1' f2 f2' m p q r t = rw (← p, ← q, ← r) t

module _ {N : Floats} (L : TDigestLaws N) {K : Type 0} ⦃e : Eq K⦄ where
  run-Tally :
      (c f1 f2 : ℕ) (m : PairMatcher N K) (os : List (Observation K))
      → c + length os < u64_mod
      → f1 ≤ c
      → f2 ≤ c
      → Tally L c f1 f2 m
      → let rs = results m os in
        Tally L (c + length rs) (f1 + count_if ep1_first rs) (f2 + count_if ep2_first rs) (run m os)
  unfolding run results
  run-Tally c f1 f2 m [] small le1 le2 t =
      Tally-eq L c _ f1 _ f2 _ m (omega arith) (omega arith) (omega arith) t
  run-Tally c f1 f2 m (o ∷ os) small le1 le2 t =
      let p = observe m o.endpoint o.key o.ts o.slot in
      let next = observe-Tally L c f1 f2 m o (omega arith) le1 le2 t in
      elim (Option-cases p.0) [
        | inl none' ↦
            rw (none', results)
              (run-Tally c f1 f2 (step m o) os (omega arith) le1 le2
                (unfold step in Next-none L c f1 f2 p none' next))
        | inr (r, some') ↦
            let x1 : ℕ = if ep1_first r then 1 else 0 in
            let x2 : ℕ = if ep2_first r then 1 else 0 in
            rw (some', results)
              (Tally-eq L _ _ _ _ _ _ (run (step m o) os) (omega arith) (omega arith) (omega arith)
                (run-Tally (c + 1) (f1 + x1) (f2 + x2) (step m o) os (omega arith) (ground arith)
                  (ground arith) (unfold step in Next-some L c f1 f2 p r some' next)))
      ]

  new-Tally : (eviction : EvictionPolicy) → Tally L 0 0 0 (new N K eviction)
  unfolding new
  new-Tally eviction = record {
    matched = refl;
    ep1_faster = refl;
    ep2_faster = refl;
    sampled = omega (arith, L.count_new 100);
    room = omega arith;
  }

  -- From a fresh matcher, after any history of fewer than 2 ^ 64 observations: `matched` is the
  -- number of matches that `observe` returned; `ep1_faster` and `ep2_faster` are the numbers of
  -- those in which that endpoint's timestamp is the smaller one; every match is one sample, merged
  -- into the digest or in the buffer; and the buffer stays below its flush limit.
  pub counts_of_results :
      (eviction : EvictionPolicy) (os : List (Observation K))
      → length os < u64_mod
      → let m = run (new N K eviction) os in
        let rs = results (new N K eviction) os in
        (m.counts.matched ≡ length rs)
        × (m.counts.ep1_faster ≡ count_if ep1_first rs)
        × (m.counts.ep2_faster ≡ count_if ep2_first rs)
        × (L.count m.digest + length m.buffer ≡ length rs)
        × (length m.buffer < 1024)
  counts_of_results eviction os small =
      let t =
        run-Tally 0 0 0 (new N K eviction) os (omega arith) (omega arith) (omega arith)
          (new-Tally eviction) in
      (
        omega (arith, t.matched),
        omega (arith, t.ep1_faster),
        omega (arith, t.ep2_faster),
        omega (arith, t.sampled),
        t.room,
      )

  -- A second `flush` finds nothing to do.
  flush-flush : (m : PairMatcher N K) → flush (flush m) ≡ flush m
  unfolding flush
  flush-flush m = ground arith

  -- A flushed matcher has every match in its digest.
  flush_count :
      (c f1 f2 : ℕ) (m : PairMatcher N K) → Tally L c f1 f2 m → L.count (flush m).digest ≡ c
  unfolding flush
  flush_count c f1 f2 m t = ground (arith, t.sampled, L.count_merge m.digest m.buffer)

  -- The summary of a matcher after any history of fewer than 2 ^ 64 observations: its counts are
  -- those of the matches returned; with no match every quantile is NaN, and otherwise each is the
  -- estimate of one and the same digest, which holds a sample for every match.
  pub summary_of_results :
      (eviction : EvictionPolicy) (os : List (Observation K))
      → length os < u64_mod
      → let rs = results (new N K eviction) os in
        let s = (from_matcher (run (new N K eviction) os)).0 in
        let d = (from_matcher (run (new N K eviction) os)).1.digest in
        let q = λ (x : N.F64). if is_empty rs then N.nan else N.estimate_quantile d x in
        (s ≡ record {
          p50 = q (ratio N 50 100);
          p90 = q (ratio N 90 100);
          p99 = q (ratio N 99 100);
          p99_9 = q (ratio N 999 1000);
          matched = length rs;
          ep1_faster = count_if ep1_first rs;
          ep2_faster = count_if ep2_first rs;
        })
        × (L.count d ≡ length rs)
  unfolding from_matcher quantile
  summary_of_results eviction os small =
      let rs = results (new N K eviction) os in
      let m = evict (run (new N K eviction) os) in
      let t =
        evict-Tally L (0 + length rs) (0 + count_if ep1_first rs) (0 + count_if ep2_first rs)
          (run (new N K eviction) os)
          (run-Tally 0 0 0 (new N K eviction) os (omega arith) (omega arith) (omega arith)
            (new-Tally eviction)) in
      let all : L.count (flush m).digest ≡ length rs = omega (arith, flush_count _ _ _ m t) in
      let none' : N.no_samples (flush m).digest ≡ is_empty rs =
        L.no_samples_count (flush m).digest ∙ ap (λ n. nat_beq n 0) all ∙ length_zero rs in
      let e0 : m.counts.matched ≡ length rs = omega (arith, t.matched) in
      let e1 : m.counts.ep1_faster ≡ count_if ep1_first rs = omega (arith, t.ep1_faster) in
      let e2 : m.counts.ep2_faster ≡ count_if ep2_first rs = omega (arith, t.ep2_faster) in
      simp (flush-flush, none', e0, e1, e2) (refl, all)
