-- ===== src/Matching/Pair/Accounting.antt =====
-- Where every observation of a `PairMatcher` (src/matching/mod.rs) goes: it is half of a match, it
-- waits, it was evicted, or a later one under its key has replaced it.
use grpc_bench.Prelude.{ℕ, ◌+◌, ◌-◌, ◌*◌, ◌≤◌, ◌<◌, ◌≡◌, none, some, length, found, arith}
use grpc_bench.Prelude.Words.{u64_mod}
use grpc_bench.Prelude.Eq.{Eq}
use grpc_bench.Prelude.HashMap.{get, insert, remove, length-remove, length-insert, length-retain-le}
use grpc_bench.Floats.{Floats}
use grpc_bench.Timing.{EventTimestamp}
use grpc_bench.Subscribe.{EndpointRole, one, two}
use grpc_bench.Matching.Pair.Frame.{record_match_frame, evict_rule, advance_rule, pair_up_rule}
use grpc_bench.Matching.Pair.{
  PairMatcher, MatchPending, evict, evict_window, evict_lru, advance, bump, pair_up, record_match,
  count_match, pending, with_pending, opposite, is_recent, cutoff,
}
use grpc_bench.Prelude.HashMap.Apart.{
  Apart, retain-Apart, drop-Apart, insert-Apart, remove-Apart, swap-Apart,
}
use grpc_bench.Matching.Pair.Trim.{trim-drop, trim_total}

-- The observations that the counters and the maps account for.
abbrev pub accounted : {N : Floats} {K : Type 0} → PairMatcher N K → ℕ
accounted m =
    2 * m.counts.matched
    + length m.pending_ep1
    + length m.pending_ep2
    + m.counts.ep1_unmatched_evicted
    + m.counts.ep2_unmatched_evicted

-- `n` observations are accounted for.
pub record Balanced {N : Floats} {K : Type 0} ⦃e : Eq K⦄ (n : ℕ) (m : PairMatcher N K)
    : Type 0 where
  pub maps : Apart m.pending_ep1 m.pending_ep2
  pub total : accounted m ≡ n

module _ {N : Floats} {K : Type 0} ⦃e : Eq K⦄ where
  evict_window-Balanced :
      (n window : ℕ) (m : PairMatcher N K)
      → n < u64_mod
      → Balanced n m
      → Balanced n (evict_window window m)
  unfolding evict_window
  evict_window-Balanced n window m h b = record {
    maps = retain-Apart (is_recent (cutoff m window)) m.pending_ep1 m.pending_ep2 b.maps;
    total = omega (
      arith,
      b.total,
      length-retain-le (is_recent (cutoff m window)) m.pending_ep1,
      length-retain-le (is_recent (cutoff m window)) m.pending_ep2,
    );
  }

  evict_lru-Balanced :
      (n max_pending : ℕ) (m : PairMatcher N K)
      → n < u64_mod
      → Balanced n m
      → Balanced n (evict_lru max_pending m)
  unfolding evict_lru
  evict_lru-Balanced n max_pending m h b =
      let e1 = m.counts.ep1_unmatched_evicted in
      let e2 = m.counts.ep2_unmatched_evicted in
      record {
        maps =
            rw
              (
                trim-drop max_pending m.pending_ep1 e1 b.maps.unique1,
                trim-drop max_pending m.pending_ep2 e2 b.maps.unique2,
              )
              (drop-Apart _ _ m.pending_ep1 m.pending_ep2 b.maps);
        total = omega (
          arith,
          b.total,
          trim_total max_pending m.pending_ep1 e1 b.maps.unique1 (omega (arith, b.total)),
          trim_total max_pending m.pending_ep2 e2 b.maps.unique2 (omega (arith, b.total)),
        );
      }

  evict-Balanced : (n : ℕ) (m : PairMatcher N K) → n < u64_mod → Balanced n m → Balanced n (evict m)
  evict-Balanced n m h b =
      evict_rule (Balanced n) m (λ window _. evict_window-Balanced n window m h b)
        (λ max_pending _. evict_lru-Balanced n max_pending m h b)

  bump-Balanced : (n slot : ℕ) (m : PairMatcher N K) → Balanced n m → Balanced n (bump m slot)
  bump-Balanced n slot m b = record { maps = b.maps; total = b.total }

  pub advance-Balanced :
      (n slot : ℕ) (m : PairMatcher N K) → n < u64_mod → Balanced n m → Balanced n (advance m slot)
  advance-Balanced n slot m h b =
      advance_rule (Balanced n) m slot (bump-Balanced n slot m b)
        (evict-Balanced n (bump m slot) h (bump-Balanced n slot m b))

  -- 1 if an observation replaces one that waits under its key on its own side.
  abbrev pub overwrites : PairMatcher N K → EndpointRole → K → ℕ
  overwrites m endpoint key = elim (get key (pending (opposite endpoint) m)) [
    | none ↦ found (get key (pending endpoint m))
    | some other ↦ 0
  ]

  wait-Balanced :
      (n : ℕ) (m : PairMatcher N K) (endpoint : EndpointRole) (key : K) (v : MatchPending)
      → Balanced n m
      → get key (pending (opposite endpoint) m) ≡ none
      → Balanced
          (n + 1 - found (get key (pending endpoint m)))
          (with_pending endpoint (insert key v (pending endpoint m)) m)
  wait-Balanced n m one key v b absent = record {
    maps = insert-Apart key v m.pending_ep1 m.pending_ep2 b.maps absent;
    total = omega (arith, b.total, length-insert key v m.pending_ep1);
  }
  wait-Balanced n m two key v b absent = record {
    maps = swap-Apart (insert key v m.pending_ep2) m.pending_ep1 (
        insert-Apart key v m.pending_ep2 m.pending_ep1
          (swap-Apart m.pending_ep1 m.pending_ep2 b.maps) absent);
    total = omega (arith, b.total, length-insert key v m.pending_ep2);
  }

  record_match-Balanced :
      (n : ℕ) (m : PairMatcher N K) (endpoint : EndpointRole) (ts other : EventTimestamp)
      → n + 2 < u64_mod
      → Balanced n m
      → Balanced (n + 2) (record_match m endpoint ts other).1
  unfolding count_match
  record_match-Balanced n m endpoint ts other h b =
      let f = record_match_frame m endpoint ts other in
      record { maps = rw (f.0, f.1) b.maps; total = rw (f.0, f.1, f.2) (omega (arith, b.total)) }

  take_out-Balanced :
      (n : ℕ) (m : PairMatcher N K) (side : EndpointRole) (key : K) (v : MatchPending)
      → Balanced n m
      → get key (pending side m) ≡ some v
      → (Balanced (n - 1) (with_pending side (remove key (pending side m)) m)) × (1 ≤ n)
  take_out-Balanced n m one key v b present = (
    record {
      maps = remove-Apart key m.pending_ep1 m.pending_ep2 b.maps;
      total = ground (arith, b.total, length-remove key m.pending_ep1 b.maps.unique1);
    },
    ground (arith, b.total, length-remove key m.pending_ep1 b.maps.unique1),
  )
  take_out-Balanced n m two key v b present = (
    record {
      maps = swap-Apart (remove key m.pending_ep2) m.pending_ep1 (
          remove-Apart key m.pending_ep2 m.pending_ep1
            (swap-Apart m.pending_ep1 m.pending_ep2 b.maps));
      total = ground (arith, b.total, length-remove key m.pending_ep2 b.maps.unique2);
    },
    ground (arith, b.total, length-remove key m.pending_ep2 b.maps.unique2),
  )

  pub pair_up-Balanced :
      (n : ℕ) (m : PairMatcher N K) (endpoint : EndpointRole) (key : K) (ts : EventTimestamp)
      (slot : ℕ)
      → n + 1 < u64_mod
      → Balanced n m
      → Balanced (n + 1 - overwrites m endpoint key) (pair_up m endpoint key ts slot).1
  pair_up-Balanced n m endpoint key ts slot h b =
      pair_up_rule (λ r. Balanced (n + 1 - overwrites m endpoint key) r.1) m endpoint key ts slot
        (λ absent.
          rw (absent, overwrites)
            (wait-Balanced n m endpoint key (record { ts = ts; slot = slot }) b absent))
        (λ other present.
          let (b', pos) = take_out-Balanced n m (opposite endpoint) key other b present in
          let e : n + 1 - 0 ≡ n - 1 + 2 = omega arith in
          rw (present, overwrites)
            (rw e (record_match-Balanced (n - 1) _ endpoint ts other.ts (omega arith) b')))
