-- ===== src/Matching/Pair/Window.antt =====
-- What `PairMatcher::evict` and the batched pass (src/matching/mod.rs) remove and keep.
use grpc_bench.Prelude.{
  ℕ, ◌+◌, ◌-◌, ◌≤◌, ◌<◌, ◌≡◌, refl, ◌↔◌, Option, none, some, length, length-drop, arith,
}
use grpc_bench.Prelude.Eq.{Eq}
use grpc_bench.Prelude.Words.{u64_mod}
use grpc_bench.Prelude.HashMap.{get, kept, get-retain, length-retain-le, get-drop-some}
use grpc_bench.Floats.{Floats}
use grpc_bench.Subscribe.{EndpointRole, one, two}
use grpc_bench.Matching.Pair.Frame.{evict-slot_window, evict-lru}
use grpc_bench.Prelude.HashMap.Apart.{Apart}
use grpc_bench.Matching.Pair.Trim.{trim-drop, trim_total}
use grpc_bench.Matching.Pair.Pairing.{IsApart}
use grpc_bench.Matching.Pair.{
  PairMatcher, MatchPending, slot_window, lru, evict, evict_window, evict_lru, pending, is_recent,
  cutoff,
}

-- Membership in what the slot window keeps.
kept_iff :
    {K : Type 0} (high window : ℕ) (k : K) (o : Option MatchPending) (v : MatchPending)
    → (kept (is_recent (high - window) k) o ≡ some v) ↔ ((o ≡ some v) × (high ≤ v.slot + window))
kept_iff high window k none v = ground arith
kept_iff high window k (some w) v = ground arith

module _ {N : Floats} {K : Type 0} ⦃e : Eq K⦄ where
  pub in_window :
      (m : PairMatcher N K) (window : ℕ) (side : EndpointRole) (k : K) (v : MatchPending)
      → IsApart m
      → (get k (pending side (evict_window window m)) ≡ some v)
        ↔ ((get k (pending side m) ≡ some v) × (m.high_water_slot ≤ v.slot + window))
  unfolding evict_window
  in_window m window one k v a =
      rw (get-retain (is_recent (cutoff m window)) k m.pending_ep1 a.unique1)
        (kept_iff m.high_water_slot window k (get k m.pending_ep1) v)
  in_window m window two k v a =
      rw (get-retain (is_recent (cutoff m window)) k m.pending_ep2 a.unique2)
        (kept_iff m.high_water_slot window k (get k m.pending_ep2) v)

  -- `evict` under a slot window. An entry goes on waiting exactly if it waited and its slot is at
  -- most `window` behind the highest slot seen; the endpoint's eviction counter grows by the number
  -- of entries that went; and nothing else changes. The counters have not wrapped.
  pub evict_window_exact :
      (m : PairMatcher N K) (window : ℕ)
      → Apart m.pending_ep1 m.pending_ep2
      → m.eviction ≡ slot_window window
      → length m.pending_ep1 + m.counts.ep1_unmatched_evicted < u64_mod
      → length m.pending_ep2 + m.counts.ep2_unmatched_evicted < u64_mod
      → let m' = evict m in
        ((side : EndpointRole) (k : K) (v : MatchPending)
          → (get k (pending side m') ≡ some v)
            ↔ ((get k (pending side m) ≡ some v) × (m.high_water_slot ≤ v.slot + window)))
        × (length m'.pending_ep1 + m'.counts.ep1_unmatched_evicted
            ≡ length m.pending_ep1 + m.counts.ep1_unmatched_evicted)
        × (length m'.pending_ep2 + m'.counts.ep2_unmatched_evicted
            ≡ length m.pending_ep2 + m.counts.ep2_unmatched_evicted)
        × (m'.counts.matched ≡ m.counts.matched)
        × (m'.buffer ≡ m.buffer)
        × (m'.digest ≡ m.digest)
        × (m'.high_water_slot ≡ m.high_water_slot)
  unfolding evict_window
  evict_window_exact m window a policy small1 small2 = rw (evict-slot_window m window policy) (
    λ side k v. in_window m window side k v a,
    ground (arith, length-retain-le (is_recent (cutoff m window)) m.pending_ep1),
    ground (arith, length-retain-le (is_recent (cutoff m window)) m.pending_ep2),
    refl,
    refl,
    refl,
    refl,
  )

  lru_keeps :
      (m : PairMatcher N K) (max_pending : ℕ) (side : EndpointRole) (k : K) (v : MatchPending)
      → IsApart m
      → get k (pending side (evict_lru max_pending m)) ≡ some v
      → get k (pending side m) ≡ some v
  unfolding evict_lru
  lru_keeps m max_pending one k v a h =
      get-drop-some (length m.pending_ep1 - max_pending) k v m.pending_ep1 a.unique1
        (rw (trim-drop max_pending m.pending_ep1 m.counts.ep1_unmatched_evicted a.unique1) at h)
  lru_keeps m max_pending two k v a h =
      get-drop-some (length m.pending_ep2 - max_pending) k v m.pending_ep2 a.unique2
        (rw (trim-drop max_pending m.pending_ep2 m.counts.ep2_unmatched_evicted a.unique2) at h)

  -- `evict` under the `Lru` policy. At most `max_pending` entries go on waiting on each endpoint;
  -- each of them waited before, unchanged; and the endpoint's eviction counter grows by the number
  -- of entries that went. The counters have not wrapped.
  pub evict_lru_bound :
      (m : PairMatcher N K) (max_pending : ℕ)
      → Apart m.pending_ep1 m.pending_ep2
      → m.eviction ≡ lru max_pending
      → length m.pending_ep1 + m.counts.ep1_unmatched_evicted < u64_mod
      → length m.pending_ep2 + m.counts.ep2_unmatched_evicted < u64_mod
      → let m' = evict m in
        (length m'.pending_ep1 ≤ max_pending)
        × (length m'.pending_ep2 ≤ max_pending)
        × ((side : EndpointRole) (k : K) (v : MatchPending)
            → get k (pending side m') ≡ some v
            → get k (pending side m) ≡ some v)
        × (length m'.pending_ep1 + m'.counts.ep1_unmatched_evicted
            ≡ length m.pending_ep1 + m.counts.ep1_unmatched_evicted)
        × (length m'.pending_ep2 + m'.counts.ep2_unmatched_evicted
            ≡ length m.pending_ep2 + m.counts.ep2_unmatched_evicted)
  evict_lru_bound m max_pending a policy small1 small2 =
      let d1 = trim-drop max_pending m.pending_ep1 m.counts.ep1_unmatched_evicted a.unique1 in
      let d2 = trim-drop max_pending m.pending_ep2 m.counts.ep2_unmatched_evicted a.unique2 in
      rw (evict-lru m max_pending policy) (
        unfold evict_lru in
        (
          rw (d1, length-drop) (omega arith),
          rw (d2, length-drop) (omega arith),
          λ side k v. lru_keeps m max_pending side k v a,
          trim_total max_pending m.pending_ep1 m.counts.ep1_unmatched_evicted a.unique1 small1,
          trim_total max_pending m.pending_ep2 m.counts.ep2_unmatched_evicted a.unique2 small2,
        ))
