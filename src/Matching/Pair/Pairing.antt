-- ===== src/Matching/Pair/Pairing.antt =====
-- What `PairMatcher::observe` (src/matching/mod.rs) reports of a pair, whichever side comes first.
use grpc_bench.Prelude.{ℕ, ◌+◌, ◌-◌, ◌≤◌, ◌≡◌, refl, ap, ◌∙◌, Option, none, some, max, arith}
use grpc_bench.Prelude.Eq.{Eq, beq_refl}
use grpc_bench.Prelude.Words.{i64_diff}
use grpc_bench.Prelude.HashMap.{get, insert, kept, get-insert, get-retain}
use grpc_bench.Floats.{Floats, ns_to_ms}
use grpc_bench.Timing.{EventTimestamp}
use grpc_bench.Subscribe.{EndpointRole, one, two}
use grpc_bench.Matching.Pair.Frame.{evict_rule, advance_rule, pair_up_rule}
use grpc_bench.Prelude.HashMap.Apart.{Apart, retain-Apart, drop-Apart, insert-Apart, swap-Apart}
use grpc_bench.Matching.Pair.Trim.{trim-drop}
use grpc_bench.Matching.Pair.{
  PairMatcher, MatchPending, MatchResult, slot_window, evict, evict_window, evict_lru, advance,
  bump, observe, pair_up, record_match, pending, with_pending, opposite, is_recent, cutoff,
  delta_of, ep1_of, ep2_of,
}

-- Old entries are those more than a window behind.
abbrev pub Survives : ℕ → ℕ → Option MatchPending → Type 0
Survives high window none = Unit {0}
Survives high window (some v) = high ≤ v.slot + window

kept-Survives :
    {K : Type 0} (high window : ℕ) (k : K) (o : Option MatchPending)
    → Survives high window o
    → kept (is_recent (high - window) k) o ≡ o
kept-Survives high window k none s = refl
kept-Survives high window k (some v) s = ground arith

module _ {N : Floats} {K : Type 0} ⦃e : Eq K⦄ where
  abbrev pub IsApart : PairMatcher N K → Type 0
  IsApart m = Apart m.pending_ep1 m.pending_ep2

  evict-Apart : (m : PairMatcher N K) → IsApart m → IsApart (evict m)
  evict-Apart m a =
      evict_rule IsApart m
        (λ window _. unfold evict_window in retain-Apart (is_recent (cutoff m window)) _ _ a)
        (λ max_pending _.
          unfold evict_lru in
          rw
            (
              trim-drop max_pending m.pending_ep1 _ a.unique1,
              trim-drop max_pending m.pending_ep2 _ a.unique2,
            )
            (drop-Apart _ _ m.pending_ep1 m.pending_ep2 a))

  pub advance-Apart : (m : PairMatcher N K) (slot : ℕ) → IsApart m → IsApart (advance m slot)
  advance-Apart m slot a = advance_rule IsApart m slot a (evict-Apart (bump m slot) a)

  -- Under a slot window, what waits and is recent enough goes on waiting, and nothing new waits.
  record Holds (window high : ℕ) (side : EndpointRole) (k : K) (o : Option MatchPending)
      (m : PairMatcher N K) : Type 0 where
    policy : m.eviction ≡ slot_window window
    water : m.high_water_slot ≡ high
    entry : get k (pending side m) ≡ o

  evict_window-entry :
      (window : ℕ) (m : PairMatcher N K) (side : EndpointRole) (k : K)
      → IsApart m
      → get k (pending side (evict_window window m))
        ≡ kept (is_recent (cutoff m window) k) (get k (pending side m))
  unfolding evict_window
  evict_window-entry window m one k a =
      get-retain (is_recent (cutoff m window)) k m.pending_ep1 a.unique1
  evict_window-entry window m two k a =
      get-retain (is_recent (cutoff m window)) k m.pending_ep2 a.unique2

  evict-Holds :
      (window high : ℕ) (side : EndpointRole) (k : K) (o : Option MatchPending)
      (m : PairMatcher N K)
      → IsApart m
      → Holds window high side k o m
      → Survives high window o
      → Holds window high side k o (evict m)
  evict-Holds window high side k o m a h s =
      evict_rule (Holds window high side k o) m
        (λ w policy.
          let same : w ≡ window = ground (arith, h.policy, policy) in
          record {
            policy = unfold evict_window in h.policy;
            water = unfold evict_window in h.water;
            entry =
                evict_window-entry w m side k a
                ∙ ap (kept (is_recent (cutoff m w) k)) h.entry
                ∙ rw (same, h.water) (kept-Survives high window k o s);
          })
        (λ max_pending policy. absurd (cc (h.policy, policy)))

  advance-Holds :
      (window high slot : ℕ) (side : EndpointRole) (k : K) (o : Option MatchPending)
      (m : PairMatcher N K)
      → IsApart m
      → Holds window high side k o m
      → Survives (max high slot) window o
      → Holds window (max high slot) side k o (advance m slot)
  advance-Holds window high slot one k o m a h s =
      let b : Holds window (max high slot) one k o (bump m slot) = record {
        policy = h.policy;
        water = ground (arith, h.water);
        entry = h.entry;
      } in
      advance_rule (Holds window (max high slot) one k o) m slot b
        (evict-Holds window (max high slot) one k o (bump m slot) a b s)
  advance-Holds window high slot two k o m a h s =
      let b : Holds window (max high slot) two k o (bump m slot) = record {
        policy = h.policy;
        water = ground (arith, h.water);
        entry = h.entry;
      } in
      advance_rule (Holds window (max high slot) two k o) m slot b
        (evict-Holds window (max high slot) two k o (bump m slot) a b s)

  pub wait-Apart :
      (m : PairMatcher N K) (endpoint : EndpointRole) (key : K) (v : MatchPending)
      → IsApart m
      → get key (pending (opposite endpoint) m) ≡ none
      → IsApart (with_pending endpoint (insert key v (pending endpoint m)) m)
  wait-Apart m one key v a absent = insert-Apart key v m.pending_ep1 m.pending_ep2 a absent
  wait-Apart m two key v a absent = swap-Apart (insert key v m.pending_ep2) m.pending_ep1 (
      insert-Apart key v m.pending_ep2 m.pending_ep1 (swap-Apart m.pending_ep1 m.pending_ep2 a)
        absent)

  wait-Holds :
      (window high : ℕ) (endpoint : EndpointRole) (key : K) (v : MatchPending) (m : PairMatcher N K)
      → Holds window high endpoint key none m
      → Holds window high endpoint key
          (some v)
          (with_pending endpoint (insert key v (pending endpoint m)) m)
  wait-Holds window high one key v m h = record {
    policy = h.policy;
    water = h.water;
    entry = rw (get-insert key key v m.pending_ep1, beq_refl key) refl;
  }
  wait-Holds window high two key v m h = record {
    policy = h.policy;
    water = h.water;
    entry = rw (get-insert key key v m.pending_ep2, beq_refl key) refl;
  }

  -- A key that waits on neither side: the first arrival waits.
  wait_step :
      (window high : ℕ) (m : PairMatcher N K) (endpoint : EndpointRole) (key : K)
      (ts : EventTimestamp) (slot : ℕ)
      → IsApart m
      → Holds window high endpoint key none m
      → Holds window high (opposite endpoint) key none m
      → IsApart (observe m endpoint key ts slot).1
        × Holds window
            (max high slot)
            endpoint
            key
            (some (record { ts = ts; slot = slot }))
            (observe m endpoint key ts slot).1
  unfolding observe
  wait_step window high m endpoint key ts slot a own other =
      let a' = advance-Apart m slot a in
      let own' = advance-Holds window high slot endpoint key none m a own tt in
      let other' = advance-Holds window high slot (opposite endpoint) key none m a other tt in
      pair_up_rule
        (λ r.
          IsApart r.1
          × Holds window (max high slot) endpoint key (some (record { ts = ts; slot = slot })) r.1)
        (advance m slot) endpoint key ts slot
        (λ absent. (
          wait-Apart (advance m slot) endpoint key _ a' absent,
          wait-Holds window (max high slot) endpoint key _ (advance m slot) own',
        ))
        (λ v present. absurd (cc (other'.entry, present)))

  -- A key that waits on the other side: the second arrival reports the pair.
  meet_step :
      (window high : ℕ) (m : PairMatcher N K) (endpoint : EndpointRole) (key : K)
      (ts : EventTimestamp) (slot : ℕ) (v : MatchPending)
      → IsApart m
      → Holds window high (opposite endpoint) key (some v) m
      → max high slot ≤ v.slot + window
      → (observe m endpoint key ts slot).0
        ≡ some (record {
          delta_ms = ns_to_ms N (delta_of endpoint ts v.ts);
          ep1_ts = ep1_of endpoint ts v.ts;
          ep2_ts = ep2_of endpoint ts v.ts;
        })
  unfolding observe pair_up
  meet_step window high m endpoint key ts slot v a other recent =
      let other' =
        advance-Holds window high slot (opposite endpoint) key (some v) m a other recent in
      rw (other'.entry, pair_up) (unfold record_match in refl)

-- The pair of one identity: whichever endpoint's event is processed first, the second one reports
-- the match, with the same two timestamps, and the latency is endpoint 2's arrival minus endpoint
-- 1's in both orders. It holds whenever neither side waits under that key and the slot window
-- (the policy in use) has not passed the event's slot, also if an eviction pass falls between.
pub order_independent :
    {N : Floats} {K : Type 0} ⦃e : Eq K⦄ (m : PairMatcher N K) (key : K) (ts1 ts2 : EventTimestamp)
    (slot window : ℕ)
    → Apart m.pending_ep1 m.pending_ep2
    → m.eviction ≡ slot_window window
    → get key m.pending_ep1 ≡ none
    → get key m.pending_ep2 ≡ none
    → m.high_water_slot ≤ slot + window
    → let pair : Option (MatchResult N) = some (record {
      delta_ms = ns_to_ms N (i64_diff ts2.mono_ns ts1.mono_ns);
      ep1_ts = ts1;
      ep2_ts = ts2;
    }) in
      ((observe (observe m one key ts1 slot).1 two key ts2 slot).0 ≡ pair)
      × ((observe (observe m two key ts2 slot).1 one key ts1 slot).0 ≡ pair)
order_independent {N} {K} m key ts1 ts2 slot window a policy absent1 absent2 recent =
    let high = m.high_water_slot in
    let own1 : Holds window high one key none m = record {
      policy = policy;
      water = refl;
      entry = absent1;
    } in
    let own2 : Holds window high two key none m = record {
      policy = policy;
      water = refl;
      entry = absent2;
    } in
    let first1 = wait_step window high m one key ts1 slot a own1 own2 in
    let first2 = wait_step window high m two key ts2 slot a own2 own1 in
    (
      meet_step window (max high slot) _ two key ts2 slot _ first1.0 first1.1 (omega arith),
      meet_step window (max high slot) _ one key ts1 slot _ first2.0 first2.1 (omega arith),
    )
