-- ===== src/Matching/Pair/Pass.antt =====
-- The batched eviction pass of `PairMatcher::observe` (src/matching/mod.rs).
use grpc_bench.Prelude.{ℕ, ◌+◌, ◌%◌, ◌≤◌, ◌≡◌, refl, sym, ◌∙◌, ◌≢◌, true, some, nat_beq, arith}
use grpc_bench.Prelude.Eq.{Eq}
use grpc_bench.Prelude.Words.{wrapping_add}
use grpc_bench.Prelude.HashMap.{get, insert, remove, get-insert, get-remove}
use grpc_bench.Floats.{Floats}
use grpc_bench.Timing.{EventTimestamp}
use grpc_bench.Subscribe.{EndpointRole, one, two}
use grpc_bench.Matching.Pair.Frame.{record_match_frame, evict-slot_window, pair_up_rule}
use grpc_bench.Prelude.HashMap.Apart.{Apart}
use grpc_bench.Matching.Pair.Pairing.{IsApart}
use grpc_bench.Matching.Pair.Window.{in_window}
use grpc_bench.Matching.Pair.{
  PairMatcher, MatchPending, slot_window, evict, evict_window, advance, bump, observe, pair_up,
  record_match, pending, with_pending, opposite,
}

module _ {N : Floats} {K : Type 0} ⦃e : Eq K⦄ where
  -- A step that touches one key leaves the others.
  get-with_insert :
      (m : PairMatcher N K) (endpoint side : EndpointRole) (key k : K) (v : MatchPending)
      → k ≢ key
      → get k (pending side (with_pending endpoint (insert key v (pending endpoint m)) m))
        ≡ get k (pending side m)
  get-with_insert m one one key k v n =
      ground (arith, get-insert key k v m.pending_ep1, e.decides key k)
  get-with_insert m one two key k v n = refl
  get-with_insert m two one key k v n = refl
  get-with_insert m two two key k v n =
      ground (arith, get-insert key k v m.pending_ep2, e.decides key k)

  get-with_remove :
      (m : PairMatcher N K) (endpoint side : EndpointRole) (key k : K)
      → k ≢ key
      → get k (pending side (with_pending endpoint (remove key (pending endpoint m)) m))
        ≡ get k (pending side m)
  get-with_remove m one one key k n =
      ground (arith, get-remove key k m.pending_ep1, e.decides key k)
  get-with_remove m one two key k n = refl
  get-with_remove m two one key k n = refl
  get-with_remove m two two key k n =
      ground (arith, get-remove key k m.pending_ep2, e.decides key k)

  pending-record_match :
      (m : PairMatcher N K) (endpoint side : EndpointRole) (ts other : EventTimestamp)
      → pending side (record_match m endpoint ts other).1 ≡ pending side m
  pending-record_match m endpoint one ts other = (record_match_frame m endpoint ts other).0
  pending-record_match m endpoint two ts other = (record_match_frame m endpoint ts other).1

  high_water-with_pending :
      (m : PairMatcher N K) (endpoint : EndpointRole) (p : _)
      → (with_pending endpoint p m).high_water_slot ≡ m.high_water_slot
  high_water-with_pending m one p = refl
  high_water-with_pending m two p = refl

  -- `pair_up` leaves the high-water mark and what waits under other keys.
  pub pair_up_others :
      (m : PairMatcher N K) (endpoint : EndpointRole) (key : K) (ts : EventTimestamp) (slot : ℕ)
      (side : EndpointRole) (k : K)
      → k ≢ key
      → let m' = (pair_up m endpoint key ts slot).1 in
        (get k (pending side m') ≡ get k (pending side m))
        × (m'.high_water_slot ≡ m.high_water_slot)
  pair_up_others m endpoint key ts slot side k n =
      pair_up_rule
        (λ r.
          (get k (pending side r.1) ≡ get k (pending side m))
          × (r.1.high_water_slot ≡ m.high_water_slot))
        m endpoint key ts slot
        (λ absent.
          (get-with_insert m endpoint side key k _ n, high_water-with_pending m endpoint _))
        (λ other present.
          let rest =
            with_pending (opposite endpoint) (remove key (pending (opposite endpoint) m)) m in
          (
            rw (pending-record_match rest endpoint side ts other.ts)
                (get-with_remove m (opposite endpoint) side key k n),
            (record_match_frame rest endpoint ts other.ts).4
                ∙ high_water-with_pending m (opposite endpoint) _,
          ))

  advance_due :
      (m : PairMatcher N K) (slot : ℕ)
      → nat_beq (wrapping_add m.obs_count 1 % 256) 0 ≡ true
      → advance m slot ≡ evict (bump m slot)
  unfolding advance
  advance_due m slot due = rw (due, advance) refl

  -- On every 256th observation, under a slot window, whatever waits afterwards, on either endpoint
  -- and under any key but the one observed, has a slot at most `window` behind the highest slot
  -- seen, the observed one included: the batched pass does what a pass on each event would.
  pub pass_clears :
      (m : PairMatcher N K) (endpoint : EndpointRole) (key : K) (ts : EventTimestamp)
      (slot window : ℕ) (side : EndpointRole) (k : K) (v : MatchPending)
      → Apart m.pending_ep1 m.pending_ep2
      → m.eviction ≡ slot_window window
      → nat_beq (wrapping_add m.obs_count 1 % 256) 0 ≡ true
      → k ≢ key
      → get k (pending side (observe m endpoint key ts slot).1) ≡ some v
      → (observe m endpoint key ts slot).1.high_water_slot ≤ v.slot + window
  unfolding observe
  pass_clears m endpoint key ts slot window side k v a policy due n waits =
      let a' : IsApart (bump m slot) = a in
      let passed = advance_due m slot due ∙ evict-slot_window (bump m slot) window policy in
      let (same, water) = pair_up_others (advance m slot) endpoint key ts slot side k n in
      let entry = rw passed at (sym same ∙ waits) in
      rw (water, passed)
        (unfold evict_window in ((in_window (bump m slot) window side k v a').0 entry).1)
