-- ===== src/Run/Totals.antt =====
-- The totals of src/run.rs against the sums of what the rings counted.
use grpc_bench.Prelude.{ℕ, ◌+◌, ◌≤◌, ◌≡◌, min, List, [], ◌∷◌, if◌then◌else◌, arith}
use grpc_bench.Prelude.Words.{u64_max}
use grpc_bench.Subscribe.{EndpointRole, one, two, role_beq, SubscriptionRole, endpoint}
use grpc_bench.Collect.Stats.{ReceiverStats, snapshot}
use grpc_bench.Matching.Dispatch.{CaptureTotals, add}
use grpc_bench.Run.{compute_capture_totals, DroppedTotals, add_dropped, compute_dropped_totals}

-- The sum of a counter over the rings of one endpoint.
abbrev pub sum_of : (ReceiverStats → ℕ) → EndpointRole → List (ReceiverStats × SubscriptionRole) → ℕ
sum_of counter side [] = 0
sum_of counter side ((s, r) ∷ rest) =
    (if role_beq (endpoint r) side then counter s else 0) + sum_of counter side rest

add-sums :
    (t : CaptureTotals) (role : EndpointRole) (s : ReceiverStats) (sum1 sum2 : ℕ)
    → let t' = add t role (snapshot s) in
      (min (t'.ep1 + sum1) u64_max
        ≡ min (t.ep1 + ((if role_beq role one then s.received else 0) + sum1)) u64_max)
      × (min (t'.ep2 + sum2) u64_max
          ≡ min (t.ep2 + ((if role_beq role two then s.received else 0) + sum2)) u64_max)
unfolding add snapshot
add-sums t one s sum1 sum2 = (omega arith, omega arith)
add-sums t two s sum1 sum2 = (omega arith, omega arith)

add-IsU64 :
    (t : CaptureTotals) (role : EndpointRole) (s : ReceiverStats)
    → t.ep1 ≤ u64_max
    → t.ep2 ≤ u64_max
    → ((add t role (snapshot s)).ep1 ≤ u64_max) × ((add t role (snapshot s)).ep2 ≤ u64_max)
unfolding add snapshot
add-IsU64 t one s h1 h2 = (omega arith, h2)
add-IsU64 t two s h1 h2 = (h1, omega arith)

capture_sums :
    (xs : List (ReceiverStats × SubscriptionRole)) (t : CaptureTotals)
    → t.ep1 ≤ u64_max
    → t.ep2 ≤ u64_max
    → let out = compute_capture_totals xs t in
      (out.ep1 ≡ min (t.ep1 + sum_of (λ s. s.received) one xs) u64_max)
      × (out.ep2 ≡ min (t.ep2 + sum_of (λ s. s.received) two xs) u64_max)
unfolding compute_capture_totals
capture_sums [] t h1 h2 = (omega arith, omega arith)
capture_sums ((s, r) ∷ rest) t h1 h2 =
    let small = add-IsU64 t (endpoint r) s h1 h2 in
    let later = capture_sums rest (add t (endpoint r) (snapshot s)) small.0 small.1 in
    let here =
      add-sums t (endpoint r) s (sum_of (λ s. s.received) one rest)
        (sum_of (λ s. s.received) two rest) in
    (omega (arith, later.0, here.0), omega (arith, later.1, here.1))

add_dropped-sums :
    (t : DroppedTotals) (role : EndpointRole) (s : ReceiverStats) (sum1 sum2 : ℕ)
    → let t' = add_dropped t role (snapshot s) in
      (min (t'.ep1 + sum1) u64_max
        ≡ min (t.ep1 + ((if role_beq role one then s.dropped else 0) + sum1)) u64_max)
      × (min (t'.ep2 + sum2) u64_max
          ≡ min (t.ep2 + ((if role_beq role two then s.dropped else 0) + sum2)) u64_max)
unfolding snapshot
add_dropped-sums t one s sum1 sum2 = (omega arith, omega arith)
add_dropped-sums t two s sum1 sum2 = (omega arith, omega arith)

add_dropped-IsU64 :
    (t : DroppedTotals) (role : EndpointRole) (s : ReceiverStats)
    → t.ep1 ≤ u64_max
    → t.ep2 ≤ u64_max
    → ((add_dropped t role (snapshot s)).ep1 ≤ u64_max)
      × ((add_dropped t role (snapshot s)).ep2 ≤ u64_max)
unfolding snapshot
add_dropped-IsU64 t one s h1 h2 = (omega arith, h2)
add_dropped-IsU64 t two s h1 h2 = (h1, omega arith)

dropped_sums :
    (xs : List (ReceiverStats × SubscriptionRole)) (t : DroppedTotals)
    → t.ep1 ≤ u64_max
    → t.ep2 ≤ u64_max
    → let out = compute_dropped_totals xs t in
      (out.ep1 ≡ min (t.ep1 + sum_of (λ s. s.dropped) one xs) u64_max)
      × (out.ep2 ≡ min (t.ep2 + sum_of (λ s. s.dropped) two xs) u64_max)
unfolding compute_dropped_totals
dropped_sums [] t h1 h2 = (omega arith, omega arith)
dropped_sums ((s, r) ∷ rest) t h1 h2 =
    let small = add_dropped-IsU64 t (endpoint r) s h1 h2 in
    let later = dropped_sums rest (add_dropped t (endpoint r) (snapshot s)) small.0 small.1 in
    let here =
      add_dropped-sums t (endpoint r) s (sum_of (λ s. s.dropped) one rest)
        (sum_of (λ s. s.dropped) two rest) in
    (omega (arith, later.0, here.0), omega (arith, later.1, here.1))

-- From totals of 0, the capture totals of each endpoint are the sum of what its rings received, and
-- the dropped totals the sum of what its rings dropped, both clamped at 2 ^ 64 - 1.
pub totals_are_sums :
    (xs : List (ReceiverStats × SubscriptionRole))
    → let captured = compute_capture_totals xs (record { ep1 = 0; ep2 = 0 }) in
      let lost = compute_dropped_totals xs (record { ep1 = 0; ep2 = 0 }) in
      (captured.ep1 ≡ min (sum_of (λ s. s.received) one xs) u64_max)
      × (captured.ep2 ≡ min (sum_of (λ s. s.received) two xs) u64_max)
      × (lost.ep1 ≡ min (sum_of (λ s. s.dropped) one xs) u64_max)
      × (lost.ep2 ≡ min (sum_of (λ s. s.dropped) two xs) u64_max)
totals_are_sums xs =
    let captured = capture_sums xs (record { ep1 = 0; ep2 = 0 }) (omega arith) (omega arith) in
    let lost = dropped_sums xs (record { ep1 = 0; ep2 = 0 }) (omega arith) (omega arith) in
    (
      omega (arith, captured.0),
      omega (arith, captured.1),
      omega (arith, lost.0),
      omega (arith, lost.1),
    )
