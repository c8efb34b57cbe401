-- ===== src/Matching/Pair/Trim.antt =====
-- What the `Lru` policy of src/matching/mod.rs drops.
use grpc_bench.Prelude.{
  ℕ, ◌+◌, ◌-◌, ◌<◌, ◌≡◌, refl, inl, inr, length, length-drop, arith, drop, ltb, Bool-cases,
}
use grpc_bench.Prelude.Words.{u64_mod}
use grpc_bench.Prelude.Eq.{Eq}
use grpc_bench.Prelude.HashMap.{HashMap, IsUnique, remove_all-keys}
use grpc_bench.Matching.Pair.{MatchPending, trim}

module _ {K : Type 0} ⦃e : Eq K⦄ where
  -- The `Lru` policy drops the first entries of the iteration.
  pub trim-drop :
      (max_pending : ℕ) (p : HashMap K MatchPending) (evicted : ℕ)
      → IsUnique p
      → (trim max_pending p evicted).0 ≡ drop (length p - max_pending) p
  unfolding trim
  trim-drop max_pending p evicted u = elim (Bool-cases (ltb max_pending (length p))) [
    | inl over ↦ rw over (remove_all-keys (length p - max_pending) p u)
    | inr fits ↦ let e : length p - max_pending ≡ 0 = ground arith in rw (fits, e) refl
  ]

  -- It counts what it drops.
  pub trim_total :
      (max_pending : ℕ) (p : HashMap K MatchPending) (evicted : ℕ)
      → IsUnique p
      → length p + evicted < u64_mod
      → length (trim max_pending p evicted).0 + (trim max_pending p evicted).1 ≡ length p + evicted
  trim_total max_pending p evicted u h =
      rw (trim-drop max_pending p evicted u, length-drop) (unfold trim in ground arith)
