-- ===== src/Floats.antt =====
-- `f64` and the `tdigest` crate, which the program uses and does not implement. Both are a
-- parameter of every definition that computes with them.
pub mod Exact
use grpc_bench.Prelude.{ℕ, ◌+◌, ◌*◌, ◌<◌, ◌≡◌, Bool, List, [], ◌∷◌, length, nat_beq, ltb}
use grpc_bench.Prelude.Int.{ℤ, pos, ltb_ℤ, clamp_zero}

pub record Floats : Type 1 where
  -- `f64`, with `x as f64`, `/`, `max`, `<` and `f64::NAN`
  pub F64 : Type 0
  pub of_i64 : ℤ → F64
  pub div : F64 → F64 → F64
  pub max_f64 : F64 → F64 → F64
  pub ltf : F64 → F64 → Bool
  pub nan : F64
  -- `tdigest::TDigest`
  pub TDigest : Type 0
  pub new_with_size : ℕ → TDigest
  pub merge_unsorted : TDigest → List F64 → TDigest
  pub merge_digests : List TDigest → TDigest
  pub no_samples : TDigest → Bool
  pub estimate_quantile : TDigest → F64 → F64

module _ (N : Floats) where
  open N use {F64, of_i64, div}

  -- A literal such as `600.0`.
  abbrev pub lit : ℕ → F64
  lit n = of_i64 (pos n)

  -- A literal such as `0.999`: the double nearest to n / d, which is what division rounds to.
  abbrev pub ratio : ℕ → ℕ → F64
  ratio n d = div (lit n) (lit d)

  -- `(ns as f64) / 1_000_000.0`
  abbrev pub ns_to_ms : ℤ → F64
  ns_to_ms ns = div (of_i64 ns) (lit 1000000)

-- What the code relies on of `f64`: dividing an integer by a million keeps its sign; the quotient
-- compares with a small integer as the exact one does, rounding being monotone and the integer
-- exact; and `max` with zero.
pub record FloatLaws (N : Floats) : Type 0 where
  pub ms_positive : (z : ℤ) → N.ltf (lit N 0) (ns_to_ms N z) ≡ ltb_ℤ (pos 0) z
  pub ms_negative : (z : ℤ) → N.ltf (ns_to_ms N z) (lit N 0) ≡ ltb_ℤ z (pos 0)
  pub lit_lt_ms :
      (t a : ℕ)
      → t < 1000000
      → a < 9223372036854775808
      → N.ltf (lit N t) (ns_to_ms N (pos a)) ≡ ltb (t * 1000000) a
  pub max_zero : (z : ℤ) → N.max_f64 (N.of_i64 z) (lit N 0) ≡ N.of_i64 (clamp_zero z)

-- What the code relies on of `tdigest`: a digest counts the samples that were merged into it, and
-- is empty when there are none.
pub record TDigestLaws (N : Floats) : Type 0 where
  pub count : N.TDigest → ℕ
  pub count_new : (n : ℕ) → count (N.new_with_size n) ≡ 0
  pub count_merge :
      (d : N.TDigest) (xs : List N.F64) → count (N.merge_unsorted d xs) ≡ count d + length xs
  pub no_samples_count : (d : N.TDigest) → N.no_samples d ≡ nat_beq (count d) 0
  pub count_digests_nil : count (N.merge_digests []) ≡ 0
  pub count_digests_cons :
      (d : N.TDigest) (ds : List N.TDigest)
      → count (N.merge_digests (d ∷ ds)) ≡ count d + count (N.merge_digests ds)
