-- ===== src/Floats/Exact.antt =====
-- Numbers and digests that meet the laws: exact fractions, and the list of the samples.
use grpc_bench.Prelude.{
  ℕ, suc, ◌+◌, ◌-◌, ◌*◌, ◌≡◌, refl, Bool, false, List, [], ◌∷◌, ◌++◌, length, nat_beq,
  length-append, arith, is_empty, if◌then◌else◌, ltb,
}
use grpc_bench.Prelude.Int.{ℤ, pos, negsuc, ltb_ℤ, clamp_zero}
use grpc_bench.Floats.{Floats, FloatLaws, TDigestLaws, ns_to_ms, lit}

-- A fraction with a positive denominator, or not a number.
pub data Fraction : Type 0 where
  fraction : ℤ → ℕ → Fraction
  not_a_number : Fraction

abbrev pub scale : ℤ → ℕ → ℤ
scale (pos n) k = pos (n * k)
scale (negsuc n) k = negsuc (suc n * k - 1)

abbrev pub div_fraction : Fraction → Fraction → Fraction
div_fraction (fraction a b) (fraction (pos c) d) = fraction (scale a d) (b * c)
div_fraction _ _ = not_a_number

abbrev pub lt_fraction : Fraction → Fraction → Bool
lt_fraction (fraction a b) (fraction c d) = ltb_ℤ (scale a d) (scale c b)
lt_fraction _ _ = false

abbrev pub max_fraction : Fraction → Fraction → Fraction
max_fraction x y = if lt_fraction x y then y else x

abbrev pub first_sample : List Fraction → Fraction
first_sample [] = not_a_number
first_sample (x ∷ xs) = x

abbrev pub flatten_samples : List (List Fraction) → List Fraction
flatten_samples [] = []
flatten_samples (d ∷ ds) = d ++ flatten_samples ds

pub length-flatten_cons :
    (d : List Fraction) (ds : List (List Fraction))
    → length (flatten_samples (d ∷ ds)) ≡ length d + length (flatten_samples ds)
length-flatten_cons d ds = length-append d (flatten_samples ds)

abbrev pub exact : Floats
exact = record {
  F64 = Fraction;
  of_i64 = λ z. fraction z 1;
  div = div_fraction;
  max_f64 = max_fraction;
  ltf = lt_fraction;
  nan = not_a_number;
  TDigest = List Fraction;
  new_with_size = λ n. [];
  merge_unsorted = λ d xs. d ++ xs;
  merge_digests = flatten_samples;
  no_samples = is_empty;
  estimate_quantile = λ d q. first_sample d;
}

ms_positive_exact : (z : ℤ) → lt_fraction (lit exact 0) (ns_to_ms exact z) ≡ ltb_ℤ (pos 0) z
ms_positive_exact (pos n) = ground arith
ms_positive_exact (negsuc n) = ground arith

ms_negative_exact : (z : ℤ) → lt_fraction (ns_to_ms exact z) (lit exact 0) ≡ ltb_ℤ z (pos 0)
ms_negative_exact (pos n) = ground arith
ms_negative_exact (negsuc n) = ground arith

lit_lt_ms_exact :
    (t a : ℕ) → lt_fraction (lit exact t) (ns_to_ms exact (pos a)) ≡ ltb (t * 1000000) a
lit_lt_ms_exact t a = ground arith

max_zero_exact : (z : ℤ) → max_fraction (fraction z 1) (lit exact 0) ≡ fraction (clamp_zero z) 1
max_zero_exact (pos n) = ground arith
max_zero_exact (negsuc n) = ground arith

pub exact_laws : FloatLaws exact
exact_laws = record {
  ms_positive = ms_positive_exact;
  ms_negative = ms_negative_exact;
  lit_lt_ms = λ t a h k. lit_lt_ms_exact t a;
  max_zero = max_zero_exact;
}

pub no_samples_exact : (d : List Fraction) → is_empty d ≡ nat_beq (length d) 0
no_samples_exact [] = refl
no_samples_exact (x ∷ xs) = ground arith

abbrev pub exact_digests : TDigestLaws exact
exact_digests = record {
  count = length;
  count_new = λ n. refl;
  count_merge = length-append;
  no_samples_count = no_samples_exact;
  count_digests_nil = refl;
  count_digests_cons = length-flatten_cons;
}
