-- ===== src/Text/Decimal.antt =====
-- `u32` in decimal: what is printed is read back.
use grpc_bench.Prelude.{
  ℕ, zero, suc, ◌+◌, ◌/◌, ◌%◌, ◌≤◌, ◌<◌, ◌≡◌, refl, ◌∙◌, inl, inr, false, some, [], ◌∷◌, All, ltb,
  nat_beq, Bool-cases, ltb→lt, arith,
}
use grpc_bench.Text.{Text, u32_max, scan_u32, parse_u32, digits_fuel, digits}

abbrev pub IsDigit : ℕ → Type 0
IsDigit c = (b'0' ≤ c) × (c ≤ b'9')

ltb→ge : (a b : ℕ) → ltb a b ≡ false → b ≤ a
ltb→ge a b h = ground arith

-- Reading the last digit of `n` after those before it gives `n`.
scan_last :
    (n : ℕ) (out : Text) → n ≤ u32_max → scan_u32 ((b'0' + n % 10) ∷ out) (n / 10) ≡ scan_u32 out n
unfolding scan_u32
scan_last n out h = ground arith

scan_digit : (n : ℕ) (out : Text) → n < 10 → scan_u32 ((b'0' + n) ∷ out) 0 ≡ scan_u32 out n
unfolding scan_u32
scan_digit n out h = ground arith

scan_u32-digits_fuel :
    (fuel n : ℕ) (out : Text)
    → n < fuel
    → n ≤ u32_max
    → scan_u32 (digits_fuel fuel n out) 0 ≡ scan_u32 out n
unfolding digits_fuel
scan_u32-digits_fuel zero n out enough small = absurd (omega (arith, enough))
scan_u32-digits_fuel (suc fuel) n out enough small = elim (Bool-cases (ltb n 10)) [
  | inl one ↦ rw (digits_fuel, one) (scan_digit n out (ltb→lt n 10 one))
  | inr more ↦
      rw (digits_fuel, more)
        (scan_u32-digits_fuel fuel (n / 10) _ (omega (arith, enough, ltb→ge n 10 more))
            (omega arith)
          ∙ scan_last n out small)
]

digits_fuel-IsDigit :
    (fuel n : ℕ) (out : Text) → n < fuel → All IsDigit out → All IsDigit (digits_fuel fuel n out)
unfolding digits_fuel
digits_fuel-IsDigit zero n out enough d = absurd (omega (arith, enough))
digits_fuel-IsDigit (suc fuel) n out enough d = elim (Bool-cases (ltb n 10)) [
  | inl one ↦ rw (digits_fuel, one) ((omega arith, omega (arith, ltb→lt n 10 one)), d)
  | inr more ↦
      rw (digits_fuel, more)
        (digits_fuel-IsDigit fuel (n / 10) _ (omega (arith, enough, ltb→ge n 10 more))
          ((omega arith, omega arith), d))
]

digits_fuel-cons :
    (fuel n : ℕ) (out : Text) → n < fuel → (c : ℕ) × (cs : Text) × (digits_fuel fuel n out ≡ c ∷ cs)
unfolding digits_fuel
digits_fuel-cons zero n out enough = absurd (omega (arith, enough))
digits_fuel-cons (suc fuel) n out enough = elim (Bool-cases (ltb n 10)) [
  | inl one ↦ rw (digits_fuel, one) (_, _, refl)
  | inr more ↦
      rw (digits_fuel, more)
        (digits_fuel-cons fuel (n / 10) _ (omega (arith, enough, ltb→ge n 10 more)))
]

pub digits-IsDigit : (n : ℕ) → All IsDigit (digits n)
unfolding digits
digits-IsDigit n = digits_fuel-IsDigit (suc n) n [] (omega arith) tt

pub digits-cons : (n : ℕ) → (c : ℕ) × (cs : Text) × (digits n ≡ c ∷ cs)
unfolding digits
digits-cons n = digits_fuel-cons (suc n) n [] (omega arith)

parse_u32-scan :
    (s : Text) (c : ℕ) (cs : Text) → s ≡ c ∷ cs → All IsDigit s → parse_u32 s ≡ scan_u32 s 0
unfolding parse_u32
parse_u32-scan [] c cs e d = absurd (cc)
parse_u32-scan (x ∷ s) c cs e d =
    let digit : nat_beq x b'+' ≡ false = ground (arith, d.0.0) in rw (parse_u32, digit) refl

-- Every `u32` is read back from its decimal print.
pub parse_u32-digits : (n : ℕ) → n ≤ u32_max → parse_u32 (digits n) ≡ some n
unfolding digits scan_u32
parse_u32-digits n small =
    let (c, cs, e) = digits-cons n in
    parse_u32-scan (digits n) c cs e (digits-IsDigit n)
    ∙ scan_u32-digits_fuel (suc n) n [] (omega arith) small
