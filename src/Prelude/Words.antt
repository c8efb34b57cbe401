-- ===== src/Prelude/Words.antt =====
-- `u64` and `i64` as the program uses them. A release build has no overflow checks, so `+=` on a
-- counter wraps; `saturating_*` clamp.
use Prim.Native.Nat.{ℕ, suc, ◌+◌, ◌-◌, ◌%◌, min}
use mathlib.Core.Path.{◌≡◌}
use native.Mathlib.Omega.{arith}
use grpc_bench.Prelude.Int.{ℤ, sub_ℕ}

-- 2 ^ 64
abbrev pub u64_mod : ℕ
u64_mod = 18446744073709551616

abbrev pub u64_max : ℕ
u64_max = 18446744073709551615

abbrev pub i64_max : ℕ
i64_max = 9223372036854775807

-- `a += b`, `a.wrapping_add(b)`
abbrev pub wrapping_add : ℕ → ℕ → ℕ
wrapping_add a b = (a + b) % u64_mod

-- `a.saturating_add(b)`
abbrev pub saturating_add : ℕ → ℕ → ℕ
saturating_add a b = min (a + b) u64_max

-- `a.saturating_sub(b)`
abbrev pub saturating_sub : ℕ → ℕ → ℕ
saturating_sub a b = a - b

-- `i64::try_from(x).unwrap_or(i64::MAX)` of a `u64`
abbrev pub to_i64 : ℕ → ℕ
to_i64 x = min x i64_max

-- The difference of two such values. Both lie in 0 ..= i64::MAX, so it does not overflow.
abbrev pub i64_diff : ℕ → ℕ → ℤ
i64_diff a b = sub_ℕ (to_i64 a) (to_i64 b)

-- A counter that is the number of some events, to 64 bits, is so after one event more.
pub wrapping_add-suc : (a n : ℕ) → a ≡ n % u64_mod → wrapping_add a 1 ≡ suc n % u64_mod
wrapping_add-suc a n e = omega (arith, e)
