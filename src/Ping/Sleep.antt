-- ===== src/Ping/Sleep.antt =====
-- src/run.rs: `sleep_unless_shutdown` comes to its end.
use grpc_bench.Prelude.{
  ℕ, zero, suc, ◌+◌, ◌-◌, ◌≤◌, min, ◌≡◌, refl, ◌∙◌, subst, Bool, true, false, Option, some,
  Bool-cases, inl, inr, arith,
}
use grpc_bench.Ping.{tick, sleep_loop, sleep_unless_shutdown}

-- The loop ends, and it has slept all that remained unless it saw the flag.
pub record Ends (out : Option (Bool × ℕ)) (due : ℕ) : Type 0 where
  pub saw : Bool
  pub slept : ℕ
  pub result : out ≡ some (saw, slept)
  pub in_full : saw ≡ false → slept ≡ due
  pub at_most : slept ≤ due

sleep_loop-Ends :
    (fuel remaining : ℕ) (loads : ℕ → Bool) (slept : ℕ)
    → remaining ≤ fuel
    → Ends (sleep_loop fuel remaining loads slept) (slept + remaining)
unfolding sleep_loop
sleep_loop-Ends zero zero loads slept h = record {
  saw = false;
  slept = slept;
  result = refl;
  in_full = λ e. omega arith;
  at_most = omega arith;
}
sleep_loop-Ends zero (suc remaining) loads slept h = absurd (omega (arith, h))
sleep_loop-Ends (suc fuel) zero loads slept h = record {
  saw = false;
  slept = slept;
  result = refl;
  in_full = λ e. omega arith;
  at_most = omega arith;
}
sleep_loop-Ends (suc fuel) (suc remaining) loads slept h =
    let s = min (suc remaining) tick in
    elim (Bool-cases (loads 0)) [
      | inl seen ↦ record {
        saw = true;
        slept = slept;
        result = rw (sleep_loop, seen) refl;
        in_full = λ e. absurd (cc);
        at_most = omega arith;
      }
      | inr unseen ↦
          let rest =
            sleep_loop-Ends fuel (suc remaining - s) (λ k. loads (suc k)) (slept + s)
              (omega (arith, h)) in
          record {
            saw = rest.saw;
            slept = rest.slept;
            result = rw (sleep_loop, unseen) rest.result;
            in_full = λ e. rest.in_full e ∙ omega arith;
            at_most = omega (arith, rest.at_most);
          }
    ]

pub sleep_unless_shutdown-Ends :
    (dur : ℕ) (loads : ℕ → Bool) → Ends (sleep_unless_shutdown dur loads) dur
unfolding sleep_unless_shutdown
sleep_unless_shutdown-Ends dur loads =
    subst (Ends (sleep_loop dur dur loads 0)) (omega arith)
      (sleep_loop-Ends dur dur loads 0 (omega arith))
