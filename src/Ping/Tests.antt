-- ===== src/Ping/Tests.antt =====
-- The theorem on the ping task at a concrete input.
use grpc_bench.Prelude.{ℕ, ◌≡◌, refl, Bool, true, false, some, List, [], ◌∷◌, nat_beq}
use grpc_bench.Run.{record_ping}
use grpc_bench.Ping.{
  connecting, answered, failed, Pinger, Round, connected, pinged, Runs, begun, connects, pings,
  sleep_loop, sleep_unless_shutdown, connect_round, ping_round,
}
use grpc_bench.Ping.Tally.{TalliesRounds, Runs-Tallies}

abbrev never : ℕ → Bool
never k = false

seen_third : sleep_unless_shutdown 1000 (λ k. nat_beq k 2) ≡ some (true, 500)
unfolding sleep_unless_shutdown sleep_loop
seen_third = refl

slept_out : sleep_unless_shutdown 600 never ≡ some (false, 600)
unfolding sleep_unless_shutdown sleep_loop
slept_out = refl

-- A connection fails, the next is made, a ping is answered, and one fails.
abbrev rounds : List Round
rounds =
    pinged false failed
    ∷ pinged false (answered 1500)
    ∷ connected false true
    ∷ connected false false
    ∷ []

abbrev at_end : Pinger
at_end = record { phase = connecting; tracker = record { sum_us = 1500; count = 1 }; slept = 60000 }

run : Runs rounds at_end
unfolding connect_round ping_round sleep_unless_shutdown sleep_loop record_ping
run =
    pings false failed never
      (pings false (answered 1500) never
        (connects false true never (connects false false never begun refl refl) refl refl) refl
        refl)
      refl refl

Runs-Tallies_example : TalliesRounds rounds at_end
Runs-Tallies_example = Runs-Tallies run
