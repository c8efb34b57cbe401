-- ===== src/Ping.antt =====
-- src/run.rs: the task that measures the round trips of GetVersion to an endpoint (`ping_task`), with
-- the sleep between two pings. What the endpoint, the clock and the shutdown flag answer is the input
-- of each round.
pub mod Sleep
pub mod Tally
pub mod Tests
use grpc_bench.Prelude.{
  ℕ, zero, suc, ◌+◌, ◌-◌, min, ◌≡◌, Bool, true, false, Option, none, some, List, [], ◌∷◌, leb,
}
use grpc_bench.Prelude.Words.{u64_max, saturating_sub}
use grpc_bench.Run.{PingTracker, record_ping}

-- `Duration::from_secs(30)`, in milliseconds.
abbrev pub ping_interval : ℕ
ping_interval = 30000

-- `Duration::from_millis(250)`
abbrev pub tick : ℕ
tick = 250

-- `PingTracker::new`
abbrev pub new_tracker : PingTracker
new_tracker = record { sum_us = 0; count = 0 }

-- The loop of `sleep_unless_shutdown` on fuel: whether it saw the flag, and the milliseconds that it
-- has slept; `none` when the fuel is gone. `loads k` is what the k-th load of the flag gives.
unfoldable pub sleep_loop : ℕ → ℕ → (ℕ → Bool) → ℕ → Option (Bool × ℕ)
sleep_loop zero zero loads slept = some (false, slept)
sleep_loop zero (suc remaining) loads slept = none
sleep_loop (suc fuel) zero loads slept = some (false, slept)
sleep_loop (suc fuel) (suc remaining) loads slept =
    let s = min (suc remaining) tick in
    elim (loads 0) [
      | true ↦ some (true, slept)
      | false ↦ sleep_loop fuel (saturating_sub (suc remaining) s) (λ k. loads (suc k)) (slept + s)
    ]

-- A round of the loop takes a millisecond at least, so that the duration is fuel enough.
unfoldable pub sleep_unless_shutdown : ℕ → (ℕ → Bool) → Option (Bool × ℕ)
sleep_unless_shutdown dur loads = sleep_loop dur dur loads 0

-- Which loop the task is in; `stopped` once it has returned.
pub data Phase : Type 0 where
  connecting pinging stopped : Phase

-- What the timed call of `fetch_and_evaluate_version` gives, with the microseconds of a success.
pub data Answer : Type 0 where
  answered : ℕ → Answer
  failed timed_out : Answer

-- The task with its tracker and the milliseconds slept so far.
pub record Pinger : Type 0 where
  pub phase : Phase
  pub tracker : PingTracker
  pub slept : ℕ

abbrev pub begin : Pinger
begin = record { phase = connecting; tracker = new_tracker; slept = 0 }

-- `if sleep_unless_shutdown(..).await { return }`, after which the task stays in its loop.
abbrev pub after_sleep : Option (Bool × ℕ) → Pinger → Option Pinger
after_sleep none p = none
after_sleep (some (true, t)) p = some (record p { phase = stopped; slept = p.slept + t })
after_sleep (some (false, t)) p = some (record p { slept = p.slept + t })

-- A round of the outer loop, up to the inner one; the Booleans are the flag and whether
-- `connect_with_decode_limit` gave a client.
unfoldable pub connect_round : Bool → Bool → (ℕ → Bool) → Pinger → Option Pinger
connect_round true connects loads p = some (record p { phase = stopped })
connect_round false true loads p = some (record p { phase = pinging })
connect_round false false loads p = after_sleep (sleep_unless_shutdown ping_interval loads) p

-- A round of the inner loop.
unfoldable pub ping_round : Bool → Answer → (ℕ → Bool) → Pinger → Option Pinger
ping_round true a loads p = some (record p { phase = stopped })
ping_round false (answered us) loads p =
    after_sleep (sleep_unless_shutdown ping_interval loads)
      (record p { tracker = record_ping p.tracker (min us u64_max) })
ping_round false failed loads p = some (record p { phase = connecting })
ping_round false timed_out loads p = some (record p { phase = connecting })

-- A round of either loop; the first Boolean is what `shutdown.load` gave. Where it is set, the source
-- does not connect or ping, and the rest of the round is not looked at.
pub data Round : Type 0 where
  connected : Bool → Bool → Round
  pinged : Bool → Answer → Round

-- The runs of a task, the last round first. A round is of the loop that the task is in.
pub data Runs : List Round → Pinger → Type 0 where
  begun : Runs [] begin
  connects :
      {rounds : List Round} {p p' : Pinger}
      → (shutdown client : Bool) (loads : ℕ → Bool) → Runs rounds p
      → p.phase ≡ connecting
      → connect_round shutdown client loads p ≡ some p'
      → Runs (connected shutdown client ∷ rounds) p'
  pings :
      {rounds : List Round} {p p' : Pinger}
      → (shutdown : Bool) (a : Answer) (loads : ℕ → Bool) → Runs rounds p
      → p.phase ≡ pinging
      → ping_round shutdown a loads p ≡ some p'
      → Runs (pinged shutdown a ∷ rounds) p'
