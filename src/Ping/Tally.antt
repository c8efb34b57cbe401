-- ===== src/Ping/Tally.antt =====
-- src/run.rs: what the ping task records, and how long it sleeps.
use grpc_bench.Prelude.{
  ℕ, suc, ◌+◌, ◌*◌, ◌%◌, ◌≡◌, ◌≢◌, ◌⊎◌, inl, inr, min, refl, ◌∙◌, sym, subst, Bool, true, false,
  Option, none, some, List, [], ◌∷◌, arith,
}
use grpc_bench.Prelude.Words.{u64_mod, u64_max, wrapping_add-suc}
use grpc_bench.Run.{record_ping}
use grpc_bench.Ping.{
  ping_interval, sleep_unless_shutdown, Phase, connecting, pinging, stopped, Answer, answered,
  failed, timed_out, Pinger, after_sleep, connect_round, ping_round, Round, connected, pinged, Runs,
  begun, connects, pings,
}
use grpc_bench.Ping.Sleep.{Ends, sleep_unless_shutdown-Ends}

abbrev pub count_answers : List Round → ℕ
count_answers [] = 0
count_answers (pinged false (answered us) ∷ rounds) = suc (count_answers rounds)
count_answers (_ ∷ rounds) = count_answers rounds

-- The microseconds of the pings that were answered, each clamped to 64 bits.
abbrev pub answered_us : List Round → ℕ
answered_us [] = 0
answered_us (pinged false (answered us) ∷ rounds) = answered_us rounds + min us u64_max
answered_us (_ ∷ rounds) = answered_us rounds

-- The connections that failed.
abbrev pub count_refused : List Round → ℕ
count_refused [] = 0
count_refused (connected false false ∷ rounds) = suc (count_refused rounds)
count_refused (_ ∷ rounds) = count_refused rounds

-- The tracker holds the answered pings, to 64 bits, and a task that has not stopped has slept an
-- interval for each of the naps.
pub record Tallies (answers us naps : ℕ) (p : Pinger) : Type 0 where
  pub count : p.tracker.count ≡ answers % u64_mod
  pub sum_us : p.tracker.sum_us ≡ us % u64_mod
  pub slept : (p.phase ≡ stopped) ⊎ (p.slept ≡ ping_interval * naps)

abbrev pub TalliesRounds : List Round → Pinger → Type 0
TalliesRounds rounds =
    Tallies (count_answers rounds) (answered_us rounds)
      (count_answers rounds + count_refused rounds)

slept_so_far :
    {answers us naps : ℕ} {p : Pinger}
    → Tallies answers us naps p
    → p.phase ≢ stopped
    → p.slept ≡ ping_interval * naps
slept_so_far t on = elim t.slept [ inl down ↦ absurd (on down) | inr slept ↦ slept ]

carry :
    (p : Pinger) {p' : Pinger} {answers us naps : ℕ}
    → Tallies answers us naps p
    → some p ≡ some p'
    → Tallies answers us naps p'
carry p {p'} t e = subst (Tallies _ _ _) (let same : p ≡ p' = cc in same) t

slept_once :
    (out : Option (Bool × ℕ)) {p p' : Pinger} (answers us naps : ℕ)
    → Ends out ping_interval
    → Tallies answers us naps p
    → p.phase ≢ stopped
    → after_sleep out p ≡ some p'
    → Tallies answers us (suc naps) p'
slept_once none answers us naps ends t on e = absurd (let h = ends.result in cc)
slept_once (some (true, ms)) {p} answers us naps ends t on e =
    carry (record p { phase = stopped; slept = p.slept + ms })
      (record { count = t.count; sum_us = t.sum_us; slept = inl refl }) e
slept_once (some (false, ms)) {p} answers us naps ends t on e =
    let before = slept_so_far t on in
    let h = ends.result in
    let unseen : ends.saw ≡ false = cc in
    let same : ms ≡ ends.slept = cc in
    let full = same ∙ ends.in_full unseen in
    carry (record p { slept = p.slept + ms })
      (record { count = t.count; sum_us = t.sum_us; slept = inr (omega (arith, before, full)) }) e

-- A round that neither hears an answer nor sleeps.
no_nap :
    (p : Pinger) {p' : Pinger} (phase : Phase) (answers us naps : ℕ)
    → Tallies answers us naps p
    → p.phase ≢ stopped
    → some (record p { phase = phase }) ≡ some p'
    → Tallies answers us naps p'
no_nap p phase answers us naps t on e =
    carry (record p { phase = phase })
      (record { count = t.count; sum_us = t.sum_us; slept = inr (slept_so_far t on) }) e

connect_round-Tallies :
    (rounds : List Round) (shutdown client : Bool) (loads : ℕ → Bool) (p : Pinger) {p' : Pinger}
    → TalliesRounds rounds p
    → p.phase ≢ stopped
    → connect_round shutdown client loads p ≡ some p'
    → TalliesRounds (connected shutdown client ∷ rounds) p'
unfolding connect_round
connect_round-Tallies rounds true client loads p t on e = no_nap p stopped _ _ _ t on e
connect_round-Tallies rounds false true loads p t on e = no_nap p pinging _ _ _ t on e
connect_round-Tallies rounds false false loads p {p'} t on e =
    subst (λ naps. Tallies (count_answers rounds) (answered_us rounds) naps p') (omega arith)
      (slept_once (sleep_unless_shutdown ping_interval loads) {p = p} _ _ _
        (sleep_unless_shutdown-Ends ping_interval loads) t on e)

ping_round-Tallies :
    (rounds : List Round) (shutdown : Bool) (a : Answer) (loads : ℕ → Bool) (p : Pinger)
    {p' : Pinger}
    → TalliesRounds rounds p
    → p.phase ≢ stopped
    → ping_round shutdown a loads p ≡ some p'
    → TalliesRounds (pinged shutdown a ∷ rounds) p'
unfolding ping_round record_ping
ping_round-Tallies rounds true a loads p t on e = no_nap p stopped _ _ _ t on e
ping_round-Tallies rounds false failed loads p t on e = no_nap p connecting _ _ _ t on e
ping_round-Tallies rounds false timed_out loads p t on e = no_nap p connecting _ _ _ t on e
ping_round-Tallies rounds false (answered us) loads p {p'} t on e =
    let heard = record p { tracker = record_ping p.tracker (min us u64_max) } in
    let sum = t.sum_us in
    subst
      (λ naps. Tallies (suc (count_answers rounds)) (answered_us rounds + min us u64_max) naps p')
      (omega arith)
      (slept_once (sleep_unless_shutdown ping_interval loads) {p = heard} _
        (answered_us rounds + min us u64_max) _ (sleep_unless_shutdown-Ends ping_interval loads)
        (record {
          count = wrapping_add-suc _ _ t.count;
          sum_us = omega (arith, sum);
          slept = t.slept;
        })
        on e)

-- A round gives a task: the fuel of its sleep is enough.
after_sleep-returns :
    (out : Option (Bool × ℕ)) (p : Pinger)
    → Ends out ping_interval
    → (p' : Pinger) × (after_sleep out p ≡ some p')
after_sleep-returns none p ends = absurd (let h = ends.result in cc)
after_sleep-returns (some (true, ms)) p ends = (_, refl)
after_sleep-returns (some (false, ms)) p ends = (_, refl)

connect_round-returns :
    (shutdown client : Bool) (loads : ℕ → Bool) (p : Pinger)
    → (p' : Pinger) × (connect_round shutdown client loads p ≡ some p')
unfolding connect_round
connect_round-returns true client loads p = (_, refl)
connect_round-returns false true loads p = (_, refl)
connect_round-returns false false loads p =
    after_sleep-returns (sleep_unless_shutdown ping_interval loads) p
      (sleep_unless_shutdown-Ends ping_interval loads)

ping_round-returns :
    (shutdown : Bool) (a : Answer) (loads : ℕ → Bool) (p : Pinger)
    → (p' : Pinger) × (ping_round shutdown a loads p ≡ some p')
unfolding ping_round
ping_round-returns true a loads p = (_, refl)
ping_round-returns false (answered us) loads p =
    after_sleep-returns (sleep_unless_shutdown ping_interval loads) _
      (sleep_unless_shutdown-Ends ping_interval loads)
ping_round-returns false failed loads p = (_, refl)
ping_round-returns false timed_out loads p = (_, refl)

not_stopped : {phase now : Phase} → now ≡ phase → phase ≢ stopped → now ≢ stopped
not_stopped e up down = up (sym e ∙ down)

connecting-stopped : connecting ≢ stopped
connecting-stopped e = absurd (cc)

pinging-stopped : pinging ≢ stopped
pinging-stopped e = absurd (cc)

-- The tracker of a ping task holds, to 64 bits, the number of the pings that were answered and the sum
-- of their microseconds, and a task that has not stopped has slept exactly thirty seconds for each of
-- them and for each connection that failed: none after a ping that failed or timed out.
pub Runs-Tallies : {rounds : List Round} {p : Pinger} → Runs rounds p → TalliesRounds rounds p
Runs-Tallies begun = record { count = refl; sum_us = refl; slept = inr refl }
Runs-Tallies (connects {rounds} {p} shutdown client loads before phase e) =
    connect_round-Tallies rounds shutdown client loads p (Runs-Tallies before)
      (not_stopped phase connecting-stopped) e
Runs-Tallies (pings {rounds} {p} shutdown a loads before phase e) =
    ping_round-Tallies rounds shutdown a loads p (Runs-Tallies before)
      (not_stopped phase pinging-stopped) e
