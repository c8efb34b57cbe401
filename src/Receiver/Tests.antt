-- ===== src/Receiver/Tests.antt =====
-- The receiver theorems at concrete inputs.
use grpc_bench.Prelude.{ℕ, ◌≤◌, ◌≡◌, refl, ◌↔◌, ◌⊎◌, true, false, some, List, [], ◌∷◌}
use grpc_bench.Prelude.Int.{pos}
use grpc_bench.Prelude.Result.{err}
use grpc_bench.Text.{codes}
use grpc_bench.Timing.{EventTimestamp}
use grpc_bench.Config.{processed}
use grpc_bench.Subscribe.{one, main, slots, SubscriptionRole}
use grpc_bench.Collect.Decode.{Codec, update_slot, slot_processed, decode, decode_payload}
use grpc_bench.Collect.Stats
use grpc_bench.Collect.Ring.{Ring}
use grpc_bench.Collect.Ring.Queue.{queue}
use grpc_bench.Receiver.{
  stopped, connect_failed, opened, update, status, Round, attempted, polled, Receiver, enter,
  note_error, retry, attempt, poll, send_event, Runs, begun, attempts, polls,
}
use grpc_bench.Receiver.Errors.{streak, recent, asked_to_stop}
use grpc_bench.Receiver.Streak.{gives_up_exactly}

-- Every status is processed, and no text is base58.
abbrev codec : Codec
codec = record {
  slot_status_try_from = λ s. some slot_processed;
  bs58_decode = λ text. err "invalid";
  UpdateBlock = ℕ;
  block_slot = λ b. b;
  block_blockhash = λ b. "0";
  block_executed_transaction_count = λ b. 0;
  block_entries_count = λ b. 0;
  encoded_len = λ b. 9;
}

abbrev role : SubscriptionRole
role = main one processed slots

abbrev ring : Ring queue
ring = record { channel = ([], 1); stats = Stats.new }

abbrev at : EventTimestamp
at = record { mono_ns = 10; wall_ms = 4 }

-- A connection fails, the next is made, an update comes, and the stream ends with a status.
abbrev rounds : List (Round codec)
rounds =
    polled false (status (codes "reset"))
    ∷ polled false (update at (some (update_slot 5 (pos 0))))
    ∷ attempted false opened
    ∷ attempted false (connect_failed (codes "refused"))
    ∷ []

abbrev after_retry : Receiver queue
after_retry = attempt false (connect_failed (codes "refused")) (enter ring)

abbrev after_open : Receiver queue
after_open = attempt false opened after_retry

abbrev after_update : Receiver queue
after_update = poll {D = codec} role false (update at (some (update_slot 5 (pos 0)))) after_open

abbrev after_status : Receiver queue
after_status = poll {D = codec} role false (status (codes "reset")) after_update

run : Runs codec role ring rounds after_status
unfolding attempt retry note_error poll decode decode_payload send_event
run =
    polls false (status (codes "reset"))
      (polls false (update at (some (update_slot 5 (pos 0))))
        (attempts false opened (attempts false (connect_failed (codes "refused")) begun refl) refl)
        refl)
      refl

gives_up_exactly_example :
    (after_status.phase ≡ stopped)
    ↔ ((asked_to_stop rounds ≡ true) ⊎ (5 ≤ streak (recent role rounds)))
gives_up_exactly_example = gives_up_exactly role ring rounds after_status run
