-- ===== src/Collect/Tests.antt =====
-- The collection theorems at concrete inputs.
use grpc_bench.Prelude.{ℕ, ◌+◌, ◌≤◌, ◌≡◌, refl, none, some, [], ◌∷◌, ◌++◌, length, arith}
use grpc_bench.Prelude.Int.{pos}
use grpc_bench.Prelude.Result.{ok, err}
use grpc_bench.Timing.{EventTimestamp}
use grpc_bench.Config.{processed}
use grpc_bench.Subscribe.{one, main, slots}
use grpc_bench.Collect.{Event, slot, completed}
use grpc_bench.Collect.Stats
use grpc_bench.Collect.Affinity.{AffinitySpec, is_unpinned}
use grpc_bench.Collect.Affinity.Parse.{parse}
use grpc_bench.Collect.Affinity.Render.{render}
use grpc_bench.Collect.Affinity.RoundTrip.{parse-render}
use grpc_bench.Collect.Decode.{Codec, UpdateOneof, update_slot, slot_processed}
use grpc_bench.Collect.Ring.{Ring, pending, with_capacity}
use grpc_bench.Collect.Ring.Trace.{offer, take_next, calls, start}
use grpc_bench.Collect.Ring.Capture.{ring_keeps}
use grpc_bench.Collect.Ring.Queue.{queue, queue_laws}

abbrev structured : AffinitySpec
structured = record {
  endpoint1 = 2 ∷ 3 ∷ [];
  endpoint2 = 4 ∷ [];
  processor = none;
  control = some 11;
}

parse-render_example : parse (some 8) (render structured) ≡ ok structured
unfolding is_unpinned
parse-render_example =
    parse-render (some 8) structured refl (refl, (refl, (refl, (refl, tt)))) (omega arith)

abbrev at : EventTimestamp
at = record { mono_ns = 10; wall_ms = 4 }

-- Every status is processed, and no text is base58.
abbrev codec : Codec
codec = record {
  slot_status_try_from = λ status. some slot_processed;
  bs58_decode = λ text. err "invalid";
  UpdateBlock = ℕ;
  block_slot = λ b. b;
  block_blockhash = λ b. "0";
  block_executed_transaction_count = λ b. 0;
  block_entries_count = λ b. 0;
  encoded_len = λ b. 9;
}

abbrev update : UpdateOneof codec
update = update_slot 5 (pos 0)

abbrev event : Event
event = record { ts = at; subscription = main one processed slots; payload = slot 5 completed }

abbrev ring : Ring queue
ring = record { channel = ([], 1); stats = Stats.new }

ring_keeps_example :
    let t = calls (start ring) (offer event ∷ offer event ∷ take_next ∷ []) in
    (t.delivered ++ t.ring.channel.0 ≡ t.accepted)
    × (pending t.ring ≤ 1)
    × (length t.accepted + t.ring.stats.dropped + t.refused_gone ≡ t.offered)
unfolding with_capacity
ring_keeps_example =
    ring_keeps queue_laws 1 (offer event ∷ offer event ∷ take_next ∷ []) ring refl (omega arith)
