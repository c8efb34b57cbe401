-- ===== src/Matching/Tests.antt =====
-- The theorems on the streams' matchers at concrete inputs.
use grpc_bench.Prelude.{ℕ, ◌%◌, ◌≡◌, false, none, List, [], ◌∷◌}
use grpc_bench.Prelude.Words.{u64_mod}
use grpc_bench.Prelude.Eq.{nat_eq, list_eq, option_eq, pair_eq, triple_eq, quadruple_eq}
use grpc_bench.Floats.Exact.{exact, exact_laws}
use grpc_bench.Timing.{EventTimestamp}
use grpc_bench.Config.{processed, commitment_eq}
use grpc_bench.Subscribe.{EndpointRole, one, two, main, slots, transactions}
use grpc_bench.Collect.{Event, Pubkey32, slot, transaction, completed, dead}
use grpc_bench.Matching.Pair.{slot_window, new}
use grpc_bench.Matching.Slots
use grpc_bench.Matching.Slots.Stages
use grpc_bench.Matching.Slots.Stages.{SlotUpdate}
use grpc_bench.Matching.Accounts
use grpc_bench.Matching.Accounts.{
  AccountUpdate, with_strict_account_key, new_shard, observe_shard, shard_of, summary,
}
use grpc_bench.Matching.Accounts.Agreement.{observe_all}
use grpc_bench.Matching.Accounts.Totals.{summary_is_sum, sum_digests}
use grpc_bench.Matching.Accounts.Keys.{owners_apart, of_owner, run_shard}
use grpc_bench.Matching.Dispatch
use grpc_bench.Matching.Dispatch.Routing.{dispatch_all, Routed, streams_apart}

abbrev at : ℕ → EventTimestamp
at mono_ns = record { mono_ns = mono_ns; wall_ms = 0 }

abbrev updates : List SlotUpdate
updates =
    record { endpoint = one; slot = 5; stage = completed; ts = at 10 }
    ∷ record { endpoint = one; slot = 5; stage = dead; ts = at 11 }
    ∷ record { endpoint = two; slot = 5; stage = completed; ts = at 12 }
    ∷ []

abbrev account_seen : EndpointRole → ℕ → Pubkey32 → ℕ → AccountUpdate
account_seen role write_version owner mono_ns = record {
  endpoint = role;
  slot = 5;
  pubkey = 1 ∷ 2 ∷ [];
  write_version = write_version;
  txn_signature = none;
  owner = owner;
  ts = at mono_ns;
}

abbrev account_history : List AccountUpdate
account_history =
    account_seen one 4 (8 ∷ []) 10
    ∷ account_seen one 4 (9 ∷ []) 11
    ∷ account_seen two 6 (8 ∷ []) 15
    ∷ account_seen two 4 (9 ∷ []) 3
    ∷ []

summary_is_sum_example :
    let m =
      observe_all
        (with_strict_account_key (Accounts.new exact (slot_window 64) []) false)
        account_history in
    ((summary m).0.matched ≡ sum_digests (λ x. x.matched) m.shards % u64_mod)
    × ((summary m).0.ep1_faster ≡ sum_digests (λ x. x.ep1_faster) m.shards % u64_mod)
    × ((summary m).0.ep2_faster ≡ sum_digests (λ x. x.ep2_faster) m.shards % u64_mod)
summary_is_sum_example = summary_is_sum exact_laws (slot_window 64) [] false account_history

owners_apart_example :
    let m = Accounts.new exact (slot_window 64) [] in
    shard_of (observe_all m account_history) (8 ∷ [])
    ≡ run_shard m.strict_account_key (shard_of m (8 ∷ [])) (of_owner (8 ∷ []) account_history)
owners_apart_example =
    owners_apart (Accounts.new exact (slot_window 64) []) (8 ∷ []) account_history

abbrev events : List Event
events =
    record {
      ts = at 10;
      subscription = main one processed transactions;
      payload = transaction 5 (1 ∷ []) 0;
    }
    ∷ record { ts = at 11; subscription = main one processed slots; payload = slot 5 completed }
    ∷ record {
      ts = at 13;
      subscription = main two processed transactions;
      payload = transaction 5 (1 ∷ []) 0;
    }
    ∷ []

streams_apart_example :
    Routed (Dispatch.new exact []) (dispatch_all (Dispatch.new exact []) events) events
streams_apart_example = streams_apart (Dispatch.new exact []) events
