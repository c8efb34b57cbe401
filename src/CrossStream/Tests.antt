-- ===== src/CrossStream/Tests.antt =====
-- The cross-stream theorems at concrete inputs.
use grpc_bench.Prelude.{ℕ, some, List, [], ◌∷◌}
use grpc_bench.Floats.Exact.{exact}
use grpc_bench.Timing.{EventTimestamp}
use grpc_bench.Config.{processed}
use grpc_bench.Subscribe.{two, main, transactions, accounts}
use grpc_bench.Collect.{Event, transaction, account}
use grpc_bench.CrossStream.{TxAccountPairer, new, new_digest}
use grpc_bench.CrossStream.Pending.{pending-Sound, observe_all, Sound}

abbrev at : ℕ → EventTimestamp
at mono_ns = record { mono_ns = mono_ns; wall_ms = 0 }

-- One transaction waits, at slot 90.
abbrev one_waits : TxAccountPairer exact
one_waits = record {
  pending_tx = ((90, 4 ∷ []), at 5) ∷ [];
  pending_account = [];
  digest = new_digest exact;
  high_water_slot = 95;
}

abbrev events : List Event
events =
    record {
      ts = at 10;
      subscription = main two processed transactions;
      payload = transaction 5 (1 ∷ []) 0;
    }
    ∷ record {
      ts = at 12;
      subscription = main two processed accounts;
      payload = account (record {
        slot = 200;
        pubkey = [];
        owner = [];
        write_version = 1;
        txn_signature = some (2 ∷ []);
        lamports = 0;
      });
    }
    ∷ []

pending-Sound_example : Sound (observe_all (new exact two) events).tx_vs_account
pending-Sound_example = pending-Sound exact two events
