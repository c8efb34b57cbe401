-- ===== src/Matching/Dispatch.antt =====
-- src/matching/mod.rs: `StreamMatchers` and the routing of an event to its matcher. The mutexes
-- guard one call each, so a run is a sequence of calls.
pub mod Routing
use Prim.Native.String.{String}
use grpc_bench.Prelude.{ℕ, ◌≡◌, refl, Bool, Option, List, [], ◌∷◌}
use grpc_bench.Prelude.Words.{saturating_add}
use grpc_bench.Prelude.HashMap.{HashMap}
use grpc_bench.Floats.{Floats}
use grpc_bench.Timing.{EventTimestamp}
use grpc_bench.Config.{Commitment}
use grpc_bench.Subscribe.{EndpointRole, one, two, SubscriptionRole, main, entries, endpoint}
use grpc_bench.Collect.{
  Pubkey32, Event, EventPayload, slot, account, transaction, block, entry, AccountPayload,
  BlockPayload,
}
use grpc_bench.Collect.Stats.{ReceiverStatsSnapshot}
use grpc_bench.Matching.Pair.{EvictionPolicy, slot_window}
use grpc_bench.Matching.Slots
use grpc_bench.Matching.Slots.{SlotMatcher, observe_stage}
use grpc_bench.Matching.Accounts
use grpc_bench.Matching.Accounts.{
  AccountMatcher, AccountUpdate, with_strict_account_key as strict_key,
}
use grpc_bench.Matching.Transactions
use grpc_bench.Matching.Transactions.{TransactionMatcher}
use grpc_bench.Matching.Blocks
use grpc_bench.Matching.Blocks.{BlockMatcher}

pub record CaptureTotals : Type 0 where
  pub ep1 : ℕ
  pub ep2 : ℕ

-- `CaptureTotals::add`
unfoldable pub add : CaptureTotals → EndpointRole → ReceiverStatsSnapshot → CaptureTotals
add t one snap = record t { ep1 = saturating_add t.ep1 snap.received }
add t two snap = record t { ep2 = saturating_add t.ep2 snap.received }

pub record StreamMatchers (N : Floats) : Type 0 where
  pub slots : SlotMatcher N
  pub accounts : AccountMatcher N
  pub transactions : TransactionMatcher N
  pub blocks : BlockMatcher N

unfoldable pub new : (N : Floats) → HashMap Pubkey32 String → StreamMatchers N
new N program_short_names =
    let window = slot_window 64 in
    record {
      slots = Slots.new N window;
      accounts = Accounts.new N window program_short_names;
      transactions = Transactions.new N window;
      blocks = Blocks.new N window;
    }

-- The arguments of `accounts.observe` for an account payload.
abbrev pub account_update : EndpointRole → EventTimestamp → AccountPayload → AccountUpdate
account_update role ts a = record {
  endpoint = role;
  slot = a.slot;
  pubkey = a.pubkey;
  write_version = a.write_version;
  txn_signature = a.txn_signature;
  owner = a.owner;
  ts = ts;
}

module _ {N : Floats} where
  unfoldable pub with_strict_account_key : StreamMatchers N → Bool → StreamMatchers N
  with_strict_account_key m strict = record m { accounts = strict_key m.accounts strict }

  -- `if let SubscriptionRole::Main { commitment, .. } = event.subscription`
  abbrev pub dispatch_block :
      StreamMatchers N → SubscriptionRole → EventTimestamp → BlockPayload → StreamMatchers N
  dispatch_block m (main role commitment stream) ts b = record m {
    blocks = Blocks.observe m.blocks role commitment b.slot b.blockhash ts;
  }
  dispatch_block m (entries role) ts b = m

  abbrev pub dispatch_payload :
      StreamMatchers N → SubscriptionRole → EventTimestamp → EventPayload → StreamMatchers N
  dispatch_payload m sub ts (slot s stage) = record m {
    slots = observe_stage m.slots (endpoint sub) s stage ts;
  }
  dispatch_payload m sub ts (account a) = record m {
    accounts = Accounts.observe m.accounts (account_update (endpoint sub) ts a);
  }
  dispatch_payload m sub ts (transaction s signature index) = record m {
    transactions = Transactions.observe m.transactions (endpoint sub) s signature ts;
  }
  dispatch_payload m sub ts (block b) = dispatch_block m sub ts b
  dispatch_payload m sub ts (entry e) = m

  unfoldable pub dispatch : StreamMatchers N → Event → StreamMatchers N
  dispatch m event = dispatch_payload m event.subscription event.ts event.payload
