-- ===== src/Matching/Dispatch/Routing.antt =====
-- Where the events of a run go (src/matching/mod.rs, `dispatch`).
use grpc_bench.Prelude.{◌+◌, ◌*◌, ◌<◌, ◌≡◌, refl, List, [], ◌∷◌, ◌++◌, length}
use Prim.Native.String.{String}
use grpc_bench.Prelude.Words.{u64_mod}
use grpc_bench.Prelude.Eq.{nat_eq, list_eq, pair_eq, triple_eq}
use grpc_bench.Prelude.HashMap.{HashMap}
use grpc_bench.Config.{commitment_eq}
use grpc_bench.Floats.{Floats}
use grpc_bench.Timing.{EventTimestamp}
use grpc_bench.Subscribe.{SubscriptionRole, main, entries, endpoint}
use grpc_bench.Collect.{
  Event, EventPayload, slot, account, transaction, block, entry, BlockPayload, Pubkey32,
}
use grpc_bench.Matching.Pair
use grpc_bench.Matching.Pair.{slot_window}
use grpc_bench.Matching.Pair.History.{Observation, run, step, overwritten, conservation}
use grpc_bench.Matching.Slots.Stages
use grpc_bench.Matching.Slots.Stages.{SlotUpdate}
use grpc_bench.Matching.Accounts.Agreement
use grpc_bench.Matching.Accounts.{AccountUpdate}
use grpc_bench.Matching.Transactions
use grpc_bench.Matching.Transactions.{TxKey}
use grpc_bench.Matching.Blocks
use grpc_bench.Matching.Blocks.{BlockKey}
use grpc_bench.Matching.Dispatch.{StreamMatchers, dispatch, account_update, new}

-- What an event is to each matcher: one update, or nothing.
abbrev pub slot_updates : Event → List SlotUpdate
slot_updates e = elim e.payload [
  | slot s stage ↦
      record { endpoint = endpoint e.subscription; slot = s; stage = stage; ts = e.ts } ∷ []
  | account a ↦ []
  | transaction s signature index ↦ []
  | block b ↦ []
  | entry x ↦ []
]

abbrev pub account_updates : Event → List AccountUpdate
account_updates e = elim e.payload [
  | slot s stage ↦ []
  | account a ↦ account_update (endpoint e.subscription) e.ts a ∷ []
  | transaction s signature index ↦ []
  | block b ↦ []
  | entry x ↦ []
]

abbrev pub transaction_observations : Event → List (Observation TxKey)
transaction_observations e = elim e.payload [
  | slot s stage ↦ []
  | account a ↦ []
  | transaction s signature index ↦
      record { endpoint = endpoint e.subscription; key = (s, signature); ts = e.ts; slot = s } ∷ []
  | block b ↦ []
  | entry x ↦ []
]

-- A block of an entries-only subscription has no commitment, and is dropped.
abbrev pub block_of : EventTimestamp → BlockPayload → SubscriptionRole → List (Observation BlockKey)
block_of ts b (main role commitment stream) =
    record { endpoint = role; key = (commitment, b.slot, b.blockhash); ts = ts; slot = b.slot } ∷ []
block_of ts b (entries role) = []

abbrev pub block_observations : Event → List (Observation BlockKey)
block_observations e = elim e.payload [
  | slot s stage ↦ []
  | account a ↦ []
  | transaction s signature index ↦ []
  | block b ↦ block_of e.ts b e.subscription
  | entry x ↦ []
]

abbrev pub flat_map : {A B : Type 0} → (A → List B) → List A → List B
flat_map f [] = []
flat_map f (x ∷ xs) = f x ++ flat_map f xs

module _ {N : Floats} where
  unfoldable pub dispatch_all : StreamMatchers N → List Event → StreamMatchers N
  dispatch_all m [] = m
  dispatch_all m (e ∷ es) = dispatch_all (dispatch m e) es

  -- Each of the four matchers, with the part of the events that is its own.
  pub record Routed (m m' : StreamMatchers N) (es : List Event) : Type 0 where
    pub slots : m'.slots ≡ Stages.observe_all m.slots (flat_map slot_updates es)
    pub accounts : m'.accounts ≡ Agreement.observe_all m.accounts (flat_map account_updates es)
    pub transactions :
        m'.transactions.inner ≡ run m.transactions.inner (flat_map transaction_observations es)
    pub blocks : m'.blocks.inner ≡ run m.blocks.inner (flat_map block_observations es)

  first-Routed :
      (m m' : StreamMatchers N) (es : List Event) (sub : SubscriptionRole) (ts : EventTimestamp)
      (p : EventPayload)
      → let e : Event = record { ts = ts; subscription = sub; payload = p } in
        Routed (dispatch m e) m' es → Routed m m' (e ∷ es)
  unfolding dispatch Stages.observe_all Agreement.observe_all run step Transactions.observe
      Blocks.observe
  first-Routed m m' es sub ts (slot s stage) r = record {
    slots = r.slots;
    accounts = r.accounts;
    transactions = r.transactions;
    blocks = r.blocks;
  }
  first-Routed m m' es sub ts (account a) r = record {
    slots = r.slots;
    accounts = r.accounts;
    transactions = r.transactions;
    blocks = r.blocks;
  }
  first-Routed m m' es sub ts (transaction s signature index) r = record {
    slots = r.slots;
    accounts = r.accounts;
    transactions = r.transactions;
    blocks = r.blocks;
  }
  first-Routed m m' es (main role commitment stream) ts (block b) r = record {
    slots = r.slots;
    accounts = r.accounts;
    transactions = r.transactions;
    blocks = r.blocks;
  }
  first-Routed m m' es (entries role) ts (block b) r = record {
    slots = r.slots;
    accounts = r.accounts;
    transactions = r.transactions;
    blocks = r.blocks;
  }
  first-Routed m m' es sub ts (entry e) r = record {
    slots = r.slots;
    accounts = r.accounts;
    transactions = r.transactions;
    blocks = r.blocks;
  }

  -- The four streams do not touch each other: after any events, each matcher is what its own kind
  -- of events alone, in their order, make of it. Entries go nowhere, nor does a block that came on
  -- an entries-only subscription.
  pub streams_apart : (m : StreamMatchers N) (es : List Event) → Routed m (dispatch_all m es) es
  unfolding dispatch_all run Stages.observe_all Agreement.observe_all
  streams_apart m [] = record { slots = refl; accounts = refl; transactions = refl; blocks = refl }
  streams_apart m (e ∷ es) =
      first-Routed m (dispatch_all (dispatch m e) es) es e.subscription e.ts e.payload
        (streams_apart (dispatch m e) es)

-- In a run of fewer than 2 ^ 64 transaction events, every transaction event of the run is accounted
-- for exactly once: it is one of the two of a match, or it still waits, or it was counted as
-- evicted, or a later event of its own endpoint under the same slot and signature replaced it.
pub transactions_conserved :
    (N : Floats) (names : HashMap Pubkey32 String) (es : List Event)
    → let os = flat_map transaction_observations es in
      length os < u64_mod
      → let m = (dispatch_all (new N names) es).transactions.inner in
        2 * m.counts.matched
          + length m.pending_ep1
          + length m.pending_ep2
          + m.counts.ep1_unmatched_evicted
          + m.counts.ep2_unmatched_evicted
          + overwritten (Pair.new N TxKey (slot_window 64)) os
        ≡ length os
unfolding new Transactions.new
transactions_conserved N names es small =
    let os = flat_map transaction_observations es in
    rw (streams_apart (new N names) es).transactions (conservation N (slot_window 64) os small).0
