-- ===== src/Report/Totals.antt =====
-- src/run.rs: the totals of the report are the events that the dispatchers took.
use grpc_bench.Prelude.{
  ℕ, suc, ◌%◌, ◌≡◌, ap, Bool, true, false, List, [], ◌∷◌, ltb, ◌&&◌, if◌then◌else◌,
}
use grpc_bench.Prelude.Words.{u64_mod, wrapping_add-suc}
use grpc_bench.Floats.{Floats}
use grpc_bench.Subscribe.{EndpointRole, one, role_beq, endpoint}
use grpc_bench.Collect.{Event, EventPayload, slot, account, transaction, block, entry}
use grpc_bench.Cli.{Config}
use grpc_bench.Matching.Dispatch.{StreamMatchers}
use grpc_bench.Run.{
  IngestCountersPartial, zero_counters, Dispatcher, is_processed, count_payload, dispatch_event,
  dispatch_all,
}
use grpc_bench.Report.Assemble.{Finished, DispatcherReturn, run_metadata, assemble_output}

-- How many events of each kind there are.
pub record Kinds : Type 0 where
  pub accounts : ℕ
  pub transactions : ℕ
  pub blocks : ℕ
  pub entries : ℕ

abbrev pub add_kind : EventPayload → Kinds → Kinds
add_kind (slot s stage) k = k
add_kind (account a) k = record k { accounts = suc k.accounts }
add_kind (transaction s signature index) k = record k { transactions = suc k.transactions }
add_kind (block b) k = record k { blocks = suc k.blocks }
add_kind (entry e) k = record k { entries = suc k.entries }

abbrev pub kinds_from : Kinds → List Event → Kinds
kinds_from k [] = k
kinds_from k (event ∷ events) = kinds_from (add_kind event.payload k) events

abbrev pub kinds : List Event → Kinds
kinds = kinds_from (record { accounts = 0; transactions = 0; blocks = 0; entries = 0 })

-- The counters are the numbers of the events, to 64 bits.
record Counts (c : IngestCountersPartial) (k : Kinds) : Type 0 where
  accounts : c.accounts ≡ k.accounts % u64_mod
  transactions : c.transactions ≡ k.transactions % u64_mod
  blocks : c.blocks ≡ k.blocks % u64_mod
  entries : c.entries ≡ k.entries % u64_mod

if-Counts :
    (b : Bool) (c c' : IngestCountersPartial) (n m : ℕ) (k : Kinds)
    → Counts c k
    → Counts c' k
    → Counts (let r : IngestCountersPartial × ℕ = if b then (c', n) else (c, m) in r).0 k
if-Counts true c c' n m k h h' = h'
if-Counts false c c' n m k h h' = h

count_payload-Counts :
    (role : EndpointRole) (payload : EventPayload) (c : IngestCountersPartial) (total : ℕ)
    (k : Kinds)
    → Counts c k
    → Counts (count_payload role payload (c, total)).0 (add_kind payload k)
unfolding count_payload
count_payload-Counts role (slot s stage) c total k h =
    if-Counts (role_beq role one && is_processed stage && ltb c.last_counted_slot s) c _ _ _ k h
      (record {
        accounts = h.accounts;
        transactions = h.transactions;
        blocks = h.blocks;
        entries = h.entries;
      })
count_payload-Counts role (account a) c total k h = record {
  accounts = wrapping_add-suc _ k.accounts h.accounts;
  transactions = h.transactions;
  blocks = h.blocks;
  entries = h.entries;
}
count_payload-Counts role (transaction s signature index) c total k h = record {
  accounts = h.accounts;
  transactions = wrapping_add-suc _ k.transactions h.transactions;
  blocks = h.blocks;
  entries = h.entries;
}
count_payload-Counts role (block b) c total k h = record {
  accounts = h.accounts;
  transactions = h.transactions;
  blocks = wrapping_add-suc _ k.blocks h.blocks;
  entries = h.entries;
}
count_payload-Counts role (entry e) c total k h = record {
  accounts = h.accounts;
  transactions = h.transactions;
  blocks = h.blocks;
  entries = wrapping_add-suc _ k.entries h.entries;
}

zero-Counts :
    (c : IngestCountersPartial)
    → c ≡ zero_counters
    → Counts c (record { accounts = 0; transactions = 0; blocks = 0; entries = 0 })
zero-Counts c z = record {
  accounts = ap (λ x. x.accounts) z;
  transactions = ap (λ x. x.transactions) z;
  blocks = ap (λ x. x.blocks) z;
  entries = ap (λ x. x.entries) z;
}

module _ {N : Floats} where
  dispatch_all-Counts :
      (d : Dispatcher N) (events : List Event) (k : Kinds)
      → Counts d.counters k
      → Counts (dispatch_all d events).counters (kinds_from k events)
  unfolding dispatch_event
  dispatch_all-Counts d [] k h = h
  dispatch_all-Counts d (event ∷ events) k h =
      dispatch_all-Counts (dispatch_event d event) events (add_kind event.payload k) (
        count_payload-Counts (endpoint event.subscription) event.payload d.counters d.total_slots k
          h)

  -- What a dispatcher returns.
  abbrev pub returned : Dispatcher N → DispatcherReturn N
  returned d = record { stability = d.stability; cross = d.cross; counters = d.counters }

  -- Each endpoint's totals of account, transaction, block and entry updates in the report are, to 64
  -- bits, the numbers of the events of these kinds that its dispatcher took, if the dispatchers began
  -- with their counters at zero and returned.
  pub report_counts_events :
      (config : Config) (f : Finished N) (m : StreamMatchers N) (d1 d2 : Dispatcher N)
      (es1 es2 : List Event) (total_slots : ℕ)
      → d1.counters ≡ zero_counters
      → d2.counters ≡ zero_counters
      → let r =
          (assemble_output N config f m
            (returned (dispatch_all d1 es1))
            (returned (dispatch_all d2 es2))
            total_slots).metadata in
        (r.total_account_updates ≡ ((kinds es1).accounts % u64_mod, (kinds es2).accounts % u64_mod))
        × (r.total_transaction_updates
            ≡ ((kinds es1).transactions % u64_mod, (kinds es2).transactions % u64_mod))
        × (r.total_block_updates ≡ ((kinds es1).blocks % u64_mod, (kinds es2).blocks % u64_mod))
        × (r.total_entry_updates ≡ ((kinds es1).entries % u64_mod, (kinds es2).entries % u64_mod))
  unfolding assemble_output run_metadata
  report_counts_events config f m d1 d2 es1 es2 total_slots z1 z2 =
      let none_yet : Kinds = record { accounts = 0; transactions = 0; blocks = 0; entries = 0 } in
      let k1 = dispatch_all-Counts d1 es1 none_yet (zero-Counts d1.counters z1) in
      let k2 = dispatch_all-Counts d2 es2 none_yet (zero-Counts d2.counters z2) in
      (
        λ i. (k1.accounts i, k2.accounts i),
        λ i. (k1.transactions i, k2.transactions i),
        λ i. (k1.blocks i, k2.blocks i),
        λ i. (k1.entries i, k2.entries i),
      )
