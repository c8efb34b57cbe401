-- ===== src/Collect/Decode/Lengths.antt =====
-- Which updates `decode` of src/collect/mod.rs accepts, and what its events hold.
use Prim.Native.String.{String}
use grpc_bench.Prelude.{
  ℕ, min, ◌≡◌, Bool, true, false, ◌&&◌, Option, none, some, List, [], length, nat_beq, is_some,
}
use grpc_bench.Prelude.Result.{Result, ok, err, is_ok}
use grpc_bench.Prelude.Words.{u64_max}
use grpc_bench.Timing.{EventTimestamp}
use grpc_bench.Subscribe.{SubscriptionRole}
use grpc_bench.Collect.{Event, EventPayload, slot, account, transaction, block, entry}
use grpc_bench.Collect.Decode.{
  Codec, SlotStatus, from_proto, UpdateOneof, update_slot, update_account, update_transaction,
  update_block, update_entry, update_ping, update_pong, update_block_meta,
  update_transaction_status, UpdateAccountInfo, UpdateTransactionInfo, DecodeError,
}

-- A list of the length, or no list.
abbrev pub absent_or_length : ℕ → Option (List ℕ) → Bool
absent_or_length n none = true
absent_or_length n (some b) = nat_beq (length b) n

abbrev pub decoded_length : Result String (List ℕ) → ℕ → Bool
decoded_length (ok bytes) n = nat_beq (length bytes) n
decoded_length (err reason) n = false

abbrev pub info_ok : Option UpdateAccountInfo → Bool
info_ok none = false
info_ok (some info) =
    nat_beq (length info.pubkey) 32
    && (nat_beq (length info.owner) 32 && absent_or_length 64 info.txn_signature)

abbrev pub transaction_ok : Option UpdateTransactionInfo → Bool
transaction_ok none = false
transaction_ok (some info) = nat_beq (length info.signature) 64

-- The updates that are as they should be.
abbrev pub is_well_formed : {C : Codec} → UpdateOneof C → Bool
is_well_formed {C} (update_slot s status) = is_some (C.slot_status_try_from status)
is_well_formed (update_account s info) = info_ok info
is_well_formed (update_transaction s info) = transaction_ok info
is_well_formed {C} (update_block b) = decoded_length (C.bs58_decode (C.block_blockhash b)) 32
is_well_formed (update_entry e) = true
is_well_formed update_ping = true
is_well_formed update_pong = true
is_well_formed update_block_meta = true
is_well_formed update_transaction_status = true

abbrev pub bytes_of : Result String (List ℕ) → List ℕ
bytes_of (ok bytes) = bytes
bytes_of (err reason) = []

abbrev pub slot_of : ℕ → Option SlotStatus → Option EventPayload
slot_of s none = none
slot_of s (some stage) = some (slot s (from_proto stage))

abbrev pub account_of : ℕ → Option UpdateAccountInfo → Option EventPayload
account_of s none = none
account_of s (some info) = some (
    account (record {
      slot = s;
      pubkey = info.pubkey;
      owner = info.owner;
      write_version = info.write_version;
      txn_signature = info.txn_signature;
      lamports = info.lamports;
    }))

abbrev pub transaction_of : ℕ → Option UpdateTransactionInfo → Option EventPayload
transaction_of s none = none
transaction_of s (some info) = some (transaction s info.signature info.index)

-- What a well-formed update says, field for field; pings, pongs, block metas and transaction statuses
-- are no event.
abbrev pub said : {C : Codec} → UpdateOneof C → Option EventPayload
said {C} (update_slot s status) = slot_of s (C.slot_status_try_from status)
said (update_account s info) = account_of s info
said (update_transaction s info) = transaction_of s info
said {C} (update_block b) = some (
    block (record {
      slot = C.block_slot b;
      blockhash = bytes_of (C.bs58_decode (C.block_blockhash b));
      tx_count = C.block_executed_transaction_count b;
      entries_count = C.block_entries_count b;
      block_size_bytes = min (C.encoded_len b) u64_max;
    }))
said (update_entry e) = some (
    entry (record {
      slot = e.slot;
      index = e.index;
      executed_transaction_count = e.executed_transaction_count;
      starting_transaction_index = e.starting_transaction_index;
    }))
said update_ping = none
said update_pong = none
said update_block_meta = none
said update_transaction_status = none

-- The payload of a well-formed update is what it says, and any other update is an error.
abbrev pub Says : {A : Type 0} → Bool → A → Result DecodeError A → Type 0
Says true a r = r ≡ ok a
Says false a r = is_ok r ≡ false

abbrev pub stamped : EventTimestamp → SubscriptionRole → Option EventPayload → Option Event
stamped ts sub none = none
stamped ts sub (some p) = some (record { ts = ts; subscription = sub; payload = p })

-- The byte arrays of an event have their lengths.
abbrev pub HasLengths : EventPayload → Type 0
HasLengths (slot s stage) = Unit {0}
HasLengths (account a) =
    (length a.pubkey ≡ 32) × (length a.owner ≡ 32) × (absent_or_length 64 a.txn_signature ≡ true)
HasLengths (transaction s signature index) = length signature ≡ 64
HasLengths (block b) = length b.blockhash ≡ 32
HasLengths (entry e) = Unit {0}

-- Whatever a result's event is, it holds.
abbrev pub AllOk : {A : Type 0} → (A → Type 0) → Result DecodeError (Option A) → Type 0
AllOk P (err e) = Unit {0}
AllOk P (ok none) = Unit {0}
AllOk P (ok (some a)) = P a
