-- ===== src/Collect/Decode.antt =====
-- src/collect/mod.rs: `decode`, from a received update to an event.
pub mod Lengths
use Prim.Native.String.{String}
use grpc_bench.Prelude.{ℕ, Bool, Option, none, some, List, length, nat_beq, not, if◌then◌else◌, min}
use grpc_bench.Prelude.Int.{ℤ}
use grpc_bench.Prelude.Words.{u64_max}
use grpc_bench.Prelude.Result.{Result, ok, err, ◌>>=◌, ok_or}
use grpc_bench.Timing.{EventTimestamp}
use grpc_bench.Subscribe.{SubscriptionRole}
use grpc_bench.Collect.{
  SlotStage, first_shred_received, completed, created_bank, processed, confirmed, finalized, dead,
  Pubkey32, Signature64, Event, EventPayload, slot, account, transaction, block, entry,
}

-- The variants of `SlotStatus` that the source names.
pub data SlotStatus : Type 0 where
  slot_first_shred_received slot_completed slot_created_bank slot_processed : SlotStatus
  slot_confirmed slot_finalized slot_dead : SlotStatus

-- The crates that `decode` calls: `SlotStatus::try_from`, `bs58::decode` (with the text of its
-- error), and the size of a block message, of which the program reads four fields.
pub record Codec : Type 1 where
  pub slot_status_try_from : ℤ → Option SlotStatus
  pub bs58_decode : String → Result String (List ℕ)
  pub UpdateBlock : Type 0
  pub block_slot : UpdateBlock → ℕ
  pub block_blockhash : UpdateBlock → String
  pub block_executed_transaction_count : UpdateBlock → ℕ
  pub block_entries_count : UpdateBlock → ℕ
  pub encoded_len : UpdateBlock → ℕ

-- The fields of the messages that `decode` reads.
pub record UpdateAccountInfo : Type 0 where
  pub pubkey : List ℕ
  pub owner : List ℕ
  pub write_version : ℕ
  pub txn_signature : Option (List ℕ)
  pub lamports : ℕ

pub record UpdateTransactionInfo : Type 0 where
  pub signature : List ℕ
  pub index : ℕ

pub record UpdateEntry : Type 0 where
  pub slot : ℕ
  pub index : ℕ
  pub executed_transaction_count : ℕ
  pub starting_transaction_index : ℕ

pub data UpdateOneof (C : Codec) : Type 0 where
  -- slot, status
  update_slot : ℕ → ℤ → UpdateOneof C
  update_account : ℕ → Option UpdateAccountInfo → UpdateOneof C
  update_transaction : ℕ → Option UpdateTransactionInfo → UpdateOneof C
  update_block : C.UpdateBlock → UpdateOneof C
  update_entry : UpdateEntry → UpdateOneof C
  update_ping update_pong update_block_meta update_transaction_status : UpdateOneof C

pub data DecodeError : Type 0 where
  account_missing_info tx_missing_info : DecodeError
  bad_pubkey_len bad_signature_len bad_blockhash_len : ℕ → DecodeError
  -- hash, reason
  bad_blockhash_encoding : String → String → DecodeError
  unknown_slot_status : ℤ → DecodeError

-- `SlotStage::from_proto`
unfoldable pub from_proto : SlotStatus → SlotStage
from_proto slot_first_shred_received = first_shred_received
from_proto slot_completed = completed
from_proto slot_created_bank = created_bank
from_proto slot_processed = processed
from_proto slot_confirmed = confirmed
from_proto slot_finalized = finalized
from_proto slot_dead = dead

unfoldable pub to_pubkey : List ℕ → Result DecodeError Pubkey32
to_pubkey b = if not (nat_beq (length b) 32) then err (bad_pubkey_len (length b)) else ok b

unfoldable pub to_signature : List ℕ → Result DecodeError Signature64
to_signature b = if not (nat_beq (length b) 64) then err (bad_signature_len (length b)) else ok b

-- `.as_ref().map(|s| to_signature(s)).transpose()`
abbrev pub to_signature_opt : Option (List ℕ) → Result DecodeError (Option Signature64)
to_signature_opt none = ok none
to_signature_opt (some b) = do signature ← to_signature b; ok (some signature)

-- `bs58::decode(..).into_vec().map_err(..)?` and the length test.
abbrev pub to_blockhash : String → Result String (List ℕ) → Result DecodeError Pubkey32
to_blockhash hash (err reason) = err (bad_blockhash_encoding hash reason)
to_blockhash hash (ok bytes) =
    if not (nat_beq (length bytes) 32) then err (bad_blockhash_len (length bytes)) else ok bytes

-- `Ok(Some(Event { ts, subscription, payload }))`, or `Ok(None)`.
abbrev pub to_event : EventTimestamp → SubscriptionRole → Option EventPayload → Option Event
to_event ts subscription none = none
to_event ts subscription (some payload) =
    some (record { ts = ts; subscription = subscription; payload = payload })

module _ {C : Codec} where
  -- The `match payload`; `none` for an update that is skipped.
  unfoldable pub decode_payload : UpdateOneof C → Result DecodeError (Option EventPayload)
  decode_payload (update_slot s status) = do
    stage ← ok_or (C.slot_status_try_from status) (unknown_slot_status status)
    ok (some (slot s (from_proto stage)))
  decode_payload (update_account s account_info) = do
    info ← ok_or account_info account_missing_info
    pubkey ← to_pubkey info.pubkey
    owner ← to_pubkey info.owner
    txn_signature ← to_signature_opt info.txn_signature
    ok (
        some (
          account (record {
            slot = s;
            pubkey = pubkey;
            owner = owner;
            write_version = info.write_version;
            txn_signature = txn_signature;
            lamports = info.lamports;
          })))
  decode_payload (update_transaction s transaction_info) = do
    info ← ok_or transaction_info tx_missing_info
    signature ← to_signature info.signature
    ok (some (transaction s signature info.index))
  decode_payload (update_block b) = do
    blockhash ← to_blockhash (C.block_blockhash b) (C.bs58_decode (C.block_blockhash b))
    ok (
        some (
          block (record {
            slot = C.block_slot b;
            blockhash = blockhash;
            tx_count = C.block_executed_transaction_count b;
            entries_count = C.block_entries_count b;
            block_size_bytes = min (C.encoded_len b) u64_max;
          })))
  decode_payload (update_entry e) = ok (
      some (
        entry (record {
          slot = e.slot;
          index = e.index;
          executed_transaction_count = e.executed_transaction_count;
          starting_transaction_index = e.starting_transaction_index;
        })))
  decode_payload update_ping = ok none
  decode_payload update_pong = ok none
  decode_payload update_block_meta = ok none
  decode_payload update_transaction_status = ok none

  unfoldable pub decode :
      EventTimestamp → Option (UpdateOneof C) → SubscriptionRole → Result DecodeError (Option Event)
  decode ts none subscription = ok none
  decode ts (some payload) subscription = do
    event_payload ← decode_payload payload
    ok (to_event ts subscription event_payload)
