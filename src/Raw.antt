-- ===== src/Raw.antt =====
-- src/raw.rs: the log of raw events. The buffered file, the JSON printer and base58 are parameters.
pub mod Log
pub mod Latch
pub mod Tests
use grpc_bench.Prelude.{
  ℕ, ◌+◌, Bool, true, false, Option, none, some, List, [], ◌∷◌, ◌++◌, if◌then◌else◌,
}
use grpc_bench.Prelude.Words.{wrapping_add}
use grpc_bench.Prelude.Result.{Result, ok, err}
use grpc_bench.Text.{Text, codes, text_beq, byte_len}
use grpc_bench.Config.{Commitment, processed, confirmed, finalized}
use grpc_bench.Subscribe.{EndpointRole, one, two, SubscriptionRole, main, entries, endpoint}
use grpc_bench.Collect.{
  SlotStage, EventPayload, slot, account, transaction, block, entry, Event, Signature64,
}

-- A value of a field, and an object as its fields.
pub data Json : Type 0 where
  num : ℕ → Json
  text : Text → Json
  null : Json

abbrev pub Object : Type 0
Object = List (Text × Json)

-- `bs58::encode`, `serde_json::to_string`, and the buffered file: `writeln!` and `flush` give the
-- text of their error, or nothing.
pub record Sink : Type 1 where
  pub File : Type 0
  pub open_file : Text → Result Text File
  pub bs58_encode : List ℕ → Text
  pub to_string : Object → Option Text
  pub writeln : File → Text → Option Text × File
  pub flush_file : File → Option Text × File

-- `EndpointRole::label`
abbrev pub endpoint_label : EndpointRole → Text
endpoint_label one = codes "endpoint1"
endpoint_label two = codes "endpoint2"

-- `SlotStage::label`
abbrev pub stage_label : SlotStage → Text
stage_label SlotStage.first_shred_received = codes "first_shred_received"
stage_label SlotStage.completed = codes "completed"
stage_label SlotStage.created_bank = codes "created_bank"
stage_label SlotStage.processed = codes "processed"
stage_label SlotStage.confirmed = codes "confirmed"
stage_label SlotStage.finalized = codes "finalized"
stage_label SlotStage.dead = codes "dead"

abbrev pub commitment_label : Commitment → Text
commitment_label processed = codes "processed"
commitment_label confirmed = codes "confirmed"
commitment_label finalized = codes "finalized"

abbrev pub subscription_label : SubscriptionRole → Text
subscription_label (main e commitment stream) = codes "main:" ++ commitment_label commitment
subscription_label (entries e) = codes "entries"

-- `a_map.insert(k, v)`
abbrev pub insert_field : Text → Json → Object → Object
insert_field k v [] = (k, v) ∷ []
insert_field k v ((k', v') ∷ fields) =
    let rest = insert_field k v fields in if text_beq k k' then (k, v) ∷ fields else (k', v') ∷ rest

-- `merge`, of two objects.
abbrev pub merge : Object → Object → Object
merge a [] = a
merge a ((k, v) ∷ b) = merge (insert_field k v a) b

module _ (S : Sink) where
  -- `txn_signature.as_ref().map(base58_sig)`
  abbrev pub optional_signature : Option Signature64 → Json
  optional_signature none = null
  optional_signature (some s) = text (S.bs58_encode s)

  abbrev pub common_fields : Event → Object
  common_fields event =
      (codes "mono_ns", num event.ts.mono_ns)
      ∷ (codes "wall_ms", num event.ts.wall_ms)
      ∷ (codes "endpoint", text (endpoint_label (endpoint event.subscription)))
      ∷ (codes "subscription", text (subscription_label event.subscription))
      ∷ []

  abbrev pub payload_fields : EventPayload → Object
  payload_fields (slot s stage) =
      (codes "kind", text (codes "slot"))
      ∷ (codes "slot", num s)
      ∷ (codes "stage", text (stage_label stage))
      ∷ []
  payload_fields (account a) =
      (codes "kind", text (codes "account"))
      ∷ (codes "slot", num a.slot)
      ∷ (codes "pubkey", text (S.bs58_encode a.pubkey))
      ∷ (codes "owner", text (S.bs58_encode a.owner))
      ∷ (codes "write_version", num a.write_version)
      ∷ (codes "txn_signature", optional_signature a.txn_signature)
      ∷ (codes "lamports", num a.lamports)
      ∷ []
  payload_fields (transaction s signature index) =
      (codes "kind", text (codes "transaction"))
      ∷ (codes "slot", num s)
      ∷ (codes "signature", text (S.bs58_encode signature))
      ∷ (codes "index", num index)
      ∷ []
  payload_fields (block b) =
      (codes "kind", text (codes "block"))
      ∷ (codes "slot", num b.slot)
      ∷ (codes "blockhash", text (S.bs58_encode b.blockhash))
      ∷ (codes "tx_count", num b.tx_count)
      ∷ (codes "entries_count", num b.entries_count)
      ∷ (codes "block_size_bytes", num b.block_size_bytes)
      ∷ []
  payload_fields (entry e) =
      (codes "kind", text (codes "entry"))
      ∷ (codes "slot", num e.slot)
      ∷ (codes "index", num e.index)
      ∷ (codes "executed_transaction_count", num e.executed_transaction_count)
      ∷ (codes "starting_transaction_index", num e.starting_transaction_index)
      ∷ []

  unfoldable pub event_to_json : Event → Object
  event_to_json event = merge (common_fields event) (payload_fields event.payload)

  -- The line of an event.
  unfoldable pub serialized : Event → Option Text
  serialized event = S.to_string (event_to_json event)

  pub record RawWriter : Type 0 where
    pub path : Text
    pub inner : S.File
    pub bytes_written : ℕ
    pub poisoned : Bool
    pub error_text : Option Text

  abbrev created : Text → Result Text S.File → Result Text RawWriter
  created path (err e) = err e
  created path (ok file) =
      ok (record {
        path = path;
        inner = file;
        bytes_written = 0;
        poisoned = false;
        error_text = none;
      })

  -- `RawWriter::create`
  unfoldable pub create : Text → Result Text RawWriter
  create path = created path (S.open_file path)

  abbrev pub poison : RawWriter → S.File → Text → RawWriter
  poison w file message = record w { inner = file; poisoned = true; error_text = some message }

  -- The arms of `if let Err(e) = writeln!(..)`.
  abbrev pub after_write : RawWriter → ℕ → Option Text × S.File → RawWriter
  after_write w len (none, file) = record w {
    inner = file;
    bytes_written = wrapping_add w.bytes_written len;
  }
  after_write w len (some e, file) =
      poison w file (codes "write to " ++ w.path ++ codes " failed: " ++ e)

  -- `let Ok(serialized) = .. else`
  abbrev pub write_line : RawWriter → Option Text → RawWriter
  write_line w none = w
  write_line w (some line) = after_write w (byte_len line + 1) (S.writeln w.inner line)

  unfoldable pub write : RawWriter → Event → RawWriter
  write w event = if w.poisoned then w else write_line w (serialized event)

  abbrev pub after_flush : RawWriter → Option Text × S.File → RawWriter
  after_flush w (none, file) = record w { inner = file }
  after_flush w (some e, file) =
      poison w file (codes "flush of " ++ w.path ++ codes " failed: " ++ e)

  unfoldable pub flush : RawWriter → RawWriter
  flush w = if w.poisoned then w else after_flush w (S.flush_file w.inner)

  unfoldable pub take_warning : RawWriter → Option Text × RawWriter
  take_warning w = (w.error_text, record w { error_text = none })
