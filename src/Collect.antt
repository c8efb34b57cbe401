-- ===== src/Collect.antt =====
-- src/collect/mod.rs: the events that receivers hand to the matchers.
pub mod Stats
pub mod Affinity
pub mod Decode
pub mod Ring
pub mod Tests
use grpc_bench.Prelude.{ℕ, Option, List}
use grpc_bench.Timing.{EventTimestamp}
use grpc_bench.Subscribe.{SubscriptionRole}

pub data SlotStage : Type 0 where
  first_shred_received completed created_bank processed confirmed finalized dead : SlotStage

-- `[u8; 32]` and `[u8; 64]` as their bytes. `Decode` shows the lengths.
abbrev pub Pubkey32 : Type 0
Pubkey32 = List ℕ

abbrev pub Signature64 : Type 0
Signature64 = List ℕ

pub record AccountPayload : Type 0 where
  pub slot : ℕ
  pub pubkey : Pubkey32
  pub owner : Pubkey32
  pub write_version : ℕ
  pub txn_signature : Option Signature64
  pub lamports : ℕ

pub record BlockPayload : Type 0 where
  pub slot : ℕ
  pub blockhash : Pubkey32
  pub tx_count : ℕ
  pub entries_count : ℕ
  pub block_size_bytes : ℕ

pub record EntryPayload : Type 0 where
  pub slot : ℕ
  pub index : ℕ
  pub executed_transaction_count : ℕ
  pub starting_transaction_index : ℕ

-- The variants; those with many fields take a record of them.
pub data EventPayload : Type 0 where
  slot : ℕ → SlotStage → EventPayload
  account : AccountPayload → EventPayload
  -- slot, signature, index
  transaction : ℕ → Signature64 → ℕ → EventPayload
  block : BlockPayload → EventPayload
  entry : EntryPayload → EventPayload

pub record Event : Type 0 where
  pub ts : EventTimestamp
  pub subscription : SubscriptionRole
  pub payload : EventPayload
