-- ===== src/CrossStream.antt =====
-- src/crossstream.rs: one endpoint's transactions against the account updates they produce.
mod Digest
unfoldable pub use Digest.*
pub mod Pending
pub mod Latency
pub mod Tests
use Prim.Native.String.{String}
use grpc_bench.Prelude.{ℕ, Bool, Option, none, some, List, [], ◌∷◌, leb, ltb, not, if◌then◌else◌}
use grpc_bench.Prelude.Words.{saturating_sub, i64_diff}
use grpc_bench.Prelude.Eq.{nat_eq, list_eq, pair_eq}
use grpc_bench.Prelude.HashMap.{HashMap, get, insert, remove, retain}
use grpc_bench.Floats.{Floats, ns_to_ms}
use grpc_bench.Timing.{EventTimestamp}
use grpc_bench.Subscribe.{EndpointRole, endpoint, role_beq}
use grpc_bench.Collect.{
  Signature64, Event, EventPayload, slot, account, transaction, block, entry, AccountPayload,
}

pub record CrossStreamSummary (N : Floats) : Type 0 where
  pub tx_vs_account : Option (Quartiles N)
  pub entries_vs_tx : Option (Quartiles N)
  pub entries_vs_account : Option (Quartiles N)
  pub notes : List String

abbrev pub empty_summary : (N : Floats) → CrossStreamSummary N
empty_summary N = record {
  tx_vs_account = none;
  entries_vs_tx = none;
  entries_vs_account = none;
  notes =
      "entries_vs_tx / entries_vs_account are null in v1: standard Yellowstone SubscribeUpdateEntry does not include transaction signatures; index-based correlation is a follow-up. See PROTO.md."
      ∷ [];
}

abbrev pub Key : Type 0
Key = ℕ × Signature64

pub record TxAccountPairer (N : Floats) : Type 0 where
  pub pending_tx : HashMap Key EventTimestamp
  pub pending_account : HashMap Key EventTimestamp
  pub digest : StreamingDigest N
  pub high_water_slot : ℕ

unfoldable pub new_pairer : (N : Floats) → TxAccountPairer N
new_pairer N = record {
  pending_tx = [];
  pending_account = [];
  digest = new_digest N;
  high_water_slot = 0;
}

-- Whether `evict` keeps an entry.
abbrev pub is_recent : ℕ → Key → EventTimestamp → Bool
is_recent cutoff k ts = leb cutoff k.0

module _ {N : Floats} where
  unfoldable pub bump_water : TxAccountPairer N → ℕ → TxAccountPairer N
  bump_water p s = record p {
    high_water_slot = if ltb p.high_water_slot s then s else p.high_water_slot;
  }

  abbrev pub cutoff : TxAccountPairer N → ℕ
  cutoff p = saturating_sub p.high_water_slot 64

  unfoldable pub evict : TxAccountPairer N → TxAccountPairer N
  evict p = record p {
    pending_tx = retain (is_recent (cutoff p)) p.pending_tx;
    pending_account = retain (is_recent (cutoff p)) p.pending_account;
  }

  unfoldable pub record_delta :
      TxAccountPairer N → EventTimestamp → EventTimestamp → TxAccountPairer N
  record_delta p acc_ts tx_ts = record p {
    digest = push_value p.digest (ns_to_ms N (i64_diff acc_ts.mono_ns tx_ts.mono_ns));
  }

  -- `if let Some(acc_ts) = self.pending_account.remove(&key)`
  unfoldable pub pair_tx : TxAccountPairer N → Key → EventTimestamp → TxAccountPairer N
  pair_tx p key ts = elim (get key p.pending_account) [
    | none ↦ record p { pending_tx = insert key ts p.pending_tx }
    | some acc_ts ↦
        record_delta (record p { pending_account = remove key p.pending_account }) acc_ts ts
  ]

  -- `if let Some(tx_ts) = self.pending_tx.remove(&key)`
  unfoldable pub pair_account : TxAccountPairer N → Key → EventTimestamp → TxAccountPairer N
  pair_account p key ts = elim (get key p.pending_tx) [
    | none ↦ record p { pending_account = insert key ts p.pending_account }
    | some tx_ts ↦ record_delta (record p { pending_tx = remove key p.pending_tx }) ts tx_ts
  ]

  unfoldable pub observe_tx :
      TxAccountPairer N → ℕ → Signature64 → EventTimestamp → TxAccountPairer N
  observe_tx p s signature ts = evict (pair_tx (bump_water p s) (s, signature) ts)

  unfoldable pub observe_account :
      TxAccountPairer N → ℕ → Signature64 → EventTimestamp → TxAccountPairer N
  observe_account p s signature ts = evict (pair_account (bump_water p s) (s, signature) ts)

pub record CrossStreamTracker (N : Floats) : Type 0 where
  pub role : EndpointRole
  pub tx_vs_account : TxAccountPairer N

unfoldable pub new : (N : Floats) → EndpointRole → CrossStreamTracker N
new N role = record { role = role; tx_vs_account = new_pairer N }

module _ {N : Floats} where
  abbrev pub observe_signed :
      TxAccountPairer N → ℕ → Option Signature64 → EventTimestamp → TxAccountPairer N
  observe_signed p s none ts = p
  observe_signed p s (some signature) ts = observe_account p s signature ts

  -- The `match` of `observe`.
  abbrev pub observe_payload : TxAccountPairer N → EventTimestamp → EventPayload → TxAccountPairer N
  observe_payload p ts (transaction s signature index) = observe_tx p s signature ts
  observe_payload p ts (account a) = observe_signed p a.slot a.txn_signature ts
  observe_payload p ts (slot s stage) = p
  observe_payload p ts (block b) = p
  observe_payload p ts (entry e) = p

  unfoldable pub observe : CrossStreamTracker N → Event → CrossStreamTracker N
  observe t event =
      if not (role_beq (endpoint event.subscription) t.role)
      then t
      else record t { tx_vs_account = observe_payload t.tx_vs_account event.ts event.payload }

  unfoldable pub summary : CrossStreamTracker N → CrossStreamSummary N × CrossStreamTracker N
  summary t =
      let (q, digest) = quartiles t.tx_vs_account.digest in
      (
        record (empty_summary N) { tx_vs_account = q },
        record t { tx_vs_account = record t.tx_vs_account { digest = digest } },
      )
