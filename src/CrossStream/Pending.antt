-- ===== src/CrossStream/Pending.antt =====
-- What waits in the pairer of src/crossstream.rs.
use grpc_bench.Prelude.{
  ◌+◌, ◌≤◌, ◌≡◌, inl, inr, some, List, [], ◌∷◌, arith, Option-cases, Bool-cases,
}
use grpc_bench.Prelude.Eq.{nat_eq, list_eq, pair_eq}
use grpc_bench.Prelude.HashMap.{get}
use grpc_bench.Prelude.HashMap.Apart.{Apart, insert-Apart, remove-Apart, swap-Apart, retain-Apart}
use grpc_bench.Prelude.HashMap.Retain.{get-retain_kept}
use grpc_bench.Floats.{Floats}
use grpc_bench.Timing.{EventTimestamp}
use grpc_bench.Subscribe.{EndpointRole, endpoint, role_beq}
use grpc_bench.Collect.{Event, EventPayload, slot, account, transaction, block, entry}
use grpc_bench.CrossStream.{
  Key, TxAccountPairer, CrossStreamTracker, new, new_pairer, bump_water, cutoff, evict, is_recent,
  record_delta, pair_tx, pair_account, observe_tx, observe_account, observe_payload, observe,
}

module _ {N : Floats} where
  -- Also, nothing waits that is more than 64 slots behind the latest slot.
  pub record Sound (p : TxAccountPairer N) : Type 0 where
    pub apart : Apart p.pending_tx p.pending_account
    pub tx_recent :
        (k : Key) (ts : EventTimestamp)
        → get k p.pending_tx ≡ some ts
        → p.high_water_slot ≤ k.0 + 64
    pub account_recent :
        (k : Key) (ts : EventTimestamp)
        → get k p.pending_account ≡ some ts
        → p.high_water_slot ≤ k.0 + 64

  evict-Sound : (p : TxAccountPairer N) → Apart p.pending_tx p.pending_account → Sound (evict p)
  unfolding evict
  evict-Sound p a = record {
    apart = retain-Apart (is_recent (cutoff p)) p.pending_tx p.pending_account a;
    tx_recent = λ k ts h.
        let kept = (get-retain_kept (is_recent (cutoff p)) k ts p.pending_tx a.unique1 h).1 in
        ground (arith, kept);
    account_recent = λ k ts h.
        let kept = (get-retain_kept (is_recent (cutoff p)) k ts p.pending_account a.unique2 h).1 in
        ground (arith, kept);
  }

  pair_tx-Apart :
      (p : TxAccountPairer N) (k : Key) (ts : EventTimestamp)
      → Apart p.pending_tx p.pending_account
      → Apart (pair_tx p k ts).pending_tx (pair_tx p k ts).pending_account
  unfolding pair_tx record_delta
  pair_tx-Apart p k ts a = elim (Option-cases (get k p.pending_account)) [
    | inl absent ↦ rw (pair_tx, absent) (insert-Apart k ts p.pending_tx p.pending_account a absent)
    | inr (acc_ts, there) ↦
        rw (pair_tx, there)
          (swap-Apart _ p.pending_tx (
            remove-Apart k p.pending_account p.pending_tx
              (swap-Apart p.pending_tx p.pending_account a)))
  ]

  pair_account-Apart :
      (p : TxAccountPairer N) (k : Key) (ts : EventTimestamp)
      → Apart p.pending_tx p.pending_account
      → Apart (pair_account p k ts).pending_tx (pair_account p k ts).pending_account
  unfolding pair_account record_delta
  pair_account-Apart p k ts a =
      let b = swap-Apart p.pending_tx p.pending_account a in
      elim (Option-cases (get k p.pending_tx)) [
        | inl absent ↦
            rw (pair_account, absent)
              (swap-Apart _ p.pending_tx
                (insert-Apart k ts p.pending_account p.pending_tx b absent))
        | inr (tx_ts, there) ↦
            rw (pair_account, there) (remove-Apart k p.pending_tx p.pending_account a)
      ]

  observe_payload-Sound :
      (p : TxAccountPairer N) (ts : EventTimestamp) (payload : EventPayload)
      → Sound p
      → Sound (observe_payload p ts payload)
  unfolding observe_tx observe_account bump_water
  observe_payload-Sound p ts (transaction s signature index) h =
      evict-Sound _ (pair_tx-Apart (bump_water p s) (s, signature) ts h.apart)
  observe_payload-Sound p ts (account a) h = elim (Option-cases a.txn_signature) [
    | inl unsigned ↦ rw unsigned h
    | inr (signature, signed) ↦
        rw signed
          (evict-Sound _ (pair_account-Apart (bump_water p a.slot) (a.slot, signature) ts h.apart))
  ]
  observe_payload-Sound p ts (slot s stage) h = h
  observe_payload-Sound p ts (block b) h = h
  observe_payload-Sound p ts (entry e) h = h

  observe-Sound :
      (t : CrossStreamTracker N) (e : Event)
      → Sound t.tx_vs_account
      → Sound (observe t e).tx_vs_account
  unfolding observe
  observe-Sound t e h = elim (Bool-cases (role_beq (endpoint e.subscription) t.role)) [
    | inl own ↦ rw own (observe_payload-Sound t.tx_vs_account e.ts e.payload h)
    | inr other ↦ rw other h
  ]

  unfoldable pub observe_all : CrossStreamTracker N → List Event → CrossStreamTracker N
  observe_all t [] = t
  observe_all t (e ∷ es) = observe_all (observe t e) es

  observe_all-Sound :
      (t : CrossStreamTracker N) (es : List Event)
      → Sound t.tx_vs_account
      → Sound (observe_all t es).tx_vs_account
  unfolding observe_all
  observe_all-Sound t [] h = h
  observe_all-Sound t (e ∷ es) h = observe_all-Sound (observe t e) es (observe-Sound t e h)

-- After any events, of either endpoint, a fresh tracker is sound: no slot and signature waits as a
-- transaction and as an account update at once, none waits twice, and nothing waits that is more
-- than 64 slots behind the latest slot seen.
pub pending-Sound :
    (N : Floats) (role : EndpointRole) (es : List Event)
    → Sound (observe_all (new N role) es).tx_vs_account
pending-Sound N role es =
    let fresh : Sound (new N role).tx_vs_account =
      unfold new new_pairer get in
      record {
        apart = record { unique1 = tt; unique2 = tt; apart = λ k. omega arith };
        tx_recent = λ k ts h. absurd (cc h);
        account_recent = λ k ts h. absurd (cc h);
      } in
    observe_all-Sound (new N role) es fresh
