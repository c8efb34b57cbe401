-- ===== src/Matching/Transactions/Slots.antt =====
-- One signature in two slots never pairs (src/matching/transactions.rs).
use grpc_bench.Prelude.{ℕ, ◌≡◌, ◌≢◌, sym, ap, none}
use grpc_bench.Prelude.HashMap.{get}
use grpc_bench.Floats.{Floats}
use grpc_bench.Timing.{EventTimestamp}
use grpc_bench.Prelude.Eq.{nat_eq, list_eq, pair_eq}
use grpc_bench.Subscribe.{EndpointRole}
use grpc_bench.Collect.{Signature64}
use grpc_bench.Matching.Pair.{opposite, pending}
use grpc_bench.Prelude.HashMap.Apart.{Apart}
use grpc_bench.Matching.Pair.Miss.{other_key_no_match}
use grpc_bench.Matching.Transactions.{TxKey, TransactionMatcher, observe}

-- One signature, sent by the two endpoints for different slots: whichever endpoint sends first,
-- the second arrival is no match, if its own key was not already waiting on the other side.
pub slots_never_match :
    {N : Floats} (m : TransactionMatcher N) (endpoint : EndpointRole) (slot slot' : ℕ)
    (signature : Signature64) (ts ts' : EventTimestamp)
    → Apart m.inner.pending_ep1 m.inner.pending_ep2
    → slot ≢ slot'
    → get (slot', signature) (pending endpoint m.inner) ≡ none
    → let m1 = observe m endpoint slot signature ts in
      (observe m1 (opposite endpoint) slot' signature ts').inner.counts.matched
      ≡ m1.inner.counts.matched
unfolding observe
slots_never_match m endpoint slot slot' signature ts ts' a n absent =
    other_key_no_match m.inner endpoint (slot, signature) (slot', signature) ts ts' slot slot' a
      (λ same. n (sym (ap (λ (k : TxKey). k.0) same))) absent
