-- ===== src/Matching/Blocks/Commitments.antt =====
-- Blocks of different commitments never pair (src/matching/blocks.rs).
use grpc_bench.Prelude.{ℕ, ◌≡◌, ◌≢◌, sym, ap, none}
use grpc_bench.Prelude.HashMap.{get}
use grpc_bench.Floats.{Floats}
use grpc_bench.Timing.{EventTimestamp}
use grpc_bench.Config.{Commitment, commitment_eq}
use grpc_bench.Prelude.Eq.{nat_eq, list_eq, triple_eq}
use grpc_bench.Subscribe.{EndpointRole}
use grpc_bench.Collect.{Pubkey32}
use grpc_bench.Matching.Pair.{opposite, pending}
use grpc_bench.Prelude.HashMap.Apart.{Apart}
use grpc_bench.Matching.Pair.Miss.{other_key_no_match}
use grpc_bench.Matching.Blocks.{BlockKey, BlockMatcher, observe}

-- One block, sent by the two endpoints at different commitments: whichever endpoint sends first,
-- the second arrival is no match, if its own key was not already waiting on the other side.
pub commitments_never_match :
    {N : Floats} (m : BlockMatcher N) (endpoint : EndpointRole) (c d : Commitment) (slot : ℕ)
    (blockhash : Pubkey32) (ts ts' : EventTimestamp)
    → Apart m.inner.pending_ep1 m.inner.pending_ep2
    → c ≢ d
    → get (d, slot, blockhash) (pending endpoint m.inner) ≡ none
    → let m1 = observe m endpoint c slot blockhash ts in
      (observe m1 (opposite endpoint) d slot blockhash ts').inner.counts.matched
      ≡ m1.inner.counts.matched
unfolding observe
commitments_never_match m endpoint c d slot blockhash ts ts' a n absent =
    other_key_no_match m.inner endpoint (c, slot, blockhash) (d, slot, blockhash) ts ts' slot slot a
      (λ same. n (sym (ap (λ (k : BlockKey). k.0) same))) absent
