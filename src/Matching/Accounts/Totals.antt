-- ===== src/Matching/Accounts/Totals.antt =====
-- The overall account summary against the per-program digests (src/matching/accounts.rs).
use Prim.Native.String.{String}
use grpc_bench.Prelude.{ℕ, ◌+◌, ◌%◌, ◌<◌, ◌≡◌, List, [], ◌∷◌, Bool, arith}
use grpc_bench.Prelude.Words.{u64_mod}
use grpc_bench.Prelude.Eq.{nat_eq, list_eq, option_eq, quadruple_eq}
use grpc_bench.Prelude.HashMap.{HashMap, AllValues}
use grpc_bench.Floats.{Floats, FloatLaws}
use grpc_bench.Collect.{Pubkey32}
use grpc_bench.Matching.Pair
use grpc_bench.Matching.Pair.{
  PairMatcher, EvictionPolicy, MatchCounts, zero_counts, evict, snapshot_digest,
}
use grpc_bench.Matching.Pair.Counting.{SameMatches, evict-SameMatches}
use grpc_bench.Matching.Accounts.{
  AccountUpdate, AccountKey, PerProgramShard, new, with_strict_account_key, collect_shards, summary,
  add_counts,
}
use grpc_bench.Matching.Accounts.Agreement.{Agrees, AllAgree, observe_all, observe_all-AllAgree}

-- A counter summed over the program digests.
abbrev pub sum_digests : {N : Floats} → (MatchCounts → ℕ) → HashMap Pubkey32 (PerProgramShard N) → ℕ
sum_digests f [] = 0
sum_digests f ((owner, shard) ∷ rest) = f shard.digest.counts + sum_digests f rest

module _ {N : Floats} where
  snapshot-SameMatches :
      (m : PairMatcher N AccountKey) → SameMatches (snapshot_digest (evict m)).1.counts m.counts
  unfolding snapshot_digest Pair.flush
  snapshot-SameMatches m =
      let s = evict-SameMatches m in
      record {
        matched = ground (arith, s.matched);
        ep1_faster = ground (arith, s.ep1_faster);
        ep2_faster = ground (arith, s.ep2_faster);
      }

  -- The loop adds each shard's counters to those that it is given.
  pub record Sums (shards : HashMap Pubkey32 (PerProgramShard N)) (c total : MatchCounts)
      : Type 0 where
    pub matched : total.matched ≡ (c.matched + sum_digests (λ x. x.matched) shards) % u64_mod
    pub ep1_faster :
        total.ep1_faster ≡ (c.ep1_faster + sum_digests (λ x. x.ep1_faster) shards) % u64_mod
    pub ep2_faster :
        total.ep2_faster ≡ (c.ep2_faster + sum_digests (λ x. x.ep2_faster) shards) % u64_mod

  collect_shards-Sums :
      (shards : HashMap Pubkey32 (PerProgramShard N)) (c : MatchCounts)
      → c.matched < u64_mod
      → c.ep1_faster < u64_mod
      → c.ep2_faster < u64_mod
      → AllValues Agrees shards
      → Sums shards c (collect_shards shards c).1
  unfolding collect_shards
  collect_shards-Sums [] c h1 h2 h3 a = record {
    matched = omega arith;
    ep1_faster = omega arith;
    ep2_faster = omega arith;
  }
  collect_shards-Sums ((owner, shard) ∷ rest) c h1 h2 h3 a =
      let s = snapshot-SameMatches shard.main in
      let c' = add_counts c (snapshot_digest (evict shard.main)).1.counts in
      let t = collect_shards-Sums rest c' (omega arith) (omega arith) (omega arith) a.1 in
      record {
        matched = omega (arith, t.matched, s.matched, a.0.matched);
        ep1_faster = omega (arith, t.ep1_faster, s.ep1_faster, a.0.ep1_faster);
        ep2_faster = omega (arith, t.ep2_faster, s.ep2_faster, a.0.ep2_faster);
      }

-- The overall account summary is the sum over the shards: after any updates of a fresh matcher, in
-- either key mode, `matched`, `ep1_faster` and `ep2_faster` of `summary` are the sums, as `u64`, of
-- those counters over the digests of all its shards, of which there is one for each owner. So both
-- places count every match, and in the same direction, although one goes by the nanoseconds and the
-- other by the sign of a float.
pub summary_is_sum :
    {N : Floats} (F : FloatLaws N) (eviction : EvictionPolicy) (names : HashMap Pubkey32 String)
    (strict : Bool) (us : List AccountUpdate)
    → let m = observe_all (with_strict_account_key (new N eviction names) strict) us in
      ((summary m).0.matched ≡ sum_digests (λ x. x.matched) m.shards % u64_mod)
      × ((summary m).0.ep1_faster ≡ sum_digests (λ x. x.ep1_faster) m.shards % u64_mod)
      × ((summary m).0.ep2_faster ≡ sum_digests (λ x. x.ep2_faster) m.shards % u64_mod)
unfolding summary
summary_is_sum {N} F eviction names strict us =
    let m0 = with_strict_account_key (new N eviction names) strict in
    let m = observe_all m0 us in
    let fresh : AllAgree m0 = unfold new with_strict_account_key in tt in
    let t =
      collect_shards-Sums m.shards zero_counts (omega arith) (omega arith) (omega arith)
        (observe_all-AllAgree F m0 us fresh) in
    (omega (arith, t.matched), omega (arith, t.ep1_faster), omega (arith, t.ep2_faster))
