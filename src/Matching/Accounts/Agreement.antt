-- ===== src/Matching/Accounts/Agreement.antt =====
-- The two sets of counters of src/matching/accounts.rs: those of a shard's matcher and those of
-- its program digest.
use grpc_bench.Prelude.{
  ◌≡◌, refl, sym, ◌∙◌, inl, inr, Option, none, some, List, [], ◌∷◌, Bool, arith, Option-cases,
}
use grpc_bench.Prelude.Int.{ℤ}
use grpc_bench.Prelude.Eq.{nat_eq, list_eq, option_eq, quadruple_eq}
use grpc_bench.Prelude.HashMap.{get, AllValues, AllValues-insert, AllValues-get}
use grpc_bench.Floats.{Floats, FloatLaws, ns_to_ms}
use grpc_bench.Collect.{Pubkey32}
use grpc_bench.Matching.Pair
use grpc_bench.Matching.Pair.{
  PairMatcher, EvictionPolicy, MatchCounts, MatchResult, count_match, zero_counts,
}
use grpc_bench.Matching.Pair.Counting.{SameMatches, Counted, observe-Counted}
use grpc_bench.Matching.Accounts.{
  AccountMatcher, AccountUpdate, AccountKey, PerProgramShard, ProgramDigest, new_shard, new_digest,
  push_delta, push_result, count_delta, flush, key_of, shard_of, observe_shard, observe,
}

module _ {N : Floats} where
  -- A shard counts every match in both places, and in the same direction.
  abbrev pub Agrees : PerProgramShard N → Type 0
  Agrees s = SameMatches s.digest.counts s.main.counts

  abbrev pub AllAgree : AccountMatcher N → Type 0
  AllAgree m = AllValues Agrees m.shards

  counts-push_delta :
      (d : ProgramDigest N) (delta_ms : N.F64)
      → (push_delta d delta_ms).counts ≡ count_delta N d.counts delta_ms
  unfolding push_delta flush
  counts-push_delta d delta_ms = ground arith

new_shard-Agrees : (N : Floats) (eviction : EvictionPolicy) → Agrees (new_shard N eviction)
unfolding new_shard new_digest Pair.new
new_shard-Agrees N eviction = record { matched = refl; ep1_faster = refl; ep2_faster = refl }

SameMatches-trans : (a b c : MatchCounts) → SameMatches a b → SameMatches c b → SameMatches a c
SameMatches-trans a b c s t = record {
  matched = s.matched ∙ sym t.matched;
  ep1_faster = s.ep1_faster ∙ sym t.ep1_faster;
  ep2_faster = s.ep2_faster ∙ sym t.ep2_faster;
}

module _ {N : Floats} (F : FloatLaws N) where
  -- The sign of the milliseconds is that of the nanoseconds.
  count_delta-count_match :
      (a b : MatchCounts) (delta : ℤ)
      → SameMatches a b
      → SameMatches (count_delta N a (ns_to_ms N delta)) (count_match b delta)
  unfolding count_delta count_match
  count_delta-count_match a b delta s =
      ground
        (arith, F.ms_positive delta, F.ms_negative delta, s.matched, s.ep1_faster, s.ep2_faster)

  push_result-SameMatches :
      (d : ProgramDigest N) (before : MatchCounts)
      (p : Option (MatchResult N) × PairMatcher N AccountKey)
      → SameMatches d.counts before
      → Counted before p
      → SameMatches (push_result d p.0).counts p.1.counts
  push_result-SameMatches d before (none, m) s c = SameMatches-trans d.counts before m.counts s c
  push_result-SameMatches d before (some r, m) s (delta, e, c) =
      rw (counts-push_delta d r.delta_ms, e)
        (SameMatches-trans _ (count_match before delta) m.counts
          (count_delta-count_match d.counts before delta s) c)

  observe_shard-Agrees :
      (s : PerProgramShard N) (strict : Bool) (u : AccountUpdate)
      → Agrees s
      → Agrees (observe_shard s strict u)
  unfolding observe_shard
  observe_shard-Agrees s strict u h =
      push_result-SameMatches s.digest s.main.counts
        (Pair.observe s.main u.endpoint (key_of strict u) u.ts u.slot) h
        (observe-Counted s.main u.endpoint (key_of strict u) u.ts u.slot)

  shard_of-Agrees :
      (m : AccountMatcher N) (owner : Pubkey32) → AllAgree m → Agrees (shard_of m owner)
  shard_of-Agrees m owner a = elim (Option-cases (get owner m.shards)) [
    | inl fresh ↦ rw (fresh, shard_of) (new_shard-Agrees N m.eviction)
    | inr (s, old) ↦ rw (old, shard_of) (AllValues-get Agrees owner s m.shards old a)
  ]

  observe-AllAgree :
      (m : AccountMatcher N) (u : AccountUpdate) → AllAgree m → AllAgree (observe m u)
  unfolding observe
  observe-AllAgree m u a =
      AllValues-insert Agrees u.owner _ m.shards
        (observe_shard-Agrees (shard_of m u.owner) m.strict_account_key u
          (shard_of-Agrees m u.owner a))
        a

module _ {N : Floats} where
  unfoldable pub observe_all : AccountMatcher N → List AccountUpdate → AccountMatcher N
  observe_all m [] = m
  observe_all m (u ∷ us) = observe_all (observe m u) us

module _ {N : Floats} (F : FloatLaws N) where
  pub observe_all-AllAgree :
      (m : AccountMatcher N) (us : List AccountUpdate) → AllAgree m → AllAgree (observe_all m us)
  unfolding observe_all
  observe_all-AllAgree m [] a = a
  observe_all-AllAgree m (u ∷ us) a =
      observe_all-AllAgree (observe m u) us (observe-AllAgree F m u a)
