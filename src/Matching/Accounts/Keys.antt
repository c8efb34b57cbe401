-- ===== src/Matching/Accounts/Keys.antt =====
-- What the key of src/matching/accounts.rs tells apart: programs always, write versions in strict
-- mode.
use grpc_bench.Prelude.{
  ◌≡◌, ◌≢◌, refl, ap, ◌∙◌, inl, inr, none, List, [], ◌∷◌, Bool, true, arith, Bool-cases,
  if◌then◌else◌, unwrap_or,
}
use grpc_bench.Prelude.Eq.{◌==◌, nat_eq, list_eq, option_eq, quadruple_eq}
use grpc_bench.Prelude.HashMap.{get, get-insert}
use grpc_bench.Floats.{Floats}
use grpc_bench.Collect.{Pubkey32}
use grpc_bench.Matching.Pair.{pending, opposite}
use grpc_bench.Prelude.HashMap.Apart.{Apart}
use grpc_bench.Matching.Pair.Miss.{other_key_no_match}
use grpc_bench.Matching.Accounts.{
  AccountKey, AccountMatcher, AccountUpdate, PerProgramShard, shard_of, observe_shard, observe,
  key_of, new_shard,
}
use grpc_bench.Matching.Accounts.Agreement.{observe_all}

-- The updates of one program's accounts.
abbrev pub of_owner : Pubkey32 → List AccountUpdate → List AccountUpdate
of_owner owner [] = []
of_owner owner (u ∷ us) =
    let rest = of_owner owner us in if u.owner == owner then u ∷ rest else rest

module _ {N : Floats} where
  -- A shard alone, without the map.
  abbrev pub run_shard : Bool → PerProgramShard N → List AccountUpdate → PerProgramShard N
  run_shard strict s [] = s
  run_shard strict s (u ∷ us) = run_shard strict (observe_shard s strict u) us

  shard_of-observe :
      (m : AccountMatcher N) (owner : Pubkey32) (u : AccountUpdate)
      → shard_of (observe m u) owner ≡ (
          if u.owner == owner
          then observe_shard (shard_of m owner) m.strict_account_key u
          else shard_of m owner)
  unfolding observe
  shard_of-observe m owner u =
      let strict = m.strict_account_key in
      let u_shard = observe_shard (shard_of m u.owner) strict u in
      ap (λ o. unwrap_or o (new_shard N m.eviction)) (get-insert u.owner owner u_shard m.shards)
      ∙ elim (Bool-cases (u.owner == owner)) [
        | inl same ↦
            let e = (list_eq.decides u.owner owner).0 same in
            rw same (ap (λ o. observe_shard (shard_of m o) strict u) e)
        | inr other ↦ rw other refl
      ]

  -- Programs are matched apart, in either key mode: after any updates, the shard of a program, its
  -- matcher and its digest, is what the updates of that program's accounts alone, in their order,
  -- make of the shard that was there, or of a new one.
  pub owners_apart :
      (m : AccountMatcher N) (owner : Pubkey32) (us : List AccountUpdate)
      → shard_of (observe_all m us) owner
        ≡ run_shard m.strict_account_key (shard_of m owner) (of_owner owner us)
  unfolding observe_all observe
  owners_apart m owner [] = refl
  owners_apart m owner (u ∷ us) = elim (Bool-cases (u.owner == owner)) [
    | inl same ↦
        let next = shard_of-observe m owner u in
        rw same (
          owners_apart (observe m u) owner us
          ∙ ap (λ s. run_shard m.strict_account_key s (of_owner owner us)) (rw same at next))
    | inr other ↦
        let next = shard_of-observe m owner u in
        rw other (
          owners_apart (observe m u) owner us
          ∙ ap (λ s. run_shard m.strict_account_key s (of_owner owner us)) (rw other at next))
  ]

-- One account update sent by the two endpoints with different write versions, in strict mode: the
-- second arrival is no match, whichever endpoint sends first, if its own key was not already
-- waiting on the other side.
pub versions_never_match :
    {N : Floats} (s : PerProgramShard N) (u v : AccountUpdate)
    → Apart s.main.pending_ep1 s.main.pending_ep2
    → v.endpoint ≡ opposite u.endpoint
    → u.write_version ≢ v.write_version
    → get (key_of true v) (pending u.endpoint s.main) ≡ none
    → let s1 = observe_shard s true u in
      (observe_shard s1 true v).main.counts.matched ≡ s1.main.counts.matched
unfolding observe_shard
versions_never_match s u v a sides n absent = rw sides (
    other_key_no_match s.main u.endpoint (key_of true u) (key_of true v) u.ts v.ts u.slot v.slot a
      (λ same. n (ground (arith, ap (λ (k : AccountKey). k.3) same))) absent)
