-- ===== src/Matching/Accounts.antt =====
-- src/matching/accounts.rs: one shard for each program that owns accounts.
mod Digest
unfoldable pub use Digest.*
pub mod Agreement
pub mod Totals
pub mod Keys
use Prim.Native.String.{String}
use grpc_bench.Prelude.{
  ℕ, Bool, true, false, Option, none, some, List, [], ◌∷◌, is_empty, if◌then◌else◌, unwrap_or,
}
use grpc_bench.Prelude.Words.{wrapping_add}
use grpc_bench.Prelude.Eq.{nat_eq, list_eq, option_eq, quadruple_eq, string_eq}
use grpc_bench.Prelude.HashMap.{HashMap, get, insert}
use grpc_bench.Floats.{Floats, ratio}
use grpc_bench.Timing.{EventTimestamp}
use grpc_bench.Subscribe.{EndpointRole}
use grpc_bench.Collect.{Pubkey32, Signature64}
use grpc_bench.Matching.Pair
use grpc_bench.Matching.Pair.{
  PairMatcher, EvictionPolicy, MatchCounts, MatchResult, LatencyDigestSummary, zero_counts,
  tdigest_compression, evict, snapshot_digest,
}

-- slot, pubkey, txn_signature, and the write version in strict mode
abbrev pub AccountKey : Type 0
AccountKey = ℕ × Pubkey32 × Option Signature64 × Option ℕ

pub record PerProgramShard (N : Floats) : Type 0 where
  pub main : PairMatcher N AccountKey
  pub digest : ProgramDigest N

unfoldable pub new_shard : (N : Floats) → EvictionPolicy → PerProgramShard N
new_shard N eviction = record { main = Pair.new N AccountKey eviction; digest = new_digest N }

pub record AccountMatcher (N : Floats) : Type 0 where
  pub shards : HashMap Pubkey32 (PerProgramShard N)
  pub program_short_names : HashMap Pubkey32 String
  pub eviction : EvictionPolicy
  pub strict_account_key : Bool

unfoldable pub new : (N : Floats) → EvictionPolicy → HashMap Pubkey32 String → AccountMatcher N
new N eviction program_short_names = record {
  shards = [];
  program_short_names = program_short_names;
  eviction = eviction;
  strict_account_key = false;
}

-- The arguments of `AccountMatcher::observe`.
pub record AccountUpdate : Type 0 where
  pub endpoint : EndpointRole
  pub slot : ℕ
  pub pubkey : Pubkey32
  pub write_version : ℕ
  pub txn_signature : Option Signature64
  pub owner : Pubkey32
  pub ts : EventTimestamp

abbrev pub key_of : Bool → AccountUpdate → AccountKey
key_of strict u = (u.slot, u.pubkey, u.txn_signature, if strict then some u.write_version else none)

-- `counts.x += c.x` for each field
abbrev pub add_counts : MatchCounts → MatchCounts → MatchCounts
add_counts a b = record {
  matched = wrapping_add a.matched b.matched;
  ep1_faster = wrapping_add a.ep1_faster b.ep1_faster;
  ep2_faster = wrapping_add a.ep2_faster b.ep2_faster;
  ep1_unmatched_evicted = wrapping_add a.ep1_unmatched_evicted b.ep1_unmatched_evicted;
  ep2_unmatched_evicted = wrapping_add a.ep2_unmatched_evicted b.ep2_unmatched_evicted;
}

-- `program_short_names.get(&owner).cloned().unwrap_or_else(..)`
abbrev pub short_name : HashMap Pubkey32 String → Pubkey32 → String
short_name names owner = unwrap_or (get owner names) "unknown"

module _ {N : Floats} where
  unfoldable pub with_strict_account_key : AccountMatcher N → Bool → AccountMatcher N
  with_strict_account_key m strict = record m { strict_account_key = strict }

  -- `shards.entry(owner).or_insert_with(..)`
  abbrev pub shard_of : AccountMatcher N → Pubkey32 → PerProgramShard N
  shard_of m owner = unwrap_or (get owner m.shards) (new_shard N m.eviction)

  -- `if let Some(r) = .. { shard.digest.push(r.delta_ms) }`
  abbrev pub push_result : ProgramDigest N → Option (MatchResult N) → ProgramDigest N
  push_result d none = d
  push_result d (some r) = push_delta d r.delta_ms

  unfoldable pub observe_shard : PerProgramShard N → Bool → AccountUpdate → PerProgramShard N
  observe_shard shard strict u =
      let (r, main) = Pair.observe shard.main u.endpoint (key_of strict u) u.ts u.slot in
      record { main = main; digest = push_result shard.digest r }

  unfoldable pub observe : AccountMatcher N → AccountUpdate → AccountMatcher N
  observe m u = record m {
    shards = insert u.owner (observe_shard (shard_of m u.owner) m.strict_account_key u) m.shards;
  }

  -- The loop of `summary`: the digests, the sums, and the shards as it leaves them.
  unfoldable pub collect_shards :
      HashMap Pubkey32 (PerProgramShard N)
      → MatchCounts
      → List N.TDigest × MatchCounts × HashMap Pubkey32 (PerProgramShard N)
  collect_shards [] counts = ([], counts, [])
  collect_shards ((owner, shard) ∷ rest) counts =
      let (d, main) = snapshot_digest (evict shard.main) in
      let (ds, total, shards) = collect_shards rest (add_counts counts main.counts) in
      (d ∷ ds, total, (owner, record shard { main = main }) ∷ shards)

  unfoldable pub summary : AccountMatcher N → LatencyDigestSummary N × AccountMatcher N
  summary m =
      let (digests, counts, shards) = collect_shards m.shards zero_counts in
      let merged =
        if is_empty digests then N.new_with_size tdigest_compression else N.merge_digests digests in
      let q = λ (x : N.F64). if N.no_samples merged then N.nan else N.estimate_quantile merged x in
      (
        record {
          p50 = q (ratio N 50 100);
          p90 = q (ratio N 90 100);
          p99 = q (ratio N 99 100);
          p99_9 = q (ratio N 999 1000);
          matched = counts.matched;
          ep1_faster = counts.ep1_faster;
          ep2_faster = counts.ep2_faster;
        },
        record m { shards = shards },
      )

  -- The loop of `per_program_summary`; a later shard of the same name replaces an earlier one.
  unfoldable pub program_summaries :
      HashMap Pubkey32 String
      → HashMap Pubkey32 (PerProgramShard N)
      → HashMap String (LatencyDigestSummary N)
      → HashMap String (LatencyDigestSummary N) × HashMap Pubkey32 (PerProgramShard N)
  program_summaries names [] out = (out, [])
  program_summaries names ((owner, shard) ∷ rest) out =
      let (s, digest) = digest_summary shard.digest in
      let (out', shards) = program_summaries names rest (insert (short_name names owner) s out) in
      (out', (owner, record shard { digest = digest }) ∷ shards)

  unfoldable pub per_program_summary :
      AccountMatcher N → HashMap String (LatencyDigestSummary N) × AccountMatcher N
  per_program_summary m =
      let (out, shards) = program_summaries m.program_short_names m.shards [] in
      (out, record m { shards = shards })
