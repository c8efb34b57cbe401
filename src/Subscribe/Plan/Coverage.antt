-- ===== src/Subscribe/Plan/Coverage.antt =====
-- What every subscription of a plan satisfies (src/subscribe/mod.rs).
use Prim.Native.String.{String}
use grpc_bench.Prelude.{
  max, ◌≡◌, Bool, true, false, Option, none, some, List, [], ◌∷◌, ◌++◌, All, if◌then◌else◌,
}
use grpc_bench.Prelude.Eq.{string_eq}
use grpc_bench.Config.{Commitment}
use grpc_bench.Subscribe.{
  EndpointRole, one, two, slots, accounts, transactions, blocks, main, entries,
}
use grpc_bench.Subscribe.Requests.{build_slot_request, build_entries_request}
use grpc_bench.Subscribe.Plan.{
  EndpointSpec, PlanConfig, SubscriptionSpec, first_commitment, main_spec, heavy_programs,
  rest_programs, heavy_specs, chunk_specs, other_specs, commitment_specs, endpoint_specs,
  entries_specs, from_run_config, chunks,
}

pub All-append :
    {A : Type 0} (P : A → Type 0) (xs ys : List A) → All P xs → All P ys → All P (xs ++ ys)
All-append P [] ys h k = k
All-append P (x ∷ xs) ys h k = (h.0, All-append P xs ys h.1 k)

All-else :
    {A : Type 0} (P : A → Type 0) (b : Bool) (xs ys : List A)
    → b ≡ false
    → All P ys
    → All P (if b then xs else ys)
All-else P true xs ys h k = absurd (cc h)
All-else P false xs ys h k = k

-- A predicate of every subscription, from one of each kind.
pub record Rule (P : SubscriptionSpec → Type 0) (config : PlanConfig) (program_ids : List String)
    : Type 0 where
  pub slot_rule :
      (role : EndpointRole) (ep : EndpointSpec)
      → P (record {
        role = main role (first_commitment config.commitments) slots;
        endpoint = ep;
        request = build_slot_request;
      })
  pub heavy_rule :
      (role : EndpointRole) (ep : EndpointSpec) (c : Commitment) (p : String)
      → P (main_spec role ep c accounts (p ∷ []))
  pub chunk_rule :
      (role : EndpointRole) (ep : EndpointSpec) (c : Commitment)
      → All
          (λ ps. P (main_spec role ep c accounts ps))
          (chunks (max config.accounts_programs_per_filter 1) (rest_programs program_ids))
  pub transactions_rule :
      (role : EndpointRole) (ep : EndpointSpec) (c : Commitment)
      → P (main_spec role ep c transactions program_ids)
  pub blocks_rule :
      (role : EndpointRole) (ep : EndpointSpec) (c : Commitment)
      → P (main_spec role ep c blocks program_ids)
  pub entries_rule :
      (role : EndpointRole) (ep : EndpointSpec)
      → P (record {
        role = entries role;
        endpoint = ep;
        request = build_entries_request (first_commitment config.commitments);
      })

module _ (P : SubscriptionSpec → Type 0) (config : PlanConfig) (program_ids : List String)
    (r : Rule P config program_ids) where
  All-heavy_specs :
      (role : EndpointRole) (ep : EndpointSpec) (c : Commitment) (ps : List String)
      → All P (heavy_specs role ep c ps)
  unfolding heavy_specs
  All-heavy_specs role ep c [] = tt
  All-heavy_specs role ep c (p ∷ ps) = (r.heavy_rule role ep c p, All-heavy_specs role ep c ps)

  All-chunk_specs :
      (role : EndpointRole) (ep : EndpointSpec) (c : Commitment) (pss : List (List String))
      → All (λ ps. P (main_spec role ep c accounts ps)) pss
      → All P (chunk_specs role ep c pss)
  unfolding chunk_specs
  All-chunk_specs role ep c [] h = tt
  All-chunk_specs role ep c (ps ∷ pss) h = (h.0, All-chunk_specs role ep c pss h.1)

  All-if : (b : Bool) (s : SubscriptionSpec) → P s → All P (if b then s ∷ [] else [])
  All-if true s h = (h, tt)
  All-if false s h = tt

  All-commitment_specs :
      (role : EndpointRole) (ep : EndpointSpec) (cs : List Commitment)
      → All P (commitment_specs config role ep program_ids cs)
  unfolding commitment_specs other_specs
  All-commitment_specs role ep [] = tt
  All-commitment_specs role ep (c ∷ cs) =
      All-append P _ _
        (All-append P _ _
          (All-append P _ _ (All-heavy_specs role ep c (heavy_programs program_ids))
            (All-chunk_specs role ep c _ (r.chunk_rule role ep c)))
          (All-append P _ _ (All-if config.with_transactions _ (r.transactions_rule role ep c))
            (All-if config.with_blocks _ (r.blocks_rule role ep c))))
        (All-commitment_specs role ep cs)

  All-endpoint_specs :
      (role : EndpointRole) (ep : Option EndpointSpec)
      → All P (endpoint_specs config role ep program_ids)
  unfolding endpoint_specs
  All-endpoint_specs role none = tt
  All-endpoint_specs role (some ep) =
      (r.slot_rule role ep, All-commitment_specs role ep config.commitments)

  All-entries_specs :
      (role : EndpointRole) (ep : Option EndpointSpec) → All P (entries_specs config role ep)
  unfolding entries_specs
  All-entries_specs role none = tt
  All-entries_specs role (some ep) = (r.entries_rule role ep, tt)

  pub All-from_run_config : config.solo ≡ false → All P (from_run_config config program_ids)
  unfolding from_run_config
  All-from_run_config pair = All-else P config.solo _ _ pair (
      All-append P _ _
        (All-append P _ _
          (All-append P _ _ (All-endpoint_specs one (some config.endpoint1))
            (All-endpoint_specs two config.endpoint2))
          (All-entries_specs one config.entries_endpoint1))
        (All-entries_specs two config.entries_endpoint2))
