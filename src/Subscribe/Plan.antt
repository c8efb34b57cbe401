-- ===== src/Subscribe/Plan.antt =====
-- src/subscribe/mod.rs: `SubscriptionPlan::from_run_config`, the subscriptions of a run.
pub mod Chunks
pub mod Coverage
pub mod Heavy
pub mod Labels
use Prim.Native.String.{String}
use grpc_bench.Prelude.{
  ℕ, zero, suc, max, Bool, true, false, not, ◌||◌, Option, none, some, List, [], ◌∷◌, ◌++◌, length,
  is_empty, take, drop, push, if◌then◌else◌, unwrap_or,
}
use grpc_bench.Config.{Commitment, processed}
use grpc_bench.Subscribe.{
  EndpointRole, one, two, MainStream, slots, accounts, transactions, blocks, SubscriptionRole, main,
  entries,
}
use grpc_bench.Subscribe.Requests.{
  SubscribeRequest, is_known_heavy_program, build_slot_request, build_main_request_for,
  build_entries_request,
}

pub record EndpointSpec : Type 0 where
  pub url : String
  pub x_token : String
  pub tls_forced : Bool

-- The fields of `Config` that the plan reads.
pub record PlanConfig : Type 0 where
  pub endpoint1 : EndpointSpec
  pub endpoint2 : Option EndpointSpec
  pub entries_endpoint1 : Option EndpointSpec
  pub entries_endpoint2 : Option EndpointSpec
  pub commitments : List Commitment
  pub with_blocks : Bool
  pub with_transactions : Bool
  pub accounts_programs_per_filter : ℕ
  pub solo : Bool
  pub solo_streams : List MainStream

pub record SubscriptionSpec : Type 0 where
  pub role : SubscriptionRole
  pub endpoint : EndpointSpec
  pub request : SubscribeRequest

-- `first().copied().unwrap_or(Commitment::Processed)`
abbrev pub first_commitment : List Commitment → Commitment
first_commitment [] = processed
first_commitment (c ∷ cs) = c

abbrev pub stream_beq : MainStream → MainStream → Bool
stream_beq slots slots = true
stream_beq accounts accounts = true
stream_beq transactions transactions = true
stream_beq blocks blocks = true
stream_beq _ _ = false

abbrev pub has_stream : List MainStream → MainStream → Bool
has_stream [] s = false
has_stream (x ∷ xs) s = stream_beq x s || has_stream xs s

-- The streams of a solo run, each once.
unfoldable pub unseen : List MainStream → List MainStream → List MainStream
unseen seen [] = []
unseen seen (s ∷ ss) =
    let rest = unseen (push seen s) ss in
    let rest' = unseen seen ss in if has_stream seen s then rest' else s ∷ rest

-- One step of `slice::chunks`, on fuel: a chunk takes at least one element.
unfoldable pub chunks_fuel : {A : Type 0} → ℕ → ℕ → List A → List (List A)
chunks_fuel zero chunk_size xs = []
chunks_fuel (suc fuel) chunk_size xs =
    let rest = chunks_fuel fuel chunk_size (drop chunk_size xs) in
    if is_empty xs then [] else take chunk_size xs ∷ rest

unfoldable pub chunks : {A : Type 0} → ℕ → List A → List (List A)
chunks chunk_size xs = chunks_fuel (length xs) chunk_size xs

-- The two halves of `partition(|p| is_known_heavy_program(p))`.
unfoldable pub heavy_programs : List String → List String
heavy_programs [] = []
heavy_programs (p ∷ ps) =
    let rest = heavy_programs ps in if is_known_heavy_program p then p ∷ rest else rest

unfoldable pub rest_programs : List String → List String
rest_programs [] = []
rest_programs (p ∷ ps) =
    let rest = rest_programs ps in if is_known_heavy_program p then rest else p ∷ rest

-- `SubscriptionSpec { .. }` of a main stream.
abbrev pub main_spec :
    EndpointRole → EndpointSpec → Commitment → MainStream → List String → SubscriptionSpec
main_spec role ep commitment stream program_ids = record {
  role = main role commitment stream;
  endpoint = ep;
  request = build_main_request_for commitment program_ids stream;
}

-- The solo path.
unfoldable pub solo_specs : PlanConfig → List String → List MainStream → List SubscriptionSpec
solo_specs config program_ids [] = []
solo_specs config program_ids (s ∷ ss) =
    main_spec one config.endpoint1 (first_commitment config.commitments) s program_ids
    ∷ solo_specs config program_ids ss

-- `for heavy in &heavy_programs`
unfoldable pub heavy_specs :
    EndpointRole → EndpointSpec → Commitment → List String → List SubscriptionSpec
heavy_specs role ep commitment [] = []
heavy_specs role ep commitment (p ∷ ps) =
    main_spec role ep commitment accounts (p ∷ []) ∷ heavy_specs role ep commitment ps

-- `for chunk in rest_programs.chunks(chunk_size)`
unfoldable pub chunk_specs :
    EndpointRole → EndpointSpec → Commitment → List (List String) → List SubscriptionSpec
chunk_specs role ep commitment [] = []
chunk_specs role ep commitment (c ∷ cs) =
    main_spec role ep commitment accounts c ∷ chunk_specs role ep commitment cs

-- `for stream in other_streams`
unfoldable pub other_specs :
    PlanConfig → EndpointRole → EndpointSpec → Commitment → List String → List SubscriptionSpec
other_specs config role ep commitment program_ids =
    (if config.with_transactions
      then main_spec role ep commitment transactions program_ids ∷ []
      else [])
    ++ (if config.with_blocks then main_spec role ep commitment blocks program_ids ∷ [] else [])

-- `for commitment in &config.commitments`
unfoldable pub commitment_specs :
    PlanConfig → EndpointRole → EndpointSpec → List String → List Commitment → List SubscriptionSpec
commitment_specs config role ep program_ids [] = []
commitment_specs config role ep program_ids (c ∷ cs) =
    heavy_specs role ep c (heavy_programs program_ids)
    ++ chunk_specs role ep c
        (chunks (max config.accounts_programs_per_filter 1) (rest_programs program_ids))
    ++ other_specs config role ep c program_ids
    ++ commitment_specs config role ep program_ids cs

-- The body of `for endpoint_role in [One, Two]`.
unfoldable pub endpoint_specs :
    PlanConfig → EndpointRole → Option EndpointSpec → List String → List SubscriptionSpec
endpoint_specs config role none program_ids = []
endpoint_specs config role (some ep) program_ids =
    record {
      role = main role (first_commitment config.commitments) slots;
      endpoint = ep;
      request = build_slot_request;
    }
    ∷ commitment_specs config role ep program_ids config.commitments

unfoldable pub entries_specs :
    PlanConfig → EndpointRole → Option EndpointSpec → List SubscriptionSpec
entries_specs config role none = []
entries_specs config role (some ep) =
    record {
      role = entries role;
      endpoint = ep;
      request = build_entries_request (first_commitment config.commitments);
    }
    ∷ []

unfoldable pub from_run_config : PlanConfig → List String → List SubscriptionSpec
from_run_config config program_ids =
    if config.solo
    then solo_specs config program_ids (unseen [] config.solo_streams)
    else endpoint_specs config one (some config.endpoint1) program_ids
      ++ endpoint_specs config two config.endpoint2 program_ids
      ++ entries_specs config one config.entries_endpoint1
      ++ entries_specs config two config.entries_endpoint2
