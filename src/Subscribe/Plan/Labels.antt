-- ===== src/Subscribe/Plan/Labels.antt =====
-- The commitment label of the subscriptions that ask for slots (src/subscribe/mod.rs).
use Prim.Native.String.{String}
use grpc_bench.Prelude.{◌≡◌, refl, false, List, [], ◌∷◌, is_empty, All, max}
use grpc_bench.Config.{Commitment}
use grpc_bench.Subscribe.{accounts, IsLabelled}
use grpc_bench.Subscribe.Requests.{
  build_slot_request, build_main_request_for, build_entries_request,
}
use grpc_bench.Subscribe.Plan.{
  PlanConfig, SubscriptionSpec, first_commitment, main_spec, rest_programs, from_run_config, chunks,
}
use grpc_bench.Subscribe.Plan.Coverage.{All-from_run_config}

-- A subscription that asks for slots has the label, if it has one.
abbrev pub LabelledIfSlots : Commitment → SubscriptionSpec → Type 0
LabelledIfSlots c spec = is_empty spec.request.slots ≡ false → IsLabelled c spec.role

All-always : {A : Type 0} (P : A → Type 0) (xs : List A) → ((a : A) → P a) → All P xs
All-always P [] h = tt
All-always P (x ∷ xs) h = (h x, All-always P xs h)

-- In a run of two endpoints, every subscription that asks for slots and has a commitment is
-- labelled with the first one configured, or processed when there is none.
pub slots_have_one_label :
    (config : PlanConfig) (program_ids : List String)
    → config.solo ≡ false
    → All
        (LabelledIfSlots (first_commitment config.commitments))
        (from_run_config config program_ids)
unfolding build_slot_request build_main_request_for build_entries_request
slots_have_one_label config program_ids pair =
    let P = LabelledIfSlots (first_commitment config.commitments) in
    All-from_run_config P config program_ids
      (record {
        slot_rule = λ role ep asks. refl;
        heavy_rule = λ role ep c p asks. absurd (cc asks);
        chunk_rule = λ role ep c.
            All-always (λ ps. P (main_spec role ep c accounts ps))
              (chunks (max config.accounts_programs_per_filter 1) (rest_programs program_ids))
              (λ ps asks. absurd (cc asks));
        transactions_rule = λ role ep c asks. absurd (cc asks);
        blocks_rule = λ role ep c asks. absurd (cc asks);
        entries_rule = λ role ep asks. tt;
      })
      pair
