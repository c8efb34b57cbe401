-- ===== src/Collect/Affinity.antt =====
-- src/collect/mod.rs: which core each receiver is pinned to. A core id is a `u32`, a number below
-- 2 ^ 32.
pub mod Cores
pub mod Layout
pub mod Parse
pub mod Render
pub mod Section
pub mod Reading
pub mod RoundTrip
use grpc_bench.Prelude.{
  ℕ, suc, ◌+◌, ◌-◌, ◌/◌, ◌%◌, ◌<◌, Bool, true, false, Option, none, some, List, [], ◌∷◌, ◌++◌,
  length, is_empty, is_some, push, take, ltb, get_elem?, contains, range, if◌then◌else◌, min, not,
  ◌&&◌, ◌||◌,
}
use grpc_bench.Text.{Text}
use grpc_bench.Prelude.Result.{Result, ok, err}
use grpc_bench.Subscribe.{SubscriptionRole, EndpointRole, one, two, endpoint}

pub record AffinityPlan : Type 0 where
  pub endpoint1_cores : List ℕ
  pub endpoint2_cores : List ℕ
  pub processor_core : Option ℕ
  pub control_core : Option ℕ

pub record AffinitySpec : Type 0 where
  pub endpoint1 : List ℕ
  pub endpoint2 : List ℕ
  pub processor : Option ℕ
  pub control : Option ℕ

-- `AffinitySpec::default()`
abbrev pub default_spec : AffinitySpec
default_spec = record { endpoint1 = []; endpoint2 = []; processor = none; control = none }

pub data AffinityParseError : Type 0 where
  mixed empty_section : AffinityParseError
  unknown_role duplicate_role single_core_only : Text → AffinityParseError
  invalid_core : Text → Text → AffinityParseError
  duplicate_core : ℕ → AffinityParseError

unfoldable pub from_cli : List ℕ → AffinityPlan
from_cli [] = record {
  endpoint1_cores = [];
  endpoint2_cores = [];
  processor_core = none;
  control_core = none;
}
from_cli (c ∷ []) = record {
  endpoint1_cores = c ∷ [];
  endpoint2_cores = c ∷ [];
  processor_core = some c;
  control_core = none;
}
from_cli (a ∷ b ∷ []) = record {
  endpoint1_cores = a ∷ [];
  endpoint2_cores = b ∷ [];
  processor_core = none;
  control_core = none;
}
from_cli (a ∷ b ∷ p ∷ []) = record {
  endpoint1_cores = a ∷ [];
  endpoint2_cores = b ∷ [];
  processor_core = some p;
  control_core = none;
}
from_cli (a ∷ b ∷ p ∷ c ∷ rest) = record {
  endpoint1_cores = a ∷ [];
  endpoint2_cores = b ∷ [];
  processor_core = some p;
  control_core = some c;
}

-- `match role.endpoint()`
abbrev pub cores_of : AffinityPlan → EndpointRole → List ℕ
cores_of plan one = plan.endpoint1_cores
cores_of plan two = plan.endpoint2_cores

-- `Some(cores[idx % cores.len()])`; the index is in range, so it does not panic.
unfoldable pub core_for_subscription : AffinityPlan → SubscriptionRole → ℕ → Option ℕ
core_for_subscription plan role idx_in_endpoint =
    let cores = cores_of plan (endpoint role) in
    if is_empty cores then none else get_elem? cores (idx_in_endpoint % length cores)

unfoldable pub from_spec : AffinitySpec → AffinityPlan
from_spec spec = record {
  endpoint1_cores = spec.endpoint1;
  endpoint2_cores = spec.endpoint2;
  processor_core = spec.processor;
  control_core = spec.control;
}

unfoldable pub auto_for_core_count : ℕ → AffinitySpec
auto_for_core_count nproc =
    if ltb nproc 6
    then default_spec
    else let nproc_u32 = min nproc 4294967295 in
      let last = nproc_u32 - 1 in
      let receiver_start : ℕ = 2 in
      let receiver_end_inclusive = last - 1 in
      let receiver_count = receiver_end_inclusive - receiver_start + 1 in
      let half = receiver_count / 2 in
      let split_at = receiver_start + half in
      record {
        endpoint1 = range receiver_start (split_at - receiver_start);
        endpoint2 = range split_at (receiver_end_inclusive + 1 - split_at);
        processor = none;
        control = some last;
      }

-- The loop that looks for a core repeating one of `seen`, those before it.
unfoldable pub first_duplicate : List ℕ → List ℕ → Option ℕ
first_duplicate seen [] = none
first_duplicate seen (c ∷ cs) = if contains seen c then some c else first_duplicate (push seen c) cs

-- The `match` of `from_flat_vec`.
abbrev pub flat_layout : List ℕ → AffinitySpec
flat_layout [] = default_spec
flat_layout (c ∷ []) = record {
  endpoint1 = c ∷ [];
  endpoint2 = c ∷ [];
  processor = some c;
  control = none;
}
flat_layout (a ∷ b ∷ []) = record {
  endpoint1 = a ∷ [];
  endpoint2 = b ∷ [];
  processor = none;
  control = none;
}
flat_layout (a ∷ b ∷ p ∷ []) = record {
  endpoint1 = a ∷ [];
  endpoint2 = b ∷ [];
  processor = some p;
  control = none;
}
flat_layout (a ∷ b ∷ p ∷ c ∷ rest) = record {
  endpoint1 = a ∷ [];
  endpoint2 = b ∷ [];
  processor = some p;
  control = some c;
}

unfoldable pub from_flat_vec : List ℕ → Result AffinityParseError AffinitySpec
from_flat_vec cores = elim (first_duplicate [] cores) [
  | some c ↦ err (duplicate_core c)
  | none ↦ ok (flat_layout cores)
]

-- `if !out.contains(&c) { out.push(c) }`, for one core and for several.
abbrev pub push_new : List ℕ → ℕ → List ℕ
push_new out c = if contains out c then out else push out c

abbrev pub push_all_new : List ℕ → List ℕ → List ℕ
push_all_new out [] = out
push_all_new out (c ∷ cs) = push_all_new (push_new out c) cs

abbrev pub push_some_new : List ℕ → Option ℕ → List ℕ
push_some_new out none = out
push_some_new out (some c) = push_new out c

unfoldable pub all_cores : AffinitySpec → List ℕ
all_cores spec =
    push_some_new
      (push_some_new (push_all_new (push_all_new [] spec.endpoint1) spec.endpoint2) spec.processor)
      spec.control

-- `AffinitySpec::is_empty`
unfoldable pub is_unpinned : AffinitySpec → Bool
is_unpinned spec =
    is_empty spec.endpoint1
    && is_empty spec.endpoint2
    && not (is_some spec.processor)
    && not (is_some spec.control)
