-- ===== src/Collect/Affinity/Parse.antt =====
-- src/collect/mod.rs: the parser of `--cpu-affinity`.
use grpc_bench.Prelude.{
  ℕ, Bool, true, false, Option, none, some, List, [], ◌∷◌, ◌++◌, is_empty, push, contains,
  unwrap_or, if◌then◌else◌,
}
use grpc_bench.Prelude.Result.{Result, ok, err, ◌>>=◌, ok_or}
use grpc_bench.Text.{
  Text, codes, trim, split, split_once, text_beq, eq_ignore_ascii_case, parse_u32,
}
use grpc_bench.Collect.Affinity.{
  AffinitySpec, default_spec, AffinityParseError, mixed, empty_section, unknown_role,
  duplicate_role, single_core_only, invalid_core, duplicate_core, first_duplicate,
  auto_for_core_count, from_flat_vec,
}

-- `if cores.contains(&n)` and `cores.push(n)`
abbrev pub add_core : List ℕ → ℕ → Result AffinityParseError (List ℕ)
add_core cores n = if contains cores n then err (duplicate_core n) else ok (push cores n)

-- The core in one part of a list.
abbrev pub parse_core : Text → Text → Result AffinityParseError ℕ
parse_core label t =
    if is_empty t then err empty_section else ok_or (parse_u32 t) (invalid_core t label)

-- The loop of `parse_core_list`.
unfoldable pub parse_cores : Text → List ℕ → List Text → Result AffinityParseError (List ℕ)
parse_cores label cores [] = ok cores
parse_cores label cores (part ∷ parts) = do
  n ← parse_core label (trim part)
  cores' ← add_core cores n
  parse_cores label cores' parts

abbrev pub parse_core_list : Text → Text → Result AffinityParseError (List ℕ)
parse_core_list value label = parse_cores label [] (split b',' value)

-- The locals of `from_structured`.
pub record Sections : Type 0 where
  pub me : AffinitySpec
  pub seen_ep1 : Bool
  pub seen_ep2 : Bool
  pub seen_proc : Bool
  pub seen_ctrl : Bool

abbrev pub no_sections : Sections
no_sections = record {
  me = default_spec;
  seen_ep1 = false;
  seen_ep2 = false;
  seen_proc = false;
  seen_ctrl = false;
}

-- The arms of `match role`.
abbrev pub set_ep1 : Sections → List ℕ → Result AffinityParseError Sections
set_ep1 s cores =
    if s.seen_ep1
    then err (duplicate_role (codes "ep1"))
    else ok (record s { seen_ep1 = true; me = record s.me { endpoint1 = cores } })

abbrev pub set_ep2 : Sections → List ℕ → Result AffinityParseError Sections
set_ep2 s cores =
    if s.seen_ep2
    then err (duplicate_role (codes "ep2"))
    else ok (record s { seen_ep2 = true; me = record s.me { endpoint2 = cores } })

-- `cores.len() != 1` and `cores[0]`
abbrev pub single_core : Text → List ℕ → Result AffinityParseError ℕ
single_core role (c ∷ []) = ok c
single_core role _ = err (single_core_only role)

abbrev pub set_proc : Sections → List ℕ → Result AffinityParseError Sections
set_proc s cores =
    if s.seen_proc
    then err (duplicate_role (codes "proc"))
    else (single_core (codes "proc") cores >>= λ c.
        ok (record s { seen_proc = true; me = record s.me { processor = some c } }))

abbrev pub set_ctrl : Sections → List ℕ → Result AffinityParseError Sections
set_ctrl s cores =
    if s.seen_ctrl
    then err (duplicate_role (codes "ctrl"))
    else (single_core (codes "ctrl") cores >>= λ c.
        ok (record s { seen_ctrl = true; me = record s.me { control = some c } }))

abbrev pub set_role : Text → Sections → List ℕ → Result AffinityParseError Sections
set_role role s cores =
    if text_beq role (codes "ep1")
    then set_ep1 s cores
    else if text_beq role (codes "ep2")
    then set_ep2 s cores
    else if text_beq role (codes "proc")
    then set_proc s cores
    else if text_beq role (codes "ctrl")
    then set_ctrl s cores
    else err (unknown_role role)

-- `role=value`, trimmed.
unfoldable pub parse_assignment : Text → Text → Sections → Result AffinityParseError Sections
parse_assignment role value s = do
  cores ← parse_core_list value role
  if is_empty cores then err empty_section else set_role role s cores

-- The body of the loop over the sections.
unfoldable pub parse_section : Text → Sections → Result AffinityParseError Sections
parse_section section s =
    if is_empty (trim section)
    then err empty_section
    else (ok_or (split_once b'=' (trim section)) mixed >>= λ sides.
        parse_assignment (trim sides.0) (trim sides.1) s)

unfoldable pub parse_sections : List Text → Sections → Result AffinityParseError Sections
parse_sections [] s = ok s
parse_sections (section ∷ rest) s = do s' ← parse_section section s; parse_sections rest s'

abbrev pub option_list : Option ℕ → List ℕ
option_list none = []
option_list (some c) = c ∷ []

-- The cores of every role, in order.
abbrev pub flat : AffinitySpec → List ℕ
flat spec =
    spec.endpoint1 ++ spec.endpoint2 ++ option_list spec.processor ++ option_list spec.control

-- The test across the roles.
abbrev pub check_flat : AffinitySpec → Option ℕ → Result AffinityParseError AffinitySpec
check_flat me none = ok me
check_flat me (some c) = err (duplicate_core c)

unfoldable pub from_structured : Text → Result AffinityParseError AffinitySpec
from_structured raw = do
  s ← parse_sections (split b':' raw) no_sections
  check_flat s.me (first_duplicate [] (flat s.me))

unfoldable pub from_flat_str : Text → Result AffinityParseError AffinitySpec
from_flat_str raw = do cores ← parse_core_list raw (codes "flat"); from_flat_vec cores

-- `available_parallelism` may fail.
unfoldable pub auto_from_nproc : Option ℕ → AffinitySpec
auto_from_nproc nproc = auto_for_core_count (unwrap_or nproc 4)

-- `AffinitySpec::parse`
unfoldable pub parse : Option ℕ → Text → Result AffinityParseError AffinitySpec
parse nproc raw =
    let trimmed = trim raw in
    if is_empty trimmed
    then ok default_spec
    else if eq_ignore_ascii_case trimmed (codes "auto")
    then ok (auto_from_nproc nproc)
    else if contains trimmed b'='
    then from_structured trimmed
    else from_flat_str trimmed
