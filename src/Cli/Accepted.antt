-- ===== src/Cli/Accepted.antt =====
-- src/config.rs: which command lines are accepted, and what an accepted one is.
use Prim.Native.String.{String}
use grpc_bench.Prelude.{
  ℕ, ◌≡◌, ◌≢◌, ◌↔◌, ◌⊎◌, refl, inl, inr, Bool, true, false, not, Option, none, some, [], is_some,
  Bool-cases,
}
use grpc_bench.Prelude.Result.{Result, ok, err, bind-ok, ok-injective}
use grpc_bench.Run.{StopCondition}
use grpc_bench.Subscribe.Plan.{EndpointSpec}
use grpc_bench.Collect.Affinity.{AffinitySpec, AffinityParseError}
use grpc_bench.Cli.{Cli, Config, TomlOverlay}
use grpc_bench.Cli.Validation.{
  stop_of, validate_entries_pair, validate_commitments, affinity_error, affinity_of,
  required_endpoint2, endpoint2_of, build_optional_endpoint, build_config, from_cli_and_overlay,
}
use grpc_bench.Cli.Levels.{Once, validate_commitments_iff}

-- What the program asks of a command line.
pub record IsAcceptable (nproc : Option ℕ) (cli : Cli) (overlay : TomlOverlay) : Type 0 where
  -- a bound on the run
  pub stops : (is_some cli.slots ≡ true) ⊎ (is_some cli.duration ≡ true)
  -- an address and a token, or neither, for each entries stream
  pub entries1 : is_some cli.entries_endpoint1 ≡ is_some cli.entries_x_token1
  pub entries2 : is_some cli.entries_endpoint2 ≡ is_some cli.entries_x_token2
  -- some level, none twice
  pub some_level : cli.commitment ≢ []
  pub once : Once cli.commitment
  -- a layout of cores that is read
  pub layout : AffinitySpec
  pub layout_read : affinity_of nproc cli.cpu_affinity overlay.cpu_affinity ≡ ok layout
  -- a second endpoint, unless the run is solo
  pub second : cli.solo ≡ false → (is_some cli.endpoint2 ≡ true) × (is_some cli.x_token2 ≡ true)

-- The tests, one by one.
stop_of_iff :
    (s d : Option ℕ)
    → ((stop : StopCondition) × (stop_of s d ≡ ok stop)) ↔ ((is_some s ≡ true) ⊎ (is_some d ≡ true))
stop_of_iff none none =
    (λ h. absurd (cc (h.1)), λ h. elim h [ inl e ↦ absurd (cc) | inr e ↦ absurd (cc) ])
stop_of_iff none (some d) = (λ h. inr refl, λ h. (_, refl))
stop_of_iff (some s) none = (λ h. inl refl, λ h. (_, refl))
stop_of_iff (some s) (some d) = (λ h. inl refl, λ h. (_, refl))

validate_entries_pair_iff :
    (which : ℕ) (e t : Option String)
    → (validate_entries_pair which e t ≡ ok tt) ↔ (is_some e ≡ is_some t)
validate_entries_pair_iff which none none = (λ h. refl, λ h. refl)
validate_entries_pair_iff which none (some t) = (λ h. absurd (cc), λ h. absurd (cc))
validate_entries_pair_iff which (some e) none = (λ h. absurd (cc), λ h. absurd (cc))
validate_entries_pair_iff which (some e) (some t) = (λ h. refl, λ h. refl)

affinity_error_iff :
    (r : Result AffinityParseError AffinitySpec) (spec : AffinitySpec)
    → (affinity_error r ≡ ok spec) ↔ (r ≡ ok spec)
affinity_error_iff (ok s) spec = (λ h. cc, λ h. cc)
affinity_error_iff (err e) spec = (λ h. absurd (cc), λ h. absurd (cc))

-- What an accepted second endpoint is.
abbrev Second : Bool → Option EndpointSpec → Type 0
Second solo e = is_some e ≡ not solo

required_endpoint2_iff :
    (e t : Option String) (tls : Bool)
    → ((r : Option EndpointSpec) × (required_endpoint2 (build_optional_endpoint e t tls) ≡ ok r)
        × (is_some r ≡ true))
      ↔ ((is_some e ≡ true) × (is_some t ≡ true))
required_endpoint2_iff none t tls = (λ h. absurd (cc (h.1)), λ h. absurd (cc (h.0)))
required_endpoint2_iff (some e) none tls = (λ h. absurd (cc (h.1)), λ h. absurd (cc (h.1)))
required_endpoint2_iff (some e) (some t) tls = (λ h. (refl, refl), λ h. (_, refl, refl))

pub required_some :
    (e t : Option String) (tls : Bool) (r : Option EndpointSpec)
    → required_endpoint2 (build_optional_endpoint e t tls) ≡ ok r
    → is_some r ≡ true
required_some none t tls r h = absurd (cc)
required_some (some e) none tls r h = absurd (cc)
required_some (some e) (some t) tls r h = let same = ok-injective h in rw (← same) refl

-- The tests that an accepted command line has passed.
pub record Passed (nproc : Option ℕ) (cli : Cli) (overlay : TomlOverlay) (c : Config) : Type 0 where
  pub stop : StopCondition
  pub layout : AffinitySpec
  pub second : Option EndpointSpec
  pub stop_ok : stop_of cli.slots cli.duration ≡ ok stop
  pub entries1_ok : validate_entries_pair 1 cli.entries_endpoint1 cli.entries_x_token1 ≡ ok tt
  pub entries2_ok : validate_entries_pair 2 cli.entries_endpoint2 cli.entries_x_token2 ≡ ok tt
  pub levels_ok : validate_commitments cli.commitment ≡ ok tt
  pub layout_ok : affinity_of nproc cli.cpu_affinity overlay.cpu_affinity ≡ ok layout
  pub second_ok : endpoint2_of cli ≡ ok second
  pub built : build_config cli overlay stop layout second ≡ c

pub passed :
    (nproc : Option ℕ) (cli : Cli) (overlay : TomlOverlay) (c : Config)
    → from_cli_and_overlay nproc cli overlay ≡ ok c
    → Passed nproc cli overlay c
unfolding from_cli_and_overlay
passed nproc cli overlay c h =
    let (stop, e1, h1) = bind-ok (stop_of cli.slots cli.duration) _ c h in
    let (u1, e2, h2) =
      bind-ok (validate_entries_pair 1 cli.entries_endpoint1 cli.entries_x_token1) _ c h1 in
    let (u2, e3, h3) =
      bind-ok (validate_entries_pair 2 cli.entries_endpoint2 cli.entries_x_token2) _ c h2 in
    let (u3, e4, h4) = bind-ok (validate_commitments cli.commitment) _ c h3 in
    let (spec, e5, h5) =
      bind-ok (affinity_error (affinity_of nproc cli.cpu_affinity overlay.cpu_affinity)) _ c h4 in
    let (second, e6, h6) = bind-ok (endpoint2_of cli) _ c h5 in
    record {
      stop = stop;
      layout = spec;
      second = second;
      stop_ok = e1;
      entries1_ok = e2;
      entries2_ok = e3;
      levels_ok = e4;
      layout_ok = (affinity_error_iff _ spec).0 e5;
      second_ok = e6;
      built = ok-injective h6;
    }

pub second_from :
    (cli : Cli)
    → ((second : Option EndpointSpec) × (endpoint2_of cli ≡ ok second))
      ↔ (cli.solo ≡ false → (is_some cli.endpoint2 ≡ true) × (is_some cli.x_token2 ≡ true))
second_from cli =
    let required = required_endpoint2_iff cli.endpoint2 cli.x_token2 cli.endpoint2_tls in
    elim (Bool-cases cli.solo) [
      | inl solo ↦ (λ h e. absurd (cc (solo, e)), λ h. (none, rw solo refl))
      | inr pair ↦ (
        λ h e.
            let found = rw pair at h.1 in
            required.0
              (h.0, found, required_some cli.endpoint2 cli.x_token2 cli.endpoint2_tls h.0 found),
        λ h. let (second, found, _) = required.1 (h pair) in (second, rw pair found),
      )
    ]

-- A command line, with the overlay, is accepted exactly when it bounds the run, gives each entries
-- stream an address and a token or neither, names some level and none twice, has a layout of cores
-- that is read, and gives the second endpoint an address and a token unless the run is solo.
pub accepted_exactly :
    (nproc : Option ℕ) (cli : Cli) (overlay : TomlOverlay)
    → ((c : Config) × (from_cli_and_overlay nproc cli overlay ≡ ok c))
      ↔ IsAcceptable nproc cli overlay
unfolding from_cli_and_overlay
accepted_exactly nproc cli overlay = (
  λ h.
      let p = passed nproc cli overlay h.0 h.1 in
      let levels = (validate_commitments_iff cli.commitment).0 p.levels_ok in
      record {
        stops = (stop_of_iff cli.slots cli.duration).0 (p.stop, p.stop_ok);
        entries1 = (validate_entries_pair_iff 1 _ _).0 p.entries1_ok;
        entries2 = (validate_entries_pair_iff 2 _ _).0 p.entries2_ok;
        some_level = levels.0;
        once = levels.1;
        layout = p.layout;
        layout_read = p.layout_ok;
        second = (second_from cli).0 (p.second, p.second_ok);
      },
  λ a.
      let (stop, stop_ok) = (stop_of_iff cli.slots cli.duration).1 a.stops in
      let pair1 = (validate_entries_pair_iff 1 _ _).1 a.entries1 in
      let pair2 = (validate_entries_pair_iff 2 _ _).1 a.entries2 in
      let levels = (validate_commitments_iff cli.commitment).1 (a.some_level, a.once) in
      let spec_ok = (affinity_error_iff _ a.layout).1 a.layout_read in
      let (second, second_ok) = (second_from cli).1 a.second in
      (
        build_config cli overlay stop a.layout second,
        rw (from_cli_and_overlay, stop_ok, pair1, pair2, levels, spec_ok, second_ok) refl,
      ),
)
