-- ===== src/Cli/Validated.antt =====
-- src/config.rs: what holds of every `Config` that the program runs with.
use Prim.Native.String.{String}
use grpc_bench.Prelude.{
  ℕ, ◌≤◌, ◌≡◌, ◌≢◌, refl, subst, inl, inr, true, false, not, Option, none, some, [], is_some,
  Bool-cases, arith,
}
use grpc_bench.Prelude.Result.{ok, ok-injective}
use grpc_bench.Text.{Text, codes, text_beq}
use grpc_bench.Subscribe.Plan.{EndpointSpec}
use grpc_bench.Cli.{Cli, Config, TomlOverlay}
use grpc_bench.Cli.Validation.{endpoint2_of, build_config, from_cli_and_overlay}
use grpc_bench.Cli.Levels.{Once, validate_commitments_iff}
use grpc_bench.Cli.Accepted.{Passed, passed, required_some}

pub record IsValidated (cli : Cli) (overlay : TomlOverlay) (c : Config) : Type 0 where
  -- there is a second endpoint exactly when the run is not solo
  pub second : is_some c.endpoint2 ≡ not c.solo
  pub some_level : c.commitments ≢ []
  pub once : Once c.commitments
  -- at least one program for each filter
  pub some_program : 1 ≤ c.accounts_programs_per_filter
  -- a real-time run leaves the processor to the kernel
  pub floats : c.realtime ≡ true → c.cpu_affinity.processor ≡ none
  -- an option wins over the overlay's value
  pub raw_records_given : (p : String) → cli.raw_records ≡ some p → c.raw_records ≡ some p
  -- but a level of `info` does not
  pub info_overridden :
      (level : Text)
      → cli.log_level ≡ codes "info"
      → overlay.log_level ≡ some level
      → c.log_level ≡ level
  pub level_kept : text_beq cli.log_level (codes "info") ≡ false → c.log_level ≡ cli.log_level

second-Validated :
    (cli : Cli) (second : Option EndpointSpec)
    → endpoint2_of cli ≡ ok second
    → is_some second ≡ not cli.solo
second-Validated cli second h = elim (Bool-cases cli.solo) [
  | inl solo ↦ let gone : none ≡ second = ok-injective (rw solo at h) in rw (solo, ← gone) refl
  | inr pair ↦
      rw pair (required_some cli.endpoint2 cli.x_token2 cli.endpoint2_tls second (rw pair at h))
]

build_config-IsValidated :
    (nproc : Option ℕ) (cli : Cli) (overlay : TomlOverlay) (c : Config)
    → (p : Passed nproc cli overlay c)
    → IsValidated cli overlay (build_config cli overlay p.stop p.layout p.second)
build_config-IsValidated nproc cli overlay c p =
    let levels = (validate_commitments_iff cli.commitment).0 p.levels_ok in
    record {
      second = second-Validated cli p.second p.second_ok;
      some_level = levels.0;
      once = levels.1;
      some_program = omega arith;
      floats = λ realtime. rw realtime refl;
      raw_records_given = λ p given. rw given refl;
      info_overridden = λ level info given. rw (info, given) refl;
      level_kept = λ other. rw other refl;
    }

-- Every configuration that the program accepts has a second endpoint exactly when the run is not
-- solo, some level and none twice, at least one program for each filter, and no pin of the processor
-- in a real-time run. An option for the raw records wins over the overlay's, and so does a log level
-- other than `info`; the level `info` gives way to the overlay's.
pub accepted-IsValidated :
    (nproc : Option ℕ) (cli : Cli) (overlay : TomlOverlay) (c : Config)
    → from_cli_and_overlay nproc cli overlay ≡ ok c
    → IsValidated cli overlay c
accepted-IsValidated nproc cli overlay c h =
    let p = passed nproc cli overlay c h in
    subst (IsValidated cli overlay) p.built (build_config-IsValidated nproc cli overlay c p)
