-- ===== src/Env/Warned.antt =====
-- src/env.rs: when the report carries a warning on the host.
use grpc_bench.Prelude.{◌≡◌, ◌≢◌, ◌⊎◌, Bool, true, false, not, ◌&&◌, Option, none, List, []}
use grpc_bench.Text.{Text, codes}
use grpc_bench.Env.Facts.{HasPolicy, HasGovernor, KnowsClock}
use grpc_bench.Env.{
  Reading, contents, not_found, failed, Host, read_cpu_model, read_cpu_governor, read_thp,
  from_timedatectl, read_ntp_synced, warn_if, is_text, realtime_text, timestamps_text,
  governor_text, hugepage_text,
}

abbrev pub WasRead : Reading → Type 0
WasRead (contents s) = Unit
WasRead (not_found e) = ⊥
WasRead (failed e) = ⊥

abbrev pub WasReadOrMissing : Reading → Type 0
WasReadOrMissing (contents s) = Unit
WasReadOrMissing (not_found e) = Unit
WasReadOrMissing (failed e) = ⊥

-- What a host needs for a report without a warning.
pub record IsNominal (host : Host)
    (realtime_requested realtime_applied kernel_timestamps_active : Bool) : Type 0 where
  pub model_read : WasRead host.cpuinfo
  pub governor_read : WasReadOrMissing host.scaling_governor
  pub hugepage_read : WasReadOrMissing host.transparent_hugepage_enabled
  pub clock_known : KnowsClock host.timedatectl ⊎ (host.chronyc ≢ none)
  pub realtime_granted : (realtime_requested ≡ false) ⊎ (realtime_applied ≡ true)
  pub kernel_stamps : kernel_timestamps_active ≡ true
  pub steady : ¬ HasGovernor host.scaling_governor (codes "powersave")
  pub small_pages : ¬ HasPolicy host.transparent_hugepage_enabled (codes "always")

-- The warnings after each step of `collect`.
module _ (host : Host) (requested applied active : Bool) where
  abbrev after_model : List Text
  after_model = (read_cpu_model host.cpuinfo []).1

  abbrev after_governor : List Text
  after_governor = (read_cpu_governor host.scaling_governor after_model).1

  abbrev after_hugepage : List Text
  after_hugepage = (read_thp host.transparent_hugepage_enabled after_governor).1

  abbrev after_clock : List Text
  after_clock = (read_ntp_synced host.timedatectl host.chronyc after_hugepage).1

  -- The probes gave no warning.
  abbrev IsProbed : Type 0
  IsProbed =
      WasRead host.cpuinfo
      × WasReadOrMissing host.scaling_governor
      × WasReadOrMissing host.transparent_hugepage_enabled
      × ((from_timedatectl host.timedatectl ≢ none) ⊎ (host.chronyc ≢ none))

  abbrev governor : Option Text
  governor = (read_cpu_governor host.scaling_governor after_model).0

  abbrev hugepage : Option Text
  hugepage = (read_thp host.transparent_hugepage_enabled after_governor).0

  -- The tests of `collect` on what the probes gave.
  abbrev after_tests : List Text
  after_tests =
      let w5 = warn_if (requested && not applied) realtime_text after_clock in
      let w6 = warn_if (not active) timestamps_text w5 in
      let w7 = warn_if (is_text governor (codes "powersave")) governor_text w6 in
      warn_if (is_text hugepage (codes "always")) hugepage_text w7

  abbrev Passes : Type 0
  Passes =
      (is_text hugepage (codes "always") ≡ false)
      × (is_text governor (codes "powersave") ≡ false)
      × (not active ≡ false)
      × (requested && not applied ≡ false)
      × (after_clock ≡ [])
