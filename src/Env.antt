-- ===== src/Env.antt =====
-- src/env.rs: the conditions of the host that go into the report, on Linux. What the files and the
-- commands give is the input.
pub mod Facts
pub mod Warned
pub mod Tests
use grpc_bench.Prelude.{
  ℕ, Bool, true, false, not, ◌&&◌, Option, none, some, List, [], ◌∷◌, ◌++◌, push, get_elem?,
  unwrap_or, if◌then◌else◌,
}
use grpc_bench.Text.{
  Text, codes, text_beq, trim, split, lines, split_whitespace, starts_with, strip_prefix,
  strip_suffix,
}
use grpc_bench.Collect.Affinity.{AffinitySpec, all_cores}

-- `std::fs::read_to_string`, with the text of an error.
pub data Reading : Type 0 where
  contents : Text → Reading
  not_found failed : Text → Reading

-- What the host answers; a command that fails to run or to succeed gives nothing.
pub record Host : Type 0 where
  pub uname : Option Text
  pub cpuinfo : Reading
  pub scaling_governor : Reading
  pub transparent_hugepage_enabled : Reading
  pub timedatectl : Option Text
  pub chronyc : Option Text
  pub allocator_name : Text

pub record HostMetadata : Type 0 where
  pub kernel : Text
  pub cpu_model : Text
  pub cpu_governor : Option Text
  pub transparent_hugepage : Option Text
  pub allocator : Text
  pub realtime_priority : Bool
  pub kernel_timestamps : Bool
  pub cpu_affinity : List ℕ
  pub cpu_affinity_plan : AffinitySpec
  pub ntp_synced : Option Bool
  pub warnings : List Text

-- `Iterator::find_map`
abbrev pub find_map : (Text → Option Text) → List Text → Option Text
find_map f [] = none
find_map f (t ∷ ts) = elim (f t) [ none ↦ find_map f ts | some s ↦ some s ]

-- `read_kernel`
abbrev pub read_kernel : Option Text → Text
read_kernel none = codes "unknown"
read_kernel (some out) = trim out

-- `l.strip_prefix("model name").and_then(|tail| tail.split(':').nth(1))`
abbrev pub second_part : Option Text → Option Text
second_part none = none
second_part (some tail) = get_elem? (split b':' tail) 1

abbrev model_name : Option Text → Text
model_name none = codes "unknown"
model_name (some s) = trim s

-- Each probe gives its value and the warnings.
unfoldable pub read_cpu_model : Reading → List Text → Text × List Text
read_cpu_model (contents s) warnings = (
  model_name (find_map (λ l. second_part (strip_prefix (codes "model name") l)) (lines s)),
  warnings,
)
read_cpu_model (not_found e) warnings =
    (codes "unknown", push warnings (codes "failed to read /proc/cpuinfo: " ++ e))
read_cpu_model (failed e) warnings =
    (codes "unknown", push warnings (codes "failed to read /proc/cpuinfo: " ++ e))

unfoldable pub read_cpu_governor : Reading → List Text → Option Text × List Text
read_cpu_governor (contents s) warnings = (some (trim s), warnings)
read_cpu_governor (not_found e) warnings = (none, warnings)
read_cpu_governor (failed e) warnings = (
  none,
  push warnings
      (codes "failed to read /sys/devices/system/cpu/cpu0/cpufreq/scaling_governor: " ++ e),
)

abbrev without_bracket : Option Text → Option Text
without_bracket none = none
without_bracket (some t) = strip_suffix b']' t

-- The entry in brackets, else the whole.
abbrev pub active_policy : Text → Text
active_policy s =
    unwrap_or
      (find_map (λ tok. without_bracket (strip_prefix (b'[' ∷ []) tok)) (split_whitespace s))
      (trim s)

unfoldable pub read_thp : Reading → List Text → Option Text × List Text
read_thp (contents s) warnings = (some (active_policy s), warnings)
read_thp (not_found e) warnings = (none, warnings)
read_thp (failed e) warnings = (
  none,
  push warnings (codes "failed to read /sys/kernel/mm/transparent_hugepage/enabled: " ++ e),
)

-- `Some(val.trim() == "yes")`
abbrev pub says_yes : Option Text → Option Bool
says_yes none = none
says_yes (some val) = some (text_beq (trim val) (codes "yes"))

abbrev pub from_timedatectl : Option Text → Option Bool
from_timedatectl none = none
from_timedatectl (some s) = says_yes (find_map (strip_prefix (codes "NTPSynchronized=")) (lines s))

abbrev is_normal : Option Text → Bool
is_normal none = false
is_normal (some v) = text_beq (trim v) (codes "Normal")

abbrev pub leap_is_normal : Text → Bool
leap_is_normal l = starts_with (codes "Leap status") l && is_normal (get_elem? (split b':' l) 1)

abbrev any_normal : List Text → Bool
any_normal [] = false
any_normal (l ∷ ls) = let rest = any_normal ls in if leap_is_normal l then true else rest

abbrev pub from_chronyc : Option Text → List Text → Option Bool × List Text
from_chronyc (some s) warnings = (some (any_normal (lines s)), warnings)
from_chronyc none warnings = (
  none,
  push warnings (
      codes "could not query NTP sync state (timedatectl/chronyc not available); "
      ++ codes "field reported as unknown in host_metadata"),
)

abbrev pub or_chronyc : Option Bool → Option Bool × List Text → List Text → Option Bool × List Text
or_chronyc (some synced) fallback warnings = (some synced, warnings)
or_chronyc none fallback warnings = fallback

unfoldable pub read_ntp_synced : Option Text → Option Text → List Text → Option Bool × List Text
read_ntp_synced timedatectl chronyc warnings =
    or_chronyc (from_timedatectl timedatectl) (from_chronyc chronyc warnings) warnings

-- `if test { warnings.push(..) }`
abbrev pub warn_if : Bool → Text → List Text → List Text
warn_if test message warnings = if test then push warnings message else warnings

-- `matches!(o.as_deref(), Some(t))`
abbrev pub is_text : Option Text → Text → Bool
is_text none t = false
is_text (some s) t = text_beq s t

abbrev pub realtime_text : Text
realtime_text =
    codes "SCHED_FIFO requested via --realtime but the syscall was rejected; "
    ++ codes "continuing with default scheduling. Run as root or grant CAP_SYS_NICE "
    ++ codes "for credible measurements."

abbrev pub timestamps_text : Text
timestamps_text =
    codes "SO_TIMESTAMPNS unavailable — receive timestamps will be captured in "
    ++ codes "user space after protobuf decode. Sub-10ms deltas will include "
    ++ codes "scheduling jitter."

abbrev pub governor_text : Text
governor_text =
    codes "cpufreq governor is `powersave` — clock frequency will fluctuate and "
    ++ codes "inflate p99 tail. Switch to `performance` for credible measurements."

abbrev pub hugepage_text : Text
hugepage_text =
    codes "transparent_hugepage = `always` can introduce TLB-shootdown jitter; "
    ++ codes "prefer `madvise` for benchmark hosts."

unfoldable pub collect : Host → Bool → Bool → Bool → AffinitySpec → HostMetadata
collect host realtime_requested realtime_applied kernel_timestamps_active affinity =
    let (model, w1) = read_cpu_model host.cpuinfo [] in
    let (governor, w2) = read_cpu_governor host.scaling_governor w1 in
    let (hugepage, w3) = read_thp host.transparent_hugepage_enabled w2 in
    let (synced, w4) = read_ntp_synced host.timedatectl host.chronyc w3 in
    let w5 = warn_if (realtime_requested && not realtime_applied) realtime_text w4 in
    let w6 = warn_if (not kernel_timestamps_active) timestamps_text w5 in
    let w7 = warn_if (is_text governor (codes "powersave")) governor_text w6 in
    record {
      kernel = read_kernel host.uname;
      cpu_model = model;
      cpu_governor = governor;
      transparent_hugepage = hugepage;
      allocator = host.allocator_name;
      realtime_priority = realtime_applied;
      kernel_timestamps = kernel_timestamps_active;
      cpu_affinity = all_cores affinity;
      cpu_affinity_plan = affinity;
      ntp_synced = synced;
      warnings = warn_if (is_text hugepage (codes "always")) hugepage_text w7;
    }
