-- ===== src/Env/Tests.antt =====
-- The theorem on the host's warnings at a concrete input.
use grpc_bench.Prelude.{◌≡◌, refl, true, none, some, []}
use grpc_bench.Text.{codes}
use grpc_bench.Collect.Affinity.{default_spec}
use grpc_bench.Env.{
  contents, not_found, Host, collect, read_cpu_model, read_cpu_governor, read_thp, read_ntp_synced,
}

-- A host with huge pages on request, no frequency scaling and a synchronised clock.
abbrev host : Host
host = record {
  uname = some (codes "6.8.0");
  cpuinfo = contents (codes "model name : X");
  scaling_governor = not_found (codes "no such file");
  transparent_hugepage_enabled = contents (codes "always [madvise] never");
  timedatectl = some (codes "NTPSynchronized=yes");
  chronyc = none;
  allocator_name = codes "jemalloc";
}

-- No warning for a clock that is not synchronised.
not_synchronised :
    let unsynchronised = record host { timedatectl = some (codes "NTPSynchronized=no") } in
    (collect unsynchronised true true true default_spec).warnings ≡ []
unfolding collect read_cpu_model read_cpu_governor read_thp read_ntp_synced
not_synchronised = refl
