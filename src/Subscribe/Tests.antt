-- ===== src/Subscribe/Tests.antt =====
-- The theorems on the subscription plan at concrete inputs.
use Prim.Native.String.{String}
use grpc_bench.Prelude.{true, false, none, some, List, [], ◌∷◌}
use grpc_bench.Config.{processed, confirmed}
use grpc_bench.Subscribe.Plan.{EndpointSpec, PlanConfig}

abbrev endpoint_spec : EndpointSpec
endpoint_spec = record { url = "host:1"; x_token = "token"; tls_forced = false }

abbrev config : PlanConfig
config = record {
  endpoint1 = endpoint_spec;
  endpoint2 = some endpoint_spec;
  entries_endpoint1 = none;
  entries_endpoint2 = some endpoint_spec;
  commitments = confirmed ∷ processed ∷ [];
  with_blocks = true;
  with_transactions = true;
  accounts_programs_per_filter = 2;
  solo = false;
  solo_streams = [];
}

abbrev programs : List String
programs = "aaa" ∷ "11111111111111111111111111111111" ∷ "bbb" ∷ "ccc" ∷ []
