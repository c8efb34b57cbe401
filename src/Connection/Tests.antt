-- ===== src/Connection/Tests.antt =====
-- The connection theorems at concrete inputs.
use Prim.Native.String.{String}
use grpc_bench.Prelude.{ℕ, none, some}
use grpc_bench.Prelude.Result.{ok}
use grpc_bench.Text.{codes}
use grpc_bench.Proto.{SemVer, VersionBlob, VersionEnv}
use grpc_bench.Connection.{Transport}

-- A transport on which every connection succeeds.
abbrev transport : Transport
transport = record {
  Token = String;
  Endpoint = String;
  Channel = String;
  Failure = ℕ;
  parse_token = λ token. ok token;
  from_shared = λ url. ok url;
  tls_config = λ ep. ok ep;
  connect_timeout = λ ep seconds. ep;
  connect = λ ep. ok ep;
}

abbrev harness : SemVer
harness = record { major = 12; minor = 2; patch = 0 }

abbrev old_server : VersionBlob
old_server = record {
  package_name = some (codes "yellowstone-grpc-geyser");
  version = some (codes "12.1.9");
  proto = some (codes "12.1.0");
  solana = none;
}

-- Every answer is read as the one of the old server.
abbrev env : VersionEnv
env = record {
  harness_proto_crate_version = codes "12.2.0";
  harness_client_crate_version = codes "12.2.0";
  nested_blob = λ raw. none;
  flat_blob = λ raw. some old_server;
  debug = λ text. text;
}
