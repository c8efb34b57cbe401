-- ===== src/Report/Echo.antt =====
-- src/summary.rs, src/run.rs: the report and the tokens of the endpoints.
use Prim.Native.String.{String}
use grpc_bench.Prelude.{ℕ, ◌≡◌, refl, Option, none, some}
use grpc_bench.Floats.{Floats}
use grpc_bench.Subscribe.Plan.{EndpointSpec}
use grpc_bench.Cli.{Config}
use grpc_bench.Proto.{EndpointVersion}
use grpc_bench.Matching.Dispatch.{StreamMatchers}
use grpc_bench.Run.{PingTracker}
use grpc_bench.Report.{url_text, url_of, from_config}
use grpc_bench.Report.Assemble.{Finished, DispatcherReturn, second_info, assemble_output}

-- The same endpoint with another token.
abbrev pub set_token : String → EndpointSpec → EndpointSpec
set_token token e = record e { x_token = token }

abbrev pub set_token_of : String → Option EndpointSpec → Option EndpointSpec
set_token_of token none = none
set_token_of token (some e) = some (set_token token e)

abbrev pub with_tokens : String → String → String → String → Config → Config
with_tokens t1 t2 t3 t4 c = record c {
  endpoint1 = set_token t1 c.endpoint1;
  endpoint2 = set_token_of t2 c.endpoint2;
  entries_endpoint1 = set_token_of t3 c.entries_endpoint1;
  entries_endpoint2 = set_token_of t4 c.entries_endpoint2;
}

url_of-set_token : (t : String) (e : Option EndpointSpec) → url_of (set_token_of t e) ≡ url_of e
url_of-set_token t none = refl
url_of-set_token t (some e) = refl

url_text-set_token :
    (t : String) (e : Option EndpointSpec) → url_text (set_token_of t e) ≡ url_text e
url_text-set_token t none = refl
url_text-set_token t (some e) = refl

second_info-set_token :
    (N : Floats) (t : String) (e : Option EndpointSpec) (v : Option EndpointVersion) (total : ℕ)
    (ping : PingTracker)
    → second_info N (set_token_of t e) v total ping ≡ second_info N e v total ping
second_info-set_token N t none v total ping = refl
second_info-set_token N t (some e) none total ping = refl
second_info-set_token N t (some e) (some v) total ping = refl

-- The report of a run does not depend on the tokens of its endpoints, whatever its data: no token is
-- in it.
pub report_hides_tokens :
    (N : Floats) (t1 t2 t3 t4 : String) (c : Config) (f : Finished N) (m : StreamMatchers N)
    (d1 d2 : DispatcherReturn N) (total_slots : ℕ)
    → assemble_output N (with_tokens t1 t2 t3 t4 c) f m d1 d2 total_slots
      ≡ assemble_output N c f m d1 d2 total_slots
unfolding assemble_output from_config
report_hides_tokens N t1 t2 t3 t4 c f m d1 d2 total_slots =
    rw
      (
        url_of-set_token t2 c.endpoint2,
        url_of-set_token t3 c.entries_endpoint1,
        url_of-set_token t4 c.entries_endpoint2,
        url_text-set_token t2 c.endpoint2,
        second_info-set_token N t2 c.endpoint2 f.ep2_version f.totals.ep2 f.ping_ep2,
      )
      refl
