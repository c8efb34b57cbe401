-- ===== src/Cli/Fair.antt =====
-- src/config.rs, src/subscribe/mod.rs: an accepted command line compares the two endpoints fairly.
use Prim.Native.String.{String}
use grpc_bench.Prelude.{◌≡◌, List, [], ◌∷◌, ◌++◌, if◌then◌else◌}
use grpc_bench.Subscribe.{EndpointRole, one, two, SubscriptionRole, main, entries, role_beq}
use grpc_bench.Subscribe.Requests.{SubscribeRequest}
use grpc_bench.Subscribe.Plan.{SubscriptionSpec}
use grpc_bench.Cli.{Cli, Config}

-- The requests of the main streams of an endpoint, in order.
abbrev pub request_of : EndpointRole → SubscriptionRole → SubscribeRequest → List SubscribeRequest
request_of r (main e c stream) request = if role_beq e r then request ∷ [] else []
request_of r (entries e) request = []

abbrev pub main_requests : EndpointRole → List SubscriptionSpec → List SubscribeRequest
main_requests r [] = []
main_requests r (x ∷ xs) = request_of r x.role x.request ++ main_requests r xs

-- Subscriptions of the first endpoint and of the second, with the same requests.
record Same (xs ys : List SubscriptionSpec) : Type 0 where
  equal : main_requests one xs ≡ main_requests two ys
  none_two : main_requests two xs ≡ []
  none_one : main_requests one ys ≡ []
