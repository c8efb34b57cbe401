-- ===== src/Subscribe.antt =====
-- src/subscribe/mod.rs: which endpoint, which stream.
pub mod Requests
pub mod Plan
pub mod Tests
use grpc_bench.Prelude.{◌≡◌, Bool, true, false}
use grpc_bench.Config.{Commitment}

pub data EndpointRole : Type 0 where
  one two : EndpointRole

-- `==` of `EndpointRole`
abbrev pub role_beq : EndpointRole → EndpointRole → Bool
role_beq one one = true
role_beq two two = true
role_beq _ _ = false

pub data MainStream : Type 0 where
  slots accounts transactions blocks : MainStream

pub data SubscriptionRole : Type 0 where
  main : EndpointRole → Commitment → MainStream → SubscriptionRole
  entries : EndpointRole → SubscriptionRole

abbrev pub is_entries : SubscriptionRole → Bool
is_entries (main endpoint commitment stream) = false
is_entries (entries endpoint) = true

abbrev pub endpoint : SubscriptionRole → EndpointRole
endpoint (main e commitment stream) = e
endpoint (entries e) = e

-- A subscription is labelled with the commitment, if it is labelled at all.
abbrev pub IsLabelled : Commitment → SubscriptionRole → Type 0
IsLabelled c (main role d stream) = d ≡ c
IsLabelled c (entries role) = Unit
