-- ===== src/Config.antt =====
-- src/config.rs
use grpc_bench.Prelude.{◌≡◌, ◌↔◌, Bool, true, false, arith}
use grpc_bench.Prelude.Eq.{Eq}

pub data Commitment : Type 0 where
  processed confirmed finalized : Commitment

abbrev pub commitment_beq : Commitment → Commitment → Bool
commitment_beq processed processed = true
commitment_beq confirmed confirmed = true
commitment_beq finalized finalized = true
commitment_beq _ _ = false

pub commitment_beq_iff : (a b : Commitment) → (commitment_beq a b ≡ true) ↔ (a ≡ b)
commitment_beq_iff a b = ground arith

instance abbrev pub commitment_eq : Eq Commitment
commitment_eq = record { test = commitment_beq; decides = commitment_beq_iff }
