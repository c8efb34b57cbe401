-- ===== src/Receiver/Errors.antt =====
-- src/run.rs: the failures that a receiver has met, by the rounds that it has made.
use grpc_bench.Prelude.{
  ℕ, suc, ◌+◌, ◌≡◌, refl, ap, inl, inr, Bool, true, false, Option, none, some, List, [], ◌∷◌,
  nat_beq, nat_beq_iff, Bool-cases, if◌then◌else◌, arith,
}
use grpc_bench.Prelude.Result.{Result, ok, err}
use grpc_bench.Text.{Text, text_beq}
use grpc_bench.Subscribe.{SubscriptionRole}
use grpc_bench.Collect.{Event}
use grpc_bench.Collect.Decode.{Codec, DecodeError, decode}
use grpc_bench.Receiver.{
  connect_failed, open_failed, opened, update, status, ended, timed_out, Round, attempted, polled,
  is_same_error,
}

abbrev pub first : List Text → Option Text
first [] = none
first (t ∷ ts) = some t

-- How many of the texts come before one other than `t`.
abbrev pub leading : Text → List Text → ℕ
leading t [] = 0
leading t (u ∷ us) = let rest = leading t us in if text_beq u t then suc rest else 0

-- How often the first text stands at the front.
abbrev pub streak : List Text → ℕ
streak [] = 0
streak (t ∷ ts) = suc (leading t ts)

abbrev pub unless_event : Result DecodeError (Option Event) → List Text → List Text
unless_event (ok (some event)) ts = []
unless_event (ok none) ts = ts
unless_event (err e) ts = ts

-- The texts of the failures since the last decoded event, the last first.
abbrev pub recent : {D : Codec} → SubscriptionRole → List (Round D) → List Text
recent role [] = []
recent role (attempted true a ∷ rounds) = recent role rounds
recent role (attempted false (connect_failed t) ∷ rounds) = t ∷ recent role rounds
recent role (attempted false (open_failed t) ∷ rounds) = t ∷ recent role rounds
recent role (attempted false opened ∷ rounds) = recent role rounds
recent role (polled true p ∷ rounds) = recent role rounds
recent role (polled false (update ts payload) ∷ rounds) =
    unless_event (decode ts payload role) (recent role rounds)
recent role (polled false (status t) ∷ rounds) = t ∷ recent role rounds
recent role (polled false ended ∷ rounds) = recent role rounds
recent role (polled false timed_out ∷ rounds) = recent role rounds

-- Whether the last round saw the shutdown flag.
abbrev pub asked_to_stop : {D : Codec} → List (Round D) → Bool
asked_to_stop [] = false
asked_to_stop (attempted shutdown a ∷ rounds) = shutdown
asked_to_stop (polled shutdown p ∷ rounds) = shutdown

text_beq-eq : (s t : Text) → text_beq s t ≡ true → s ≡ t
text_beq-eq [] [] h = refl
text_beq-eq [] (d ∷ t) h = absurd (cc)
text_beq-eq (c ∷ s) [] h = absurd (cc)
text_beq-eq (c ∷ s) (d ∷ t) h = elim (Bool-cases (nat_beq c d)) [
  | inl same ↦
      let tail = text_beq-eq s t (rw same at h) in
      let head = (nat_beq_iff c d).0 same in λ i. head i ∷ tail i
  | inr other ↦ absurd (cc (rw other at h))
]

-- One more failure.
pub streak-cons :
    (t : Text) (ts : List Text)
    → streak (t ∷ ts) ≡ (if is_same_error (first ts) t then streak ts + 1 else 1)
streak-cons t [] = refl
streak-cons t (u ∷ us) = elim (Bool-cases (text_beq u t)) [
  | inl same ↦ rw (same, text_beq-eq u t same) (omega arith)
  | inr other ↦ rw other refl
]

pub is_same_error-some :
    (last : Option Text) (t : Text) → is_same_error last t ≡ true → last ≡ some t
is_same_error-some none t h = absurd (cc)
is_same_error-some (some u) t h = ap some (text_beq-eq u t h)
