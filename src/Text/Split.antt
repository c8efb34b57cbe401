-- ===== src/Text/Split.antt =====
-- Splitting a text at a character.
use grpc_bench.Prelude.{
  ℕ, ◌≡◌, refl, ap, ◌∙◌, Bool, false, none, some, [], ◌∷◌, ◌++◌, nat_beq, Option-cases, inl, inr,
  arith,
}
use grpc_bench.Text.{Text, split, split_once, until}
use grpc_bench.Text.Trim.{HasNo}

-- Tests for one character.
abbrev pub is_char : ℕ → ℕ → Bool
is_char sep c = nat_beq c sep

pub split_once-first :
    (sep : ℕ) (s t : Text) → HasNo (is_char sep) s → split_once sep (s ++ sep ∷ t) ≡ some (s, t)
split_once-first sep [] t h = ground arith
split_once-first sep (c ∷ cs) t h = rw (h.0, split_once-first sep cs t h.1) refl

pub split_once-none : (sep : ℕ) (s : Text) → HasNo (is_char sep) s → split_once sep s ≡ none
split_once-none sep [] h = refl
split_once-none sep (c ∷ cs) h = rw (h.0, split_once-none sep cs h.1) refl

pub split-HasNo : (sep : ℕ) (s : Text) → HasNo (is_char sep) s → split sep s ≡ s ∷ []
split-HasNo sep [] h = refl
split-HasNo sep (c ∷ cs) h = rw (h.0, split-HasNo sep cs h.1) refl

pub split-first :
    (sep : ℕ) (s t : Text) → HasNo (is_char sep) s → split sep (s ++ sep ∷ t) ≡ s ∷ split sep t
split-first sep [] t h = ground arith
split-first sep (c ∷ cs) t h = rw (h.0, split-first sep cs t h.1) refl

pub until-cons :
    (sep c : ℕ) (s : Text) → is_char sep c ≡ false → until sep (c ∷ s) ≡ c ∷ until sep s
until-cons sep c s h = elim (Option-cases (split_once sep s)) [
  | inl absent ↦ rw (h, absent) refl
  | inr (parts, found) ↦ rw (h, found) refl
]

pub until-append :
    (sep : ℕ) (s t : Text) → HasNo (is_char sep) s → until sep (s ++ t) ≡ s ++ until sep t
until-append sep [] t h = refl
until-append sep (c ∷ cs) t h =
    until-cons sep c (cs ++ t) h.0 ∙ ap (λ x. c ∷ x) (until-append sep cs t h.1)

pub until_here : (sep : ℕ) (t : Text) → until sep (sep ∷ t) ≡ []
until_here sep t = ground arith
