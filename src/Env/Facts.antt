-- ===== src/Env/Facts.antt =====
-- src/env.rs: what the files and commands say of the host, apart from how the probes read it.
use grpc_bench.Prelude.{
  ◌≡◌, ◌≢◌, ◌↔◌, ◌⊎◌, refl, ap, ◌∙◌, inl, inr, false, Option, none, some, List, [], ◌∷◌, ◌++◌,
  unwrap_or, Bool-cases,
}
use grpc_bench.Text.{Text, codes, text_beq, trim, lines, split_whitespace, strip_prefix}
use grpc_bench.Text.Strip.{strip_prefix-some, strip_suffix-some, text_beq_iff}
use grpc_bench.Env.{
  Reading, contents, not_found, failed, find_map, read_cpu_governor, without_bracket, active_policy,
  read_thp, says_yes, from_timedatectl, is_text,
}

abbrev pub bracketed : Text → Text
bracketed p = b'[' ∷ p ++ b']' ∷ []

abbrev pub IsBracketed : Text → Type 0
IsBracketed w = (p : Text) × (w ≡ bracketed p)

-- The policy is the first of the words that stands in brackets, or else the whole.
abbrev pub Chosen : Text → List Text → Text → Type 0
Chosen whole [] p = whole ≡ p
Chosen whole (w ∷ ws) p = (w ≡ bracketed p) ⊎ ((¬ IsBracketed w) × Chosen whole ws p)

abbrev pub HasPolicy : Reading → Text → Type 0
HasPolicy (contents s) p = Chosen (trim s) (split_whitespace s) p
HasPolicy (not_found e) p = ⊥
HasPolicy (failed e) p = ⊥

abbrev pub HasGovernor : Reading → Text → Type 0
HasGovernor (contents s) g = trim s ≡ g
HasGovernor (not_found e) g = ⊥
HasGovernor (failed e) g = ⊥

-- Some line is `NTPSynchronized=` and a value.
abbrev pub SaysSynchronized : List Text → Type 0
SaysSynchronized [] = ⊥
SaysSynchronized (l ∷ ls) =
    ((value : Text) × (l ≡ codes "NTPSynchronized=" ++ value)) ⊎ SaysSynchronized ls

abbrev pub KnowsClock : Option Text → Type 0
KnowsClock none = ⊥
KnowsClock (some out) = SaysSynchronized (lines out)

-- A token's policy.
abbrev bracket_of : Text → Option Text
bracket_of w = without_bracket (strip_prefix (b'[' ∷ []) w)

bracket_of-stripped :
    (w p : Text) (o : Option Text)
    → strip_prefix (b'[' ∷ []) w ≡ o
    → without_bracket o ≡ some p
    → w ≡ bracketed p
bracket_of-stripped w p none e h = absurd (cc h)
bracket_of-stripped w p (some t) e h =
    (strip_prefix-some (b'[' ∷ []) w t).0 e ∙ ap (λ y. b'[' ∷ y) ((strip_suffix-some b']' t p).0 h)

bracket_of-some : (w p : Text) → (bracket_of w ≡ some p) ↔ (w ≡ bracketed p)
bracket_of-some w p = (
  bracket_of-stripped w p _ refl,
  λ h.
      ap without_bracket ((strip_prefix-some (b'[' ∷ []) w (p ++ b']' ∷ [])).1 h)
      ∙ (strip_suffix-some b']' (p ++ b']' ∷ []) p).1 refl,
)

Chosen-step :
    (whole w p : Text) (ws : List Text) (o : Option Text)
    → bracket_of w ≡ o
    → ((unwrap_or (find_map bracket_of ws) whole ≡ p) ↔ Chosen whole ws p)
    → (unwrap_or (find_map bracket_of (w ∷ ws)) whole ≡ p) ↔ Chosen whole (w ∷ ws) p
Chosen-step whole w p ws none e rest =
    let plain : ¬ IsBracketed w =
      λ (q, is). let found = (bracket_of-some w q).1 is in cc (e, found) in
    (
      λ h. inr (plain, rest.0 (rw (unwrap_or, find_map, e) at h)),
      λ h. elim h [
        | inl is ↦ absurd (plain (p, is))
        | inr later ↦ rw (unwrap_or, find_map, e) (rest.1 later.1)
      ],
    )
Chosen-step whole w p ws (some q) e rest =
    let is = (bracket_of-some w q).0 e in
    (
      λ h. let same : q ≡ p = rw (unwrap_or, find_map, e) at h in inl (is ∙ ap bracketed same),
      λ h. elim h [
        | inl found ↦
            let again = (bracket_of-some w p).1 found in
            let same : q ≡ p = cc (e, again) in rw (unwrap_or, find_map, e) same
        | inr later ↦ absurd (later.0 (q, is))
      ],
    )

active_policy-Chosen :
    (whole p : Text) (ws : List Text)
    → (unwrap_or (find_map bracket_of ws) whole ≡ p) ↔ Chosen whole ws p
active_policy-Chosen whole p [] = (λ h. h, λ h. h)
active_policy-Chosen whole p (w ∷ ws) =
    Chosen-step whole w p ws _ refl (active_policy-Chosen whole p ws)

-- A test that fails.
differs : {P : Type 0} (a b : Text) → (a ≡ b) ↔ P → (text_beq a b ≡ false) ↔ (¬ P)
differs a b same = elim (Bool-cases (text_beq a b)) [
  | inl equal ↦ (λ h. absurd (cc (equal, h)), λ h. absurd (h (same.0 ((text_beq_iff a b).0 equal))))
  | inr other ↦ (λ h p. let e = (text_beq_iff a b).1 (same.1 p) in cc (e, other), λ h. other)
]

pub hugepage_test :
    (r : Reading) (p : Text) → (is_text (read_thp r []).0 p ≡ false) ↔ (¬ HasPolicy r p)
unfolding read_thp
hugepage_test (contents s) p =
    differs (active_policy s) p (active_policy-Chosen (trim s) p (split_whitespace s))
hugepage_test (not_found e) p = (λ h x. x, λ h. refl)
hugepage_test (failed e) p = (λ h x. x, λ h. refl)

pub governor_test :
    (r : Reading) (g : Text) → (is_text (read_cpu_governor r []).0 g ≡ false) ↔ (¬ HasGovernor r g)
unfolding read_cpu_governor
governor_test (contents s) g = differs (trim s) g (λ h. h, λ h. h)
governor_test (not_found e) g = (λ h x. x, λ h. refl)
governor_test (failed e) g = (λ h x. x, λ h. refl)

synchronized_step :
    (l : Text) (ls : List Text) (o : Option Text)
    → strip_prefix (codes "NTPSynchronized=") l ≡ o
    → ((find_map (strip_prefix (codes "NTPSynchronized=")) ls ≢ none) ↔ SaysSynchronized ls)
    → (find_map (strip_prefix (codes "NTPSynchronized=")) (l ∷ ls) ≢ none)
      ↔ SaysSynchronized (l ∷ ls)
synchronized_step l ls none e rest = (
  λ h. inr (rest.0 (λ x. h (rw e x))),
  λ h. elim h [
    | inl (value, is) ↦
        absurd
          (let found = (strip_prefix-some (codes "NTPSynchronized=") l value).1 is in cc (e, found))
    | inr later ↦ λ x. rest.1 later (rw e at x)
  ],
)
synchronized_step l ls (some value) e rest = (
  λ h. inl (value, (strip_prefix-some (codes "NTPSynchronized=") l value).0 e),
  λ h x. let x' = rw e at x in cc x',
)

find_map-SaysSynchronized :
    (ls : List Text)
    → (find_map (strip_prefix (codes "NTPSynchronized=")) ls ≢ none) ↔ SaysSynchronized ls
find_map-SaysSynchronized [] = (λ h. h refl, λ h. absurd h)
find_map-SaysSynchronized (l ∷ ls) = synchronized_step l ls _ refl (find_map-SaysSynchronized ls)

says_yes-none : (o : Option Text) → (says_yes o ≢ none) ↔ (o ≢ none)
says_yes-none none = (λ h x. h refl, λ h x. h refl)
says_yes-none (some v) = (λ h x. cc x, λ h x. cc x)

pub clock_test : (out : Option Text) → (from_timedatectl out ≢ none) ↔ KnowsClock out
clock_test none = (λ h. h refl, λ h. absurd h)
clock_test (some s) =
    let says = says_yes-none (find_map (strip_prefix (codes "NTPSynchronized=")) (lines s)) in
    let found = find_map-SaysSynchronized (lines s) in
    (λ h. found.0 (says.0 h), λ h. says.1 (found.1 h))
