-- ===== src/Text/Trim.antt =====
-- What trimming leaves of a text, and texts without some characters.
use grpc_bench.Prelude.{ℕ, ◌≡◌, refl, Bool, false, List, [], ◌∷◌, ◌++◌, All, arith}
use grpc_bench.Text.{Text, is_whitespace, trim_start, trim_end, trim}

-- No character of the text satisfies `p`.
abbrev pub HasNo : (ℕ → Bool) → Text → Type 0
HasNo p s = All (λ c. p c ≡ false) s

pub All-HasNo :
    {P : ℕ → Type 0}
    → (p : ℕ → Bool) (s : Text) → ((c : ℕ) → P c → p c ≡ false)
    → All P s
    → HasNo p s
All-HasNo p [] h a = tt
All-HasNo p (c ∷ cs) h a = (h c a.0, All-HasNo p cs h a.1)

pub All-append : {A : Type 0} → (P : A → Type 0) (s t : List A) → All P s → All P t → All P (s ++ t)
All-append P [] t a b = b
All-append P (c ∷ cs) t a b = (a.0, All-append P cs t a.1 b)

pub trim_start-HasNo :
    (p : ℕ → Bool) (c : ℕ) (cs : Text) → p c ≡ false → trim_start p (c ∷ cs) ≡ c ∷ cs
trim_start-HasNo p c cs h = rw h refl

pub trim_end-append :
    (p : ℕ → Bool) (s t : Text) → HasNo p s → trim_end p (s ++ t) ≡ s ++ trim_end p t
trim_end-append p [] t h = refl
trim_end-append p (c ∷ cs) t h = let rest = trim_end-append p cs t h.1 in ground (arith, h.0, rest)

pub trim_end-HasNo : (p : ℕ → Bool) (s : Text) → HasNo p s → trim_end p s ≡ s
trim_end-HasNo p [] h = refl
trim_end-HasNo p (c ∷ cs) h = ground (arith, h.0, trim_end-HasNo p cs h.1)

-- A text with no white space is trimmed to itself.
pub trim-HasNo : (s : Text) → HasNo is_whitespace s → trim s ≡ s
trim-HasNo [] h = refl
trim-HasNo (c ∷ cs) h =
    rw (trim_start-HasNo is_whitespace c cs h.0) (trim_end-HasNo is_whitespace (c ∷ cs) h)

-- A text that begins with one that is not empty and has no white space is trimmed at its end only.
pub trim-append :
    (s t : Text) (c : ℕ) (cs : Text)
    → s ≡ c ∷ cs
    → HasNo is_whitespace s
    → trim (s ++ t) ≡ s ++ trim_end is_whitespace t
trim-append [] t c cs e h = absurd (cc)
trim-append (x ∷ s) t c cs e h =
    rw (trim_start-HasNo is_whitespace x (s ++ t) h.0) (trim_end-append is_whitespace (x ∷ s) t h)
