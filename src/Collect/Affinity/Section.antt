-- ===== src/Collect/Affinity/Section.antt =====
-- src/collect/mod.rs: one section of `--cpu-affinity`, written and read back.
use grpc_bench.Prelude.{
  ℕ, ◌≤◌, ◌≡◌, refl, sym, ap, ◌∙◌, Bool, false, List, [], ◌∷◌, ◌++◌, All, is_empty, push,
  append-nil, append_assoc, arith,
}
use grpc_bench.Prelude.Result.{ok}
use grpc_bench.Text.{Text, is_whitespace, trim, u32_max, digits}
use grpc_bench.Text.Trim.{HasNo, All-HasNo, All-append, trim-HasNo}
use grpc_bench.Text.Split.{is_char, split_once-first}
use grpc_bench.Text.Decimal.{IsDigit, digits-IsDigit, digits-cons, parse_u32-digits}
use grpc_bench.Collect.Affinity.Layout.{IsFresh}
use grpc_bench.Collect.Affinity.Parse.{
  parse_core, parse_cores, parse_core_list, Sections, set_role, parse_section, parse_assignment,
}
use grpc_bench.Collect.Affinity.Render.{join, split-join, core_texts, section}

-- Each core id is a `u32`.
abbrev pub FitU32 : List ℕ → Type 0
FitU32 = All (λ c. c ≤ u32_max)

-- Tests that no digit satisfies.
abbrev pub SkipsDigits : (ℕ → Bool) → Type 0
SkipsDigits p = (c : ℕ) → IsDigit c → p c ≡ false

pub whitespace-SkipsDigits : SkipsDigits is_whitespace
whitespace-SkipsDigits c d = ground (arith, d.0, d.1)

comma-SkipsDigits : SkipsDigits (is_char b',')
comma-SkipsDigits c d = ground (arith, d.0, d.1)

pub colon-SkipsDigits : SkipsDigits (is_char b':')
colon-SkipsDigits c d = ground (arith, d.0, d.1)

digits-HasNo : (p : ℕ → Bool) (n : ℕ) → SkipsDigits p → HasNo p (digits n)
digits-HasNo p n skips = All-HasNo p (digits n) skips (digits-IsDigit n)

core_texts-HasNo : (p : ℕ → Bool) (cs : List ℕ) → SkipsDigits p → All (HasNo p) (core_texts cs)
core_texts-HasNo p [] skips = tt
core_texts-HasNo p (c ∷ cs) skips = (digits-HasNo p c skips, core_texts-HasNo p cs skips)

pub join-HasNo :
    (p : ℕ → Bool) (sep : ℕ) (ts : List Text)
    → p sep ≡ false
    → All (HasNo p) ts
    → HasNo p (join sep ts)
join-HasNo p sep [] s h = tt
join-HasNo p sep (t ∷ []) s h = h.0
join-HasNo p sep (t ∷ u ∷ ts) s h =
    All-append (λ c. p c ≡ false) t (sep ∷ join sep (u ∷ ts)) h.0
      (s, join-HasNo p sep (u ∷ ts) s h.1)

-- One core.
parse_core-digits : (label : Text) (n : ℕ) → n ≤ u32_max → parse_core label (trim (digits n)) ≡ ok n
parse_core-digits label n small =
    let (c, cs, e) = digits-cons n in
    rw (trim-HasNo (digits n) (digits-HasNo is_whitespace n whitespace-SkipsDigits)) (
      let some_digit : is_empty (digits n) ≡ false = rw e refl in
      rw (some_digit, parse_u32-digits n small) refl)

-- The loop over the cores.
parse_cores-core_texts :
    (label : Text) (acc cs : List ℕ)
    → IsFresh acc cs
    → FitU32 cs
    → parse_cores label acc (core_texts cs) ≡ ok (acc ++ cs)
unfolding parse_cores
parse_cores-core_texts label acc [] f small = ap ok (sym (append-nil acc))
parse_cores-core_texts label acc (c ∷ cs) f small =
    rw (parse_cores, parse_core-digits label c small.0, f.0)
      (parse_cores-core_texts label (push acc c) cs f.1 small.1
        ∙ ap ok (append_assoc acc (c ∷ []) cs))

parse_core_list-join :
    (label : Text) (c : ℕ) (cs : List ℕ)
    → IsFresh [] (c ∷ cs)
    → FitU32 (c ∷ cs)
    → parse_core_list (join b',' (core_texts (c ∷ cs))) label ≡ ok (c ∷ cs)
parse_core_list-join label c cs f small =
    rw
      (split-join b',' (digits c) (core_texts cs)
        (core_texts-HasNo (is_char b',') (c ∷ cs) comma-SkipsDigits))
      (parse_cores-core_texts label [] (c ∷ cs) f small)

-- A role's name: not empty, and none of its characters is one that separates.
abbrev pub IsRole : Text → Type 0
IsRole role =
    (is_empty role ≡ false)
    × HasNo is_whitespace role
    × HasNo (is_char b'=') role
    × HasNo (is_char b':') role

pub section-HasNo :
    (p : ℕ → Bool) (role : Text) (cs : List ℕ)
    → HasNo p role
    → p b'=' ≡ false
    → p b',' ≡ false
    → SkipsDigits p
    → HasNo p (section role cs)
section-HasNo p role cs r equals comma skips =
    All-append (λ c. p c ≡ false) role (b'=' ∷ join b',' (core_texts cs)) r
      (equals, join-HasNo p b',' (core_texts cs) comma (core_texts-HasNo p cs skips))

section-nonempty :
    (role : Text) (cs : List ℕ) → is_empty role ≡ false → is_empty (section role cs) ≡ false
section-nonempty [] cs h = absurd (cc)
section-nonempty (r ∷ rs) cs h = refl

value-HasNo : (c : ℕ) (cs : List ℕ) → HasNo is_whitespace (join b',' (core_texts (c ∷ cs)))
value-HasNo c cs =
    join-HasNo is_whitespace b',' (core_texts (c ∷ cs)) refl
      (core_texts-HasNo is_whitespace (c ∷ cs) whitespace-SkipsDigits)

-- One section.
pub parse_section-section :
    (role : Text) (c : ℕ) (cs : List ℕ) (s : Sections)
    → IsRole role
    → IsFresh [] (c ∷ cs)
    → FitU32 (c ∷ cs)
    → parse_section (section role (c ∷ cs)) s ≡ set_role role s (c ∷ cs)
unfolding parse_section parse_assignment
parse_section-section role c cs s r f small =
    let value = join b',' (core_texts (c ∷ cs)) in
    let whole =
      trim-HasNo (section role (c ∷ cs))
        (section-HasNo is_whitespace role (c ∷ cs) r.1 refl refl whitespace-SkipsDigits) in
    rw
      (
        parse_section,
        whole,
        section-nonempty role (c ∷ cs) r.0,
        split_once-first b'=' role value r.2,
      )
      (rw (trim-HasNo role r.1, trim-HasNo value (value-HasNo c cs))
        (rw (parse_assignment, parse_core_list-join role c cs f small) refl))
