-- ===== src/Collect/Affinity/RoundTrip.antt =====
-- src/collect/mod.rs: a layout written in the documented form is read back by `AffinitySpec::parse`.
use grpc_bench.Prelude.{
  ℕ, ◌≡◌, refl, sym, subst, ap, ◌∙◌, Bool, true, false, Option, none, some, List, [], ◌∷◌, ◌++◌,
  All, is_empty, contains, IsNodup,
}
use grpc_bench.Prelude.Result.{ok}
use grpc_bench.Text.{Text, codes, split, is_whitespace, eq_ignore_ascii_case}
use grpc_bench.Text.Trim.{HasNo, All-append, trim-HasNo}
use grpc_bench.Text.Split.{is_char}
use grpc_bench.Collect.Affinity.{AffinitySpec, is_unpinned}
use grpc_bench.Collect.Affinity.Layout.{IsNodup-IsFresh, first_duplicate-IsFresh}
use grpc_bench.Collect.Affinity.Parse.{option_list, flat, from_structured, parse}
use grpc_bench.Collect.Affinity.Render.{
  join, split-join, section, list_section, core_section, sections, render,
}
use grpc_bench.Collect.Affinity.Section.{
  FitU32, SkipsDigits, whitespace-SkipsDigits, colon-SkipsDigits, join-HasNo, section-HasNo,
}
use grpc_bench.Collect.Affinity.Reading.{
  ep1-IsRole, ep2-IsRole, proc-IsRole, ctrl-IsRole, IsNodup-split, layout, read_sections,
}

-- Tests that hold of no character of a section.
record SkipsSections (p : ℕ → Bool) : Type 0 where
  equals : p b'=' ≡ false
  comma : p b',' ≡ false
  skips_digits : SkipsDigits p
  in_ep1 : HasNo p (codes "ep1")
  in_ep2 : HasNo p (codes "ep2")
  in_proc : HasNo p (codes "proc")
  in_ctrl : HasNo p (codes "ctrl")

whitespace-SkipsSections : SkipsSections is_whitespace
whitespace-SkipsSections = record {
  equals = refl;
  comma = refl;
  skips_digits = whitespace-SkipsDigits;
  in_ep1 = ep1-IsRole.1;
  in_ep2 = ep2-IsRole.1;
  in_proc = proc-IsRole.1;
  in_ctrl = ctrl-IsRole.1;
}

colon-SkipsSections : SkipsSections (is_char b':')
colon-SkipsSections = record {
  equals = refl;
  comma = refl;
  skips_digits = colon-SkipsDigits;
  in_ep1 = ep1-IsRole.3;
  in_ep2 = ep2-IsRole.3;
  in_proc = proc-IsRole.3;
  in_ctrl = ctrl-IsRole.3;
}

module _ (p : ℕ → Bool) (k : SkipsSections p) where
  list_section-HasNo :
      (role : Text) (cs : List ℕ) → HasNo p role → All (HasNo p) (list_section role cs)
  list_section-HasNo role [] r = tt
  list_section-HasNo role (c ∷ cs) r =
      (section-HasNo p role (c ∷ cs) r k.equals k.comma k.skips_digits, tt)

  core_section-HasNo :
      (role : Text) (c : Option ℕ) → HasNo p role → All (HasNo p) (core_section role c)
  core_section-HasNo role none r = tt
  core_section-HasNo role (some c) r =
      (section-HasNo p role (c ∷ []) r k.equals k.comma k.skips_digits, tt)

  sections-HasNo : (spec : AffinitySpec) → All (HasNo p) (sections spec)
  sections-HasNo spec =
      All-append (HasNo p) _ _ (list_section-HasNo (codes "ep1") spec.endpoint1 k.in_ep1) (
        All-append (HasNo p) _ _ (list_section-HasNo (codes "ep2") spec.endpoint2 k.in_ep2) (
          All-append (HasNo p) _ _ (core_section-HasNo (codes "proc") spec.processor k.in_proc)
            (core_section-HasNo (codes "ctrl") spec.control k.in_ctrl)))

-- Sections that `AffinitySpec::parse` takes for the structured form.
record IsStructured (ts : List Text) : Type 0 where
  first : Text
  others : List Text
  begins : ts ≡ first ∷ others
  some_text : is_empty (join b':' ts) ≡ false
  no_auto : eq_ignore_ascii_case (join b':' ts) (codes "auto") ≡ false
  assigns : contains (join b':' ts) b'=' ≡ true

ep1-IsStructured : (cs : List ℕ) (ts : List Text) → IsStructured (section (codes "ep1") cs ∷ ts)
ep1-IsStructured cs [] = record {
  first = _;
  others = _;
  begins = refl;
  some_text = refl;
  no_auto = refl;
  assigns = refl;
}
ep1-IsStructured cs (t ∷ ts) = record {
  first = _;
  others = _;
  begins = refl;
  some_text = refl;
  no_auto = refl;
  assigns = refl;
}

ep2-IsStructured : (cs : List ℕ) (ts : List Text) → IsStructured (section (codes "ep2") cs ∷ ts)
ep2-IsStructured cs [] = record {
  first = _;
  others = _;
  begins = refl;
  some_text = refl;
  no_auto = refl;
  assigns = refl;
}
ep2-IsStructured cs (t ∷ ts) = record {
  first = _;
  others = _;
  begins = refl;
  some_text = refl;
  no_auto = refl;
  assigns = refl;
}

proc-IsStructured : (cs : List ℕ) (ts : List Text) → IsStructured (section (codes "proc") cs ∷ ts)
proc-IsStructured cs [] = record {
  first = _;
  others = _;
  begins = refl;
  some_text = refl;
  no_auto = refl;
  assigns = refl;
}
proc-IsStructured cs (t ∷ ts) = record {
  first = _;
  others = _;
  begins = refl;
  some_text = refl;
  no_auto = refl;
  assigns = refl;
}

ctrl-IsStructured : (cs : List ℕ) → IsStructured (section (codes "ctrl") cs ∷ [])
ctrl-IsStructured cs = record {
  first = _;
  others = _;
  begins = refl;
  some_text = refl;
  no_auto = refl;
  assigns = refl;
}

sections-IsStructured :
    (a b : List ℕ) (p c : Option ℕ)
    → is_unpinned (layout a b p c) ≡ false
    → IsStructured (sections (layout a b p c))
unfolding is_unpinned
sections-IsStructured (x ∷ xs) b p c h = ep1-IsStructured (x ∷ xs) _
sections-IsStructured [] (x ∷ xs) p c h = ep2-IsStructured (x ∷ xs) _
sections-IsStructured [] [] (some x) c h = proc-IsStructured (x ∷ []) _
sections-IsStructured [] [] none (some x) h = ctrl-IsStructured (x ∷ [])
sections-IsStructured [] [] none none h = absurd (cc)

-- The sections are those that the text splits into.
split-render :
    (spec : AffinitySpec) → IsStructured (sections spec) → split b':' (render spec) ≡ sections spec
split-render spec s =
    let apart = sections-HasNo (is_char b':') colon-SkipsSections spec in
    let apart' : All (HasNo (is_char b':')) (s.first ∷ s.others) =
      subst (All (HasNo (is_char b':'))) s.begins apart in
    let split_first = split-join b':' s.first s.others apart' in
    ap (λ ts. split b':' (join b':' ts)) s.begins ∙ split_first ∙ sym s.begins

from_structured-render :
    (a b : List ℕ) (p c : Option ℕ)
    → is_unpinned (layout a b p c) ≡ false
    → IsNodup (flat (layout a b p c))
    → FitU32 (flat (layout a b p c))
    → from_structured (render (layout a b p c)) ≡ ok (layout a b p c)
unfolding from_structured
from_structured-render a b p c pins u small =
    let spec = layout a b p c in
    let (abp, _) = IsNodup-split (a ++ b ++ option_list p) (option_list c) u in
    let (ab, _) = IsNodup-split (a ++ b) (option_list p) abp in
    let (nodup1, nodup2) = IsNodup-split a b ab in
    let read =
      read_sections a b p c (IsNodup-IsFresh [] a nodup1 (λ x here. refl))
        (IsNodup-IsFresh [] b nodup2 (λ x here. refl)) small in
    let unique =
      first_duplicate-IsFresh [] (flat spec) (IsNodup-IsFresh [] (flat spec) u (λ x here. refl)) in
    rw (from_structured, split-render spec (sections-IsStructured a b p c pins), read)
      (rw unique refl)

-- A layout that pins some core, and in which no core stands twice, is read back from the form that
-- the documentation gives for it, on any host.
pub parse-render :
    (nproc : Option ℕ) (spec : AffinitySpec)
    → is_unpinned spec ≡ false
    → IsNodup (flat spec)
    → FitU32 (flat spec)
    → parse nproc (render spec) ≡ ok spec
unfolding parse
parse-render nproc spec pins u small =
    let s = sections-IsStructured spec.endpoint1 spec.endpoint2 spec.processor spec.control pins in
    let whole = trim-HasNo (render spec) (
      join-HasNo is_whitespace b':' (sections spec) refl
        (sections-HasNo is_whitespace whitespace-SkipsSections spec)) in
    rw (parse, whole, s.some_text, s.no_auto, s.assigns)
      (from_structured-render spec.endpoint1 spec.endpoint2 spec.processor spec.control pins u
        small)
