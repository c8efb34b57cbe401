-- ===== src/Collect/Affinity/Reading.antt =====
-- src/collect/mod.rs: the loop over the sections of `--cpu-affinity`, on the documented form.
use grpc_bench.Prelude.{
  ℕ, ◌≡◌, refl, ◌∙◌, not, Option, none, some, List, [], ◌∷◌, ◌++◌, All, is_empty, is_some, IsNodup,
  contains-append, ◌≤◌, arith,
}
use grpc_bench.Prelude.Result.{ok}
use grpc_bench.Text.{Text, codes, u32_max}
use grpc_bench.Collect.Affinity.{AffinitySpec}
use grpc_bench.Collect.Affinity.Layout.{IsFresh}
use grpc_bench.Collect.Affinity.Parse.{Sections, no_sections, parse_sections, option_list, flat}
use grpc_bench.Collect.Affinity.Render.{list_section, core_section, sections}
use grpc_bench.Collect.Affinity.Section.{FitU32, IsRole, parse_section-section}

-- What the loop over the sections has read.
abbrev pub reached : List ℕ → List ℕ → Option ℕ → Option ℕ → Sections
reached a b p c = record {
  me = record { endpoint1 = a; endpoint2 = b; processor = p; control = c };
  seen_ep1 = not (is_empty a);
  seen_ep2 = not (is_empty b);
  seen_proc = is_some p;
  seen_ctrl = is_some c;
}

pub ep1-IsRole : IsRole (codes "ep1")
ep1-IsRole =
    (refl, (refl, (refl, (refl, tt))), (refl, (refl, (refl, tt))), (refl, (refl, (refl, tt))))

pub ep2-IsRole : IsRole (codes "ep2")
ep2-IsRole =
    (refl, (refl, (refl, (refl, tt))), (refl, (refl, (refl, tt))), (refl, (refl, (refl, tt))))

pub proc-IsRole : IsRole (codes "proc")
proc-IsRole = (
  refl,
  (refl, (refl, (refl, (refl, tt)))),
  (refl, (refl, (refl, (refl, tt)))),
  (refl, (refl, (refl, (refl, tt)))),
)

pub ctrl-IsRole : IsRole (codes "ctrl")
ctrl-IsRole = (
  refl,
  (refl, (refl, (refl, (refl, tt)))),
  (refl, (refl, (refl, (refl, tt)))),
  (refl, (refl, (refl, (refl, tt)))),
)

All-split : (P : ℕ → Type 0) (xs ys : List ℕ) → All P (xs ++ ys) → All P xs × All P ys
All-split P [] ys h = (tt, h)
All-split P (x ∷ xs) ys h = let (l, r) = All-split P xs ys h.1 in ((h.0, l), r)

pub IsNodup-split : (xs ys : List ℕ) → IsNodup (xs ++ ys) → IsNodup xs × IsNodup ys
IsNodup-split [] ys u = (tt, u)
IsNodup-split (x ∷ xs) ys u =
    let (l, r) = IsNodup-split xs ys u.1 in ((ground (arith, contains-append xs ys x), l), r)

module _ (rest : List Text) where
  read_endpoint1 :
      (a b : List ℕ) (p c : Option ℕ)
      → IsFresh [] a
      → FitU32 a
      → parse_sections (list_section (codes "ep1") a ++ rest) (reached [] b p c)
        ≡ parse_sections rest (reached a b p c)
  unfolding parse_sections
  read_endpoint1 [] b p c f small = refl
  read_endpoint1 (x ∷ xs) b p c f small =
      rw
        (
          parse_sections,
          parse_section-section (codes "ep1") x xs (reached [] b p c) ep1-IsRole f small,
        )
        refl

  read_endpoint2 :
      (a b : List ℕ) (p c : Option ℕ)
      → IsFresh [] b
      → FitU32 b
      → parse_sections (list_section (codes "ep2") b ++ rest) (reached a [] p c)
        ≡ parse_sections rest (reached a b p c)
  unfolding parse_sections
  read_endpoint2 a [] p c f small = refl
  read_endpoint2 a (x ∷ xs) p c f small =
      rw
        (
          parse_sections,
          parse_section-section (codes "ep2") x xs (reached a [] p c) ep2-IsRole f small,
        )
        refl

  read_processor :
      (a b : List ℕ) (p c : Option ℕ)
      → FitU32 (option_list p)
      → parse_sections (core_section (codes "proc") p ++ rest) (reached a b none c)
        ≡ parse_sections rest (reached a b p c)
  unfolding parse_sections
  read_processor a b none c small = refl
  read_processor a b (some x) c small =
      rw
        (
          parse_sections,
          parse_section-section (codes "proc") x [] (reached a b none c) proc-IsRole (refl, tt)
              small,
        )
        refl

read_control :
    (a b : List ℕ) (p c : Option ℕ)
    → FitU32 (option_list c)
    → parse_sections (core_section (codes "ctrl") c) (reached a b p none) ≡ ok (reached a b p c)
unfolding parse_sections
read_control a b p none small = refl
read_control a b p (some x) small =
    rw
      (
        parse_sections,
        parse_section-section (codes "ctrl") x [] (reached a b p none) ctrl-IsRole (refl, tt) small,
      )
      refl

module _ (a b : List ℕ) (p c : Option ℕ) where
  abbrev pub layout : AffinitySpec
  layout = record { endpoint1 = a; endpoint2 = b; processor = p; control = c }

  pub read_sections :
      IsFresh [] a
      → IsFresh [] b
      → FitU32 (flat layout)
      → parse_sections (sections layout) no_sections ≡ ok (reached a b p c)
  read_sections f g small =
      let (abp, fit_c) =
        All-split (λ n. n ≤ u32_max) (a ++ b ++ option_list p) (option_list c) small in
      let (ab, fit_p) = All-split (λ n. n ≤ u32_max) (a ++ b) (option_list p) abp in
      let (fit_a, fit_b) = All-split (λ n. n ≤ u32_max) a b ab in
      read_endpoint1 _ a [] none none f fit_a
      ∙ read_endpoint2 _ a b none none g fit_b
      ∙ read_processor _ a b p none fit_p
      ∙ read_control a b p c fit_c
