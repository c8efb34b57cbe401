-- ===== src/Collect/Affinity/Render.antt =====
-- The documented form of `--cpu-affinity`, such as `ep1=2,3:ep2=4:proc=10:ctrl=11`.
use grpc_bench.Prelude.{ℕ, ◌≡◌, refl, Option, none, some, List, [], ◌∷◌, ◌++◌, All}
use grpc_bench.Text.{Text, codes, split, digits}
use grpc_bench.Text.Trim.{HasNo}
use grpc_bench.Text.Split.{is_char, split-HasNo, split-first}
use grpc_bench.Collect.Affinity.{AffinitySpec}

abbrev pub join : ℕ → List Text → Text
join sep [] = []
join sep (s ∷ []) = s
join sep (s ∷ t ∷ ts) = s ++ sep ∷ join sep (t ∷ ts)

pub split-join :
    (sep : ℕ) (s : Text) (ts : List Text)
    → All (HasNo (is_char sep)) (s ∷ ts)
    → split sep (join sep (s ∷ ts)) ≡ s ∷ ts
split-join sep s [] h = split-HasNo sep s h.0
split-join sep s (t ∷ ts) h =
    rw (split-first sep s (join sep (t ∷ ts)) h.0, split-join sep t ts h.1) refl

abbrev pub core_texts : List ℕ → List Text
core_texts [] = []
core_texts (c ∷ cs) = digits c ∷ core_texts cs

-- `role=` and the cores.
abbrev pub section : Text → List ℕ → Text
section role cores = role ++ b'=' ∷ join b',' (core_texts cores)

-- A role with no core has no section.
abbrev pub list_section : Text → List ℕ → List Text
list_section role [] = []
list_section role (c ∷ cs) = section role (c ∷ cs) ∷ []

abbrev pub core_section : Text → Option ℕ → List Text
core_section role none = []
core_section role (some c) = section role (c ∷ []) ∷ []

abbrev pub sections : AffinitySpec → List Text
sections spec =
    list_section (codes "ep1") spec.endpoint1
    ++ (list_section (codes "ep2") spec.endpoint2
        ++ (core_section (codes "proc") spec.processor ++ core_section (codes "ctrl") spec.control))

abbrev pub render : AffinitySpec → Text
render spec = join b':' (sections spec)
