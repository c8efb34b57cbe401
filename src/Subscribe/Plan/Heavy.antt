-- ===== src/Subscribe/Plan/Heavy.antt =====
-- The account filters of a plan (src/subscribe/mod.rs).
use Prim.Native.String.{String}
use grpc_bench.Prelude.{ℕ, ◌≤◌, ◌≡◌, ◌⊎◌, false, List, [], ◌∷◌, length, All}
use grpc_bench.Prelude.HashMap.{HashMap}
use grpc_bench.Subscribe.Requests.{FilterAccounts, is_known_heavy_program}

-- No program of the list is known to be heavy.
abbrev pub AllLight : List String → Type 0
AllLight ps = All (λ p. is_known_heavy_program p ≡ false) ps

-- One program, or light ones, not more than the chunk size.
abbrev pub IsAllowed : ℕ → List String → Type 0
IsAllowed chunk_size ps = (length ps ≡ 1) ⊎ (AllLight ps × (length ps ≤ chunk_size))

-- Each account filter of a request names allowed programs.
abbrev pub FiltersAllowed : ℕ → HashMap String FilterAccounts → Type 0
FiltersAllowed n [] = Unit
FiltersAllowed n ((name, filter) ∷ fs) = IsAllowed n filter.owner × FiltersAllowed n fs
