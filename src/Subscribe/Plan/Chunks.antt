-- ===== src/Subscribe/Plan/Chunks.antt =====
-- `slice::chunks` and the fuel of its model (src/subscribe/mod.rs).
use grpc_bench.Prelude.{
  ℕ, zero, suc, ◌≤◌, ◌≡◌, refl, ap, ◌∙◌, List, [], ◌∷◌, ◌++◌, length, take, drop, All, arith,
  length-take, length-drop,
}
use grpc_bench.Subscribe.Plan.{chunks, chunks_fuel}

module _ {A : Type 0} where
  abbrev pub concat : List (List A) → List A
  concat [] = []
  concat (xs ∷ xss) = xs ++ concat xss

  take-drop : (n : ℕ) (xs : List A) → take n xs ++ drop n xs ≡ xs
  take-drop zero xs = refl
  take-drop (suc n) [] = refl
  take-drop (suc n) (x ∷ xs) = ap (λ ys. x ∷ ys) (take-drop n xs)

  concat-chunks_fuel :
      (fuel chunk_size : ℕ) (xs : List A)
      → 1 ≤ chunk_size
      → length xs ≤ fuel
      → concat (chunks_fuel fuel chunk_size xs) ≡ xs
  unfolding chunks_fuel
  concat-chunks_fuel zero chunk_size [] h enough = refl
  concat-chunks_fuel zero chunk_size (x ∷ xs) h enough = absurd (omega (arith, enough))
  concat-chunks_fuel (suc fuel) chunk_size [] h enough = refl
  concat-chunks_fuel (suc fuel) chunk_size (x ∷ xs) h enough =
      ap (λ ys. take chunk_size (x ∷ xs) ++ ys)
        (concat-chunks_fuel fuel chunk_size (drop chunk_size (x ∷ xs)) h
          (rw length-drop (omega (arith, h, enough))))
      ∙ take-drop chunk_size (x ∷ xs)

  pub chunks_fuel-length :
      (fuel chunk_size : ℕ) (xs : List A)
      → 1 ≤ chunk_size
      → All (λ c. (1 ≤ length c) × (length c ≤ chunk_size)) (chunks_fuel fuel chunk_size xs)
  unfolding chunks_fuel
  chunks_fuel-length zero chunk_size xs h = tt
  chunks_fuel-length (suc fuel) chunk_size [] h = tt
  chunks_fuel-length (suc fuel) chunk_size (x ∷ xs) h = (
    (rw length-take (omega (arith, h)), rw length-take (omega arith)),
    chunks_fuel-length fuel chunk_size (drop chunk_size (x ∷ xs)) h,
  )

  -- The chunks of a list, of a positive size, are not empty and not longer than the size, and put
  -- together again, in their order, they are the list.
  pub chunks_cover :
      (chunk_size : ℕ) (xs : List A)
      → 1 ≤ chunk_size
      → (concat (chunks chunk_size xs) ≡ xs)
        × All (λ c. (1 ≤ length c) × (length c ≤ chunk_size)) (chunks chunk_size xs)
  unfolding chunks
  chunks_cover chunk_size xs h = (
    concat-chunks_fuel (length xs) chunk_size xs h (omega arith),
    chunks_fuel-length (length xs) chunk_size xs h,
  )
