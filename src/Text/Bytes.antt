-- ===== src/Text/Bytes.antt =====
-- Where a text can be cut at a number of bytes.
use grpc_bench.Prelude.{
  ℕ, ◌+◌, ◌-◌, ◌≤◌, ◌≡◌, refl, ap, inl, inr, true, false, none, some, [], ◌∷◌, ◌++◌, leb, nat_beq,
  Bool-cases, Option-cases, arith,
}
use grpc_bench.Text.{Text, len_utf8, byte_len, slice_to}

pub len_utf8-positive : (c : ℕ) → 1 ≤ len_utf8 c
len_utf8-positive c = ground arith

-- Some prefix of the text has that many bytes.
abbrev pub HasPrefix : ℕ → Text → Type 0
HasPrefix n s = (pre : Text) × (post : Text) × (s ≡ pre ++ post) × (byte_len pre ≡ n)

pub slice_to-append : (pre post : Text) → slice_to (byte_len pre) (pre ++ post) ≡ some pre
slice_to-append [] [] = refl
slice_to-append [] (c ∷ cs) = refl
slice_to-append (c ∷ cs) post =
    let some_bytes = len_utf8-positive c in
    let positive : nat_beq (len_utf8 c + byte_len cs) 0 ≡ false = ground (arith, some_bytes) in
    let fits : leb (len_utf8 c) (len_utf8 c + byte_len cs) ≡ true = ground arith in
    let less : len_utf8 c + byte_len cs - len_utf8 c ≡ byte_len cs = omega arith in
    rw (positive, fits, less, slice_to-append cs post) refl

pub slice_to-HasPrefix : (n : ℕ) (s t : Text) → slice_to n s ≡ some t → HasPrefix n s
slice_to-HasPrefix n [] t h = ([], [], refl, ground (arith, h))
slice_to-HasPrefix n (c ∷ cs) t h = elim (Bool-cases (nat_beq n 0)) [
  | inl zero_bytes ↦ ([], c ∷ cs, refl, ground (arith, zero_bytes))
  | inr more ↦ elim (Bool-cases (leb (len_utf8 c) n)) [
    | inr too_long ↦ absurd (cc (rw (more, too_long) at h))
    | inl fits ↦ elim (Option-cases (slice_to (n - len_utf8 c) cs)) [
      | inl no_rest ↦ absurd (cc (rw (more, fits, no_rest) at h))
      | inr (u, rest) ↦
          let (pre, post, e, bytes) = slice_to-HasPrefix (n - len_utf8 c) cs u rest in
          (c ∷ pre, post, ap (λ x. c ∷ x) e, ground (arith, fits, bytes))
    ]
  ]
]

pub slice_to-none : (n : ℕ) (s : Text) → slice_to n s ≡ none → ¬ HasPrefix n s
slice_to-none n s h = λ (pre, post, e, bytes).
    let found : slice_to n s ≡ some pre = rw (e, ← bytes) (slice_to-append pre post) in
    cc (h, found)
