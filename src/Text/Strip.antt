-- ===== src/Text/Strip.antt =====
-- `strip_prefix`, `strip_suffix` and the equality of texts, by what they find.
use grpc_bench.Prelude.{
  ℕ, ◌≡◌, ◌≢◌, ◌↔◌, refl, sym, ap, ◌∙◌, inl, inr, true, Option, none, some, [], ◌∷◌, ◌++◌, nat_beq,
  nat_beq_iff, Bool-cases, arith,
}
use grpc_bench.Text.{Text, text_beq, strip_prefix, strip_suffix}

pub strip_prefix-some : (p t s : Text) → (strip_prefix p t ≡ some s) ↔ (t ≡ p ++ s)
strip_prefix-some [] t s = (λ h. cc h, λ h. ap (λ x. some x) h)
strip_prefix-some (c ∷ p) [] s = (λ h. absurd (cc h), λ h. absurd (cc h))
strip_prefix-some (c ∷ p) (d ∷ t) s =
    let rest = strip_prefix-some p t s in
    elim (Bool-cases (nat_beq c d)) [
      | inl same ↦
          let e = (nat_beq_iff c d).0 same in
          (
            λ h. let tail = rest.0 (rw same at h) in cc (e, tail),
            λ h. rw same (let tail : t ≡ p ++ s = cc h in rest.1 tail),
          )
      | inr other ↦ (
        λ h. absurd (let h' = rw other at h in cc h'),
        λ h. absurd (let e : c ≡ d = cc h in cc (other, (nat_beq_iff c d).1 e)),
      )
    ]

not_ended : (x : ℕ) (s : Text) → [] ≢ s ++ x ∷ []
not_ended x [] h = cc h
not_ended x (y ∷ ys) h = cc h

one_left : (c x : ℕ) (s : Text) → c ∷ [] ≡ s ++ x ∷ [] → ([] ≡ s) × (c ≡ x)
one_left c x [] h = (refl, cc h)
one_left c x (y ∷ ys) h = absurd (let e : [] ≡ ys ++ x ∷ [] = cc h in not_ended x ys e)

tail_of :
    (x c d : ℕ) (cs s : Text)
    → c ∷ d ∷ cs ≡ s ++ x ∷ []
    → (ys : Text) × (s ≡ c ∷ ys) × (d ∷ cs ≡ ys ++ x ∷ [])
tail_of x c d cs [] h = absurd (cc h)
tail_of x c d cs (y ∷ ys) h = (ys, cc h, cc h)

strip_suffix-more :
    (x c d : ℕ) (cs s : Text) (o : Option Text)
    → strip_suffix x (d ∷ cs) ≡ o
    → ((r : Text) → (strip_suffix x (d ∷ cs) ≡ some r) ↔ (d ∷ cs ≡ r ++ x ∷ []))
    → (strip_suffix x (c ∷ d ∷ cs) ≡ some s) ↔ (c ∷ d ∷ cs ≡ s ++ x ∷ [])
strip_suffix-more x c d cs s none e rest = (
  λ h. absurd (let h' = rw e at h in cc h'),
  λ h.
      let (ys, made, more) = tail_of x c d cs s h in
      absurd (let found = (rest ys).1 more in cc (e, found)),
)
strip_suffix-more x c d cs s (some r) e rest = (
  λ h.
      let made : c ∷ r ≡ s = let h' = rw e at h in cc h' in
      ap (λ y. c ∷ y) ((rest r).0 e) ∙ ap (λ y. y ++ x ∷ []) made,
  λ h.
      let (ys, made, more) = tail_of x c d cs s h in
      rw ((rest ys).1 more) (ap (λ y. some y) (sym made)),
)

pub strip_suffix-some : (x : ℕ) (t s : Text) → (strip_suffix x t ≡ some s) ↔ (t ≡ s ++ x ∷ [])
strip_suffix-some x [] s = (λ h. absurd (cc h), λ h. absurd (not_ended x s h))
strip_suffix-some x (c ∷ []) s = elim (Bool-cases (nat_beq c x)) [
  | inl same ↦ (
    λ h.
        let e = (nat_beq_iff c x).0 same in
        let empty : [] ≡ s = let h' = rw same at h in cc h' in
        ap (λ y. y ∷ []) e ∙ ap (λ y. y ++ x ∷ []) empty,
    λ h. rw same (ap (λ y. some y) (one_left c x s h).0),
  )
  | inr other ↦ (
    λ h. absurd (let h' = rw other at h in cc h'),
    λ h. absurd (let e = (nat_beq_iff c x).1 (one_left c x s h).1 in cc (other, e)),
  )
]
strip_suffix-some x (c ∷ d ∷ cs) s =
    strip_suffix-more x c d cs s _ refl (strip_suffix-some x (d ∷ cs))

pub text_beq_iff : (a b : Text) → (text_beq a b ≡ true) ↔ (a ≡ b)
text_beq_iff [] [] = ground arith
text_beq_iff [] (y ∷ ys) = ground arith
text_beq_iff (x ∷ xs) [] = ground arith
text_beq_iff (x ∷ xs) (y ∷ ys) = ground (arith, nat_beq_iff x y, text_beq_iff xs ys)
