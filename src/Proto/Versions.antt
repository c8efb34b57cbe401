-- ===== src/Proto/Versions.antt =====
-- src/proto.rs: the print of a version is read back.
use grpc_bench.Prelude.{
  ℕ, ◌≤◌, ◌≡◌, refl, sym, ap, subst, ◌∙◌, ◌⊎◌, inl, inr, false, [], ◌∷◌, ◌++◌, append-nil,
  append_assoc, All, nat_beq, arith,
}
use grpc_bench.Prelude.Result.{ok}
use grpc_bench.Text.{Text, is_whitespace, trim, trim_end, until, digits, u32_max}
use grpc_bench.Text.Trim.{HasNo, All-HasNo, All-append, trim_end-append, trim-append}
use grpc_bench.Text.Split.{is_char, split_once-first, until-cons, until-append, until_here}
use grpc_bench.Text.Decimal.{IsDigit, digits-IsDigit, digits-cons, parse_u32-digits}
use grpc_bench.Proto.{SemVer, display, patch_str, strip_v, parse_semver}

abbrev pub IsSemVer : SemVer → Type 0
IsSemVer v = (v.major ≤ u32_max) × (v.minor ≤ u32_max) × (v.patch ≤ u32_max)

-- Nothing, a pre-release tag or build metadata.
abbrev pub IsTag : Text → Type 0
IsTag [] = Unit
IsTag (c ∷ cs) = (c ≡ b'-') ⊎ (c ≡ b'+')

digit-is_whitespace : (c : ℕ) → IsDigit c → is_whitespace c ≡ false
digit-is_whitespace c d = ground arith

digits-HasNo :
    (sep n : ℕ) → ((c : ℕ) → IsDigit c → is_char sep c ≡ false) → HasNo (is_char sep) (digits n)
digits-HasNo sep n h = All-HasNo (is_char sep) (digits n) h (digits-IsDigit n)

trim_end-IsTag : (s : Text) → IsTag s → IsTag (trim_end is_whitespace s)
trim_end-IsTag [] t = tt
trim_end-IsTag (c ∷ cs) t =
    let visible : is_whitespace c ≡ false = elim t [
      | inl dash ↦ ground (arith, dash)
      | inr plus ↦ ground (arith, plus)
    ] in
    subst IsTag (sym (trim_end-append is_whitespace (c ∷ []) cs (visible, tt))) t

patch_str-IsTag : (tag : Text) → IsTag tag → patch_str tag ≡ []
patch_str-IsTag [] t = refl
patch_str-IsTag (c ∷ cs) (inl dash) =
    let other : is_char b'+' c ≡ false = rw dash refl in
    ap (until b'-') (until-cons b'+' c cs other) ∙ rw dash (until_here b'-' (until b'+' cs))
patch_str-IsTag (c ∷ cs) (inr plus) =
    let here : until b'+' (c ∷ cs) ≡ [] = rw plus (until_here b'+' cs) in ap (until b'-') here

-- The patch component is what stands before its tag.
patch_str-digits : (n : ℕ) (tag : Text) → IsTag tag → patch_str (digits n ++ tag) ≡ digits n
patch_str-digits n tag t =
    let no_plus = digits-HasNo b'+' n (λ c d. ground arith) in
    let no_dash = digits-HasNo b'-' n (λ c d. ground arith) in
    ap (until b'-') (until-append b'+' (digits n) tag no_plus)
    ∙ until-append b'-' (digits n) (until b'+' tag) no_dash
    ∙ ap (λ x. digits n ++ x) (patch_str-IsTag tag t)
    ∙ append-nil (digits n)

no_dot : (n : ℕ) → HasNo (is_char b'.') (digits n)
no_dot n = digits-HasNo b'.' n (λ c d. ground arith)

-- The parse, once the text is trimmed and its prefix gone.
parse_trimmed :
    (v : SemVer) (raw tag : Text)
    → IsSemVer v
    → IsTag tag
    → strip_v (trim raw)
      ≡ digits v.major ++ b'.' ∷ (digits v.minor ++ b'.' ∷ (digits v.patch ++ tag))
    → parse_semver raw ≡ ok v
unfolding parse_semver
parse_trimmed v raw tag (a, b, c) t stripped =
    let minor_on = digits v.minor ++ b'.' ∷ (digits v.patch ++ tag) in
    rw
      (
        parse_semver,
        stripped,
        split_once-first b'.' (digits v.major) minor_on (no_dot v.major),
        split_once-first b'.' (digits v.minor) (digits v.patch ++ tag) (no_dot v.minor),
        parse_u32-digits v.major a,
        parse_u32-digits v.minor b,
        patch_str-digits v.patch tag t,
        parse_u32-digits v.patch c,
      )
      refl

abbrev dotted : SemVer → Text → Text
dotted v tag = digits v.major ++ b'.' ∷ (digits v.minor ++ b'.' ∷ (digits v.patch ++ tag))

display-append : (v : SemVer) (tag : Text) → display v ++ tag ≡ dotted v tag
unfolding display
display-append v tag = simp append_assoc refl

-- A printed version begins with a digit and has no white space.
display-cons : (v : SemVer) → (c : ℕ) × (cs : Text) × (display v ≡ c ∷ cs) × IsDigit c
unfolding display
display-cons v =
    let (c, cs, e) = digits-cons v.major in
    let all : All IsDigit (c ∷ cs) = subst (All IsDigit) e (digits-IsDigit v.major) in
    (c, cs ++ b'.' ∷ (digits v.minor ++ b'.' ∷ digits v.patch), rw e refl, all.0)

digits-visible : (n : ℕ) → HasNo is_whitespace (digits n)
digits-visible n = All-HasNo is_whitespace (digits n) digit-is_whitespace (digits-IsDigit n)

display-visible : (v : SemVer) → HasNo is_whitespace (display v)
unfolding display
display-visible v =
    let invisible = λ (c : ℕ). is_whitespace c ≡ false in
    All-append invisible (digits v.major) _ (digits-visible v.major) (
      refl,
      All-append invisible (digits v.minor) _ (digits-visible v.minor)
          (refl, digits-visible v.patch),
    )

strip_v-digit : (s : Text) (c : ℕ) (cs : Text) → s ≡ c ∷ cs → IsDigit c → strip_v s ≡ s
strip_v-digit [] c cs e d = absurd (cc)
strip_v-digit (x ∷ s) c cs e d =
    let same : x ≡ c = cc in
    let other : nat_beq b'v' x ≡ false = ground (arith, same, d) in rw other refl

-- Every version of three `u32`s is read back from its print, with a `v` before it or not, and
-- whatever pre-release tag or build metadata follows it.
pub parse_semver-display :
    (v : SemVer) (tag : Text)
    → IsSemVer v
    → IsTag tag
    → (parse_semver (display v ++ tag) ≡ ok v) × (parse_semver (b'v' ∷ display v ++ tag) ≡ ok v)
parse_semver-display v tag small t =
    let (c, cs, e, d) = display-cons v in
    let tag' = trim_end is_whitespace tag in
    let t' = trim_end-IsTag tag t in
    (
      parse_trimmed v (display v ++ tag) tag' small t' (
          ap strip_v (trim-append (display v) tag c cs e (display-visible v))
          ∙ strip_v-digit (display v ++ tag') c (cs ++ tag') (rw e refl) d
          ∙ display-append v tag'),
      parse_trimmed v (b'v' ∷ display v ++ tag) tag' small t' (
          ap strip_v
            (trim-append (b'v' ∷ display v) tag b'v' (display v) refl (refl, display-visible v))
          ∙ display-append v tag'),
    )
