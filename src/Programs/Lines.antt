-- ===== src/Programs/Lines.antt =====
-- What the lines of a program list of src/programs.rs say, and that they are read as such.
use grpc_bench.Prelude.{
  ℕ, ◌≡◌, ◌≢◌, ◌↔◌, refl, sym, subst, ap, ◌∙◌, Bool, true, false, ◌||◌, Option, none, some, List,
  [], ◌∷◌, is_empty, length, nat_beq, nat_beq_iff, if◌then◌else◌, All, push, arith,
}
use grpc_bench.Prelude.Eq.{◌==◌, nat_eq, list_eq}
use grpc_bench.Prelude.Result.{bind-ok, ok-injective, Result, ok, err, ◌>>=◌, ok_or}
use grpc_bench.Text.{Text, trim, trim_end, split}
use grpc_bench.Programs.{
  Base58, ProgramEntry, ProgramsError, RowReason, missing_short_name, missing_program_id, filled,
  validate_program_id, parse_columns, parse_row, parse_line, is_line_end, starts_with_hash, at_line,
  has_name, has_id,
}
use grpc_bench.Programs.Rows.{filled-ok, check_length-ok, at_line-ok, kept_row}

-- The entry of a name, an id and a description.
abbrev pub Fields : Base58 → Text → Text → Text → ProgramEntry → Type 0
Fields decode name id description e =
    (record { short_name = trim name; program_id = trim id; description = description } ≡ e)
    × (is_empty (trim name) ≡ false)
    × (is_empty (trim id) ≡ false)
    × ((bytes : List ℕ) × (decode (trim id) ≡ some bytes) × (length bytes ≡ 32))

-- A row has two or three columns.
abbrev pub Columns : Base58 → List Text → ProgramEntry → Type 0
Columns decode (name ∷ id ∷ []) e = Fields decode name id [] e
Columns decode (name ∷ id ∷ description ∷ []) e = Fields decode name id (trim description) e
Columns decode _ e = ⊥

-- A line without its end: nothing for a blank one and for a comment, else the entry of its columns,
-- which tabs separate.
abbrev pub SaysText : Base58 → Text → Option ProgramEntry → Type 0
SaysText decode [] entry = entry ≡ none
SaysText decode (c ∷ cs) none = c ≡ b'#'
SaysText decode (c ∷ cs) (some e) = (c ≢ b'#') × Columns decode (split b'\t' (c ∷ cs)) e

-- An unreadable line says nothing of the kind.
abbrev pub SaysLine : Base58 → Option Text → Option ProgramEntry → Type 0
SaysLine decode none entry = ⊥
SaysLine decode (some s) entry = SaysText decode (trim_end is_line_end s) entry

abbrev pub cons_some : Option ProgramEntry → List ProgramEntry → List ProgramEntry
cons_some none es = es
cons_some (some e) es = e ∷ es

-- The lines say the entries, in order.
abbrev pub SayLines : Base58 → List (Option Text) → List ProgramEntry → Type 0
SayLines decode [] es = [] ≡ es
SayLines decode (line ∷ rest) es =
    (entry : Option ProgramEntry) × (later : List ProgramEntry) × SaysLine decode line entry
    × SayLines decode rest later
    × (cons_some entry later ≡ es)

-- No entry has the name or the id of an earlier one.
abbrev pub AreApart : List ProgramEntry → List ProgramEntry → Type 0
AreApart earlier [] = Unit
AreApart earlier (e ∷ es) =
    All (λ (x : ProgramEntry). x.short_name ≢ e.short_name) earlier
    × All (λ (x : ProgramEntry). x.program_id ≢ e.program_id) earlier
    × AreApart (push earlier e) es

no_match :
    {P Q : Type 0} (here there : Bool)
    → (here ≡ true) ↔ P
    → (there ≡ false) ↔ Q
    → ((here || there) ≡ false) ↔ ((¬ P) × Q)
no_match true there p q = (λ h. absurd (cc h), λ h. absurd (h.0 (p.0 refl)))
no_match false there p q = (λ h. (λ x. cc (p.1 x), q.0 h), λ h. q.1 (h.1))

pub has_name-false :
    (es : List ProgramEntry) (name : Text)
    → (has_name es name ≡ false) ↔ All (λ (x : ProgramEntry). x.short_name ≢ name) es
has_name-false [] name = (λ h. tt, λ h. refl)
has_name-false (x ∷ es) name =
    no_match (x.short_name == name) (has_name es name) (list_eq.decides x.short_name name)
      (has_name-false es name)

pub has_id-false :
    (es : List ProgramEntry) (id : Text)
    → (has_id es id ≡ false) ↔ All (λ (x : ProgramEntry). x.program_id ≢ id) es
has_id-false [] id = (λ h. tt, λ h. refl)
has_id-false (x ∷ es) id =
    no_match (x.program_id == id) (has_id es id) (list_eq.decides x.program_id id)
      (has_id-false es id)

filled-some : (t s : Text) (reason : RowReason) → ok_or (filled (some t)) reason ≡ ok s → trim t ≡ s
filled-some t s reason h = ground (arith, h)

skips :
    (skip : Bool) (r : Result ProgramsError ProgramEntry)
    → ((if skip then ok none else (r >>= λ e. ok (some e))) ≡ ok none) ↔ (skip ≡ true)
skips true r = (λ h. refl, λ h. refl)
skips false (ok e) = (λ h. absurd (cc h), λ h. absurd (cc h))
skips false (err error) = (λ h. absurd (cc h), λ h. absurd (cc h))

keeps :
    (skip : Bool) (r : Result ProgramsError ProgramEntry) (e : ProgramEntry)
    → ((if skip then ok none else (r >>= λ x. ok (some x))) ≡ ok (some e))
      ↔ ((skip ≡ false) × (r ≡ ok e))
keeps true r e = (λ h. absurd (cc h), λ h. absurd (cc (h.0)))
keeps false (ok x) e =
    (λ h. (refl, kept_row false (ok x) e h), λ h. ap (λ x. ok (some x)) (ok-injective h.1))
keeps false (err error) e = (λ h. absurd (cc h), λ h. absurd (cc (h.1)))

not_hash : (c : ℕ) → (nat_beq c b'#' ≡ false) ↔ (c ≢ b'#')
not_hash c = ground arith

module _ (decode : Base58) where
  -- A row of two or three columns, as `parse_columns` computes.
  abbrev parse_fields : Text → Text → Text → Result RowReason ProgramEntry
  parse_fields name id description = do
    n ← ok_or (filled (some name)) missing_short_name
    raw ← ok_or (filled (some id)) missing_program_id
    third ← ok description
    i ← validate_program_id decode raw
    ok (record { short_name = n; program_id = i; description = third })

  parse_fields-Fields :
      (name id description : Text) (e : ProgramEntry)
      → parse_fields name id description ≡ ok e
      → Fields decode name id description e
  unfolding validate_program_id
  parse_fields-Fields name id description e h =
      let (n, p, h1) = bind-ok (ok_or (filled (some name)) missing_short_name) _ e h in
      let (raw, q, h2) = bind-ok (ok_or (filled (some id)) missing_program_id) _ e h1 in
      let (i, v, h3) = bind-ok (validate_program_id decode raw) _ e h2 in
      let checked = check_length-ok (decode raw) raw i v in
      let (bytes, decoded, long) = checked.1 in
      let same_name = filled-some name n missing_short_name p in
      let same_id = filled-some id raw missing_program_id q in
      let made = ok-injective h3 in
      (
        (λ k. record {
          short_name = same_name k;
          program_id = (same_id ∙ sym checked.0) k;
          description = description;
        })
            ∙ made,
        subst (λ x. is_empty x ≡ false) (sym same_name) (filled-ok (some name) _ n p),
        subst (λ x. is_empty x ≡ false) (sym same_id) (filled-ok (some id) _ raw q),
        (bytes, ap decode same_id ∙ decoded, long),
      )

  Fields-parse_fields :
      (name id description : Text) (e : ProgramEntry)
      → Fields decode name id description e
      → parse_fields name id description ≡ ok e
  unfolding validate_program_id
  Fields-parse_fields name id description e (made, named, has, (bytes, decoded, long)) =
      rw (named, has, decoded, long) (ap (λ x. ok x) made)

  parse_columns-Columns :
      (parts : List Text) (e : ProgramEntry)
      → (parse_columns decode parts ≡ ok e) ↔ Columns decode parts e
  unfolding parse_columns
  parse_columns-Columns [] e = (λ h. absurd (cc h), λ h. absurd h)
  parse_columns-Columns (name ∷ []) e = (
    λ h.
        let (n, p, h1) = bind-ok (ok_or (filled (some name)) missing_short_name) _ e h in
        absurd (cc h1),
    λ h. absurd h,
  )
  parse_columns-Columns (name ∷ id ∷ []) e =
      (parse_fields-Fields name id [] e, Fields-parse_fields name id [] e)
  parse_columns-Columns (name ∷ id ∷ d ∷ []) e =
      (parse_fields-Fields name id (trim d) e, Fields-parse_fields name id (trim d) e)
  parse_columns-Columns (name ∷ id ∷ d ∷ x ∷ rest) e = (
    λ h.
        let (n, p, h1) = bind-ok (ok_or (filled (some name)) missing_short_name) _ e h in
        let (raw, q, h2) = bind-ok (ok_or (filled (some id)) missing_program_id) _ e h1 in
        absurd (cc h2),
    λ h. absurd h,
  )

  skipped_or_row :
      (line : ℕ) (t : Text) (entry : Option ProgramEntry)
      → ((if is_empty t || starts_with_hash t
            then ok none
            else (parse_row decode line t >>= λ e. ok (some e)))
          ≡ ok entry)
        ↔ SaysText decode t entry
  unfolding parse_row
  skipped_or_row line [] entry = (λ h. sym (ok-injective h), λ h. ap (λ x. ok x) (sym h))
  skipped_or_row line (c ∷ cs) none =
      let test = skips (nat_beq c b'#') (parse_row decode line (c ∷ cs)) in
      let same = nat_beq_iff c b'#' in (λ h. same.0 (test.0 h), λ h. test.1 (same.1 h))
  skipped_or_row line (c ∷ cs) (some e) =
      let columns = parse_columns decode (split b'\t' (c ∷ cs)) in
      let test = keeps (nat_beq c b'#') (at_line line columns) e in
      let other = not_hash c in
      let row = parse_columns-Columns (split b'\t' (c ∷ cs)) e in
      (
        λ h. let kept = test.0 h in (other.0 kept.0, row.0 (at_line-ok line columns e kept.1)),
        λ h. test.1 (other.1 h.0, ap (at_line line) (row.1 h.1)),
      )

  pub parse_line-SaysLine :
      (line : ℕ) (raw : Option Text) (entry : Option ProgramEntry)
      → (parse_line decode line raw ≡ ok entry) ↔ SaysLine decode raw entry
  unfolding parse_line
  parse_line-SaysLine line none entry = (λ h. absurd (cc h), λ h. absurd h)
  parse_line-SaysLine line (some raw) entry = skipped_or_row line (trim_end is_line_end raw) entry
