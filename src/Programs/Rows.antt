-- ===== src/Programs/Rows.antt =====
-- What a row of src/programs.rs must have to parse.
use grpc_bench.Prelude.{
  ℕ, ◌≡◌, refl, subst, ap, ◌∙◌, Bool, true, false, ◌||◌, Option, none, some, List, is_empty, length,
  get_elem?, if◌then◌else◌, arith,
}
use grpc_bench.Prelude.Result.{bind-ok, ok-injective, Result, ok, err, ◌>>=◌, ok_or}
use grpc_bench.Text.{Text, trim_end, split}
use grpc_bench.Programs.{
  Base58, ProgramEntry, ProgramsError, RowReason, missing_short_name, missing_program_id,
  trim_or_empty, filled, check_length, no_fourth, validate_program_id, parse_columns, parse_row,
  parse_line, is_line_end, starts_with_hash, at_line,
}

-- A name, and an id that decodes to 32 bytes.
abbrev pub IsProgram : Base58 → ProgramEntry → Type 0
IsProgram decode e =
    (is_empty e.short_name ≡ false)
    × ((bytes : List ℕ) × (decode e.program_id ≡ some bytes) × (length bytes ≡ 32))

pub filled-ok :
    (o : Option Text) (reason : RowReason) (s : Text)
    → ok_or (filled o) reason ≡ ok s
    → is_empty s ≡ false
filled-ok none reason s h = absurd (cc)
filled-ok (some t) reason s h = ground (arith, h)

pub check_length-ok :
    (o : Option (List ℕ)) (s id : Text)
    → check_length o s ≡ ok id
    → (id ≡ s) × ((bytes : List ℕ) × (o ≡ some bytes) × (length bytes ≡ 32))
check_length-ok none s id h = absurd (cc)
check_length-ok (some bytes) s id h = (ground (arith, h), (bytes, refl, ground (arith, h)))

pub at_line-ok :
    (line : ℕ) (r : Result RowReason ProgramEntry) (e : ProgramEntry)
    → at_line line r ≡ ok e
    → r ≡ ok e
at_line-ok line (ok a) e h = ap (λ x. ok x) (ok-injective h)
at_line-ok line (err reason) e h = absurd (cc)

pub kept_row :
    (skip : Bool) (r : Result ProgramsError ProgramEntry) (e : ProgramEntry)
    → (if skip then ok none else (r >>= λ x. ok (some x))) ≡ ok (some e)
    → r ≡ ok e
kept_row true r e h = absurd (cc)
kept_row false (ok x) e h = ground (arith, h)
kept_row false (err error) e h = absurd (cc)

module _ (decode : Base58) where
  parse_columns-IsProgram :
      (parts : List Text) (e : ProgramEntry)
      → parse_columns decode parts ≡ ok e
      → IsProgram decode e
  unfolding parse_columns validate_program_id
  parse_columns-IsProgram parts e h =
      let (name, n, h1) = bind-ok (ok_or (filled (get_elem? parts 0)) missing_short_name) _ e h in
      let (raw, r, h2) = bind-ok (ok_or (filled (get_elem? parts 1)) missing_program_id) _ e h1 in
      let (third, t, h3) =
        bind-ok (no_fourth (get_elem? parts 3) (trim_or_empty (get_elem? parts 2))) _ e h2 in
      let (id, v, h4) = bind-ok (validate_program_id decode raw) _ e h3 in
      let checked = check_length-ok (decode raw) raw id v in
      let (bytes, decoded, long) = checked.1 in
      let made : ProgramEntry = record {
        short_name = name;
        program_id = id;
        description = third;
      } in
      subst (λ x. IsProgram decode x) {x = made} (ok-injective h4)
        (
          filled-ok (get_elem? parts 0) missing_short_name name n,
          (bytes, ap (λ x. decode x) checked.0 ∙ decoded, long),
        )

  pub parse_line-IsProgram :
      (line : ℕ) (raw : Option Text) (e : ProgramEntry)
      → parse_line decode line raw ≡ ok (some e)
      → IsProgram decode e
  unfolding parse_line parse_row
  parse_line-IsProgram line none e h = absurd (cc)
  parse_line-IsProgram line (some raw) e h =
      let s = trim_end is_line_end raw in
      let row = kept_row (is_empty s || starts_with_hash s) (parse_row decode line s) e h in
      parse_columns-IsProgram (split 9 s) e
        (at_line-ok line (parse_columns decode (split 9 s)) e row)
