-- ===== src/Programs.antt =====
-- src/programs.rs: the rows of the program list and the checks on them. Opening the file is left
-- out; the lines come as `BufRead::lines` gives them.
pub mod Loaded
pub mod Lines
pub mod Rows
pub mod Tests
use grpc_bench.Prelude.{
  ℕ, zero, suc, ◌≡◌, Bool, true, false, not, ◌&&◌, ◌||◌, Option, none, some, List, [], ◌∷◌, leb,
  nat_beq, push, length, is_empty, get_elem?, contains, if◌then◌else◌,
}
use grpc_bench.Prelude.Eq.{Eq, ◌==◌, nat_eq, list_eq}
use grpc_bench.Prelude.Result.{Result, ok, err, ◌>>=◌, ok_or}
use grpc_bench.Text.{Text, trim_end, trim, split}

-- `bs58::decode(s).into_vec().ok()`, of the bs58 crate.
abbrev pub Base58 : Type 0
Base58 = Text → Option (List ℕ)

pub record ProgramEntry : Type 0 where
  pub short_name : Text
  pub program_id : Text
  pub description : Text

-- The `reason` of a malformed row.
pub data RowReason : Type 0 where
  missing_short_name missing_program_id too_many_columns not_base58 : RowReason
  decoded_length : ℕ → RowReason

-- With the number of the line; the path is the same in all.
pub data ProgramsError : Type 0 where
  read_failed empty_file : ProgramsError
  malformed_row : ℕ → RowReason → ProgramsError
  duplicate_short_name : ℕ → Text → ProgramsError
  duplicate_program_id : ℕ → Text → ProgramsError

-- `['\r', '\n']`
abbrev pub is_line_end : ℕ → Bool
is_line_end c = nat_beq c 13 || nat_beq c 10

-- `.map(str::trim).filter(|s| !s.is_empty())`
abbrev pub filled : Option Text → Option Text
filled none = none
filled (some s) = if is_empty (trim s) then none else some (trim s)

-- `.map_or(String::new(), |s| s.trim().to_string())`
abbrev pub trim_or_empty : Option Text → Text
trim_or_empty none = []
trim_or_empty (some s) = trim s

abbrev pub check_length : Option (List ℕ) → Text → Result RowReason Text
check_length none s = err not_base58
check_length (some decoded) s =
    if nat_beq (length decoded) 32 then ok s else err (decoded_length (length decoded))

abbrev pub starts_with_hash : Text → Bool
starts_with_hash [] = false
starts_with_hash (c ∷ cs) = nat_beq c 35

-- `entries.iter().find(..)`, by name and by id.
abbrev pub has_name : List ProgramEntry → Text → Bool
has_name [] name = false
has_name (e ∷ es) name = e.short_name == name || has_name es name

abbrev pub has_id : List ProgramEntry → Text → Bool
has_id [] id = false
has_id (e ∷ es) id = e.program_id == id || has_id es id

-- The two searches for a duplicate and `entries.push(entry)`.
unfoldable pub add_entry :
    ℕ → List ProgramEntry → ProgramEntry → Result ProgramsError (List ProgramEntry)
add_entry line entries e =
    if has_name entries e.short_name
    then err (duplicate_short_name line e.short_name)
    else (if has_id entries e.program_id
        then err (duplicate_program_id line e.program_id)
        else ok (push entries e))

abbrev at_line : ℕ → Result RowReason ProgramEntry → Result ProgramsError ProgramEntry
at_line line (ok e) = ok e
at_line line (err reason) = err (malformed_row line reason)

-- `if parts.next().is_some()`
abbrev no_fourth : Option Text → Text → Result RowReason Text
no_fourth none description = ok description
no_fourth (some s) description = err too_many_columns

abbrev add_parsed :
    ℕ → List ProgramEntry → Option ProgramEntry → Result ProgramsError (List ProgramEntry)
add_parsed line entries none = ok entries
add_parsed line entries (some e) = add_entry line entries e

module _ (decode : Base58) where
  unfoldable pub validate_program_id : Text → Result RowReason Text
  validate_program_id s = check_length (decode s) s

  -- The columns of a row, in the order of the calls of `parts.next()`.
  unfoldable pub parse_columns : List Text → Result RowReason ProgramEntry
  parse_columns parts = do
    name ← ok_or (filled (get_elem? parts 0)) missing_short_name
    raw ← ok_or (filled (get_elem? parts 1)) missing_program_id
    third ← no_fourth (get_elem? parts 3) (trim_or_empty (get_elem? parts 2))
    id ← validate_program_id raw
    ok (record { short_name = name; program_id = id; description = third })

  unfoldable pub parse_row : ℕ → Text → Result ProgramsError ProgramEntry
  parse_row line raw = at_line line (parse_columns (split 9 raw))

  -- One turn of the loop: `none` for a line that it skips.
  unfoldable pub parse_line : ℕ → Option Text → Result ProgramsError (Option ProgramEntry)
  parse_line line none = err read_failed
  parse_line line (some raw) =
      let trimmed = trim_end is_line_end raw in
      if is_empty trimmed || starts_with_hash trimmed
      then ok none
      else (parse_row line trimmed >>= λ e. ok (some e))

  unfoldable pub read_lines :
      ℕ → List (Option Text) → List ProgramEntry → Result ProgramsError (List ProgramEntry)
  read_lines line [] entries = ok entries
  read_lines line (raw ∷ rest) entries = do
    parsed ← parse_line line raw
    entries' ← add_parsed line entries parsed
    read_lines (suc line) rest entries'

  unfoldable pub from_reader : List (Option Text) → Result ProgramsError (List ProgramEntry)
  from_reader lines = do
    entries ← read_lines 1 lines []
    if is_empty entries then err empty_file else ok entries
