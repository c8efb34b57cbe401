-- ===== src/Programs/Tests.antt =====
-- The program list at concrete inputs.
use grpc_bench.Prelude.{
  if◌then◌else◌, ℕ, ◌≡◌, refl, ◌↔◌, false, Option, some, List, [], ◌∷◌, is_empty, All, range,
}
use grpc_bench.Prelude.Eq.{◌==◌, nat_eq, list_eq}
use grpc_bench.Prelude.Result.{ok, err}
use grpc_bench.Text.{Text}
use grpc_bench.Programs.{
  ProgramEntry, from_reader, parse_line, parse_row, parse_columns, validate_program_id, read_lines,
  add_entry, malformed_row, duplicate_short_name, empty_file, decoded_length,
}
use grpc_bench.Programs.Rows.{IsProgram}
use grpc_bench.Programs.Lines.{SayLines, AreApart}
use grpc_bench.Programs.Loaded.{load_exact}

-- The text "a" decodes to 32 bytes, all else to its code points.
abbrev decode : Text → Option (List ℕ)
decode s = if s == 97 ∷ [] then some (range 0 32) else some s

-- "#x", "", "n<TAB>a<TAB> d \\r", "m <TAB>b"
abbrev comment : Option Text
comment = some (35 ∷ 120 ∷ [])

abbrev blank : Option Text
blank = some []

abbrev good : Option Text
good = some (110 ∷ 9 ∷ 97 ∷ 9 ∷ 32 ∷ 100 ∷ 32 ∷ 13 ∷ [])

abbrev short : Option Text
short = some (109 ∷ 32 ∷ 9 ∷ 98 ∷ [])

abbrev entry : ProgramEntry
entry = record { short_name = 110 ∷ []; program_id = 97 ∷ []; description = 100 ∷ [] }

load_exact_example : (from_reader decode (comment ∷ blank ∷ good ∷ []) ≡ ok (entry ∷ [])) ↔ (
    SayLines decode (comment ∷ blank ∷ good ∷ []) (entry ∷ [])
    × AreApart [] (entry ∷ [])
    × (is_empty (entry ∷ []) ≡ false)
    × All (IsProgram decode) (entry ∷ []))
load_exact_example = load_exact decode (comment ∷ blank ∷ good ∷ []) (entry ∷ [])

accepted : from_reader decode (comment ∷ blank ∷ good ∷ []) ≡ ok (entry ∷ [])
unfolding from_reader read_lines parse_line parse_row parse_columns validate_program_id add_entry
accepted = refl

wrong_length : from_reader decode (good ∷ short ∷ []) ≡ err (malformed_row 2 (decoded_length 1))
unfolding from_reader read_lines parse_line parse_row parse_columns validate_program_id add_entry
wrong_length = refl

duplicate : from_reader decode (good ∷ blank ∷ good ∷ []) ≡ err (duplicate_short_name 3 (110 ∷ []))
unfolding from_reader read_lines parse_line parse_row parse_columns validate_program_id add_entry
duplicate = refl

no_rows : from_reader decode (comment ∷ []) ≡ err empty_file
unfolding from_reader read_lines parse_line
no_rows = refl
