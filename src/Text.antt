-- ===== src/Text.antt =====
-- `str` as the program uses it: a text is the list of its code points.
pub mod Trim
pub mod Split
pub mod Strip
pub mod Decimal
pub mod Bytes
use Prim.Native.Char.{code}
use Prim.Native.String.{String}
use grpc_bench.Prelude.{
  ℕ, zero, suc, ◌+◌, ◌-◌, ◌*◌, ◌/◌, ◌%◌, Bool, true, false, ◌&&◌, ◌||◌, Option, none, some, List,
  [], ◌∷◌, leb, ltb, nat_beq, contains, is_empty, if◌then◌else◌,
}

abbrev pub Text : Type 0
Text = List ℕ

-- The code points of a literal.
abbrev pub codes : String → Text
codes String.[] = []
codes (String.◌∷◌ c s) = code c ∷ codes s

abbrev pub text_beq : Text → Text → Bool
text_beq [] [] = true
text_beq (c ∷ cs) (d ∷ ds) = nat_beq c d && text_beq cs ds
text_beq _ _ = false

-- `char::is_whitespace`: the White_Space property of Unicode.
abbrev pub is_whitespace : ℕ → Bool
is_whitespace c =
    (leb 9 c && leb c 13)
    || contains (32 ∷ 133 ∷ 160 ∷ 5760 ∷ 8232 ∷ 8233 ∷ 8239 ∷ 8287 ∷ 12288 ∷ []) c
    || (leb 8192 c && leb c 8202)

-- `trim_start_matches`, `trim_end_matches`
abbrev pub trim_start : (ℕ → Bool) → Text → Text
trim_start p [] = []
trim_start p (c ∷ cs) = if p c then trim_start p cs else c ∷ cs

abbrev pub trim_end : (ℕ → Bool) → Text → Text
trim_end p [] = []
trim_end p (c ∷ cs) = let rest = trim_end p cs in if is_empty rest && p c then [] else c ∷ rest

-- `str::trim_matches`
abbrev pub trim_matches : (ℕ → Bool) → Text → Text
trim_matches p s = trim_end p (trim_start p s)

abbrev pub trim : Text → Text
trim = trim_matches is_whitespace

abbrev cons_head : ℕ → List Text → List Text
cons_head c [] = (c ∷ []) ∷ []
cons_head c (part ∷ parts) = (c ∷ part) ∷ parts

-- `str::split` by a character
abbrev pub split : ℕ → Text → List Text
split sep [] = [] ∷ []
split sep (c ∷ cs) =
    let parts = split sep cs in if nat_beq c sep then [] ∷ parts else cons_head c parts

-- `str::split_whitespace`
abbrev split_where : (ℕ → Bool) → Text → List Text
split_where p [] = [] ∷ []
split_where p (c ∷ cs) =
    let parts = split_where p cs in if p c then [] ∷ parts else cons_head c parts

abbrev without_empty : List Text → List Text
without_empty [] = []
without_empty (t ∷ ts) = let rest = without_empty ts in if is_empty t then rest else t ∷ rest

abbrev pub split_whitespace : Text → List Text
split_whitespace s = without_empty (split_where is_whitespace s)

-- `str::strip_suffix` by a character
abbrev pub strip_suffix : ℕ → Text → Option Text
strip_suffix x [] = none
strip_suffix x (c ∷ []) = if nat_beq c x then some [] else none
strip_suffix x (c ∷ d ∷ cs) = elim (strip_suffix x (d ∷ cs)) [ none ↦ none | some s ↦ some (c ∷ s) ]

-- `str::lines`: a line feed at the end begins no line, and a carriage return before one is dropped.
abbrev drop_return : Text → Text
drop_return t = elim (strip_suffix b'\r' t) [ none ↦ t | some s ↦ s ]

abbrev ended_lines : List Text → List Text
ended_lines [] = []
ended_lines (t ∷ []) = if is_empty t then [] else t ∷ []
ended_lines (t ∷ u ∷ us) = drop_return t ∷ ended_lines (u ∷ us)

abbrev pub lines : Text → List Text
lines s = ended_lines (split b'\n' s)

abbrev cons_first : ℕ → Option (Text × Text) → Option (Text × Text)
cons_first c none = none
cons_first c (some (before, after)) = some (c ∷ before, after)

-- `str::split_once` by a character
abbrev pub split_once : ℕ → Text → Option (Text × Text)
split_once sep [] = none
split_once sep (c ∷ cs) =
    let rest = split_once sep cs in if nat_beq c sep then some ([], cs) else cons_first c rest

-- `s.split_once(sep).map_or(s, |(p, _)| p)`
abbrev first_or : Text → Option (Text × Text) → Text
first_or s none = s
first_or s (some (before, after)) = before

abbrev pub until : ℕ → Text → Text
until sep s = first_or s (split_once sep s)

-- `str::strip_prefix`, `str::starts_with`, `str::contains` by a text
abbrev pub strip_prefix : Text → Text → Option Text
strip_prefix [] s = some s
strip_prefix (p ∷ ps) [] = none
strip_prefix (p ∷ ps) (c ∷ cs) = let rest = strip_prefix ps cs in if nat_beq p c then rest else none

abbrev is_found : Option Text → Bool
is_found none = false
is_found (some rest) = true

abbrev pub starts_with : Text → Text → Bool
starts_with p s = is_found (strip_prefix p s)

abbrev pub contains_text : Text → Text → Bool
contains_text p [] = is_empty p
contains_text p (c ∷ cs) = let later = contains_text p cs in starts_with p (c ∷ cs) || later

-- The bytes of a code point and of a text: `str::len`.
abbrev pub len_utf8 : ℕ → ℕ
len_utf8 c = if ltb c 128 then 1 else if ltb c 2048 then 2 else if ltb c 65536 then 3 else 4

abbrev pub byte_len : Text → ℕ
byte_len [] = 0
byte_len (c ∷ cs) = len_utf8 c + byte_len cs

abbrev cons_text : ℕ → Option Text → Option Text
cons_text c none = none
cons_text c (some s) = some (c ∷ s)

-- `&s[..n]`: `none` for the panic where byte `n` is inside a character or past the end.
abbrev pub slice_to : ℕ → Text → Option Text
slice_to n [] = if nat_beq n 0 then some [] else none
slice_to n (c ∷ cs) =
    let rest = slice_to (n - len_utf8 c) cs in
    if nat_beq n 0 then some [] else if leb (len_utf8 c) n then cons_text c rest else none

-- `to_ascii_lowercase`
abbrev pub to_lower : ℕ → ℕ
to_lower c = if leb b'A' c && leb c b'Z' then c + 32 else c

abbrev pub to_ascii_lowercase : Text → Text
to_ascii_lowercase [] = []
to_ascii_lowercase (c ∷ cs) = to_lower c ∷ to_ascii_lowercase cs

abbrev pub eq_ignore_ascii_case : Text → Text → Bool
eq_ignore_ascii_case s t = text_beq (to_ascii_lowercase s) (to_ascii_lowercase t)

abbrev pub u32_max : ℕ
u32_max = 4294967295

-- The digits of `str::parse::<u32>`, after the number `n`; an overflow is an error.
unfoldable pub scan_u32 : Text → ℕ → Option ℕ
scan_u32 [] n = some n
scan_u32 (c ∷ cs) n =
    let m = n * 10 + (c - b'0') in
    let rest = scan_u32 cs m in if leb b'0' c && leb c b'9' && leb m u32_max then rest else none

abbrev scan_some : Text → Option ℕ
scan_some [] = none
scan_some (c ∷ cs) = scan_u32 (c ∷ cs) 0

-- `str::parse::<u32>`: a leading `+` is allowed.
unfoldable pub parse_u32 : Text → Option ℕ
parse_u32 [] = none
parse_u32 (c ∷ cs) = if nat_beq c b'+' then scan_some cs else scan_u32 (c ∷ cs) 0

-- `u32::to_string`, on fuel: a round leaves a tenth of the number.
unfoldable pub digits_fuel : ℕ → ℕ → Text → Text
digits_fuel zero n out = out
digits_fuel (suc fuel) n out = elim (ltb n 10) [
  | true ↦ (b'0' + n) ∷ out
  | false ↦ digits_fuel fuel (n / 10) ((b'0' + n % 10) ∷ out)
]

unfoldable pub digits : ℕ → Text
digits n = digits_fuel (suc n) n []
