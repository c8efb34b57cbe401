-- ===== src/Programs/Loaded.antt =====
-- Which program lists src/programs.rs accepts, and what it makes of them.
use grpc_bench.Prelude.{
  ℕ, suc, ◌≡◌, refl, sym, ap, subst, ◌∙◌, ◌↔◌, false, Option, none, some, List, [], ◌∷◌, ◌++◌, push,
  All, is_empty, append_assoc, append-nil, if◌then◌else◌, arith,
}
use grpc_bench.Prelude.Result.{bind-ok, ok-injective, Result, ok, err, ◌>>=◌}
use grpc_bench.Text.{Text}
use grpc_bench.Programs.{
  Base58, ProgramEntry, ProgramsError, has_name, has_id, add_entry, add_parsed, parse_line,
  read_lines, from_reader, empty_file,
}
use grpc_bench.Programs.Lines.{
  cons_some, SayLines, AreApart, has_name-false, has_id-false, parse_line-SaysLine,
}
use grpc_bench.Programs.Rows.{IsProgram, parse_line-IsProgram}

-- Every entry passes the two searches among the earlier ones.
abbrev pub IsFresh : List ProgramEntry → List ProgramEntry → Type 0
IsFresh earlier [] = Unit
IsFresh earlier (e ∷ es) =
    (has_name earlier e.short_name ≡ false)
    × (has_id earlier e.program_id ≡ false)
    × IsFresh (push earlier e) es

-- The entries of the lines that are not skipped, or the first line that does not parse.
abbrev pub rows : Base58 → ℕ → List (Option Text) → Result ProgramsError (List ProgramEntry)
rows decode line [] = ok []
rows decode line (raw ∷ rest) = do
  parsed ← parse_line decode line raw
  es ← rows decode (suc line) rest
  ok (cons_some parsed es)

add_entry-ok :
    (line : ℕ) (acc out : List ProgramEntry) (e : ProgramEntry)
    → add_entry line acc e ≡ ok out
    → (has_name acc e.short_name ≡ false) × (has_id acc e.program_id ≡ false) × (out ≡ push acc e)
unfolding add_entry
add_entry-ok line acc out e h = ground (arith, h)

add_entry-push :
    (line : ℕ) (acc : List ProgramEntry) (e : ProgramEntry)
    → has_name acc e.short_name ≡ false
    → has_id acc e.program_id ≡ false
    → add_entry line acc e ≡ ok (push acc e)
unfolding add_entry
add_entry-push line acc e n i = rw (n, i) refl

IsFresh-AreApart : (earlier es : List ProgramEntry) → IsFresh earlier es ↔ AreApart earlier es
IsFresh-AreApart earlier [] = (λ h. tt, λ h. tt)
IsFresh-AreApart earlier (e ∷ es) =
    let name = has_name-false earlier e.short_name in
    let id = has_id-false earlier e.program_id in
    let rest = IsFresh-AreApart (push earlier e) es in
    (λ h. (name.0 h.0, id.0 h.1, rest.0 h.2), λ h. (name.1 h.0, id.1 h.1, rest.1 h.2))

not_empty :
    (out es : List ProgramEntry)
    → (if is_empty out then err empty_file else ok out) ≡ ok es
    → (out ≡ es) × (is_empty es ≡ false)
not_empty [] es h = absurd (cc)
not_empty (e ∷ out) es h =
    let same = ok-injective h in (same, subst (λ x. is_empty x ≡ false) same refl)

module _ (decode : Base58) where
  -- What reading on from `acc` with the result `out` says of the lines.
  abbrev Reads : ℕ → List (Option Text) → List ProgramEntry → List ProgramEntry → Type 0
  Reads line lines acc out =
      (es : List ProgramEntry) × (rows decode line lines ≡ ok es)
      × IsFresh acc es
      × (out ≡ acc ++ es)

  after_parsed :
      (line : ℕ) (rest : List (Option Text)) (acc out : List ProgramEntry)
      (parsed : Option ProgramEntry)
      → ((acc' : List ProgramEntry)
          → read_lines decode (suc line) rest acc' ≡ ok out
          → Reads (suc line) rest acc' out)
      → (add_parsed line acc parsed >>= λ acc'. read_lines decode (suc line) rest acc') ≡ ok out
      → (es : List ProgramEntry) × (rows decode (suc line) rest ≡ ok es)
        × IsFresh acc (cons_some parsed es)
        × (out ≡ acc ++ cons_some parsed es)
  after_parsed line rest acc out none ih h = ih acc h
  after_parsed line rest acc out (some e) ih h =
      let (acc', added, more) = bind-ok (add_entry line acc e) _ out h in
      let fresh = add_entry-ok line acc acc' e added in
      let (es, parsed, later, joined) = ih acc' more in
      (
        es,
        parsed,
        (fresh.0, fresh.1, subst (λ a. IsFresh a es) fresh.2 later),
        joined ∙ ap (λ a. a ++ es) fresh.2 ∙ append_assoc acc (e ∷ []) es,
      )

  read_lines-Reads :
      (line : ℕ) (lines : List (Option Text)) (acc out : List ProgramEntry)
      → read_lines decode line lines acc ≡ ok out
      → Reads line lines acc out
  unfolding read_lines
  read_lines-Reads line [] acc out h = ([], refl, tt, sym (ok-injective h) ∙ sym (append-nil acc))
  read_lines-Reads line (raw ∷ rest) acc out h =
      let (parsed, p, more) = bind-ok (parse_line decode line raw) _ out h in
      let (es, q, fresh, joined) =
        after_parsed line rest acc out parsed (λ acc'. read_lines-Reads (suc line) rest acc' out)
          more in
      (cons_some parsed es, rw (p, q) refl, fresh, joined)

  add_parsed-IsFresh :
      (line : ℕ) (acc es : List ProgramEntry) (parsed : Option ProgramEntry)
      → IsFresh acc (cons_some parsed es)
      → (acc' : List ProgramEntry) × (add_parsed line acc parsed ≡ ok acc')
        × IsFresh acc' es
        × (acc' ++ es ≡ acc ++ cons_some parsed es)
  add_parsed-IsFresh line acc es none fresh = (acc, refl, fresh, refl)
  add_parsed-IsFresh line acc es (some e) (n, i, later) =
      (push acc e, add_entry-push line acc e n i, later, append_assoc acc (e ∷ []) es)

  read_lines-rows :
      (line : ℕ) (lines : List (Option Text)) (acc es : List ProgramEntry)
      → rows decode line lines ≡ ok es
      → IsFresh acc es
      → read_lines decode line lines acc ≡ ok (acc ++ es)
  unfolding read_lines
  read_lines-rows line [] acc es h fresh = rw (sym (ok-injective h), append-nil acc) refl
  read_lines-rows line (raw ∷ rest) acc es h fresh =
      let (parsed, p, more) = bind-ok (parse_line decode line raw) _ es h in
      let (es', q, made) = bind-ok (rows decode (suc line) rest) _ es more in
      let same = ok-injective made in
      let (acc', added, later, joined) =
        add_parsed-IsFresh line acc es' parsed (subst (λ x. IsFresh acc x) (sym same) fresh) in
      rw (read_lines, p, added)
        (read_lines-rows (suc line) rest acc' es' q later
          ∙ ap (λ x. ok x) (joined ∙ ap (λ x. acc ++ x) same))

  cons_some-IsProgram :
      (line : ℕ) (raw : Option Text) (parsed : Option ProgramEntry) (es : List ProgramEntry)
      → parse_line decode line raw ≡ ok parsed
      → All (IsProgram decode) es
      → All (IsProgram decode) (cons_some parsed es)
  cons_some-IsProgram line raw none es p good = good
  cons_some-IsProgram line raw (some e) es p good = (parse_line-IsProgram decode line raw e p, good)

  rows-IsProgram :
      (line : ℕ) (lines : List (Option Text)) (es : List ProgramEntry)
      → rows decode line lines ≡ ok es
      → All (IsProgram decode) es
  rows-IsProgram line [] es h = subst (λ x. All (IsProgram decode) x) (ok-injective h) tt
  rows-IsProgram line (raw ∷ rest) es h =
      let (parsed, p, more) = bind-ok (parse_line decode line raw) _ es h in
      let (es', q, made) = bind-ok (rows decode (suc line) rest) _ es more in
      subst (λ x. All (IsProgram decode) x) (ok-injective made)
        (cons_some-IsProgram line raw parsed es' p (rows-IsProgram (suc line) rest es' q))

  rows-SayLines :
      (line : ℕ) (lines : List (Option Text)) (es : List ProgramEntry)
      → (rows decode line lines ≡ ok es) ↔ SayLines decode lines es
  rows-SayLines line [] es = (λ h. ok-injective h, λ h. ap (λ x. ok x) h)
  rows-SayLines line (raw ∷ rest) es = (
    λ h.
        let (entry, p, more) = bind-ok (parse_line decode line raw) _ es h in
        let (later, q, made) = bind-ok (rows decode (suc line) rest) _ es more in
        (
          entry,
          later,
          (parse_line-SaysLine decode line raw entry).0 p,
          (rows-SayLines (suc line) rest later).0 q,
          ok-injective made,
        ),
    λ (entry, later, p, q, made).
        rw
          (
            (parse_line-SaysLine decode line raw entry).1 p,
            (rows-SayLines (suc line) rest later).1 q,
          )
          (ap (λ x. ok x) made),
  )

  -- A program list is accepted with the given entries exactly when each of its lines can be read and is
  -- blank, a comment (it starts with #), or a row; the rows say the entries in their order; no entry
  -- has the name or the id of an earlier one; and there is an entry. A row has two or three columns
  -- with tabs between: a name and an id, both with the blanks around them removed and not empty, the
  -- id one that decodes to 32 bytes, and a description, which may be missing.
  pub load_exact :
      (lines : List (Option Text)) (es : List ProgramEntry)
      → (from_reader decode lines ≡ ok es) ↔ (
          SayLines decode lines es
          × AreApart [] es
          × (is_empty es ≡ false)
          × All (IsProgram decode) es)
  unfolding from_reader
  load_exact lines es = (
    λ loaded.
        let (out, r, test) = bind-ok (read_lines decode 1 lines []) _ es loaded in
        let (es', parsed, fresh, joined) = read_lines-Reads 1 lines [] out r in
        let kept = not_empty out es test in
        let same = sym joined ∙ kept.0 in
        let all = parsed ∙ ap (λ x. ok x) same in
        (
          (rows-SayLines 1 lines es).0 all,
          (IsFresh-AreApart [] es).0 (subst (λ x. IsFresh [] x) same fresh),
          kept.1,
          rows-IsProgram 1 lines es all,
        ),
    λ (said, apart, filled, good).
        let parsed = (rows-SayLines 1 lines es).1 said in
        let fresh = (IsFresh-AreApart [] es).1 apart in
        rw (from_reader, read_lines-rows 1 lines [] es parsed fresh, filled) refl,
  )
