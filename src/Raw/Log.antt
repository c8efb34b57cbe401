-- ===== src/Raw/Log.antt =====
-- src/raw.rs: what the log holds while no write has failed.
use grpc_bench.Prelude.{
  ℕ, ◌+◌, ◌%◌, ◌≡◌, refl, sym, subst, ap, ◌∙◌, inl, inr, Bool, true, false, Option, none, some,
  List, [], ◌∷◌, ◌++◌, push, append-nil, append_assoc, if◌then◌else◌, arith,
}
use grpc_bench.Prelude.Words.{u64_mod}
use grpc_bench.Prelude.Result.{ok, ok-injective, Result-cases}
use grpc_bench.Text.{Text, byte_len}
use grpc_bench.Collect.{Event}
use grpc_bench.Raw.{
  Sink, RawWriter, create, serialized, write_line, after_write, write, after_flush, flush,
  take_warning,
}

-- A call of a method that changes the writer.
pub data Call : Type 0 where
  write_event : Event → Call
  flush_buffer take : Call

-- What the program relies on of the file: it is empty when it is opened, a write that succeeds adds
-- the line, and a flush that succeeds changes no line.
pub record SinkLaws (S : Sink) : Type 0 where
  pub lines : S.File → List Text
  pub opens : (path : Text) (file : S.File) → S.open_file path ≡ ok file → lines file ≡ []
  pub writes :
      (file : S.File) (line : Text)
      → (S.writeln file line).0 ≡ none
      → lines (S.writeln file line).1 ≡ push (lines file) line
  pub flushes :
      (file : S.File) → (S.flush_file file).0 ≡ none → lines (S.flush_file file).1 ≡ lines file

module _ (S : Sink) where
  abbrev pub apply : RawWriter S → Call → RawWriter S
  apply w (write_event event) = write S w event
  apply w flush_buffer = flush S w
  apply w take = (take_warning S w).1

  abbrev pub calls : RawWriter S → List Call → RawWriter S
  calls w [] = w
  calls w (c ∷ cs) = calls (apply w c) cs

  abbrev pub option_line : Option Text → List Text
  option_line none = []
  option_line (some line) = line ∷ []

  -- The lines of the events, in order.
  abbrev pub line_of : Call → List Text
  line_of (write_event event) = option_line (serialized S event)
  line_of flush_buffer = []
  line_of take = []

  abbrev pub lines_of : List Call → List Text
  lines_of [] = []
  lines_of (c ∷ cs) = line_of c ++ lines_of cs

-- The bytes of the lines, each with its line feed.
abbrev pub total_bytes : List Text → ℕ
total_bytes [] = 0
total_bytes (line ∷ lines) = byte_len line + 1 + total_bytes lines

total_bytes-append : (xs ys : List Text) → total_bytes (xs ++ ys) ≡ total_bytes xs + total_bytes ys
total_bytes-append [] ys = omega arith
total_bytes-append (x ∷ xs) ys = omega (arith, total_bytes-append xs ys)

module _ {S : Sink} (L : SinkLaws S) where
  -- The writer has logged the lines, and no call has failed.
  record HasLogged (w : RawWriter S) (out : List Text) : Type 0 where
    held : L.lines w.inner ≡ out
    bytes : w.bytes_written ≡ total_bytes out % u64_mod
    quiet : w.error_text ≡ none

  -- If the call that gave `w'` has not failed either, the lines are these.
  abbrev Logs : RawWriter S → List Text → Type 0
  Logs w' out = w'.poisoned ≡ false → HasLogged w' out

  after_write-Logs :
      (w : RawWriter S) (line : Text) (out : List Text) (r : Option Text × S.File)
      → HasLogged w out
      → (r.0 ≡ none → L.lines r.1 ≡ push (L.lines w.inner) line)
      → Logs (after_write S w (byte_len line + 1) r) (out ++ line ∷ [])
  after_write-Logs w line out (none, file) h wrote clean = record {
    held = wrote refl ∙ ap (λ xs. xs ++ line ∷ []) h.held;
    bytes = omega (arith, h.bytes, total_bytes-append out (line ∷ []));
    quiet = h.quiet;
  }
  after_write-Logs w line out (some e, file) h wrote clean = absurd (cc clean)

  write_line-Logs :
      (w : RawWriter S) (line : Option Text) (out : List Text)
      → HasLogged w out
      → Logs (write_line S w line) (out ++ option_line S line)
  write_line-Logs w none out h = λ clean. subst (HasLogged w) (sym (append-nil out)) h
  write_line-Logs w (some line) out h =
      after_write-Logs w line out (S.writeln w.inner line) h (L.writes w.inner line)

  after_flush-Logs :
      (w : RawWriter S) (out : List Text) (r : Option Text × S.File)
      → HasLogged w out
      → (r.0 ≡ none → L.lines r.1 ≡ L.lines w.inner)
      → Logs (after_flush S w r) out
  after_flush-Logs w out (none, file) h kept clean = record {
    held = kept refl ∙ h.held;
    bytes = h.bytes;
    quiet = h.quiet;
  }
  after_flush-Logs w out (some e, file) h kept clean = absurd (cc clean)

  -- A call that does nothing to a writer that has failed.
  unless-Logs :
      (b : Bool) (w next : RawWriter S) (out out' : List Text)
      → w.poisoned ≡ b
      → Logs w out
      → (HasLogged w out → Logs next out')
      → Logs (if b then w else next) out'
  unless-Logs true w next out out' e h k clean = absurd (cc (e, clean))
  unless-Logs false w next out out' e h k clean = k (h e) clean

  apply-Logs :
      (w : RawWriter S) (c : Call) (out : List Text)
      → Logs w out
      → Logs (apply S w c) (out ++ line_of S c)
  unfolding write flush take_warning
  apply-Logs w (write_event event) out h =
      unless-Logs w.poisoned w _ out _ refl h (write_line-Logs w (serialized S event) out)
  apply-Logs w flush_buffer out h = subst (Logs (flush S w)) (sym (append-nil out)) (
      unless-Logs w.poisoned w _ out out refl h
        (λ logged. after_flush-Logs w out (S.flush_file w.inner) logged (L.flushes w.inner)))
  apply-Logs w take out h = λ clean.
      let logged = h clean in
      subst (HasLogged (take_warning S w).1) (sym (append-nil out))
        (record { held = logged.held; bytes = logged.bytes; quiet = refl })

  calls-Logs :
      (w : RawWriter S) (cs : List Call) (out : List Text)
      → Logs w out
      → Logs (calls S w cs) (out ++ lines_of S cs)
  calls-Logs w [] out h = subst (Logs w) (sym (append-nil out)) h
  calls-Logs w (c ∷ cs) out h =
      subst (Logs (calls S (apply S w c) cs)) (append_assoc out (line_of S c) (lines_of S cs))
        (calls-Logs (apply S w c) cs (out ++ line_of S c) (apply-Logs w c out h))

  create-HasLogged : (path : Text) (w : RawWriter S) → create S path ≡ ok w → HasLogged w []
  unfolding create
  create-HasLogged path w h = elim (Result-cases (S.open_file path)) [
    | inl (file, opened) ↦
        let same = ok-injective (rw (create, opened) at h) in
        subst (λ v. HasLogged v []) same
          (record { held = L.opens path file opened; bytes = refl; quiet = refl })
    | inr (e, failed) ↦ absurd (cc (rw (create, failed) at h))
  ]

  -- While no write and no flush has failed, the log that was created holds the lines of the events,
  -- in order and nothing else, the bytes that it reports are theirs, to 64 bits, and there is no
  -- warning.
  pub log_exact :
      (path : Text) (w : RawWriter S) (cs : List Call)
      → create S path ≡ ok w
      → (calls S w cs).poisoned ≡ false
      → (L.lines (calls S w cs).inner ≡ lines_of S cs)
        × ((calls S w cs).bytes_written ≡ total_bytes (lines_of S cs) % u64_mod)
        × ((calls S w cs).error_text ≡ none)
  log_exact path w cs made clean =
      let logged = calls-Logs w cs [] (λ start. create-HasLogged path w made) clean in
      (logged.held, logged.bytes, logged.quiet)
