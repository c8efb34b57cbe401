-- ===== src/Raw/Latch.antt =====
-- src/raw.rs: what the log does once a write or a flush has failed.
use grpc_bench.Prelude.{ℕ, ◌≡◌, Bool, true, false, Option, none, some, List, [], ◌∷◌, ◌++◌}
use grpc_bench.Text.{Text}
use grpc_bench.Raw.{Sink, RawWriter, take_warning}
use grpc_bench.Raw.Log.{Call, take, apply, option_line}

module _ (S : Sink) where
  -- The warnings that the calls of `take_warning` give.
  abbrev pub warning_of : RawWriter S → Call → List Text
  warning_of w take = option_line S (take_warning S w).0
  warning_of w _ = []

  abbrev pub warnings : RawWriter S → List Call → List Text
  warnings w [] = []
  warnings w (c ∷ cs) = warning_of w c ++ warnings (apply S w c) cs

-- The warnings that a writer can still give.
abbrev left_if : Bool → Option Text → ℕ
left_if false error = 1
left_if true none = 0
left_if true (some e) = 1

module _ {S : Sink} where
  -- A writer that has failed is not written to, and stays so.
  record IsShut (w w' : RawWriter S) : Type 0 where
    poisoned : w'.poisoned ≡ true
    inner : w'.inner ≡ w.inner
    bytes : w'.bytes_written ≡ w.bytes_written

  abbrev left : RawWriter S → ℕ
  left w = left_if w.poisoned w.error_text

  -- A writer that has not failed has no warning.
  abbrev IsQuiet : RawWriter S → Type 0
  IsQuiet w = w.poisoned ≡ false → w.error_text ≡ none
