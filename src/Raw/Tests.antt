-- ===== src/Raw/Tests.antt =====
-- The theorems on the raw log at concrete inputs.
use grpc_bench.Prelude.{◌%◌, ◌≡◌, refl, sym, false, Option, none, some, List, [], ◌∷◌, push}
use grpc_bench.Prelude.Words.{u64_mod}
use grpc_bench.Prelude.Result.{ok, ok-injective}
use grpc_bench.Text.{Text, codes}
use grpc_bench.Timing.{EventTimestamp}
use grpc_bench.Config.{processed}
use grpc_bench.Subscribe.{one, main, slots}
use grpc_bench.Collect.{Event, slot, SlotStage}
use grpc_bench.Raw.{Sink, RawWriter, create, serialized, write, flush}
use grpc_bench.Raw.Log.{
  Call, write_event, flush_buffer, take, SinkLaws, calls, lines_of, total_bytes, log_exact,
}

-- A disk with room for two lines.
abbrev disk_write : List Text → Text → Option Text × List Text
disk_write [] line = (none, line ∷ [])
disk_write (a ∷ []) line = (none, a ∷ line ∷ [])
disk_write (a ∷ b ∷ rest) line = (some (codes "disk full"), a ∷ b ∷ rest)

abbrev disk : Sink
disk = record {
  File = List Text;
  open_file = λ path. ok [];
  bs58_encode = λ bytes. bytes;
  to_string = λ fields. some (codes "{}");
  writeln = disk_write;
  flush_file = λ file. (none, file);
}

disk_write-push :
    (file : List Text) (line : Text)
    → (disk_write file line).0 ≡ none
    → (disk_write file line).1 ≡ push file line
disk_write-push [] line h = refl
disk_write-push (a ∷ []) line h = refl
disk_write-push (a ∷ b ∷ rest) line h = absurd (cc)

disk_opens : (path : Text) (file : List Text) → disk.open_file path ≡ ok file → file ≡ []
disk_opens path file h = let same : [] ≡ file = ok-injective h in sym same

abbrev laws : SinkLaws disk
laws = record {
  lines = λ file. file;
  opens = disk_opens;
  writes = disk_write-push;
  flushes = λ file h. refl;
}

abbrev at : EventTimestamp
at = record { mono_ns = 10; wall_ms = 4 }

abbrev event : Event
event = record {
  ts = at;
  subscription = main one processed slots;
  payload = slot 5 SlotStage.processed;
}

abbrev writer : RawWriter disk
writer = record {
  path = codes "raw";
  inner = [];
  bytes_written = 0;
  poisoned = false;
  error_text = none;
}

abbrev two_events : List Call
two_events = write_event event ∷ flush_buffer ∷ write_event event ∷ []

made : create disk (codes "raw") ≡ ok writer
unfolding create
made = refl

log_exact_example :
    ((calls disk writer two_events).inner ≡ lines_of disk two_events)
    × ((calls disk writer two_events).bytes_written
        ≡ total_bytes (lines_of disk two_events) % u64_mod)
    × ((calls disk writer two_events).error_text ≡ none)
unfolding write flush serialized
log_exact_example = log_exact laws (codes "raw") writer two_events made refl

abbrev third : List Call
third = write_event event ∷ []

abbrev later : List Call
later = take ∷ write_event event ∷ take ∷ []
