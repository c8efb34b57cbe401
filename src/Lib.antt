-- ===== src/Lib.antt =====
-- A model of grpc-bench, which compares two gRPC endpoints that stream the events of one chain: it
-- receives both, pairs the events of the same identity, and reports by how much which one was later.
--
-- The parts, in the order of the data:
--   * `Subscribe` (src/subscribe/mod.rs): `Requests` builds the request bodies and `Plan` the list of
--     subscriptions of a run (`SubscriptionPlan::from_run_config`) from a configuration and the
--     program list. `Config` (src/config.rs) has the commitment.
--   * `Timing` (src/timing/mod.rs): the timestamps of events, from the kernel or from user space.
--   * `Collect` (src/collect/mod.rs, src/collect/ring.rs): the events; `Decode` makes them of updates
--     (`decode`), `Ring` passes them on without blocking (`Ring`, `EventSender`, `EventReceiver`),
--     `Stats` has the shared counters and `Affinity` the cores (`AffinityPlan`, `AffinitySpec`).
--   * `Matching` (src/matching/): `Pair` is `PairMatcher`, its state in `Pair/State`; `Slots`,
--     `Blocks`, `Transactions` and `Accounts` wrap it; `Dispatch` is `StreamMatchers` and `dispatch`.
--   * `CrossStream` (src/crossstream.rs): one endpoint's transactions against its account updates.
--   * `Stability` (src/stability.rs): gaps, stalls, drift, disconnects and reconnects.
--   * `Run` (src/run.rs): `dispatch_event`, what a dispatcher takes from its rings in a turn, its loop
--     and exit (`Run/Loop`), the stop condition, the capacities of the rings and the totals.
--   * `Receiver` (src/run.rs): the loop of a receiver thread (`receiver_thread_main`), which connects,
--     subscribes, fills its ring and connects again; a round of it is a step of the relation `Runs`.
--   * `Ping` (src/run.rs): the task that pings an endpoint (`ping_task`, `sleep_unless_shutdown`).
--   * `Programs` (src/programs.rs): the rows of the program list, `ProgramSet::from_reader`.
--   * `Cli` (src/config.rs): the options and the overlay, and the `Config` that `Config::from_cli`
--     makes of them; `Collect/Affinity` has the layouts of cores and the parser of their option.
--   * `Proto` (src/proto.rs): versions, the verdict on a server (`evaluate`, `classify`) and the
--     metadata; `Connection` (src/subscribe/yellowstone.rs) connects and asks for the version.
--   * `Raw` (src/raw.rs): the log of raw events, `RawWriter`, and the fields of an event.
--   * `Env` (src/env.rs): the probes of a Linux host and their warnings (`collect`).
--   * `Report` (src/summary.rs, src/run.rs): `RunOutput` and `assemble_output`.
-- `Prelude` has the shared names and lemmas: words, signed integers, maps, results; `Text` has
-- `str`, a text being the list of its code points. A module that is
-- named for what it proves stands below the part it is about, and each part has its `Tests`.
--
-- How the code is rendered. A method that takes `&mut self` is a function from the state to the new
-- one, with its result before it. Mutexes and atomics guard single calls, so that a concurrent run is
-- a sequence of calls, and a theorem about every sequence is one about every interleaving. Hash maps
-- are association lists; a key is held once, which is proved where it matters, and the order of an
-- iteration is the list's. A `u64` counter wraps at 2 ^ 64, as in a release build; differences of
-- `i64` are exact, both sides being cut off at `i64::MAX`. Each `f64`, the `tdigest` crate
-- (`Floats`), the channel (`Collect.Ring.ChannelOps`) and the generated protocol
-- (`Collect.Decode.Codec`) are parameters; what a theorem needs of them is a record of named laws,
-- which `Floats/Exact` and the tests meet with concrete functions.
--
-- Also base58, `tonic`, `serde_json`, the files and the answers of the host are parameters: they are
-- functions, records of functions, or inputs.
--
-- Fuel. `chunks` runs on the length of the list: a chunk takes at least one element, and it is proved
-- that the chunks are the whole list. The printing of a number (`Text.digits`) runs on the number and
-- one, and a round leaves a tenth of it; that a printed number is read back shows that this is
-- enough. A turn through a ring recurs on the budget of 1024 events that the source gives it.
-- The sleep between two pings recurs on fuel, its milliseconds; a round of it takes one at least.
-- Everything else recurs on a list; the loop of a dispatcher on the list of the turns that it meets,
-- with what the receivers do to its rings before each receive left open, and a receiver on its rounds, with
-- what the network answers left open.
--
-- Not modelled: the parsing of the arguments (clap), the opening of files and the printing of the
-- report, which libraries do; the waits of the coordinator, which are orchestration around these parts;
-- sockets and their options, threads, signals and the log.
pub mod Prelude
pub mod Text
pub mod Floats
pub mod Timing
pub mod Config
pub mod Subscribe
pub mod Collect
pub mod Matching
pub mod CrossStream
pub mod Stability
pub mod Run
pub mod Programs
pub mod Proto
pub mod Connection
pub mod Cli
pub mod Receiver
pub mod Ping
pub mod Raw
pub mod Env
pub mod Report
