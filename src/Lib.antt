-- ===== src/Lib.antt =====
-- SEUSS runs serverless functions in unikernel instances. A front end on Linux takes activations from
-- OpenWhisk and sends them to native nodes; a node queues them, runs each in an instance and sends the
-- result back. This library models the code that decides what happens to an activation on its way:
--
--   Controller   src/SeussController.h, src/SeussController.cc: `seuss::Controller` of the front end. The
--                state is the list of nodes, the core of each node, and the table of the activations that
--                wait for a result (`record_map_`). `schedule_activation` and `resolve_activation` are
--                `ScheduleActivation` and `ResolveActivation`; a promise is a number that the caller hands in.
--                Nodes has the registration of the instances that src/dsys/Controller.cc allocates.
--   Openwhisk    src/openwhisk/msg.h, src/openwhisk/msg.cc and src/openwhisk/couchdb.cc: the messages of
--                OpenWhisk (Msg), their printers `to_json` (Json), the reader of an activation (Reader), the
--                completion of an activation, the settings and the cache of the database client (Couchdb).
--                Document is a small syntax of JSON, without blanks, fractions and escapes, to which printer
--                and reader of an activation are compared (RoundTrip). Grammar has the texts of JSON in
--                full, to which those of the completions and of the heartbeat are compared (Completed).
--   Kafka        src/openwhisk/kafka.cc: `init`, a turn of `ping_producer_loop` and a turn of
--                `activation_consumer_loop`, with the replies of the nodes that come in between (Defs), and
--                the two loops from their start, as `connect` of src/openwhisk/openwhisk.cc runs them (Loops).
--   Bench        `class bench` of src/openwhisk/openwhisk.h and `genRevisionVec` of
--                src/openwhisk/openwhisk.cc (Defs), what `openwhisk::test` does with a line
--                of its input (Prompt), and the runs of a benchmark in it (Rounds).
--   Dsys         src/dsys/dsys.h, src/dsys/dsys.cc and src/dsys/Controller.cc: the settings of the front end,
--                and what the native instances are allocated with (Settings); the address of a member
--                (Address); src/dsys/MemberSet.h (MemberSet).
--   Startup      src/hosted/main.cc and src/seuss.cc: `main` and `AppMain` of the front end, with
--                `process_program_options` of src/openwhisk/openwhisk.cc (Defs), and what the functions
--                `program_options` of the parts store in their variables before, defaults included (Notify).
--   Channel      src/SeussChannel.h, src/SeussChannel.cc: requests and replies between front end and node,
--                as a header and the bytes of a payload.
--   Root         `seuss::InvokerRoot` of src/SeussInvoker.h and src/SeussInvoker.cc: the work queue of a
--                node (`AddWork`, `GetWork`) and the cache of the snapshots (`GetSnapshot`, `SetSnapshot`).
--   Hot          the part of `seuss::Invoker` (same files) that keeps idle instances for hot starts:
--                `save_hot_instance`, `get_hot_instance` and the functions that they call.
--   Session      src/InvocationSession.h, src/InvocationSession.cc: the connection with an instance, its
--                timer, its requests and replies. A handler returns the session after it and the list of
--                what it does to the outside, in order.
--   Invoker      the rest of `seuss::Invoker`: `Poke`, `Invoke` with its hot, warm and cold start, the
--                callbacks of a session (`new_invocation_session`), the ports and the counters. Defs has the
--                callbacks and the counters, Starts `Invoke` and its attempts with the events they wait for,
--                Poke `Poke`, Init `Init`; Bootstrap has `InvokerRoot::Bootstrap` and `seuss::Init` of a node.
--                Served and Answered follow an instance that behaves well, from its connection to its reply.
--   Cores        the cores of a node between them, as a step relation: requests come in on any core
--                (`Invoker::Queue`), the pokes that wait are run in any order (`Invoker::Poke`), and
--                invocations end in any order (the end of `Invoker::Invoke`). Defs has the steps, Alive the
--                invariant of their states, Drain the runs on which nothing more arrives, and Detail
--                relates the steps to `Invoker::Poke` as Invoker has it, with its attempts.
--   Flow         how these meet: an activation that is scheduled goes through the channel into the work
--                queue (`Invoker::Queue`), and its reply goes back to the front end (Back, with
--                `Invoker::Resolve`). Trip joins both ways with the run in between, Service adds the turns
--                of the Kafka client before and after, and Load the events of a node that has other work.
--
-- Prelude holds what the modules share (bytes, results, printed numbers, clocks), Text the search in a text
-- and the reading of numbers (`std::string::find`, `atoi`, `sscanf`), Table the associative containers of
-- the C++ library, Invocation the records of src/Seuss.h. Defs of a module has the definitions that stand
-- for code, as have the files named above, Session/Http and Flow/Load; Examples, Runs, ReuseRuns, BootRuns and
-- ServiceRuns have the runs on small inputs, and the other files prove.
--
-- Conventions. Numbers are natural numbers, and where the code's integers wrap around, the remainder is
-- written out; the members of `NodeArgs`, of a library, are taken as wide enough. A failed `kassert`,
-- `assert` or `kabort`, and a read out of bounds, is `panic` of `Result`. The asserts are taken as
-- enabled. A number that does not fit into the type that it is read as, which the language leaves
-- undefined, and an access to a null pointer are `panic` too, and so is the unchecked read of an
-- activation id of less than 32 bytes past its end: such a `panic` is no stop of the machine. A call from
-- outside comes as an explicit list of calls (`run` of each module) in whatever order; what a thread
-- waits for is a list of events (Invoker/Starts). Handlers run to their end, as events of the framework
-- do on their core, and parts under a lock are single calls; so is `SetSnapshot`, which by a note in the
-- source has no lock yet. The updates of `concurrencyPool` of a benchmark, on two threads and without a
-- lock, are taken as atomic. In Cores an invocation is under way from its start to its end, whatever
-- happens in its attempts; one that fails stops the whole node (Invoker), and is no event of Cores.
--
-- Bounds and fuel. All recursion is structural: along lists and texts (the difference of two lists makes
-- one of them shorter), or over the rounds that a loop of the code has to go (`poke_cores`,
-- `allocate_all`, `scan_parts`, `name_all`, `fill`). Two functions have fuel, and neither is a part of
-- the code: `hot_starts`, which counts the hot starts of an instance, with any fuel, and the proof
-- `run_down` of Cores/Drain, with more than the events that are left. The endless loops
-- of the Kafka client and the loop of a benchmark run along a list of turns of any length. The reader of
-- an activation panics where its 16-bit counter would wrap around, and the numbers of a benchmark are
-- those that `stoi` accepts.
--
-- Parameters stand for code outside the repository: `hash` for `std::hash`, `nid_text` for the text of a
-- network id, `new_bytes` for the contents of a fresh buffer, `gather` for the read of a chained buffer,
-- `known` for the instances that the unikernel manager has, `http_get` and `code_in` for the request and
-- the JSON reader of the database client, `Yajl` for the parser and the tree of YAJL, `append` for
-- `AppendArgs` of the node allocator, `in_current_path` and `contents` for the file system, `rand` and
-- `random_shuffle`, and the clock, whose readings are arguments. `Environment` of Kafka/Defs holds those of
-- the front end. What ZooKeeper lists and what a poll of the broker gives are inputs. Members that a
-- constructor leaves without a value are arguments too (`instance₀`, `status₀`, `id₀`, `blocking₀`).
--
-- Not modelled: the spelling of the options and the reading of a command line, which a library does; what
-- `openwhisk::test` prints and sleeps, and a reply that comes in after the benchmark that it belongs to
-- has ended; the Linux branch of `get_member_ip`, which is
-- a call of a library; the exceptions of the broker library; the start of events on other cores and the
-- setting of watchers, which are calls of the framework. Output on the console is left out everywhere.
pub mod Prelude
pub mod Table
pub mod Invocation
pub mod Root
pub mod Hot
pub mod Session
pub mod Channel
pub mod Openwhisk
pub mod Controller
pub mod Invoker
pub mod Flow
pub mod Text
pub mod Dsys
pub mod Kafka
pub mod Bench
pub mod Startup
pub mod Cores
