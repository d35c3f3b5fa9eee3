-- ===== src/Lib.antt =====
-- A verification library for the distributed workbench: the tables by which controllers and
-- executors arbitrate leases, tasks, resources and the desktop, the redaction of what is written to
-- disk, the envelopes of their calls, rules of the controller, the authority that an executor asks
-- for, the table of managed processes, the connections between peers and the store of observations.
--
-- Parts, and the files that model them:
--   Schema: the records that these parts use, from crates/workbench-schema/src/lib.rs.
--   Lease: `LeaseTable` of crates/workbench-core/src/lease.rs, one function for each method, with the
--     method's name. A call that may fail gives a `Result` with the new table; on an error the table
--     is the old one, as in the code, where no method writes before its last test.
--   Task: `TaskTable` of crates/workbench-core/src/task.rs, in Task (submission, transitions, retry),
--     Task.Pruning (both prunings) and Task.Recovery (restart and the redacted snapshot).
--   Redaction: `redact_sensitive_value` of the same file.
--   Protocol: the envelopes of crates/workbench-protocol/src/lib.rs.
--   Resources: crates/workbench-runtime/src/resource.rs, in Resources (persist, available),
--     Resources.Commands (`command`) and Resources.Permits (`begin` and the drop of a permit).
--   Desktop: crates/workbench-runtime/src/desktop.rs, in Desktop (opening, promotion, cleanup),
--     Desktop.Submission and Desktop.Commands (`command`) and Desktop.Sessions (`begin` and `end`).
--   Controller: the rules of crates/workbench-runtime/src/controller.rs that stand on their own, in
--     Controller (parameters, command resources, artifacts, fences), Controller.Generations and
--     Controller.Handoffs (`refresh_driver_handoff`, and `lease.acquire` with its two readings of the
--     table), Controller.Locks (`render_lock`), Controller.Schemas (`validate_schema`; what it is to fit
--     a schema stands apart, in Controller.Schemas.Fitting), Controller.Accessible,
--     Controller.Retained and Controller.Evidence (what is kept of a task's output).
--   Process: crates/workbench-runtime/src/process.rs, in Process (the refresh of a record),
--     Process.Readiness (the probes), Process.Table (the operations) and Process.Waiting.
--   Peer: crates/workbench-runtime/src/peer.rs, in Peer (frames, checks, back-off), Peer.Handshake,
--     Peer.Bridge (calls that wait for the other side) and Peer.Quoting (the remote command).
--   Executor: crates/workbench-runtime/src/executor.rs, in Executor (execution classes, authority of
--     capabilities), Executor.Capacity, Executor.Rendering and Executor.Fences (`enforce_authority`),
--     Executor.Dispatch (`resource_dispatch`, which joins these with the permits of Resources; the
--     actions that `desktop_dispatch` runs by itself do not pass it) and Executor.Grants
--     (`checked_path` and the read grants). The catalog of capabilities and the file system are
--     arguments; a path is the list of its components.
--   Observability: crates/workbench-core/src/observability.rs; a table of the database is its rows.
-- Resources and Desktop keep a file: it is a field of their state, and a write that fails leaves the
-- change in memory, as in the code, so that their calls give a result and a state in every case.
-- Opening a file that cannot be read or parsed is left aside.
-- The controller and the executors hold these tables under a mutex, so that a concurrent execution is
-- a sequence of calls: `Lease.Calls.run`, `Task.Calls.run`, `Resources.Events.run_events` and
-- `Desktop.Exclusive.History.run_actions` are such sequences. The threads around a peer's bridge are
-- the events of `Peer.Bridge.run`, in any order.
-- What an operating system answers during a call of the process table (the clock, whether a pid lives
-- and when it was born, the log, the write of the state file, a signal to a process group, a spawn) is a
-- record that the call takes. The SHA-256 hash, the JSON text of a value, the text of a floating-point
-- number, the size of the database's files and the repair of ill-formed UTF-8 are functions that the
-- definitions take.
-- Three loops run for a number of rounds and give `none` beyond it: `render_lock` and its copy in the
-- executor, whose rounds are bounded by the template's closing braces, or by nothing;
-- `prune_with_max_bytes`, by the number of observations; and `wait_ready`, by the timeout over the 250
-- milliseconds of a round.
--
-- Text is its list of UTF-8 bytes. A `BTreeMap` is an association list in the order of its keys. The
-- clock and random identifiers are arguments of a call, one for each reading; the hash and the length
-- of a task's JSON text are functions that the theorems take. A `u64` that is added to wraps, as in a
-- release build; theorems that need room in a counter say so. Counts and sizes in memory are exact.
-- `decimal` has fuel 20, the digits of the largest `u64`.
-- A task under an index entry that names no task would panic: that is `none`.
--
-- Not modelled: what the actions of the controller and the executor do, the executor without a file of
-- fences (it enforces nothing), serialization and the file system, the SQL text of the store, sockets
-- and threads, the calls of operating systems, the generations on disk, the command line, the updater
-- and the dashboard.
pub mod Base
pub mod Schema
pub mod Json
pub mod Lease
pub mod Redaction
pub mod Task
pub mod Observability
pub mod Peer
pub mod Process
pub mod Protocol
pub mod Resources
pub mod Controller
pub mod Desktop
pub mod Executor
pub mod Tests
