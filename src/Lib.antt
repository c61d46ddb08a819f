-- ===== src/Lib.antt =====
-- A verification library of the Cyrene Reactor: its Product service and its owner of a package
-- runtime with the store under them, and parts of its serving runtime.
--
-- The program. `product/src/cyrene_reactor_product` is the Product: `service.py` (class
-- `ReactorService`) creates, reads, stops and restarts deployments and imports models; it keeps all
-- state in `store.py` (class `ReactorStore`, on sqlite), asks a serving engine (`engine.py`) to run
-- processes, and tells an activity broker of its tasks. `package_runtime_owner.py` activates a package
-- on a binding through the package runtime's SDK, over durable operations in the same store, and
-- admits the runtime that is bound. `runtime/core/src/cy_exec` is the serving
-- runtime, of which `utils/stream_buffer.py` hands tokens from an engine to the stream that sends
-- them, and `capability_seam.py` calls a plugin's execution engine; `core` schedules
-- tasks and counts requests; `runtime/pro/src/cy_exec_pro/core/alert_manager.py` watches its queue, memory and latency.
--
-- The files.
--   Prelude: shared names; Boolean tests and case splits (Tests), lists by native numbers (Lists),
--     equality of keys (Keys), tables with a primary key and their reads and writes (Table).
--   Product/Errors, Product/Domain: `errors.py` and the resources of `domain.py`; Domain/Identity:
--     `canonical_model_version`, `model_version_artifact` and the validator of a create request.
--   Product/Exec: methods that change an object and may raise; `transaction` is
--     `with self._connection`; Keeps has a rule per construct for invariants, Inversion says what an
--     action that ended well went through.
--   Product/Store: the tables; Deployments, Timeline, Imports, Drafts and Operations have a function
--     for each method of `ReactorStore`, with the same names.
--   Product/Service: the state of `ReactorService`, its host and the steps that commands share;
--     Launch is `_launch`, Stopping `_stop_deployment`, Reading `get_deployment` and
--     `get_endpoint`, Creating `_create_deployment` and `restart_deployment`, Importing
--     `create_model_import`, Diagnostics the diagnostics page; Runs executes sequences of commands.
--   Product/Receipts, Product/Owner: what the SDK hands over, and `package_runtime_owner.py`: Texts
--     has its tests on texts, Methods the class `PackageRuntimeOwner`, Admission
--     `package_runtime_engine` with its checks.
--   Runtime/CapabilitySeam: the failures and their translation; Adapter is the engine's adapter,
--     with `_invoke` in it and the engine's methods in Operations; Binding is the provider, the
--     resolver and the factory.
--   Runtime/Scheduler, Runtime/Telemetry, Runtime/Residency: the task scheduler, the request metrics
--     and the registry of loaded models in `runtime/core/src/cy_exec/core`.
--   Runtime/Authentication: `utils/auth.py`, the token between gateway and worker.
--   Runtime/StreamBuffer: the bounded queue and, in Text, the text buffer; Schedule interleaves the
--     calls of several threads. Runtime/AlertManager: the thresholds, the history, the callbacks.
-- Modules named Soundness show that the writes of a component keep the store's invariant; those
-- named Examples run the definitions and apply the theorems at concrete inputs.
--
-- Correspondence. A table is the list of its rows in `rowid` order; a JSON document is the value that
-- it was made from; a UUID or a point in time is a number. A method of the store is a function of
-- the store that returns a result and the store it leaves, beside an error too. The service's state
-- has the store, the log of its calls and how often it read the clock and drew an id. A Python
-- `try` around an engine yields an `Attempt`. The parts of a method are functions of their own.
-- A wait on a condition variable is a pass over its test, and the schedule says when a thread wakes;
-- in the scheduler each function is one thread's step, and the events say which comes when.
--
-- Parameters. Engines, the activity SDK, the clock, the ids, the hashes and sizes of JSON texts, and
-- the ModelVersion SDK are not in the repository: they are a `Host` or an argument. An engine's and
-- the broker's answers are functions of the log of calls, so they may depend on all that happened.
-- The package runtime's SDK is a `Script` of callbacks, which goes on as it likes with what each one
-- returned or raised; the plugin's client is a function that may change a world. JSON coding,
-- `str.isalnum`, `str.isspace` and `urlsplit` are arguments.
-- `get_deployment` takes what other threads do before it has the lock as an action.
--
-- Bounds. The loops recurse on a list or on rounds that are given. Only the printing of a number has
-- fuel, one more than the number, which has no more digits. The
-- bounds are the source's: 500 records to a page of diagnostics, 8192 characters to a message,
-- 1024 * 1024 bytes to a page, 1000 alerts, 512 latencies.
--
-- Not modelled: the HTTP API, the command line, the remote engine, workspace tokens, the
-- exchange handoff, the runtime's servers, configuration and paths, the text of its metrics,
-- and the log formatting; sqlite's file and the migration of older databases; a failing sqlite;
-- threads inside a call, but for the other threads of `get_deployment`'s read, of the stream buffer
-- and of the scheduler; the validator of `Deployment`.
pub mod Prelude
pub mod Runtime
pub mod Product
