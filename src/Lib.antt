-- ===== src/Lib.antt =====
-- Pengu Mesh: agents share browser instances through one runtime. This library models the parts of
-- the Rust crates that decide: who may operate an instance, which queued task is served next, which
-- instance takes a request, which capabilities are allowed, when a browser is restarted, whether a
-- latency budget is met, where and how often a webhook is sent, what is recorded of runs, events, tasks
-- and scenarios, whether the evidence of scenarios meets a policy, which requests are blocked, and what
-- to do after a failure.
--
-- How the parts interact. An operation on an instance first passes `require_instance_access` of the
-- runtime (crates/pengu-mesh-core/src/lib.rs), which lists the active leases of the instance,
-- acquires a lease where none is active, and refuses a writer beside another holder's lease. The
-- lease operations of the runtime build leases, whose identifiers are made by `StableId`
-- (crates/pengu-mesh-shared/src/id.rs), and store them in the table `leases` of the state store
-- (crates/pengu-mesh-state/src/lib.rs). The scenario recorder
-- (crates/pengu-mesh-core/src/scenario_recorder.rs) checks and fills the scenario tables of the store;
-- the summary and the gate of the runtime read them, and the gate evaluates the latency thresholds on
-- their samples. The other parts stand beside these.
--
--   Prelude      helpers: lists and tests over the native numbers, texts, maps, results
--   Tables       a table of the store with a text as its primary key: insert, update, find, order, limit,
--                and what an order with the newest first lists
--   StableId     crates/pengu-mesh-shared/src/id.rs
--   Leases       the statements on the table `leases` (crates/pengu-mesh-state/src/lib.rs), with the
--                types of leases of crates/pengu-mesh-shared/src/types.rs; a statement is a function
--                on the list of rows, with the primary key and the unique index of the schema, and a
--                failed statement rolls its transaction back
--   Access       `lease_status`, `lease_acquire`, `lease_release`, `lease_transfer` and
--                `require_instance_access` of crates/pengu-mesh-core/src/lib.rs, on the record
--                `Runtime` of what they read and change; each reading of the clock is an argument;
--                Access.Operations has those that build leases
--   Journal      the tables `runs` and `events` of crates/pengu-mesh-state/src/lib.rs
--   Tasks        the tables `tasks` and `scheduler_metrics` of the same file
--   Adblock      crates/pengu-mesh-cdp/src/adblock.rs
--   Failures     crates/pengu-mesh-shared/src/failure.rs, a child for each kind of failure
--   Scenarios    the scenario tables of crates/pengu-mesh-state/src/lib.rs (Scenarios, Scenarios.Listing), the recorder of
--                crates/pengu-mesh-core/src/scenario_recorder.rs (Scenarios.Checks, Starting, Recorder, Finishing,
--                and Calls for sequences of its operations), and the summary and the gate of
--                crates/pengu-mesh-core/src/lib.rs (Scenarios.Summary, Scenarios.Gate)
--   TaskQueue    crates/pengu-mesh-core/src/task_queue.rs
--   Allocation   crates/pengu-mesh-core/src/allocation.rs; a value of `Policy` is a policy object
--   Capability   crates/pengu-mesh-shared/src/capability.rs, and the posture, the preflight, the
--                grants and the check of crates/pengu-mesh-core/src/lib.rs
--   AutoRestart  crates/pengu-mesh-core/src/autorestart.rs
--   Threshold    crates/pengu-mesh-core/src/threshold.rs
--   Webhook      crates/pengu-mesh-core/src/webhook.rs
--
-- Functions and types keep the names of the source, with the modules above for the files. A text is
-- the list of its code points. Machine integers are natural numbers, with the modulus written out
-- where the source wraps (the index of the round-robin policy, the state of the random one, and the
-- attempts of a webhook, as in a release build) and
-- the bound where it saturates (the service counter of the queue). Each loop is recursion on a list
-- or on the number of attempts left, so no fuel is needed.
--
-- Parameters stand for what is no code of the repository: the arithmetic on RFC 3339 times
-- (`add_seconds`), floating-point products (`backoff`, `rank`), Unicode's white space
-- (`is_whitespace`), the age of a timestamp (`age`), and the crates that parse URLs and send requests
-- (`parse`, `send`). JSON that is only stored and read back is its text.
--
-- Not modelled: failures of SQLite and of files, the probing of browsers when instances are
-- refreshed, the messages and JSON data of the events on leases, texts made for people, and the parts that
-- drive browsers, serve HTTP and MCP, or only format data.

pub mod Access
pub mod Adblock
pub mod Allocation
pub mod AutoRestart
pub mod Capability
pub mod Failures
pub mod Journal
pub mod Leases
pub mod Prelude
pub mod Scenarios
pub mod StableId
pub mod Tables
pub mod TaskQueue
pub mod Tasks
pub mod Threshold
pub mod Webhook
