-- ===== src/Lib.antt =====
-- A verification library for the core of the A2A registry: the task store that agents claim work from,
-- with the state machine and the dependency graph it keeps, the workflows that are created in it, the
-- delegated tokens, and the limiter of requests.
--
-- The program. `simple_a2a_registry/orchestration/store.py` keeps tasks, the links between them,
-- their runs, comments and events in one SQL database. Each method of TaskStore is one transaction:
-- it reads rows, checks them, writes, and adds an event. A status is changed through
-- `orchestration/state_machine.py`, except by the claim, the two sweeps and the resolution of
-- dependencies, which write it themselves. A task waits in `todo` until its parents are done; a worker
-- claims a `ready` task for 900 seconds and keeps it with heartbeats; the dispatcher's sweeps fail the
-- tasks whose claim has expired and send failed ones back.
--
-- The files.
--  - Models: the enumerations (Models.Status) and the rows of the tables (Models.Rows) of
--    `orchestration/models.py`, with the columns that the store reads or writes.
--  - StateMachine: `_TRANSITIONS`, VALID_TRANSITIONS and validate_transition of
--    `orchestration/state_machine.py`; the laws are in StateMachine.Laws, where `Step` lists the edges
--    on its own.
--  - Dag: `TaskStore._detect_cycle` and detect_cycle of `orchestration/dependency.py`. Reach has the
--    paths of the graph, Fuel the bound of the search, Verdict its answer, Acyclic the graphs without
--    a cycle.
--  - Db: the tables, the transaction `_tx`, and the SQL statements as functions on lists of rows. A
--    method is a function from the database to its result, or the exception it raises, and the
--    database afterwards. Db.Frame and Db.Tx have the lemmas.
--  - Store.Create, Store.Edit, Store.Status (with Writes and Batch), Store.Claim, Store.Release,
--    Store.Edges, Store.Resolve: create_task; update_task, add_comment, `_update_workspace_path` and
--    `_set_worker_pid`; update_task_status, delete_task and the batch calls; claim_task and heartbeat;
--    release_expired_claims and promote_retryable_tasks; add_dependency and remove_dependency;
--    `_resolve_dependencies`. Store.Parents: validate_dag_integrity of
--    `orchestration/dependency.py`. The laws of each stand in its child modules.
--  - Store.Evolves and Store.Integrity: what every operation keeps. Store.History: any sequence of
--    calls of the store.
--  - Flow: FlowController of `orchestration/flow_control.py`. Flow.Breaker has the circuit breaker,
--    Flow.Rounds the round of `Dispatcher._dispatch_single_task` in `orchestration/dispatcher.py`,
--    Flow.Callbacks and Flow.Permits the permits over any sequence of rounds and callbacks, Flow.Backoff the delay between retries.
--  - Shared: lock, unlock, reap_stale_locks, join and leave of SharedWorkspaceManager in
--    `orchestration/shared_workspace.py`. The path of a file within its workspace and the checksum of
--    a file come from the file system and are parameters.
--  - Workflow: `orchestration/workflow.py`. Workflow has `_topological_sort`; Edges and Degrees turn its
--    nested loops into one over the pairs of a task and a dependency, Queue and Taken say what holds
--    between two steps, Start what holds at first, Order, Complete and Sorted give the result.
--    Workflow.Cycles is `_detect_workflow_cycles` (Visit has its recursion, Ranks its answer),
--    Workflow.Validate validate_workflow, Workflow.Apply apply_workflow over Store.Create, with Loop
--    and Whole.
--  - Delegation: `simple_a2a_registry/security/dtm.py`: attenuate_scope, minting, the table
--    `delegation_tokens` and verify_delegation_token. What from_jwt reads from a signed token is a
--    parameter, since the cryptography is another library's. Scopes, Once and Accepts have the laws.
--  - RateLimiter: MemoryTokenBucket and the middleware of `simple_a2a_registry/rate_limiter.py`.
--    Buckets has one step, Bound the sequences of requests, Retry the Retry-After header.
--  - Prelude: Boolean tests, lists, optional texts, decimals, `str.strip`, `str.split` and `sorted`, with
--    their lemmas.
--  - Tests: the theorems at concrete inputs.
--
-- Choices. The clock is an argument of each operation, a number of seconds, and need not increase. A
-- table is the list of its rows in the order of insertion, which is the order in which a query without
-- ORDER BY is read here. A payload is the JSON value before `json.dumps`. The error search_diverged
-- stands for a search that has used up its fuel; the fuel is the number of links plus two, which is
-- enough since each node is expanded once and so each link is pushed once (Dag.Fuel). Times and delays
-- of the flow controller are natural numbers in one unit. The rate
-- limiter counts time in microseconds and tokens in the fraction that one microsecond refills at a rate of
-- one per minute, which makes its arithmetic exact; its clock does not go back. Kahn's loop and the search
-- for cycles run on fuel of one for each task: the loop takes a new task in each round and the search
-- enters a new one in each call (Workflow.Complete, Workflow.Cycles.Visit). The times of the delegated
-- tokens are microseconds, their stored expiry whole seconds; the foreign key of their table is the one of
-- the SQLite schema. A power that no float holds is the OverflowError that Python raises. The lock of
-- Python threads around a transaction makes the calls of the store a sequence. The rounds of the
-- dispatcher come one after the other, as its poll loop awaits them; other calls may reach the flow
-- controller while a round awaits its attempt.
--
-- Not modelled: the SQL engine and the migrations of the schema, the columns that no method of the
-- store writes, `to_dict` and `from_dict`, the drawing of an id, the queries that only read, the
-- rest of the asynchronous dispatcher, the parsing of workflows from YAML and their export,
-- MySQLTokenBucket, the signing of tokens, HTTP, and the other packages of the registry.
mod Prelude
pub mod Models
pub mod StateMachine
pub mod Dag
pub mod Db
pub mod Store
pub mod Flow
pub mod Shared
pub mod Workflow
pub mod Delegation
pub mod RateLimiter
pub mod Tests
