-- ===== src/Lib.antt =====
-- The task manager's lifecycle core. A manager hands tasks to polling workers; each attempt at a task
-- moves through the states of `AttemptState`, and every move is a `Transition`: a value that pure
-- functions compute from the worker's outcome and that the store applies in one transaction.
--
-- The parts, and the files that model them:
--
-- Base          shared names: Boolean tests on the native numbers, lists and association lists (a
--               Python dict in insertion order), text, JSON values, and `Result` for functions that
--               raise.
-- Lifecycle     src/nightshift/lifecycle.py: the status enumerations and the tables over them
--               (Vocabulary), the worker's report (Report), the classification of failures and the
--               backoff (Retry), the outcome of a land (Land), and the values of a transition
--               (Effects). `Progress.unchanged` is the source's `Progress.NONE`.
-- Workflows     src/nightshift/workflows.py: steps and definitions, routing, the models of the roles
--               (Step), and `_validate`: its checks on the steps (Validate), of the default path and
--               of the cycles (Paths), and the parser in front of it (Parse).
-- Transitions   src/nightshift/transitions.py: `on_submit`, `on_split_result`, `on_land_result`,
--               `on_land_interrupted`, `on_land_recovered`, `on_land_enqueued`, `on_operator_stop`,
--               `on_workflow_step`, `on_workflow_land`, `on_workflow_split`, `on_deadline` and their
--               helpers, with the fields, events and responses that they write. A match over an
--               enumeration is a helper by clauses (`submit_by`, `error_by`, `land_by`, `step_by`); an
--               assert on a missing step is an error value. `Issued` is the set of transitions that
--               these functions return, `Built` the list of the builders behind them.
-- Store         src/nightshift/manager/store.py: the tables `attempts`, `tasks` and `events`, and
--               those of the queues and repositories (Transport) and of the workers (Workers), as
--               values, each SQL statement as a function on them. `apply_transition` is the
--               compare-and-swap with its task writes and its outbox events; a transaction is one
--               function, so an error leaves the store as it was. The unique index on live attempts is
--               `slot_taken`. Workers also holds the registry of src/nightshift/manager/registry.py,
--               Reads the queries of the reconciler.
-- Compat        src/nightshift/lifecycle_compat.py: the migration from leases and runs to attempts.
-- Scheduler     src/nightshift/manager/scheduler.py: what a worker accepts, the heads of the queues,
--               the arbitration, and the tasks that nobody can serve. `str.lower` is a parameter.
-- FailurePolicy src/nightshift/manager/failure_policy.py: which failed task is admitted again.
-- Agent         src/nightshift/agent/apply.py: the parser of SEARCH/REPLACE blocks, whose nested loops
--               are functions on the lines that are left, and their application to a text. `str.find`
--               counts code points, and `str.splitlines` and `str.strip` are those of Base.
-- Queues        src/nightshift/queue_config.py (Config, Order), src/nightshift/spawn_daily.py
--               (Frontmatter) and src/nightshift/task_files.py (Scan, Fence): the settings of a queue,
--               the frontmatter of its task files, the order in which they run, and the held and
--               failed ones (Held). A config.json is the value that `json.loads` makes of it; the task
--               files are pairs of a stem and a text. `int` and `isdigit` read the digits of ASCII.
--               `json.dumps` of a container is a parameter.
-- Candidates    the candidates that src/nightshift/manager/scheduler.py builds from a queue's task
--               files (Build), with the repository of src/nightshift/repos.py (Repos) and the current
--               step of `make_resolver` in src/nightshift/workflows.py (Resolver). A file that is read
--               is the one that was listed.
-- Manager       the effects around the store: src/nightshift/manager/api_worker.py with
--               `worker_submit` (Submit), its policies (Policy), the verdict on the result of a git
--               phase (Verdict) and what it does after the commit (Finish, `_finish`); `_emit` and
--               `_start_resolve` of src/nightshift/manager/app.py (World, Finish); and
--               src/nightshift/manager/reconciler.py with the deadlines (Deadlines), the recovery of
--               interrupted lands (Reconcile) and the holds (Holds). A `World` is the store with what
--               the manager keeps in memory and the lists of the submitted jobs and of the broadcasts.
--               Git, the executor of the lands and the processes answer in the arguments;
--               `parse_visits` of src/nightshift/workflows.py is in Policy. The order that rides on the
--               answer to a submit (Chain: `_maybe_chain` and `_dispatch_guards_ok`; Lease:
--               `_lease_and_build`) is the argument `chain` of `worker_submit`; `build_work_order`, the throttle of the
--               syncs and the canonical head are answers of its `Dispatch`. Each call reads the clock
--               once, and its argument is the time.
-- Samples, and the modules named Examples: concrete inputs and runs.
--
-- How they meet: Queues orders the task files of a queue and Candidates reads them, with the step of a
-- workflow; the manager asks Scheduler for one of these candidates and creates an attempt in Store; the worker's
-- outcome goes through Transitions, which either gives a transition or asks for git work whose
-- `LandOutcome` comes back to it; Store applies the transition while the attempt is still in the
-- expected state, Manager acts on what was applied, and its reconciler moves the attempts that nobody
-- reports on.
--
-- Times are counted in whole ticks, so a delay at a counter of 0, which no caller passes, is rounded
-- down. Loops run over lists by structural recursion; fuel bounds the decimal digits of a
-- number (one more than the number; each round removes a digit), the walk along the default path (one
-- more than the steps; each round sees a new one) and the search of the cycles (one more than the edges
-- that can be pushed; each round takes one). The value columns of an attempt
-- are kept as one dictionary. A dictionary argument that may be `None` is an option. Floats are
-- carried, and only cut to a whole number; the infinite ones that `json.loads` makes of 1e999 are outside
-- the model, as are digits that are not ASCII's in a frontmatter, on some of which the source raises.
--
-- Not modelled: HTTP itself, processes, git, files and configuration. Of the store, the rename of a
-- queue, the enhancement rows and the statistics; of the workflows, the loaders and the prompts; of the
-- queues, the validate command, which is split into shell words, and the writers of task files around
-- `set_frontmatter_text`. Of the manager, the polling handler, the resolve results, `build_work_order`
-- and the operator's handlers; of the reconciler, the refresh of the CI state, the
-- imports and the garbage collection.
pub mod Base
pub mod Lifecycle
pub mod Workflows
pub mod Transitions
pub mod Store
pub mod Compat
pub mod Scheduler
pub mod Samples
pub mod FailurePolicy
pub mod Agent
pub mod Queues
pub mod Candidates
pub mod Manager
