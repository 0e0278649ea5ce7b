-- ===== src/Lib.antt =====
-- A model of autobugfix (src/autobugfix): a loop that lets agents repair bugs of a repository under
-- human gates, and the Operator, which governs how the loop's own harness is changed and measured.
--
-- Prelude   lists, tests, results and text that the parts share; lists and lengths stand on the
--           native numbers.
-- Task      src/autobugfix/models.py, task_store.py, events.py, service.py, runner.py, evaluator.py
--           and scheduler.py: the directory of a task, the calls of AutobugfixService on it, one run
--           of TaskRunner, and a tick of the scheduler.
--   Model      TaskRecord, Event, the task directory and TaskStore; a method is a function from the
--              directory to the directory it leaves and its result, so what was written before an
--              error stays written.
--   Evaluator  `parse_evaluator_decision`; YAML is a parameter.
--   Runner     `TaskRunner.run`; what the writer, the verification command, git and the evaluator
--              answer is a parameter, failures included.
--   Service    `create_task`, `add_feedback`, `run_task`, `apply_gate`, `deploy_ppe`, `archive`.
--   Scheduler  `tick`.
--   Account, Triple, Steps, Runs, Stored, Lifecycle: what each logged step keeps, up to any history
--              of calls; Outcomes: where a run ends; Refused: calls that raise.
-- Operator  src/autobugfix/operator: records, the SQLite store's transactions, and the service calls
--           over them. A transaction returns the new tables or raises and changes nothing.
--   Records    models.py: the records and the checks of their `__post_init__`.
--   Store      store.py: the tables and the reads.
--   Budget     store.py and service.py: `create_budget_request`, `approve_budget_grant`,
--              `reserve_usage_entry`, `finalize_usage_entry`; below it the proofs.
--   Line       store.py: `initialize_experiment_line`, `compare_and_swap_experiment_line`,
--              `advance_experiment_line`, `write_checkpoint_and_activate`.
--   Projection projection.py: `project_request` over the events of a request.
--   Events     store.py: `append_event` and `read_events`, a chain of hashes for each request.
--   Glob, Layers, Approvals, Policy: policy.py and approvals.py: path patterns, the layers of a file,
--              the approvals in effect and `evaluate_policy`.
--   Guard      guard.py: the scope in effect, its risk and authority, and the transition guard.
--   Scope      service.py: `request_scope_change`, `activate_scope_revision`, `reopen` and `close`.
--   Lease      store.py: `request_lease` and `experiment_line_lease`.
--   Metering   metering.py: `MeteredCodexBackend.run`, with `reserve_usage` and `finalize_usage`.
--   Scenario, Tests, LineTests, LeaseTests, MeteringTests, PolicyTests, EventTests,
--              ScopeTests: concrete tables.
-- Memory    src/autobugfix/memory/service.py and store.py: `collect`, `digest`, `tick`, `maintain`,
--           `approve`, `reject`; Active and Ticks: what histories of calls and a tick keep.
-- Roles     src/autobugfix/role_config.py: `merge_role_config` and `resolve_role`.
-- Eval      src/autobugfix/eval/scorers.py: `score_observation`.
--
-- Loops are recursion on the list that they walk, so no fuel is needed. Digests, the clock,
-- ISO time stamps, git, subprocesses, YAML, signatures and GitHub reviews are parameters. Not modelled:
-- file contents that nothing reads back, record digests of stored JSON (a row is its record), the
-- static findings of the policy, which are an argument, the rest of the Operator's service with its
-- validator, the command line, the web pages, the agents' prompts, the memory's rendering and search,
-- and the rest of the evaluation harness: they are I/O around git, files and processes, or stand
-- beside the parts above. A run is modelled as if no other call touched its task, and a budget
-- request or its approval as one step, though its reads and its insert use connections of their own.
pub mod Prelude
pub mod Task
pub mod Operator
pub mod Memory
pub mod Eval
pub mod Roles
