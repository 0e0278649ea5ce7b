-- ===== src/Task.antt =====
-- The Execution loop of src/autobugfix: tasks, their human gates, the runner and the scheduler.
pub mod Model
pub mod Evaluator
pub mod Runner
pub mod Service
pub mod Scheduler
pub mod Account
pub mod Triple
pub mod Steps
pub mod Runs
pub mod Outcomes
pub mod Stored
pub mod Lifecycle
pub mod Refused
pub mod Tests
