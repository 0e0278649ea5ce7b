-- ===== src/Task/Runner.antt =====
-- autobugfix/runner.py: one run of a task through the writer, the verifier and the evaluator. The
-- external nodes are parameters: the theorems hold whatever they answer. The runner keeps its record
-- in memory from step to step; here it is the one that the directory holds.
use autobugfix_loop.Prelude.{
  ℕ, suc, String, Bool, not, Option, none, some, List, [], ◌∷◌, opt_truthy, find?, ◌==◌,
  if◌then◌else◌, ok,
}
use autobugfix_loop.Task.Evaluator.{Answer, Verdict, parse_evaluator_decision}
use autobugfix_loop.Task.Model.{
  TaskState, writing, verifying, evaluating, writer_rework_required, waiting_human_ppe_approval,
  blocked, is_runnable, ExitCode, passed, Reason, clear, evaluator_blocked, changes_requested,
  verifier_failed, evaluator_reason, pass, needs_changes, block, state_changed, writer_completed,
  verifier_completed, evaluator_completed, unknown_repo, no_worktree, node_failed, not_runnable,
  append_event, set_state, Exec, ◌>>=◌, ◌>>◌, fail, fail_if, write, get,
}

-- RepoProfile, less what only the external nodes read.
pub record RepoProfile : Type 0 where
  pub repo_id : String
  pub main_checkout : String
  pub ppe_enabled : Bool
  pub ppe_command : Option String

abbrev pub Config : Type 0
Config = List RepoProfile

-- AutobugfixConfig.repo
abbrev pub repo : Config → String → Exec RepoProfile
repo config id = elim (find? (λ (r : RepoProfile). r.repo_id == id) config) [
  | none ↦ fail unknown_repo
  | some r ↦ λ d. (d, ok r)
]

-- What the external nodes of one run answer; `none` where the node, or what prepares its request or
-- writes its files, raises.
pub record Nodes : Type 0 where
  pub writer : Option String
  -- the exit code of the verification command, 124 if it timed out
  pub verifier : Option ExitCode
  pub diff : Option String
  pub evaluator : Option String

abbrev pub node : {A : Type 0} → Option A → Exec A
node none = fail node_failed
node (some a) = λ d. (d, ok a)

-- TaskRunner._save_state
abbrev pub save_state : TaskState → Reason → Exec (Unit {0})
save_state state reason =
    write λ d. append_event (state_changed d.task.state state reason) (set_state state reason d)

-- `task.iterations += 1`, which the next save writes with the state.
abbrev pub start_writing : Exec (Unit {0})
start_writing = write λ d. append_event (state_changed d.task.state writing clear) (
    set_state writing clear
      (record d { task = record d.task { iterations = suc d.task.iterations } }))

-- `decision.reason or …`
abbrev reason_or : List ℕ → Reason → Reason
reason_or [] d = d
reason_or (c ∷ s) d = evaluator_reason (c ∷ s)

-- The last step of a run, by the evaluator's verdict.
unfoldable pub conclude : Verdict → Exec (Unit {0})
conclude v = elim v.decision [
  | pass ↦ save_state waiting_human_ppe_approval clear
  | block ↦ save_state blocked (reason_or v.reason evaluator_blocked)
  | needs_changes ↦ save_state writer_rework_required (reason_or v.reason changes_requested)
]

-- The part of a run after the verifier has passed.
unfoldable pub evaluate : (String → Option Answer) → Option String → Exec (Unit {0})
evaluate yaml answer = do
  save_state evaluating clear
  text ← node answer
  let v = parse_evaluator_decision yaml text
  write (append_event (evaluator_completed v.decision v.reason))
  conclude v

-- The part of a run after the writer.
unfoldable pub verify : (String → Option Answer) → Nodes → Exec (Unit {0})
verify yaml nodes = do
  save_state verifying clear
  code ← node nodes.verifier
  diff ← node nodes.diff
  write (append_event (verifier_completed code))
  if passed code
      then evaluate yaml nodes.evaluator
      else save_state writer_rework_required (verifier_failed code)

-- TaskRunner.run
unfoldable pub run : Config → (String → Option Answer) → Nodes → Exec (Unit {0})
run config yaml nodes = do
  task ← get
  fail_if (not (is_runnable task.state)) not_runnable
  profile ← repo config task.repo_id
  fail_if (not (opt_truthy task.worktree_path)) no_worktree
  start_writing
  text ← node nodes.writer
  write (λ d. append_event (writer_completed d.task.iterations) d)
  verify yaml nodes
