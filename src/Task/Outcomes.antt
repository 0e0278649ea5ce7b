-- ===== src/Task/Outcomes.antt =====
-- Where a run leaves a task when all its nodes answer.
use autobugfix_loop.Prelude.{
  suc, ◌≡◌, ◌⊎◌, ◌∙◌, refl, String, Bool, true, false, not, Option, some, opt_truthy, find?, ◌==◌,
  if◌then◌else◌, ok, inl, inr, Bool-cases,
}
use autobugfix_loop.Task.Model.{
  ◌>>=◌, ◌>>◌, fail_if, write, append_event, writer_completed, not_runnable, no_worktree, TaskState,
  blocked, waiting_human_ppe_approval, writer_rework_required, is_runnable, ExitCode, passed,
  Decision, pass, needs_changes, block, TaskDir, TaskError, Exec,
}
use autobugfix_loop.Task.Evaluator.{Answer, parse_evaluator_decision}
use autobugfix_loop.Task.Runner.{
  repo, node, start_writing, Config, RepoProfile, Nodes, conclude, evaluate, verify, run,
}
use autobugfix_loop.Task.Service.{run_task}

abbrev pub answers : String → ExitCode → String → String → Nodes
answers text code diff answer = record {
  writer = some text;
  verifier = some code;
  diff = some diff;
  evaluator = some answer;
}

-- What the verification and the evaluator's decision make of a task.
abbrev pub outcome : ExitCode → Decision → TaskState
outcome code decision =
    if passed code
    then elim decision [
      | pass ↦ waiting_human_ppe_approval
      | needs_changes ↦ writer_rework_required
      | block ↦ blocked
    ]
    else writer_rework_required

Decision-cases : (d : Decision) → (d ≡ pass) ⊎ ((d ≡ needs_changes) ⊎ (d ≡ block))
Decision-cases pass = inl refl
Decision-cases needs_changes = inr (inl refl)
Decision-cases block = inr (inr refl)

fail_if-false :
    (b : Bool) (e : TaskError) (k : Exec (Unit {0})) (d : TaskDir)
    → b ≡ false
    → (fail_if b e >> k) d ≡ k d
fail_if-false true e k d h = cc
fail_if-false false e k d h = refl

repo-some :
    (config : Config) (id : String) (profile : RepoProfile) (k : RepoProfile → Exec (Unit {0}))
    (d : TaskDir)
    → find? (λ (r : RepoProfile). r.repo_id == id) config ≡ some profile
    → (repo config id >>= k) d ≡ k profile d
repo-some config id profile k d f = rw (f, repo) refl

abbrev nodes_run : (String → Option Answer) → Nodes → Exec (Unit {0})
nodes_run yaml nodes =
    start_writing
    >> (node nodes.writer >>= λ text.
        (write (λ e. append_event (writer_completed e.task.iterations) e) >> verify yaml nodes))

-- A run whose guards hold goes on to the nodes.
run_task-steps :
    (config : Config) (yaml : String → Option Answer) (nodes : Nodes) (profile : RepoProfile)
    (d : TaskDir)
    → is_runnable d.task.state ≡ true
    → find? (λ (r : RepoProfile). r.repo_id == d.task.repo_id) config ≡ some profile
    → opt_truthy d.task.worktree_path ≡ true
    → run_task config yaml nodes d ≡ nodes_run yaml nodes d
unfolding run_task run
run_task-steps config yaml nodes profile d r f w =
    let idle : not (is_runnable d.task.state) ≡ false = rw r refl in
    let housed : not (opt_truthy d.task.worktree_path) ≡ false = rw w refl in
    let guarded =
      fail_if (not (opt_truthy d.task.worktree_path)) no_worktree >> nodes_run yaml nodes in
    fail_if-false (not (is_runnable d.task.state)) not_runnable (run config yaml nodes) d idle
    ∙ fail_if-false (not (is_runnable d.task.state)) not_runnable
        (repo config d.task.repo_id >>= λ p. guarded) d idle
    ∙ repo-some config d.task.repo_id profile (λ p. guarded) d f
    ∙ fail_if-false (not (opt_truthy d.task.worktree_path)) no_worktree (nodes_run yaml nodes) d
        housed

-- A runnable task of a known repository with a worktree, in a run whose nodes all answer, ends at the
-- human gate if the verification and the evaluator pass, blocked if the verification passes and the
-- evaluator blocks, and asks for rework otherwise; the run succeeds and is counted.
pub run_task-outcome :
    (config : Config) (yaml : String → Option Answer) (profile : RepoProfile)
    (text diff answer : String) (code : ExitCode) (d : TaskDir)
    → is_runnable d.task.state ≡ true
    → find? (λ (r : RepoProfile). r.repo_id == d.task.repo_id) config ≡ some profile
    → opt_truthy d.task.worktree_path ≡ true
    → let after = run_task config yaml (answers text code diff answer) d in
      (after.1 ≡ ok tt)
      × (after.0.task.state ≡ outcome code (parse_evaluator_decision yaml answer).decision)
      × (after.0.task.iterations ≡ suc d.task.iterations)
unfolding run_task run verify evaluate conclude
run_task-outcome config yaml profile text diff answer code d r f w =
    rw (run_task-steps config yaml (answers text code diff answer) profile d r f w)
      (elim (Bool-cases (passed code)) [
        | inr n ↦ rw (n, verify) (refl, refl, refl)
        | inl y ↦ elim (Decision-cases (parse_evaluator_decision yaml answer).decision) [
          | inl p ↦ rw (y, p, verify, evaluate, conclude) (refl, refl, refl)
          | inr (inl p) ↦ rw (y, p, verify, evaluate, conclude) (refl, refl, refl)
          | inr (inr p) ↦ rw (y, p, verify, evaluate, conclude) (refl, refl, refl)
        ]
      ])
