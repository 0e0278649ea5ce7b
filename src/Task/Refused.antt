-- ===== src/Task/Refused.antt =====
-- The calls of the service, less a run, write nothing when they raise.
use autobugfix_loop.Prelude.{
  if◌then◌else◌, ◌≡◌, refl, String, Bool, true, false, not, ◌&&◌, Option, some, List, [], ◌∷◌, any,
  opt_truthy, opt_eq, find?, ◌==◌, raise, arith, inl, inr, Bool-cases, Option-cases, Result-cases,
}
use autobugfix_loop.Task.Model.{
  blocked, clear, deploy_failed, deploy_run, no_worktree, passed, ppe_deployed, ppe_disabled,
  ppe_unconfigured, set_state, ExitCode, GateAction, TaskDir, TaskError, Exec, ◌>>=◌, ◌>>◌, fail_if,
  write, get, TaskStore, run_in, on_task, add_context, append_event, wrong_state,
}
use autobugfix_loop.Task.Evaluator.{Answer}
use autobugfix_loop.Task.Runner.{Config, RepoProfile, repo}
use autobugfix_loop.Task.Service.{
  is_approved, gate_target, apply_gate, add_feedback, deploy_ppe, is_archivable, archive,
  create_task,
}
use autobugfix_loop.Task.Lifecycle.{
  Call, create, context, feedback, gate, deploy, launch, shelve, perform,
}

-- What a refused call of a method leaves.
abbrev Keeps : {A : Type 0} → Exec A → Type 0
Keeps m = (d : TaskDir) (e : TaskError) → (m d).1 ≡ raise e → (m d).0 ≡ d

run_in-Keeps :
    {A : Type 0} (id : String) (m : Exec A) (ds out : List TaskDir) (e : TaskError)
    → Keeps m
    → run_in id m ds ≡ some (out, raise e)
    → out ≡ ds
run_in-Keeps id m [] out e k h = absurd (ground arith)
run_in-Keeps id m (d ∷ ds) out e k h = elim (Bool-cases (d.name == id)) [
  | inl y ↦
      let r : (m d).1 ≡ raise e = ground arith in
      let w : (m d).0 ∷ ds ≡ out = ground arith in rw (← w) (rw (k d e r) refl)
  | inr n ↦ elim (Option-cases (run_in id m ds)) [
    | inl p ↦ absurd (ground arith)
    | inr ((ds', r'), p) ↦
        let w : d ∷ ds' ≡ out = ground arith in
        let q : r' ≡ raise e = ground arith in
        let same : ds' ≡ ds = run_in-Keeps id m ds ds' e k (rw (← q) p) in rw (← w) (rw same refl)
  ]
]

on_task-Keeps :
    {A : Type 0} (id : String) (m : Exec A) (s : TaskStore) (e : TaskError)
    → Keeps m
    → (on_task id m s).1 ≡ raise e
    → (on_task id m s).0 ≡ s
unfolding on_task
on_task-Keeps id m s e k h = elim (Option-cases (run_in id m s.active)) [
  | inr ((ds, r), p) ↦
      let q : r ≡ raise e = ground arith in
      rw (p, on_task) (rw (run_in-Keeps id m s.active ds e k (rw (← q) p)) refl)
  | inl p ↦ elim (Option-cases (run_in id m s.archived)) [
    | inl q ↦ rw (p, q, on_task) refl
    | inr ((ds, r), q) ↦
        let x : r ≡ raise e = ground arith in
        rw (p, q, on_task) (rw (run_in-Keeps id m s.archived ds e k (rw (← x) q)) refl)
  ]
]

apply_gate-Keeps : (action : GateAction) → Keeps (apply_gate action)
unfolding apply_gate
apply_gate-Keeps action d e h = elim (Result-cases (gate_target action d.task.state)) [
  | inl (state, p) ↦ absurd (ground arith)
  | inr (x, p) ↦ rw (p, apply_gate) refl
]

write-Keeps : (f : TaskDir → TaskDir) → Keeps (write f)
write-Keeps f d e h = cc

add_feedback-Keeps :
    (decision content : String) (queue_only : Bool)
    → Keeps (add_feedback decision content queue_only)
unfolding add_feedback
add_feedback-Keeps decision content true d e h = cc
add_feedback-Keeps decision content false d e h = cc

fail_if-Keeps :
    {A : Type 0} (b : Bool) (x : TaskError) (k : Exec A) → Keeps k → Keeps (fail_if b x >> k)
fail_if-Keeps true x k v d e h = refl
fail_if-Keeps false x k v d e h = v d e h

repo-Keeps :
    {A : Type 0} (config : Config) (id : String) (k : RepoProfile → Exec A)
    → ((r : RepoProfile) → Keeps (k r))
    → Keeps (repo config id >>= k)
repo-Keeps config id k v d e h =
    elim (Option-cases (find? (λ (r : RepoProfile). r.repo_id == id) config)) [
      | inl p ↦ rw (p, repo) refl
      | inr (r, p) ↦ let w : (k r d).1 ≡ raise e = ground arith in rw (p, repo) (v r d e w)
    ]

deploy-Keeps : (config : Config) (result : ExitCode) → Keeps (deploy_ppe config result)
unfolding deploy_ppe
deploy-Keeps config result d =
    let deployed = λ (c : TaskDir). append_event (deploy_run result) (
      if passed result
      then set_state ppe_deployed clear c
      else set_state blocked (deploy_failed result) c) in
    let last : Exec (Unit {0}) = write deployed in
    let able =
      λ (r : RepoProfile). fail_if (not (opt_truthy r.ppe_command)) ppe_unconfigured >> last in
    let enabled = λ (r : RepoProfile). fail_if (not r.ppe_enabled) ppe_disabled >> able r in
    let housed = λ (r : RepoProfile).
      fail_if (not (opt_truthy d.task.worktree_path)) no_worktree >> enabled r in
    fail_if-Keeps (not (is_approved d.task.state)) wrong_state
      (repo config d.task.repo_id >>= housed)
      (repo-Keeps config d.task.repo_id housed (λ r.
        fail_if-Keeps (not (opt_truthy d.task.worktree_path)) no_worktree (enabled r) (
          fail_if-Keeps (not r.ppe_enabled) ppe_disabled (able r) (
            fail_if-Keeps (not (opt_truthy r.ppe_command)) ppe_unconfigured last
              (write-Keeps deployed)))))
      d

archive-keeps :
    (id result : String) (s : TaskStore) (e : TaskError)
    → (archive id result s).1 ≡ raise e
    → (archive id result s).0 ≡ s
unfolding archive
archive-keeps id result s e h = elim (Result-cases (on_task id get s).1) [
  | inr (x, p) ↦ rw (p, archive) refl
  | inl (task, p) ↦ elim (Bool-cases (is_archivable task.state)) [
    | inr n ↦ rw (p, n, archive) refl
    | inl y ↦ elim (Option-cases (find? (λ (a : TaskDir). a.name == id) s.active)) [
      | inl q ↦ rw (p, y, q, archive) refl
      | inr (d, q) ↦
          elim (Bool-cases (
            any (λ (a : TaskDir). a.name == id && opt_eq a.task.archived_result (some result))
              s.archived)) [ inl b ↦ rw (p, y, q, b, archive) refl | inr b ↦ absurd (ground arith) ]
    ]
  ]
]

create-keeps :
    (config : Config) (id repo_id title body : String) (worktree : Option (String × String))
    (s : TaskStore) (e : TaskError)
    → (create_task config id repo_id title body worktree s).1 ≡ raise e
    → (create_task config id repo_id title body worktree s).0 ≡ s
unfolding create_task
create-keeps config id repo_id title body worktree s e h =
    elim (Option-cases (find? (λ (r : RepoProfile). r.repo_id == repo_id) config)) [
      | inl p ↦ rw (p, create_task) refl
      | inr (r, p) ↦ elim (Option-cases worktree) [
        | inl q ↦ rw (p, q, create_task) refl
        | inr ((branch, path), q) ↦
            elim (Bool-cases (any (λ (d : TaskDir). d.name == id) s.active)) [
              | inl b ↦ rw (p, q, b, create_task) refl
              | inr b ↦ absurd (ground arith)
            ]
      ]
    ]

-- Every call but a run, which keeps the states that it has reached.
abbrev pub is_atomic : Call → Bool
is_atomic (launch id nodes) = false
is_atomic _ = true

-- A call other than a run that raises leaves the store as it was, whatever the call and its error.
pub refused-keeps :
    (config : Config) (yaml : String → Option Answer) (c : Call) (s : TaskStore) (e : TaskError)
    → is_atomic c ≡ true
    → (perform config yaml c s).1 ≡ raise e
    → (perform config yaml c s).0 ≡ s
unfolding perform
refused-keeps config yaml (create id repo_id title body worktree) s e a h =
    create-keeps config id repo_id title body worktree s e h
refused-keeps config yaml (context id kind content) s e a h =
    on_task-Keeps id (write (add_context kind content)) s e (write-Keeps (add_context kind content))
      h
refused-keeps config yaml (feedback id decision content q) s e a h =
    on_task-Keeps id (add_feedback decision content q) s e (add_feedback-Keeps decision content q) h
refused-keeps config yaml (gate id action) s e a h =
    on_task-Keeps id (apply_gate action) s e (apply_gate-Keeps action) h
refused-keeps config yaml (deploy id result) s e a h =
    on_task-Keeps id (deploy_ppe config result) s e (deploy-Keeps config result) h
refused-keeps config yaml (launch id nodes) s e a h = cc
refused-keeps config yaml (shelve id result) s e a h = archive-keeps id result s e h
