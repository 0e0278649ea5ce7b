-- ===== src/Task/Service.antt =====
-- autobugfix/service.py, with ppe.py. A deployment's command is taken to run and its log to be
-- written.
use autobugfix_loop.Prelude.{
  String, Bool, true, false, not, ◌&&◌, Option, none, some, [], ◌∷◌, ◌++◌, any, filter, truthy,
  opt_truthy, opt_eq, find?, ◌==◌, if◌then◌else◌, Result, ok, raise,
}
use autobugfix_loop.Task.Evaluator.{Answer}
use autobugfix_loop.Task.Runner.{Config, RepoProfile, repo, Nodes, run}
use autobugfix_loop.Task.Model.{
  TaskState, ready, waiting_human_ppe_approval, ppe_approved, ppe_deployed,
  waiting_human_acceptance, feedback_available, accepted, abandoned, paused, archived, blocked,
  is_runnable, ExitCode, passed, clear, deploy_failed, GateAction, approve_ppe, accept, abandon,
  pause, resume, unknown, task_created, worktree_created, feedback_state, gate_applied, deploy_run,
  task_archived, TaskDir, TaskError, already_exists, unknown_repo, no_worktree, node_failed,
  not_found, not_runnable, wrong_state, not_archivable, unknown_action, ppe_disabled,
  ppe_unconfigured, archive_exists, append_event, set_state, add_context, store_feedback, Exec,
  ◌>>=◌, ◌>>◌, fail_if, write, get, TaskStore, on_task,
}

-- The state that a human gate sets, from the one that it finds.
unfoldable pub gate_target : GateAction → TaskState → Result TaskError TaskState
gate_target approve_ppe waiting_human_ppe_approval = ok ppe_approved
gate_target approve_ppe _ = raise wrong_state
gate_target accept waiting_human_ppe_approval = ok accepted
gate_target accept ppe_approved = ok accepted
gate_target accept ppe_deployed = ok accepted
gate_target accept waiting_human_acceptance = ok accepted
gate_target accept _ = raise wrong_state
gate_target abandon _ = ok abandoned
gate_target pause _ = ok paused
gate_target resume paused = ok ready
gate_target resume _ = raise wrong_state
gate_target unknown _ = raise unknown_action

unfoldable pub apply_gate : GateAction → Exec (Unit {0})
apply_gate action d =
    let old = d.task.state in
    elim (gate_target action old) [
      | raise e ↦ (d, raise e)
      | ok state ↦ (append_event (gate_applied action old state) (set_state state clear d), ok tt)
    ]

unfoldable pub add_feedback : String → String → Bool → Exec (Unit {0})
add_feedback decision content queue_only = do
  write (store_feedback decision content queue_only)
  if queue_only
      then write (λ d. d)
      else write
          (λ d. append_event (feedback_state decision) (set_state feedback_available clear d))

abbrev pub is_approved : TaskState → Bool
is_approved ppe_approved = true
is_approved _ = false

-- `deploy_ppe`; `result` is what the deployment command ends with.
unfoldable pub deploy_ppe : Config → ExitCode → Exec (Unit {0})
deploy_ppe config result = do
  task ← get
  fail_if (not (is_approved task.state)) wrong_state
  profile ← repo config task.repo_id
  fail_if (not (opt_truthy task.worktree_path)) no_worktree
  fail_if (not profile.ppe_enabled) ppe_disabled
  fail_if (not (opt_truthy profile.ppe_command)) ppe_unconfigured
  write λ d. append_event (deploy_run result) (
      if passed result
      then set_state ppe_deployed clear d
      else set_state blocked (deploy_failed result) d)

-- `run_task`
unfoldable pub run_task : Config → (String → Option Answer) → Nodes → Exec (Unit {0})
run_task config yaml nodes = do
  task ← get
  fail_if (not (is_runnable task.state)) not_runnable
  run config yaml nodes

-- The states from which `archive` takes a task.
abbrev pub is_archivable : TaskState → Bool
is_archivable accepted = true
is_archivable abandoned = true
is_archivable blocked = true
is_archivable paused = true
is_archivable _ = false

abbrev is_named : String → TaskDir → Bool
is_named id d = d.name == id

-- `archive`, then TaskStore.archive: the directory moves from the active ones to the result's folder.
unfoldable pub archive : String → String → TaskStore → TaskStore × Result TaskError (Unit {0})
archive id result s = elim (on_task id get s).1 [
  | raise e ↦ (s, raise e)
  | ok task ↦
      if not (is_archivable task.state)
      then (s, raise not_archivable)
      else elim (find? (is_named id) s.active) [
        | none ↦ (s, raise not_found)
        | some d ↦
            if any (λ a. is_named id a && opt_eq a.task.archived_result (some result)) s.archived
            then (s, raise archive_exists)
            else (
              record s {
                active = filter (λ a. not (is_named id a)) s.active;
                archived =
                    s.archived
                    ++ append_event (task_archived result) (record d {
                      task = record d.task { state = archived; archived_result = some result };
                    })
                      ∷ [];
              },
              ok tt,
            )
      ]
]

-- The directory of a new task, before its first event.
abbrev pub new_dir : RepoProfile → String → String → String → String → String → TaskDir
new_dir r id title body branch path = record {
  name = id;
  task = record {
    task_id = id;
    repo_id = r.repo_id;
    title = title;
    body = body;
    state = ready;
    branch = some branch;
    worktree_path = some path;
    main_checkout = some r.main_checkout;
    block_reason = clear;
    iterations = 0;
    archived_result = none;
  };
  events = [];
  context = [];
  feedback = [];
}

-- TaskStore.create, and the event that `create_task` adds.
abbrev pub created_dir : RepoProfile → String → String → String → String → String → TaskDir
created_dir r id title body branch path =
    let made = append_event (task_created r.repo_id title) (new_dir r id title body branch path) in
    append_event (worktree_created branch path)
      (if truthy body then add_context "initial" body made else made)

-- `create_task`; `worktree` is the branch and the path that git made, `none` where it raised.
unfoldable pub create_task :
    Config
    → String
    → String
    → String
    → String
    → Option (String × String)
    → TaskStore
    → TaskStore × Result TaskError (Unit {0})
create_task config id repo_id title body worktree s =
    elim (find? (λ (r : RepoProfile). r.repo_id == repo_id) config) [
      | none ↦ (s, raise unknown_repo)
      | some r ↦ elim worktree [
        | none ↦ (s, raise node_failed)
        | some (branch, path) ↦ if any (is_named id) s.active then (s, raise already_exists) else (
          record s { active = s.active ++ created_dir r id title body branch path ∷ [] },
          ok tt,
        )
      ]
    ]
