-- ===== src/Task/Model.antt =====
-- autobugfix/models.py (TaskState, TaskRecord), autobugfix/events.py and the directory of one task in
-- autobugfix/task_store.py. What a method wrote before it raised stays written, so a method is a
-- function from the directory to the directory it leaves and its result. A directory is written back
-- where it was found. Time stamps, and the contents of the files under runs/ and artifacts/, are not
-- held: nothing here reads them.
use autobugfix_loop.Prelude.{
  ℕ, suc, String, Bool, true, false, Option, List, [], ◌∷◌, ◌++◌, length, nat_eq, Result, ok, raise,
  none, some, if◌then◌else◌, ◌==◌,
}

pub data TaskState : Type 0 where
  new ready writing verifying evaluating writer_rework_required : TaskState
  waiting_human_review waiting_human_ppe_approval ppe_approved ppe_deployed : TaskState
  waiting_human_acceptance feedback_available accepted abandoned paused archived blocked : TaskState

-- RUNNABLE_STATES
abbrev pub is_runnable : TaskState → Bool
is_runnable ready = true
is_runnable feedback_available = true
is_runnable writer_rework_required = true
is_runnable _ = false

-- `subprocess` gives a negative code to a process that a signal killed.
pub data ExitCode : Type 0 where
  exited : ℕ → ExitCode
  killed : ℕ → ExitCode

-- The texts that `block_reason` is given.
pub data Reason : Type 0 where
  clear evaluator_blocked changes_requested : Reason
  verifier_failed : ExitCode → Reason
  evaluator_reason : List ℕ → Reason
  deploy_failed : ExitCode → Reason

pub record TaskRecord : Type 0 where
  pub task_id : String
  pub repo_id : String
  pub title : String
  pub body : String
  pub state : TaskState
  pub branch : Option String
  pub worktree_path : Option String
  pub main_checkout : Option String
  pub block_reason : Reason
  pub iterations : ℕ
  pub archived_result : Option String

-- VerifierResult.passed
abbrev pub passed : ExitCode → Bool
passed (exited n) = nat_eq n 0
passed (killed n) = false

pub data Decision : Type 0 where
  pass needs_changes block : Decision

pub data GateAction : Type 0 where
  approve_ppe accept abandon pause resume unknown : GateAction

-- The events of a task, with their payloads. A note's file is given by its number.
pub data Payload : Type 0 where
  task_created : String → String → Payload
  worktree_created : String → String → Payload
  context_added : String → ℕ → Payload
  feedback_added : String → Bool → ℕ → Payload
  feedback_state : String → Payload
  state_changed : TaskState → TaskState → Reason → Payload
  writer_completed : ℕ → Payload
  verifier_completed : ExitCode → Payload
  evaluator_completed : Decision → List ℕ → Payload
  gate_applied : GateAction → TaskState → TaskState → Payload
  deploy_run : ExitCode → Payload
  task_archived : String → Payload

pub record Event : Type 0 where
  pub seq : ℕ
  pub payload : Payload

pub record Note : Type 0 where
  pub kind : String
  pub content : String

pub record TaskDir : Type 0 where
  pub name : String
  pub task : TaskRecord
  pub events : List Event
  pub context : List Note
  pub feedback : List Note

pub data TaskError : Type 0 where
  not_found already_exists unknown_repo no_worktree node_failed not_runnable : TaskError
  wrong_state not_archivable unknown_action ppe_disabled ppe_unconfigured archive_exists : TaskError

-- events.py, `append_event`: the number is one more than the events that the file holds.
abbrev pub append_event : Payload → TaskDir → TaskDir
append_event p d = record d {
  events = d.events ++ record { seq = suc (length d.events); payload = p } ∷ [];
}

-- `store.save` of a record with the new state.
abbrev pub set_state : TaskState → Reason → TaskDir → TaskDir
set_state state reason d = record d {
  task = record d.task { state = state; block_reason = reason };
}

-- TaskStore.add_context and add_feedback
unfoldable pub add_context : String → String → TaskDir → TaskDir
add_context kind content d =
    append_event (context_added kind (suc (length d.context)))
      (record d { context = d.context ++ record { kind = kind; content = content } ∷ [] })

unfoldable pub store_feedback : String → String → Bool → TaskDir → TaskDir
store_feedback decision content queue_only d =
    append_event (feedback_added decision queue_only (suc (length d.feedback)))
      (record d { feedback = d.feedback ++ record { kind = decision; content = content } ∷ [] })

-- A method on a task's directory that may raise.
abbrev pub Exec : Type 0 → Type 0
Exec A = TaskDir → TaskDir × Result TaskError A

infixl 5 ◌>>=◌ ◌>>◌
abbrev pub ◌>>=◌ : {A B : Type 0} → Exec A → (A → Exec B) → Exec B
◌>>=◌ m f d = let (d', r) = m d in elim r [ ok a ↦ f a d' | raise e ↦ (d', raise e) ]

abbrev pub ◌>>◌ : {B : Type 0} → Exec (Unit {0}) → Exec B → Exec B
m >> k = m >>= λ _. k

abbrev pub fail : {A : Type 0} → TaskError → Exec A
fail e d = (d, raise e)

abbrev pub write : (TaskDir → TaskDir) → Exec (Unit {0})
write f d = (f d, ok tt)

abbrev pub get : Exec TaskRecord
get d = (d, ok d.task)

abbrev pub fail_if : Bool → TaskError → Exec (Unit {0})
fail_if true e = fail e
fail_if false e = write (λ d. d)

-- `.autobugfix/tasks` and `.autobugfix/archive`; an archived directory is under its result's folder.
pub record TaskStore : Type 0 where
  pub active : List TaskDir
  pub archived : List TaskDir

abbrev pub run_in :
    {A : Type 0} → String → Exec A → List TaskDir → Option (List TaskDir × Result TaskError A)
run_in id m [] = none
run_in id m (d ∷ ds) =
    let rest = run_in id m ds in
    let this = m d in
    if d.name == id
    then some (this.0 ∷ ds, this.1)
    else elim rest [ none ↦ none | some (ds', r) ↦ some (d ∷ ds', r) ]

-- `find_task_dir`: the active directory, or else the first archived one of that name.
unfoldable pub on_task : {A : Type 0} → String → Exec A → TaskStore → TaskStore × Result TaskError A
on_task id m s = elim (run_in id m s.active) [
  | some (ds, r) ↦ (record s { active = ds }, r)
  | none ↦ elim (run_in id m s.archived) [
    | some (ds, r) ↦ (record s { archived = ds }, r)
    | none ↦ (s, raise not_found)
  ]
]
