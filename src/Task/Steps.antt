-- ===== src/Task/Steps.antt =====
-- The human gates, feedback, notes and the deployment keep the account of the event log.
use autobugfix_loop.Prelude.{
  suc, ◌≡◌, inl, inr, refl, sym, ap, ◌∙◌, String, Bool, true, false, not, List, [], ◌∷◌, ◌++◌,
  length, opt_truthy, if◌then◌else◌, ok, arith, Bool-cases, Result-cases,
}
use autobugfix_loop.Task.Model.{
  TaskState, ppe_approved, ppe_deployed, feedback_available, accepted, blocked, TaskRecord,
  ExitCode, passed, clear, deploy_failed, GateAction, approve_ppe, accept, context_added,
  feedback_added, feedback_state, gate_applied, deploy_run, TaskDir, no_worktree, wrong_state,
  ppe_disabled, ppe_unconfigured, append_event, set_state, add_context, store_feedback, get, Note,
}
use autobugfix_loop.Task.Evaluator.{}
use autobugfix_loop.Task.Runner.{Config}
use autobugfix_loop.Task.Service.{is_approved, gate_target, apply_gate, add_feedback, deploy_ppe}
use autobugfix_loop.Task.Account.{accepts, approves, IsAccounted, IsLicensed, step-IsAccounted}
use autobugfix_loop.Task.Triple.{
  Triple, Triple-bind, Triple-fail_if, Triple-get, Triple-repo, Triple-step, step_dir-plain,
  log_IsAccounted, free_IsAccounted,
}

gate_accepts :
    (action : GateAction) (old state : TaskState)
    → gate_target action old ≡ ok state
    → state ≡ accepted
    → accepts (gate_applied action old state) ≡ true
unfolding gate_target
gate_accepts accept old state h e = refl
gate_accepts _ old state h e = absurd (ground arith)

gate_approves :
    (action : GateAction) (old state : TaskState)
    → gate_target action old ≡ ok state
    → state ≡ ppe_approved
    → approves (gate_applied action old state) ≡ true
unfolding gate_target
gate_approves approve_ppe old state h e = refl
gate_approves _ old state h e = absurd (ground arith)

gate_IsLicensed :
    (action : GateAction) (d : TaskDir) (state : TaskState)
    → gate_target action d.task.state ≡ ok state
    → IsLicensed d (gate_applied action d.task.state state) state
unfolding gate_target
gate_IsLicensed action d state h = record {
  acceptance = λ e. inl (gate_accepts action d.task.state state h e);
  approval = λ e. inl (gate_approves action d.task.state state h e);
  deployment = λ e. absurd (ground arith);
  gate = λ e. absurd (ground arith);
}

pub apply_gate-IsAccounted :
    (action : GateAction) (d : TaskDir) → IsAccounted d → IsAccounted (apply_gate action d).0
unfolding apply_gate
apply_gate-IsAccounted action d v = elim (Result-cases (gate_target action d.task.state)) [
  | inr (e, p) ↦ rw (p, apply_gate) v
  | inl (state, p) ↦
      rw (p, apply_gate)
        (rw (step_dir-plain (gate_applied action d.task.state state) state clear d refl) (
          step-IsAccounted (gate_applied action d.task.state state) state clear d v
            (gate_IsLicensed action d state p)))
]

-- The account reads the task and the events alone.
notes_IsAccounted :
    (d : TaskDir) (context feedback : List Note)
    → IsAccounted d
    → IsAccounted (record d { context = context; feedback = feedback })
notes_IsAccounted d context feedback v = record {
  numbered = v.numbered;
  runs = v.runs;
  acceptance = v.acceptance;
  approval = v.approval;
  deployment = v.deployment;
  gate = v.gate;
}

store_feedback-IsAccounted :
    (decision content : String) (queue_only : Bool) (d : TaskDir)
    → IsAccounted d
    → IsAccounted (store_feedback decision content queue_only d)
unfolding store_feedback
store_feedback-IsAccounted decision content q d v =
    log_IsAccounted (feedback_added decision q (suc (length d.feedback))) _ refl (
      notes_IsAccounted d d.context
        (d.feedback ++ record { kind = decision; content = content } ∷ []) v)

pub add_context-IsAccounted :
    (kind content : String) (d : TaskDir) → IsAccounted d → IsAccounted (add_context kind content d)
unfolding add_context
add_context-IsAccounted kind content d v =
    log_IsAccounted (context_added kind (suc (length d.context))) _ refl (
      notes_IsAccounted d (d.context ++ record { kind = kind; content = content } ∷ []) d.feedback
        v)

pub add_feedback-IsAccounted :
    (decision content : String) (queue_only : Bool) (d : TaskDir)
    → IsAccounted d
    → IsAccounted (add_feedback decision content queue_only d).0
unfolding add_feedback
add_feedback-IsAccounted decision content true d v =
    store_feedback-IsAccounted decision content true d v
add_feedback-IsAccounted decision content false d v =
    free_IsAccounted (feedback_state decision) feedback_available clear _ refl refl
      (store_feedback-IsAccounted decision content false d v)

abbrev pub Accounted : {A : Type 0} → A → TaskDir → Type 0
Accounted a d = IsAccounted d

approved_state : (s : TaskState) → not (is_approved s) ≡ false → s ≡ ppe_approved
approved_state s h = ground arith

deploy_IsLicensed :
    (d : TaskDir) (result : ExitCode)
    → d.task.state ≡ ppe_approved
    → IsLicensed d (deploy_run result) ppe_deployed
deploy_IsLicensed d result h = record {
  acceptance = λ e. absurd (ground arith);
  approval = λ e. absurd (ground arith);
  deployment = λ e. inl h;
  gate = λ e. absurd (ground arith);
}

deployed_IsAccounted :
    (result : ExitCode) (d : TaskDir)
    → d.task.state ≡ ppe_approved
    → IsAccounted d
    → IsAccounted (
        append_event (deploy_run result) (
          if passed result
          then set_state ppe_deployed clear d
          else set_state blocked (deploy_failed result) d))
deployed_IsAccounted result d h v = elim (Bool-cases (passed result)) [
  | inr n ↦ rw n (free_IsAccounted (deploy_run result) blocked (deploy_failed result) d refl refl v)
  | inl y ↦ rw y (
      rw (step_dir-plain (deploy_run result) ppe_deployed clear d refl) (
        step-IsAccounted (deploy_run result) ppe_deployed clear d v (deploy_IsLicensed d result h)))
]

pub deploy-Triple :
    (config : Config) (result : ExitCode) → Triple IsAccounted (deploy_ppe config result) Accounted
unfolding deploy_ppe
deploy-Triple config result = Triple-bind get _ Triple-get (λ task.
    Triple-bind _ _ (Triple-fail_if (not (is_approved task.state)) wrong_state (λ d p. p.0)) (λ _.
      Triple-bind _ _ (Triple-repo config task.repo_id (λ d p. p.0.0)) (λ profile.
        Triple-bind _ _
          (Triple-fail_if (not (opt_truthy task.worktree_path)) no_worktree (λ d p. p.0.0))
          (λ _.
            Triple-bind _ _ (Triple-fail_if (not profile.ppe_enabled) ppe_disabled (λ d p. p.0.0.0))
              (λ _.
                Triple-bind _ _
                  (Triple-fail_if (not (opt_truthy profile.ppe_command)) ppe_unconfigured
                    (λ d p. p.0.0.0.0))
                  (λ _. Triple-step _ Accounted (λ d p.
                    deployed_IsAccounted result d
                      (ap (λ (k : TaskRecord). k.state) (sym p.0.0.0.0.1)
                        ∙ approved_state task.state p.0.0.0.1)
                      p.0.0.0.0.0)))))))
