-- ===== src/Task/Runs.antt =====
-- A run keeps the account of the event log, whatever the nodes answer and wherever it raises.
use autobugfix_loop.Prelude.{
  suc, ◌+◌, ◌≡◌, inl, inr, refl, String, Bool, true, false, not, ◌||◌, Option, [], ◌∷◌, length,
  opt_truthy, if◌then◌else◌, arith, Bool-cases, any-append,
}
use autobugfix_loop.Task.Model.{
  TaskState, writing, verifying, evaluating, writer_rework_required, waiting_human_ppe_approval,
  blocked, is_runnable, ExitCode, passed, Reason, clear, verifier_failed, Decision, pass,
  needs_changes, block, Payload, state_changed, writer_completed, verifier_completed,
  evaluator_completed, Event, TaskDir, no_worktree, not_runnable, append_event, set_state, write,
  get,
}
use autobugfix_loop.Task.Evaluator.{Answer, Verdict, parse_evaluator_decision}
use autobugfix_loop.Task.Runner.{
  Config, Nodes, save_state, start_writing, conclude, evaluate, verify, run,
}
use autobugfix_loop.Task.Service.{run_task}
use autobugfix_loop.Task.Account.{
  IsAccounted, step_dir, step-IsAccounted, logged, verifies, passes, starts,
}
use autobugfix_loop.Task.Triple.{
  Triple, Triple-bind, Triple-fail_if, Triple-node, Triple-get, Triple-repo, Triple-step,
  free_IsLicensed, step_dir-plain, log_IsAccounted, free_IsAccounted, is_free,
}
use autobugfix_loop.Task.Steps.{Accounted}

-- `_save_state` to a state that asks for no grant, with facts on the log that it keeps.
save_free :
    {P : TaskDir → Type 0} (state : TaskState) (reason : Reason) (Q : TaskDir → Type 0)
    → is_free state ≡ true
    → ((old : TaskState) → starts (state_changed old state reason) ≡ false)
    → ((d : TaskDir) → P d → IsAccounted d)
    → ((d : TaskDir)
        → P d
        → Q (append_event (state_changed d.task.state state reason) (set_state state reason d)))
    → Triple P (save_state state reason) (λ _ d. IsAccounted d × Q d)
save_free state reason Q f s k q = Triple-step _ _ (λ d p. (
  free_IsAccounted (state_changed d.task.state state reason) state reason d (s d.task.state) f
      (k d p),
  q d p,
))

start_writing-IsAccounted : (d : TaskDir) → IsAccounted d → IsAccounted (start_writing d).0
start_writing-IsAccounted d v =
    let e : suc d.task.iterations ≡ d.task.iterations + 1 = omega arith in
    rw e (
      unfold step_dir in
      step-IsAccounted (state_changed d.task.state writing clear) writing clear d v
        (free_IsLicensed d (state_changed d.task.state writing clear) writing refl))

logged_after :
    (q : Payload → Bool) (p : Payload) (d : TaskDir)
    → logged q (append_event p d) ≡ (logged q d || q p)
logged_after q p d =
    let e =
      any-append (λ (e : Event). q e.payload) d.events
        (record { seq = suc (length d.events); payload = p } ∷ []) in
    ground arith

-- Logging one event without a change of state.
log_Triple :
    {P : TaskDir → Type 0} (f : TaskDir → Payload) (Q : TaskDir → Type 0)
    → ((d : TaskDir) → starts (f d) ≡ false)
    → ((d : TaskDir) → P d → IsAccounted d)
    → ((d : TaskDir) → P d → Q (append_event (f d) d))
    → Triple P (write (λ d. append_event (f d) d)) (λ _ d. IsAccounted d × Q d)
log_Triple f Q s k q = Triple-step _ _ (λ d p. (log_IsAccounted (f d) d (s d) (k d p), q d p))

-- The facts that the last step of a run needs.
abbrev Ready : Verdict → TaskDir → Type 0
Ready v d =
    IsAccounted d × (logged verifies d ≡ true) × (v.decision ≡ pass → logged passes d ≡ true)

gate_IsAccounted :
    (d : TaskDir)
    → logged verifies d ≡ true
    → logged passes d ≡ true
    → IsAccounted d
    → IsAccounted (
        append_event
          (state_changed d.task.state waiting_human_ppe_approval clear)
          (set_state waiting_human_ppe_approval clear d))
gate_IsAccounted d a b v =
    let p = state_changed d.task.state waiting_human_ppe_approval clear in
    rw (step_dir-plain p waiting_human_ppe_approval clear d refl) (
      step-IsAccounted p waiting_human_ppe_approval clear d v (record {
        acceptance = λ e. absurd (ground arith);
        approval = λ e. absurd (ground arith);
        deployment = λ e. absurd (ground arith);
        gate = λ e. inr (a, b);
      }))

conclude-Triple : (v : Verdict) → Triple (Ready v) (conclude v) Accounted
unfolding conclude
conclude-Triple v = go v.decision refl
  where
    go : (x : Decision) → v.decision ≡ x → Triple (Ready v) (conclude v) Accounted
    go pass e = rw (e, conclude) (record { at = λ d p. gate_IsAccounted d p.1 (p.2 refl) p.0 })
    go block e =
        rw (e, conclude) (record { at = λ d p. free_IsAccounted _ blocked _ d refl refl p.0 })
    go needs_changes e =
        rw (e, conclude)
          (record { at = λ d p. free_IsAccounted _ writer_rework_required _ d refl refl p.0 })

is_pass-logged :
    (v : Verdict) → v.decision ≡ pass → passes (evaluator_completed v.decision v.reason) ≡ true
is_pass-logged v e = rw e

evaluate-Triple :
    (yaml : String → Option Answer) (answer : Option String)
    → Triple (λ d. IsAccounted d × (logged verifies d ≡ true)) (evaluate yaml answer) Accounted
unfolding evaluate
evaluate-Triple yaml answer =
    Triple-bind _ _
      (save_free evaluating clear (λ d. logged verifies d ≡ true) refl (λ old. refl) (λ d p. p.0)
        (λ d p. rw (
          logged_after verifies (state_changed d.task.state evaluating clear)
              (set_state evaluating clear d),
          p.1,
        )))
      (λ _. Triple-bind _ _ (Triple-node answer (λ d p. p.0)) (λ text.
        let v = parse_evaluator_decision yaml text in
        Triple-bind _ _
          (log_Triple (λ d. evaluator_completed v.decision v.reason)
            (λ d. (logged verifies d ≡ true) × (v.decision ≡ pass → logged passes d ≡ true))
            (λ d. refl) (λ d p. p.0.0)
            (λ d p. (
              rw (logged_after verifies (evaluator_completed v.decision v.reason) d, p.0.1),
              λ e. ground (
                arith,
                logged_after passes (evaluator_completed v.decision v.reason) d,
                is_pass-logged v e,
              ),
            )))
          (λ _. record { at = λ d p. (conclude-Triple v).at d (p.0, p.1.0, p.1.1) })))

branch-Triple :
    (yaml : String → Option Answer) (answer : Option String) (code : ExitCode)
    → Triple
        (λ d. IsAccounted d × (passed code ≡ true → logged verifies d ≡ true))
        (if passed code
          then evaluate yaml answer
          else save_state writer_rework_required (verifier_failed code))
        Accounted
branch-Triple yaml answer code = elim (Bool-cases (passed code)) [
  | inl y ↦ rw y (record { at = λ d p. (evaluate-Triple yaml answer).at d (p.0, p.1 refl) })
  | inr n ↦
      rw n (record { at = λ d p. free_IsAccounted _ writer_rework_required _ d refl refl p.0 })
]

verify-Triple :
    (yaml : String → Option Answer) (nodes : Nodes)
    → Triple IsAccounted (verify yaml nodes) Accounted
unfolding verify
verify-Triple yaml nodes =
    Triple-bind _ _
      (Triple-step _ Accounted (λ d p. free_IsAccounted _ verifying clear d refl refl p))
      (λ _. Triple-bind _ _ (Triple-node nodes.verifier (λ d p. p)) (λ code.
        Triple-bind _ _ (Triple-node nodes.diff (λ d p. p.0)) (λ diff.
          Triple-bind _ _
            (log_Triple (λ d. verifier_completed code)
              (λ d. passed code ≡ true → logged verifies d ≡ true) (λ d. refl) (λ d p. p.0.0)
              (λ d p e. ground (arith, logged_after verifies (verifier_completed code) d)))
            (λ _. branch-Triple yaml nodes.evaluator code))))

pub run-Triple :
    (config : Config) (yaml : String → Option Answer) (nodes : Nodes)
    → Triple IsAccounted (run config yaml nodes) Accounted
unfolding run
run-Triple config yaml nodes = Triple-bind get _ Triple-get (λ task.
    Triple-bind _ _ (Triple-fail_if (not (is_runnable task.state)) not_runnable (λ d p. p.0)) (λ _.
      Triple-bind _ _ (Triple-repo config task.repo_id (λ d p. p.0.0)) (λ profile.
        Triple-bind _ _
          (Triple-fail_if (not (opt_truthy task.worktree_path)) no_worktree (λ d p. p.0.0))
          (λ _.
            Triple-bind _ _ (Triple-step _ Accounted (λ d p. start_writing-IsAccounted d p.0.0.0))
              (λ _. Triple-bind _ _ (Triple-node nodes.writer (λ d p. p)) (λ text.
                Triple-bind _ _
                  (Triple-step _ Accounted
                    (λ d p. log_IsAccounted (writer_completed d.task.iterations) d refl p.0))
                  (λ _. verify-Triple yaml nodes)))))))

-- A run, and `run_task` before it.
pub run_task-Triple :
    (config : Config) (yaml : String → Option Answer) (nodes : Nodes)
    → Triple IsAccounted (run_task config yaml nodes) Accounted
unfolding run_task
run_task-Triple config yaml nodes = Triple-bind get _ Triple-get (λ task.
    Triple-bind _ _ (Triple-fail_if (not (is_runnable task.state)) not_runnable (λ d p. p.0))
      (λ _. record { at = λ d p. (run-Triple config yaml nodes).at d p.0.0 }))
