-- ===== src/Task/Account.antt =====
-- A task's event log accounts for its state: what the log must hold for the states that a human or
-- the verifier and the evaluator have to grant, and how one logged step keeps that.
use autobugfix_loop.Prelude.{
  ℕ, suc, ◌+◌, ◌≡◌, ◌⊎◌, inl, inr, refl, sym, ap, Bool, true, false, ◌||◌, List, [], ◌∷◌, ◌++◌, map,
  any, length, if◌then◌else◌, arith, count, count-append, any-append, map-append_one, IsNumbered,
  IsNumbered-append_one,
}
use autobugfix_loop.Task.Model.{
  TaskState, writing, waiting_human_ppe_approval, ppe_approved, ppe_deployed, accepted, passed,
  Reason, pass, approve_ppe, accept, Payload, state_changed, verifier_completed,
  evaluator_completed, gate_applied, Event, TaskDir, append_event,
}

-- The events that grant a state.
abbrev pub accepts : Payload → Bool
accepts (gate_applied accept old state) = true
accepts _ = false

abbrev pub approves : Payload → Bool
approves (gate_applied approve_ppe old state) = true
approves _ = false

abbrev pub passes : Payload → Bool
passes (evaluator_completed pass reason) = true
passes _ = false

abbrev pub verifies : Payload → Bool
verifies (verifier_completed code) = passed code
verifies _ = false

-- The event that opens a run.
abbrev pub starts : Payload → Bool
starts (state_changed old writing reason) = true
starts _ = false

abbrev pub logged : (Payload → Bool) → TaskDir → Bool
logged p d = any (λ (e : Event). p e.payload) d.events

pub record IsAccounted (d : TaskDir) : Type 0 where
  pub numbered : IsNumbered (map (λ (e : Event). e.seq) d.events)
  pub runs : d.task.iterations ≡ count (λ (e : Event). starts e.payload) d.events
  pub acceptance : d.task.state ≡ accepted → logged accepts d ≡ true
  pub approval : d.task.state ≡ ppe_approved → logged approves d ≡ true
  pub deployment : d.task.state ≡ ppe_deployed → logged approves d ≡ true
  pub gate :
      d.task.state ≡ waiting_human_ppe_approval
      → (logged verifies d ≡ true) × (logged passes d ≡ true)

-- What a step from the directory to a state must have, with the event that it logs.
pub record IsLicensed (d : TaskDir) (p : Payload) (state : TaskState) : Type 0 where
  pub acceptance : state ≡ accepted → (accepts p ≡ true) ⊎ (d.task.state ≡ accepted)
  pub approval : state ≡ ppe_approved → (approves p ≡ true) ⊎ (d.task.state ≡ ppe_approved)
  pub deployment :
      state ≡ ppe_deployed → (d.task.state ≡ ppe_approved) ⊎ (d.task.state ≡ ppe_deployed)
  pub gate :
      state ≡ waiting_human_ppe_approval
      → (d.task.state ≡ waiting_human_ppe_approval)
        ⊎ ((logged verifies d ≡ true) × (logged passes d ≡ true))

-- The directory after a step that logs one event, sets the state, and may open a run.
unfoldable pub step_dir : Payload → TaskState → Reason → TaskDir → TaskDir
step_dir p state reason d = append_event p (record d {
  task = record d.task {
    state = state;
    block_reason = reason;
    iterations = d.task.iterations + (if starts p then 1 else 0);
  };
})

pub logged-step :
    (q : Payload → Bool) (p : Payload) (state : TaskState) (reason : Reason) (d : TaskDir)
    → logged q (step_dir p state reason d) ≡ (logged q d || q p)
unfolding step_dir
logged-step q p state reason d =
    let e =
      any-append (λ (e : Event). q e.payload) d.events
        (record { seq = suc (length d.events); payload = p } ∷ []) in
    ground arith

length-map : (es : List Event) → length (map (λ (e : Event). e.seq) es) ≡ length es
length-map [] = refl
length-map (e ∷ es) = ap suc (length-map es)

IsNumbered-step :
    (p : Payload) (es : List Event)
    → IsNumbered (map (λ (e : Event). e.seq) es)
    → IsNumbered
        (map (λ (e : Event). e.seq) (es ++ record { seq = suc (length es); payload = p } ∷ []))
IsNumbered-step p es h =
    rw (map-append_one (λ (e : Event). e.seq) es (record { seq = suc (length es); payload = p }))
      (IsNumbered-append_one _ _ h (ap suc (sym (length-map es))))

runs-step :
    (p : Payload) (es : List Event) (n : ℕ)
    → n ≡ count (λ (e : Event). starts e.payload) es
    → n + (if starts p then 1 else 0)
      ≡ count
          (λ (e : Event). starts e.payload)
          (es ++ record { seq = suc (length es); payload = p } ∷ [])
runs-step p es n h = omega (
  arith,
  count-append (λ (e : Event). starts e.payload) es
      (record { seq = suc (length es); payload = p } ∷ []),
)

pub step-IsAccounted :
    (p : Payload) (state : TaskState) (reason : Reason) (d : TaskDir)
    → IsAccounted d
    → IsLicensed d p state
    → IsAccounted (step_dir p state reason d)
step-IsAccounted p state reason d v l =
    let a = logged-step accepts p state reason d in
    let b = logged-step approves p state reason d in
    let c = logged-step passes p state reason d in
    let e = logged-step verifies p state reason d in
    record {
      numbered = unfold step_dir in IsNumbered-step p d.events v.numbered;
      runs = unfold step_dir in runs-step p d.events d.task.iterations v.runs;
      acceptance = λ s. rw a (
          unfold step_dir in
          elim (l.acceptance s) [ inl y ↦ ground arith | inr y ↦ ground (arith, v.acceptance y) ]);
      approval = λ s. rw b (
          unfold step_dir in
          elim (l.approval s) [ inl y ↦ ground arith | inr y ↦ ground (arith, v.approval y) ]);
      deployment = λ s. rw b (
          unfold step_dir in
          elim (l.deployment s) [
            | inl y ↦ ground (arith, v.approval y)
            | inr y ↦ ground (arith, v.deployment y)
          ]);
      gate = λ s.
          rw (e, c)
            (unfold step_dir in
              elim (l.gate s) [ inl y ↦ ground (arith, v.gate y) | inr y ↦ ground arith ]);
    }
