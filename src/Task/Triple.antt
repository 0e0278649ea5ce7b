-- ===== src/Task/Triple.antt =====
-- Rules for methods on a task's directory: what holds after a method that returns, and the account
-- of the event log after one that raises.
use autobugfix_loop.Prelude.{
  ◌+◌, ◌≡◌, inl, inr, refl, String, Bool, true, false, Option, none, some, find?, ◌==◌, Result, ok,
  raise, arith,
}
use autobugfix_loop.Task.Model.{
  TaskState, waiting_human_ppe_approval, ppe_approved, ppe_deployed, accepted, Reason, Payload,
  TaskDir, TaskError, unknown_repo, append_event, set_state, Exec, ◌>>=◌, fail, fail_if, write, get,
}
use autobugfix_loop.Task.Evaluator.{}
use autobugfix_loop.Task.Runner.{Config, RepoProfile, repo, node}
use autobugfix_loop.Task.Service.{}
use autobugfix_loop.Task.Account.{IsAccounted, IsLicensed, step_dir, step-IsAccounted, starts}

-- What holds after a method: `Q` where it returns, and the account where it raises.
abbrev pub Post : {A : Type 0} → (A → TaskDir → Type 0) → TaskDir → Result TaskError A → Type 0
Post Q d (ok a) = Q a d
Post Q d (raise e) = IsAccounted d

pub record Triple {A : Type 0} (P : TaskDir → Type 0) (m : Exec A) (Q : A → TaskDir → Type 0)
    : Type 0 where
  pub at : (d : TaskDir) → P d → Post Q (m d).0 (m d).1

pub Triple-bind :
    {A B : Type 0} {P : TaskDir → Type 0} {Q : A → TaskDir → Type 0} {R : B → TaskDir → Type 0}
    (m : Exec A) (f : A → Exec B)
    → Triple P m Q
    → ((a : A) → Triple (Q a) (f a) R)
    → Triple P (m >>= f) R
Triple-bind {A} {B} {Q = Q} {R = R} m f tm tf = record {
  at = λ d p. go (m d).0 (m d).1 (tm.at d p);
}
  where
    go :
        (d : TaskDir) (r : Result TaskError A)
        → Post Q d r
        → Post R
            (elim r as (λ _. TaskDir × Result TaskError B) [
              | ok a ↦ f a d
              | raise e ↦ (d, raise e)
            ]).0
            (elim r as (λ _. TaskDir × Result TaskError B) [
              | ok a ↦ f a d
              | raise e ↦ (d, raise e)
            ]).1
    go d (ok a) q = (tf a).at d q
    go d (raise e) q = q

module _ {P : TaskDir → Type 0} where
  pub Triple-fail_if :
      (b : Bool) (e : TaskError)
      → ((d : TaskDir) → P d → IsAccounted d)
      → Triple P (fail_if b e) (λ _ d. P d × (b ≡ false))
  Triple-fail_if true e k = record { at = k }
  Triple-fail_if false e k = record { at = λ d p. (p, refl) }

  pub Triple-node :
      {A : Type 0} (o : Option A)
      → ((d : TaskDir) → P d → IsAccounted d)
      → Triple P (node o) (λ a d. P d × (o ≡ some a))
  Triple-node none k = record { at = k }
  Triple-node (some a) k = record { at = λ d p. (p, refl) }

  pub Triple-get : Triple P get (λ task d. P d × (task ≡ d.task))
  Triple-get = record { at = λ d p. (p, refl) }

  pub Triple-repo :
      (config : Config) (id : String)
      → ((d : TaskDir) → P d → IsAccounted d)
      → Triple P (repo config id) (λ _ d. P d)
  Triple-repo config id k = record {
    at = λ d p. go d p (find? (λ (r : RepoProfile). r.repo_id == id) config);
  }
    where
      go :
          (d : TaskDir)
          → P d
          → (o : Option RepoProfile)
          → Post
              (λ (_ : RepoProfile) d. P d)
              ((elim o as (λ _. Exec RepoProfile) [
                | none ↦ fail unknown_repo
                | some r ↦ λ d. (d, ok r)
              ])
                d).0
              ((elim o as (λ _. Exec RepoProfile) [
                | none ↦ fail unknown_repo
                | some r ↦ λ d. (d, ok r)
              ])
                d).1
      go d p none = k d p
      go d p (some r) = p

-- A write of one logged step.
pub Triple-step :
    {P : TaskDir → Type 0} (f : TaskDir → TaskDir) (Q : Unit {0} → TaskDir → Type 0)
    → ((d : TaskDir) → P d → Q tt (f d))
    → Triple P (write f) Q
Triple-step f Q k = record { at = k }

-- A state that asks for no grant.
abbrev pub is_free : TaskState → Bool
is_free accepted = false
is_free ppe_approved = false
is_free ppe_deployed = false
is_free waiting_human_ppe_approval = false
is_free _ = true

pub free_IsLicensed :
    (d : TaskDir) (p : Payload) (state : TaskState) → is_free state ≡ true → IsLicensed d p state
free_IsLicensed d p state h = record {
  acceptance = λ e. absurd (ground arith);
  approval = λ e. absurd (ground arith);
  deployment = λ e. absurd (ground arith);
  gate = λ e. absurd (ground arith);
}

pub same_IsLicensed : (d : TaskDir) (p : Payload) → IsLicensed d p d.task.state
same_IsLicensed d p = record { acceptance = inr; approval = inr; deployment = inr; gate = inl }

-- A step that is not a run's opening leaves the iterations.
pub step_dir-plain :
    (p : Payload) (state : TaskState) (reason : Reason) (d : TaskDir)
    → starts p ≡ false
    → append_event p (set_state state reason d) ≡ step_dir p state reason d
unfolding step_dir
step_dir-plain p state reason d h =
    let e : d.task.iterations + 0 ≡ d.task.iterations = omega arith in rw (h, e)

pub log_IsAccounted :
    (p : Payload) (d : TaskDir) → starts p ≡ false → IsAccounted d → IsAccounted (append_event p d)
log_IsAccounted p d h v =
    rw (step_dir-plain p d.task.state d.task.block_reason d h)
      (step-IsAccounted p d.task.state d.task.block_reason d v (same_IsLicensed d p))

pub free_IsAccounted :
    (p : Payload) (state : TaskState) (reason : Reason) (d : TaskDir)
    → starts p ≡ false
    → is_free state ≡ true
    → IsAccounted d
    → IsAccounted (append_event p (set_state state reason d))
free_IsAccounted p state reason d h f v =
    rw (step_dir-plain p state reason d h)
      (step-IsAccounted p state reason d v (free_IsLicensed d p state f))
