-- ===== src/Operator/Projection.antt =====
-- operator/projection.py: what an Operator request's events make of it. An event kind carries what
-- the projection reads of the payload, with "", 0 and [] for a missing or empty value; a version is a
-- natural number, and `hash` is `computed_hash`.
pub mod Phases
use autobugfix_loop.Prelude.{
  zero, suc, suc, ℕ, String, Bool, true, false, Option, none, some, List, [], ◌∷◌, truthy,
  if◌then◌else◌, Result, ok, raise, ◌>>=◌,
}

pub data EventKind : Type 0 where
  request_created : EventKind
  request_activated : String → EventKind
  writer_started : String → EventKind
  writer_completed writer_failed writer_timed_out writer_cancelled : EventKind
  check_started : String → EventKind
  check_passed check_failed check_error check_cancelled : String → List String → EventKind
  -- the patch digest and the head
  patch_observed : String → String → EventKind
  scope_revision_approved : ℕ → EventKind
  gate_updated : List String → EventKind
  -- the check, the patch digest and the head
  verification_accepted : String → String → String → EventKind
  request_reopened : String → EventKind
  request_closed : String → EventKind
  other : String → EventKind

pub record OperatorEvent : Type 0 where
  pub kind : EventKind
  pub hash : String

pub data Phase : Type 0 where
  requested active verified closed : Phase

pub record Projection : Type 0 where
  pub request_id : String
  pub state : Phase
  pub last_event_hash : Option String
  pub workspace_path : Option String
  pub patch_digest : Option String
  pub head_sha : Option String
  pub validation_id : Option String
  pub active_writer_run_id : Option String
  pub active_check_run_id : Option String
  pub scope_version : ℕ
  pub outcome : Option String
  pub blocked_by : List String
  pub violations : List String

pub data ProjectionError : Type 0 where
  invalid_transition : Option Phase → Phase → ProjectionError
  not_created : ProjectionError

-- _PHASE_EVENTS
unfoldable pub phase_of : EventKind → Option Phase
phase_of request_created = some requested
phase_of (request_activated path) = some active
phase_of (verification_accepted check patch head) = some verified
phase_of (request_reopened reason) = some active
phase_of (request_closed outcome) = some closed
phase_of _ = none

-- _ALLOWED_PHASE_TRANSITIONS
unfoldable pub is_allowed : Option Phase → Phase → Bool
is_allowed none requested = true
is_allowed none _ = false
is_allowed (some requested) requested = true
is_allowed (some requested) active = true
is_allowed (some requested) closed = true
is_allowed (some requested) _ = false
is_allowed (some active) active = true
is_allowed (some active) verified = true
is_allowed (some active) closed = true
is_allowed (some active) _ = false
is_allowed (some verified) verified = true
is_allowed (some verified) active = true
is_allowed (some verified) closed = true
is_allowed (some verified) _ = false
is_allowed (some closed) closed = true
is_allowed (some closed) _ = false

-- `str(…) or None`, and `str(…) or` the value before.
abbrev or_none : String → Option String
or_none s = if truthy s then some s else none

abbrev or_keep : String → Option String → Option String
or_keep s before = if truthy s then some s else before

abbrev or_text : String → String → String
or_text s default = if truthy s then s else default

abbrev or_version : ℕ → ℕ → ℕ
or_version zero before = before
or_version (suc n) before = suc n

abbrev check_ended : String → List String → Projection → Projection
check_ended check failures p = record p {
  active_check_run_id = none;
  validation_id = or_keep check p.validation_id;
  violations = failures;
}

-- The chain of tests on the kind of an event.
unfoldable pub apply_event : EventKind → Projection → Projection
apply_event (request_activated path) p = record p { workspace_path = or_none path }
apply_event (writer_started run) p = record p { active_writer_run_id = or_none run }
apply_event writer_completed p = record p { active_writer_run_id = none }
apply_event writer_failed p = record p { active_writer_run_id = none }
apply_event writer_timed_out p = record p { active_writer_run_id = none }
apply_event writer_cancelled p = record p { active_writer_run_id = none }
apply_event (check_started check) p = record p { active_check_run_id = or_none check }
apply_event (check_passed check failures) p = check_ended check failures p
apply_event (check_failed check failures) p = check_ended check failures p
apply_event (check_error check failures) p = check_ended check failures p
apply_event (check_cancelled check failures) p = check_ended check failures p
apply_event (patch_observed patch head) p = record p {
  patch_digest = or_none patch;
  head_sha = or_none head;
}
apply_event (scope_revision_approved version) p = record p {
  scope_version = or_version version p.scope_version;
}
apply_event (gate_updated blocked) p = record p { blocked_by = blocked }
apply_event (verification_accepted check patch head) p = record p {
  validation_id = or_keep check p.validation_id;
  patch_digest = or_keep patch p.patch_digest;
  head_sha = or_keep head p.head_sha;
  blocked_by = [];
  violations = [];
}
apply_event (request_reopened reason) p = record p {
  blocked_by = or_text reason "candidate_changed" ∷ [];
}
apply_event (request_closed outcome) p = record p { outcome = some (or_text outcome "closed") }
apply_event request_created p = p
apply_event (other kind) p = p

-- The phase after an event, and the projection with it.
unfoldable pub enter :
    Option Phase → EventKind → Projection → Result ProjectionError (Option Phase × Projection)
unfolding phase_of
enter current kind p = elim (phase_of kind) [
  | none ↦ ok (current, p)
  | some phase ↦
      if is_allowed current phase
      then ok (some phase, record p { state = phase })
      else raise (invalid_transition current phase)
]

-- The loop over the events.
unfoldable pub project_from :
    Option Phase
    → Projection
    → List OperatorEvent
    → Result ProjectionError (Option Phase × Projection)
project_from current p [] = ok (current, p)
project_from current p (e ∷ es) = elim (enter current e.kind p) [
  | raise x ↦ raise x
  | ok (phase, q) ↦
      project_from phase (apply_event e.kind (record q { last_event_hash = some e.hash })) es
]

abbrev pub new_projection : String → Projection
new_projection id = record {
  request_id = id;
  state = requested;
  last_event_hash = none;
  workspace_path = none;
  patch_digest = none;
  head_sha = none;
  validation_id = none;
  active_writer_run_id = none;
  active_check_run_id = none;
  scope_version = 1;
  outcome = none;
  blocked_by = [];
  violations = [];
}

unfoldable pub project_request : String → List OperatorEvent → Result ProjectionError Projection
project_request id es = elim (project_from none (new_projection id) es) [
  | raise x ↦ raise x
  | ok (none, p) ↦ raise not_created
  | ok (some phase, p) ↦ ok p
]
