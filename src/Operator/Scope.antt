-- ===== src/Operator/Scope.antt =====
-- operator/service.py: the calls of OperatorGovernanceService that change the scope and the phase of a
-- request, over the guard, the policy's constitution and the event log. What is written before an
-- error stays written. The tables are kept in the order that their reads ask for: the revisions of a
-- request by version. A call holds the request's lease; its `status` report is left out. A fresh event
-- identifier is taken not to collide, so the event that a call logs after its other writes does not
-- raise.
pub mod Kept
pub mod Blocked
pub mod Closed
pub mod Refused
use autobugfix_loop.Prelude.{
  ℕ, ◌+◌, String, Bool, true, false, not, ◌&&◌, ◌||◌, Option, none, some, List, [], ◌∷◌, ◌++◌, map,
  leb, nat_eq, str_le, ◌==◌, opt_truthy, any, filter, find?, insert_by, sort_by, if◌then◌else◌,
  Result, ok, raise, raise_if, ◌>>=◌, ◌>>◌,
}
use autobugfix_loop.Operator.Records.{mem, dedup}
use autobugfix_loop.Operator.Records.Request.{
  Risk, OperatorRequest, OperatorApproval, RevisionStatus, proposed, approved, ScopeRevision,
  max_risk, ApprovalKind, reviewer, Stage, scope, Decision, check_approval, declared_layers,
}
use autobugfix_loop.Operator.Store.{
  Env, Error, safe_id, or_raise, lift_model, missing_record, already_exists, bad_projection,
  empty_scope_change, pathless_layer, unmatched_layer, unknown_revision, not_pending,
  authority_missing, own_review, no_layers,
}
use autobugfix_loop.Operator.Layers.{Constitution, layers_for_file}
use autobugfix_loop.Operator.Approvals.{Trust}
use autobugfix_loop.Operator.Policy.{is_empty}
use autobugfix_loop.Operator.Guard.{
  ScopeViolation, ScopeAuthority, check_scope_authority, amend, effective_request, require_phase,
  require_no_active_run, phase_eq,
}
use autobugfix_loop.Operator.Events.{
  LoggedEvent, EventRow, NewEvent, append_event, read_events, projected_events,
}
use autobugfix_loop.Operator.Projection.{
  EventKind, other, scope_revision_approved, request_reopened, request_closed, Phase, requested,
  active, verified, closed, Projection, ProjectionError, project_request,
}

pub record Governance : Type 0 where
  pub requests : List OperatorRequest
  pub approvals : List OperatorApproval
  pub revisions : List ScopeRevision
  pub events : List EventRow

-- The values of the payloads that these calls log.
pub data Value : Type 0 where
  text : String → Value
  number : ℕ → Value
  texts : List String → Value

-- What the service takes from its surroundings.
pub record Service : Type 0 where
  pub env : Env
  pub trust : Trust
  pub hash : LoggedEvent → String
  -- `uuid.uuid4().hex`, by the events that are there
  pub fresh_event_id : List EventRow → String
  -- the canonical JSON of a payload
  pub dump : List (String × Value) → String
  -- the text of a violation
  pub message : ScopeViolation → String
  -- `self.policy().data`
  pub constitution : Constitution

-- `read_request`
unfoldable pub read_request : String → Governance → Result Error OperatorRequest
read_request request_id g = do
  safe_id request_id
  or_raise (find? (λ r. r.request_id == request_id) g.requests) missing_record

-- `read_scope_revisions`
unfoldable pub revisions_of : String → Governance → List ScopeRevision
revisions_of request_id g = filter (λ s. s.request_id == request_id) g.revisions

-- `read_approvals`
unfoldable pub approvals_of : String → Governance → List OperatorApproval
unfolding sort_by str_le
approvals_of request_id g =
    sort_by (λ a b. str_le a.created_at b.created_at)
      (filter (λ a. a.request_id == request_id) g.approvals)

-- `write_scope_revision`: an identifier, and a version of a request, stand once.
unfoldable pub write_scope_revision : ScopeRevision → Governance → Result Error Governance
unfolding insert_by
write_scope_revision s g = do
  safe_id s.revision_id
  raise_if
      (any (λ t. t.revision_id == s.revision_id) g.revisions
        || any (λ t. t.request_id == s.request_id && nat_eq t.version s.version) g.revisions)
      already_exists
  ok (record g { revisions = insert_by (λ t u. leb t.version u.version) s g.revisions })

-- `update_scope_revision`, of a revision that is there.
unfoldable pub update_scope_revision : ScopeRevision → Governance → Governance
update_scope_revision s g = record g {
  revisions = map (λ t. if t.revision_id == s.revision_id then s else t) g.revisions;
}

-- The arguments of `request_scope_change`.
pub record ScopeChange : Type 0 where
  pub revision_id : String
  pub add_layers : List String
  pub add_paths : List String
  pub requested_risk : Risk
  pub reason : String
  pub actor : String

-- The revision that `request_scope_change` proposes over the scope in effect.
unfoldable pub new_revision : String → ScopeChange → OperatorRequest × ℕ → ScopeRevision
unfolding dedup max_risk
new_revision request_id x (request, version) = record {
  revision_id = x.revision_id;
  request_id = request_id;
  version = version + 1;
  status = proposed;
  layers = dedup (declared_layers request ++ dedup x.add_layers);
  paths = dedup (request.planned_paths ++ dedup x.add_paths);
  requested_risk = max_risk request.requested_risk x.requested_risk;
  reason = x.reason;
  creator = x.actor;
  approval_ids = [];
}

abbrev pub lift_projection : Result ProjectionError Projection → Result Error Projection
lift_projection (ok p) = ok p
lift_projection (raise e) = raise bad_projection

module _ (service : Service) where
  -- `append_event` of the store
  abbrev pub new_event : String → EventKind → String → List (String × Value) → Governance → NewEvent
  new_event request_id kind actor payload g = record {
    event_id = service.fresh_event_id g.events;
    request_id = request_id;
    kind = kind;
    actor = actor;
    payload = service.dump payload;
    created_at = service.env.isoformat service.env.now;
  }

  unfoldable pub log :
      String → EventKind → String → List (String × Value) → Governance → Result Error Governance
  unfolding append_event
  log request_id kind actor payload g = do
    rows ←
        append_event service.hash (map (λ r. r.request_id) g.requests)
          (new_event request_id kind actor payload g) g.events
    ok (record g { events = rows })

  -- `projection`
  unfoldable pub projection : String → Governance → Result Error Projection
  unfolding read_request read_events projected_events project_request
  projection request_id g = do
    request ← read_request request_id g
    events ← read_events service.hash request_id g.events
    lift_projection (project_request request_id (projected_events service.hash events))

  -- `_effective_request`
  unfoldable pub current_request : String → Governance → Result Error (OperatorRequest × ℕ)
  unfolding read_request effective_request revisions_of
  current_request request_id g = do
    request ← read_request request_id g
    effective_request service.env request (revisions_of request_id g)

  -- `_request_for_revision`
  unfoldable pub request_for_revision :
      String → ScopeRevision → Governance → Result Error OperatorRequest
  unfolding read_request amend max_risk
  request_for_revision request_id s g = do
    base ← read_request request_id g
    amend service.env base s.layers s.paths (max_risk base.requested_risk s.requested_risk)

  -- The new layers that no new path belongs to.
  unfoldable pub has_layer : String → List String → Result Error Bool
  unfolding layers_for_file
  has_layer layer [] = ok false
  has_layer layer (path ∷ paths) = do
    owners ← layers_for_file service.constitution path
    if mem layer owners then ok true else has_layer layer paths

  unfoldable pub check_layers : List String → List String → Result Error (Unit {0})
  unfolding has_layer
  check_layers [] paths = ok tt
  check_layers (layer ∷ layers) paths = do
    found ← has_layer layer paths
    raise_if (not found) unmatched_layer
    check_layers layers paths

  -- What the new layers and paths have to be.
  unfoldable pub check_change : ScopeChange → Result Error (Unit {0})
  unfolding check_layers dedup
  check_change x = do
    raise_if (is_empty (dedup x.add_layers) && is_empty (dedup x.add_paths)) empty_scope_change
    raise_if (not (is_empty (dedup x.add_layers)) && is_empty (dedup x.add_paths)) pathless_layer
    check_layers (dedup x.add_layers) (dedup x.add_paths)

  -- The part of `request_scope_change` before its first write: the phase, the request at the scope in
  -- effect, and the revision.
  unfoldable pub prepare_change :
      String → ScopeChange → Governance → Result Error (Phase × OperatorRequest × ScopeRevision)
  unfolding projection require_phase current_request check_change new_revision
  prepare_change request_id x g = do
    p ← projection request_id g
    require_phase p.state (requested ∷ active ∷ verified ∷ [])
    current ← current_request request_id g
    check_change x
    ok (p.state, current.0, new_revision request_id x current)

  -- After a revision is approved: it is stored, logged, and a verified request is reopened.
  unfoldable pub approve_revision :
      String → ScopeRevision → String → Phase → Governance → Result Error Governance
  unfolding update_scope_revision log
  approve_revision request_id s actor phase g = do
    logged ←
        log request_id (scope_revision_approved s.version) actor
          (("revision_id", text s.revision_id) ∷ ("version", number s.version) ∷ [])
          (update_scope_revision s g)
    if phase_eq phase verified
        then log request_id (request_reopened "scope_changed") "trusted-guard"
            (("reason", text "scope_changed") ∷ []) logged
        else ok logged

  -- The authority for a revision, at the request that it makes.
  unfoldable pub authority_for :
      String → OperatorRequest → ScopeRevision → Governance → Result Error ScopeAuthority
  unfolding amend check_scope_authority approvals_of
  authority_for request_id request s g = do
    synthetic ← amend service.env request s.layers s.paths s.requested_risk
    check_scope_authority service.env service.trust service.constitution synthetic
        (approvals_of request_id g) s.version

  abbrev pub proposal_payload : ScopeRevision → ScopeAuthority → List (String × Value)
  proposal_payload s authority =
      ("revision_id", text s.revision_id)
      ∷ ("version", number s.version)
      ∷ ("violations", texts (map service.message authority.violations))
      ∷ []

  unfoldable pub settle_change :
      String
      → ScopeChange
      → Phase
      → ScopeRevision
      → ScopeAuthority
      → Governance
      → Result Error Governance
  unfolding approve_revision log
  settle_change request_id x phase s authority g =
      if authority.allowed
      then approve_revision request_id (record s { status = approved }) "trusted-guard" phase g
      else log request_id (other "scope_revision_proposed") x.actor (proposal_payload s authority) g

  -- The part after the revision is written. Its own writes do not raise, since the request has been
  -- read under the same identifier and the identifiers of events are fresh.
  unfoldable pub decide_change :
      String
      → ScopeChange
      → Phase
      → OperatorRequest
      → ScopeRevision
      → Governance
      → Result Error (ScopeAuthority × Governance)
  unfolding authority_for settle_change
  decide_change request_id x phase request s g = do
    authority ← authority_for request_id request s g
    settled ← settle_change request_id x phase s authority g
    ok (authority, settled)

  -- `request_scope_change`, from its last part to its first: each returns what is stored by then.
  unfoldable pub end_change :
      Governance
      → Result Error (ScopeAuthority × Governance)
      → Governance × Result Error ScopeAuthority
  end_change g (raise e) = (g, raise e)
  end_change g (ok (authority, settled)) = (settled, ok authority)

  unfoldable pub write_change :
      String
      → ScopeChange
      → Phase
      → OperatorRequest
      → ScopeRevision
      → Governance
      → Result Error Governance
      → Governance × Result Error ScopeAuthority
  unfolding end_change decide_change
  write_change request_id x phase request s g (raise e) = (g, raise e)
  write_change request_id x phase request s g (ok written) =
      end_change written (decide_change request_id x phase request s written)

  unfoldable pub begin_change :
      String
      → ScopeChange
      → Governance
      → Result Error (Phase × OperatorRequest × ScopeRevision)
      → Governance × Result Error ScopeAuthority
  unfolding write_change write_scope_revision
  begin_change request_id x g (raise e) = (g, raise e)
  begin_change request_id x g (ok (phase, request, s)) =
      write_change request_id x phase request s g (write_scope_revision s g)

  unfoldable pub request_scope_change :
      String → ScopeChange → Governance → Governance × Result Error ScopeAuthority
  unfolding begin_change prepare_change
  request_scope_change request_id x g = begin_change request_id x g (prepare_change request_id x g)

  abbrev is_proposed : RevisionStatus → Bool
  is_proposed proposed = true
  is_proposed _ = false

  -- `activate_scope_revision`
  unfoldable pub activate_scope_revision :
      String → String → String → Governance → Result Error (ScopeAuthority × Governance)
  unfolding projection revisions_of request_for_revision check_scope_authority approvals_of
      approve_revision
  activate_scope_revision request_id revision_id actor g = do
    p ← projection request_id g
    s ←
        or_raise (find? (λ t. t.revision_id == revision_id) (revisions_of request_id g))
          unknown_revision
    raise_if (not (is_proposed s.status)) not_pending
    synthetic ← request_for_revision request_id s g
    authority ←
        check_scope_authority service.env service.trust service.constitution synthetic
          (approvals_of request_id g) s.version
    raise_if (not authority.allowed) authority_missing
    settled ←
        approve_revision request_id
          (record s {
            status = approved;
            approval_ids = map (λ a. a.approval_id) (approvals_of request_id g);
          })
          actor p.state g
    ok (authority, settled)

  -- `reopen`
  unfoldable pub reopen : String → String → String → Governance → Result Error Governance
  unfolding projection require_phase log
  reopen request_id reason actor g = do
    p ← projection request_id g
    require_phase p.state (verified ∷ [])
    log request_id (request_reopened reason) actor (("reason", text reason) ∷ []) g

  -- `close`
  unfoldable pub close : String → String → String → Governance → Result Error Governance
  unfolding projection require_phase require_no_active_run log
  close request_id outcome actor g = do
    p ← projection request_id g
    require_phase p.state (requested ∷ active ∷ verified ∷ [])
    require_no_active_run p.active_writer_run_id p.active_check_run_id
    log request_id (request_closed outcome) actor (("outcome", text outcome) ∷ []) g
