-- ===== src/Operator/ScopeTests.antt =====
-- The theorems on the scope of a request at concrete tables.
use autobugfix_loop.Operator.Glob.{accepts, tokens, matches}
use autobugfix_loop.Operator.Approvals.{keep_effective}
use autobugfix_loop.Prelude.{
  ◌++◌, List, some, true, false, is_blank, is_safe_id, ◌≡◌, refl, none, [], ◌∷◌, ok, raise,
}
use autobugfix_loop.Operator.Records.Request.{low, constitutional, scope, approve}
use autobugfix_loop.Operator.Store.{Error}
use autobugfix_loop.Operator.Policy.{constitutional_class}
use autobugfix_loop.Operator.Guard.{ScopeAuthority, needs_human}
use autobugfix_loop.Operator.Events.{LoggedEvent, NewEvent, EventRow, append_event, chained, row_of}
use autobugfix_loop.Operator.Projection.{
  request_closed, apply_event, is_allowed, enter, project_from, request_created,
}
use autobugfix_loop.Operator.Scope.{
  Governance, Service, ScopeChange, current_request, request_scope_change, reopen, close,
}
use autobugfix_loop.Operator.Scope.Kept.{request_scope_change-keeps}
use autobugfix_loop.Operator.Scope.Closed.{Later, now, then_appended, closed-refuses}
use autobugfix_loop.Operator.Scope.Refused.{
  Call, changes, reopens, is_approved, perform_all, refused-blocks,
}
use autobugfix_loop.Operator.PolicyTests.{approval, env, trust, constitution, request}

abbrev service : Service
service = record {
  env = env;
  trust = trust;
  hash = λ e. "h";
  fresh_event_id = λ rows. "e";
  dump = λ payload. "{}";
  message = λ violation. "";
  constitution = constitution;
}

abbrev created : LoggedEvent
created = record {
  event_id = "1";
  request_id = "r";
  kind = request_created;
  actor = "x";
  payload = "{}";
  previous_hash = none;
  created_at = "";
}

-- A request that nobody has approved.
abbrev tables : Governance
tables = record {
  requests = request ∷ [];
  approvals = [];
  revisions = [];
  events = row_of (λ e. "h") created ∷ [];
}

abbrev wider : ScopeChange
wider = record {
  revision_id = "v";
  add_layers = [];
  add_paths = "o/k" ∷ [];
  requested_risk = low;
  reason = "";
  actor = "x";
}

abbrev narrower : ScopeChange
narrower = record {
  revision_id = "w";
  add_layers = [];
  add_paths = "d/a" ∷ [];
  requested_risk = low;
  reason = "";
  actor = "x";
}

abbrev refused : ScopeAuthority
refused = record {
  allowed = false;
  risk = constitutional;
  permission_class = constitutional_class;
  human_required = true;
  review_required = true;
  violations = needs_human ∷ [];
}

proposed : (request_scope_change service "r" wider tables).1 ≡ ok refused
unfolding request_scope_change is_safe_id project_from enter is_allowed apply_event is_blank
    keep_effective matches tokens accepts
proposed = refl

request_scope_change-keeps_example :
    current_request service "r" (request_scope_change service "r" wider tables).0
    ≡ current_request service "r" tables
unfolding request_scope_change is_safe_id project_from enter is_allowed apply_event is_blank
    keep_effective matches tokens accepts
request_scope_change-keeps_example = request_scope_change-keeps service "r" "r" wider tables refl

-- The request is approved only now, and someone tries to reopen it.
abbrev meanwhile : List Call
meanwhile = reopens "again" "y" ∷ changes wider ∷ is_approved (approval "a" scope approve) ∷ []

refused-blocks_example :
    let h = perform_all service "r" meanwhile (request_scope_change service "r" wider tables).0 in
    (e : Error) × (request_scope_change service "r" narrower h ≡ (h, raise e))
refused-blocks_example =
    refused-blocks service "r" wider narrower meanwhile tables refused proposed refl

abbrev closing : LoggedEvent
closing = record {
  event_id = "e";
  request_id = "r";
  kind = request_closed "done";
  actor = "x";
  payload = "{}";
  previous_hash = some "h";
  created_at = "";
}

abbrev closed_tables : Governance
closed_tables = record tables {
  events = row_of (λ e. "h") created ∷ row_of (λ e. "h") closing ∷ [];
}

ended : close service "r" "done" "x" tables ≡ ok closed_tables
unfolding close is_safe_id project_from enter is_allowed apply_event
ended = refl

-- Later, an approval was stored, and another request has logged its creation.
abbrev noted : NewEvent
noted = record {
  event_id = "f";
  request_id = "s";
  kind = request_created;
  actor = "y";
  payload = "{}";
  created_at = "";
}

abbrev later_events : List EventRow
later_events = closed_tables.events ++ row_of (λ e. "h") (chained (λ e. "h") noted none) ∷ []

abbrev later_tables : Governance
later_tables = record closed_tables {
  approvals = approval "a" scope approve ∷ [];
  events = later_events;
}

noted-Later : Later service.hash closed_tables.events later_tables.events
unfolding append_event is_safe_id
noted-Later =
    then_appended ("r" ∷ "s" ∷ []) noted closed_tables.events later_events later_events refl
      (now later_events)

closed-refuses_example :
    ((e : Error) × (request_scope_change service "r" wider later_tables ≡ (later_tables, raise e)))
    × ((e : Error) × (reopen service "r" "again" "y" later_tables ≡ raise e))
    × ((e : Error) × (close service "r" "twice" "z" later_tables ≡ raise e))
closed-refuses_example =
    closed-refuses service "r" "done" "x" "twice" "again" "y" "z" wider tables closed_tables
      later_tables ended noted-Later
