-- ===== src/Operator/Guard.antt =====
-- operator/guard.py: the scope in effect, its risk, and who may authorize it.
pub mod Authority
use autobugfix_loop.Prelude.{
  ℕ, String, Bool, true, false, not, ◌&&◌, ◌||◌, Option, none, some, List, [], ◌∷◌, ◌++◌, map, ltb,
  leb, nat_eq, str_le, ◌==◌, opt_truthy, any, length, filter, sort_by, codes, codes_eq, has_prefix,
  contains, lower, if◌then◌else◌, Result, ok, raise, raise_if, ◌>>=◌, ◌>>◌,
}
use mathlib.Core.List.{reverse}
use autobugfix_loop.Operator.Records.{mem, dedup}
use autobugfix_loop.Operator.Records.Request.{
  Risk, low, medium, constitutional, OperatorRequest, check_request, declared_layers,
  OperatorApproval, RevisionStatus, approved, ScopeRevision, max_risk,
}
use autobugfix_loop.Operator.Store.{
  Env, Error, lift_model, no_layers, wrong_phase, writer_active, check_active,
}
use autobugfix_loop.Operator.Glob.{fnmatch, slashes, has_marker}
use autobugfix_loop.Operator.Layers.{Constitution, layers_for_file}
use autobugfix_loop.Operator.Approvals.{
  Trust, effective_approvals, any_matches, externally_valid, unverified,
}
use autobugfix_loop.Operator.Policy.{
  PermissionClass, permission_class, is_constitutional, is_local, is_empty, add, scope_demand,
}
use autobugfix_loop.Operator.Projection.{
  Phase, requested, active, verified as verified_phase, closed,
}

abbrev pub is_approved_status : RevisionStatus → Bool
is_approved_status approved = true
is_approved_status _ = false

-- `max(approved, key=version)`: the first of the greatest.
abbrev pub latest_revision : Option ScopeRevision → List ScopeRevision → Option ScopeRevision
latest_revision best [] = best
latest_revision none (r ∷ rs) = latest_revision (some r) rs
latest_revision (some b) (r ∷ rs) =
    latest_revision (if ltb b.version r.version then some r else some b) rs

module _ (env : Env) where
  -- `replace` at the fields of a scope, which runs `__post_init__` again.
  unfoldable pub amend :
      OperatorRequest → List String → List String → Risk → Result Error OperatorRequest
  unfolding check_request
  amend r [] paths risk = raise no_layers
  amend r (layer ∷ layers) paths risk = do
    let amended = record r {
      primary_layer = layer;
      secondary_layers = layers;
      planned_paths = paths;
      requested_risk = risk;
    }
    lift_model
        (check_request (λ t. elim (env.from_isoformat t) [ none ↦ false | some n ↦ true ]) amended)
    ok amended

  -- The request at the latest of the approved revisions.
  unfoldable pub scope_from :
      OperatorRequest → List ScopeRevision → Result Error (OperatorRequest × ℕ)
  unfolding amend dedup max_risk
  scope_from r revisions = elim (latest_revision none revisions) [
    | none ↦ ok (r, 1)
    | some s ↦ do
      amended ← amend r (dedup s.layers) s.paths (max_risk r.requested_risk s.requested_risk)
      ok (amended, s.version)
  ]

  unfoldable pub effective_request :
      OperatorRequest → List ScopeRevision → Result Error (OperatorRequest × ℕ)
  unfolding scope_from
  effective_request r revisions = scope_from r (filter (λ s. is_approved_status s.status) revisions)

abbrev is_slash : ℕ → Bool
is_slash c = nat_eq c 47

unfoldable before_marker : List ℕ → List ℕ
unfolding has_marker
before_marker [] = []
before_marker (c ∷ s) = let rest = before_marker s in if has_marker (c ∷ []) then [] else c ∷ rest

-- `s.rsplit("/", 1)[0] if "/" in s else ""`
unfoldable directory : List ℕ → List ℕ
directory [] = []
directory (c ∷ s) = let rest = directory s in if any is_slash s then c ∷ rest else []

unfoldable drop_slashes : List ℕ → List ℕ
drop_slashes [] = []
drop_slashes (c ∷ s) = let rest = drop_slashes s in if is_slash c then rest else c ∷ s

-- `_literal_prefix`, with the `rstrip("/")` of its callers
unfoldable literal_prefix : String → List ℕ
unfolding slashes has_marker before_marker directory drop_slashes
literal_prefix pattern =
    let s = slashes (codes pattern) in
    let prefix = if has_marker s then directory (before_marker s) else s in
    reverse (drop_slashes (reverse prefix))

abbrev no_codes : List ℕ → Bool
no_codes [] = true
no_codes (c ∷ s) = false

-- `_patterns_may_overlap`
unfoldable pub patterns_may_overlap : String → String → Bool
unfolding has_marker fnmatch literal_prefix
patterns_may_overlap left right =
    let l = literal_prefix left in
    let r = literal_prefix right in
    if not (has_marker (codes left))
    then fnmatch (codes right) (codes left)
    else if not (has_marker (codes right))
    then fnmatch (codes left) (codes right)
    else no_codes l
      || no_codes r
      || codes_eq l r
      || has_prefix (r ++ 47 ∷ []) l
      || has_prefix (l ++ 47 ∷ []) r

-- One constructor for each message.
pub data ScopeViolation : Type 0 where
  unclassified_path outside_layers pathless_layer : String → ScopeViolation
  invalid_external : String × String → ScopeViolation
  needs_human needs_reviewer : ScopeViolation

-- What the loop over the planned paths collects.
pub record ScopeScan : Type 0 where
  pub inferred : List String
  pub protected : Bool
  pub violations : List ScopeViolation

unfoldable pub scan_path :
    Constitution → OperatorRequest → String → List String → ScopeScan → ScopeScan
unfolding patterns_may_overlap
scan_path c r path [] s = record s { violations = s.violations ++ unclassified_path path ∷ [] }
scan_path c r path (l ∷ ls) s = record s {
  inferred = s.inferred ++ l ∷ ls;
  violations =
      add (not (any (λ layer. mem layer (declared_layers r)) (l ∷ ls))) (outside_layers path)
        s.violations;
  protected = any (patterns_may_overlap path) c.protected_paths || s.protected;
}

unfoldable pub scan_paths :
    Constitution → OperatorRequest → List String → ScopeScan → Result Error ScopeScan
unfolding layers_for_file scan_path
scan_paths c r [] s = ok s
scan_paths c r (path ∷ paths) s = do
  layers ← layers_for_file c path
  scan_paths c r paths (scan_path c r path layers s)

abbrev pub no_paths : ScopeScan
no_paths = record { inferred = []; protected = false; violations = [] }

-- The end of `compute_scope_risk`: the risk, and the violations.
unfoldable pub scope_risk : OperatorRequest → ScopeScan → Risk × List ScopeViolation
unfolding dedup sort_by str_le max_risk
scope_risk r scan =
    let missing = filter (λ l. not (mem l scan.inferred)) (dedup (declared_layers r)) in
    let computed =
      if scan.protected
      then constitutional
      else if ltb 1 (length (dedup (declared_layers r ++ scan.inferred)))
      then medium
      else low in
    (
      max_risk r.requested_risk computed,
      scan.violations ++ map pathless_layer (sort_by str_le missing),
    )

unfoldable pub compute_scope_risk :
    Constitution → OperatorRequest → Result Error (Risk × List ScopeViolation)
unfolding scan_paths scope_risk
compute_scope_risk c r = do scan ← scan_paths c r r.planned_paths no_paths; ok (scope_risk r scan)

pub record ScopeAuthority : Type 0 where
  pub allowed : Bool
  pub risk : Risk
  pub permission_class : PermissionClass
  pub human_required : Bool
  pub review_required : Bool
  pub violations : List ScopeViolation

unfoldable pub authority_of : Risk → List ScopeViolation → ScopeAuthority
unfolding permission_class
authority_of risk violations = record {
  allowed = is_empty violations;
  risk = risk;
  permission_class = permission_class risk [];
  human_required = is_constitutional (permission_class risk []);
  review_required = not (is_local (permission_class risk []));
  violations = violations;
}

module _ (env : Env) (trust : Trust) where
  -- Whether an externally verified approval matches, where the class asks for a review.
  unfoldable pub has_scope :
      OperatorRequest → PermissionClass → ℕ → List OperatorApproval → Result Error Bool
  unfolding any_matches externally_valid
  has_scope r class version effective =
      if is_local class
      then ok true
      else any_matches trust env (externally_valid trust effective) r
          (scope_demand r.planned_paths (is_constitutional class) version)

  unfoldable pub check_scope_authority :
      Constitution → OperatorRequest → List OperatorApproval → ℕ → Result Error ScopeAuthority
  unfolding compute_scope_risk permission_class effective_approvals has_scope unverified
      authority_of
  check_scope_authority c r approvals version = do
    computed ← compute_scope_risk c r
    effective ← effective_approvals env approvals
    let human = is_constitutional (permission_class computed.0 [])
    found ← has_scope r (permission_class computed.0 []) version effective
    ok (
        authority_of computed.0 (
          computed.1
          ++ map invalid_external (unverified trust effective)
          ++ add (not found) (if human then needs_human else needs_reviewer) []))

abbrev pub phase_eq : Phase → Phase → Bool
phase_eq requested requested = true
phase_eq active active = true
phase_eq verified_phase verified_phase = true
phase_eq closed closed = true
phase_eq _ _ = false

-- `TransitionGuard.require_phase`
unfoldable pub require_phase : Phase → List Phase → Result Error (Unit {0})
require_phase actual allowed = raise_if (not (any (phase_eq actual) allowed)) wrong_phase

-- `TransitionGuard.require_no_active_run`
unfoldable pub require_no_active_run : Option String → Option String → Result Error (Unit {0})
require_no_active_run writer check = do
  raise_if (opt_truthy writer) writer_active
  raise_if (opt_truthy check) check_active

unfoldable join_lines : List String → List ℕ
join_lines [] = []
join_lines (l ∷ []) = codes l
join_lines (l ∷ m ∷ ls) = codes l ++ 10 ∷ join_lines (m ∷ ls)

-- `TransitionGuard.feedback_actions`
unfoldable pub feedback_actions : List String → List String
unfolding join_lines lower
feedback_actions failures =
    let text = lower (join_lines failures) in
    let says = λ (phrase : String). contains (codes phrase) text in
    if says "outside declared" || says "not classified" || says "scope approval"
    then "revert_candidate_change" ∷ "request_scope_change" ∷ "inspect" ∷ []
    else if says "approval"
    then "request_approval" ∷ "inspect" ∷ "abandon" ∷ []
    else if says "baseline"
    then "request_scope_change" ∷ "inspect" ∷ "abandon" ∷ []
    else if says "semantic"
    then "inspect" ∷ "request_review" ∷ "abandon" ∷ []
    else "retry_writer" ∷ "inspect" ∷ "abandon" ∷ []
