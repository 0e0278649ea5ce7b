-- ===== src/Operator/PolicyTests.antt =====
-- The theorems on approvals, policy and guard at a concrete request.
use autobugfix_loop.Operator.Glob.{
  fnmatch, slashes, match_path, matches_any, accepts, tokens, matches,
}
use autobugfix_loop.Prelude.{
  ◌≡◌, ◌↔◌, refl, String, true, false, none, some, List, [], ◌∷◌, ok, All, ◌⊎◌, find?, not, ◌||◌,
}
use autobugfix_loop.Operator.Records.Request.{
  OperatorRequest, OperatorApproval, low, constitutional, human_signed, Stage, scope, merge,
  approve, revoke, Decision,
}
use autobugfix_loop.Operator.Records.{mem}
use autobugfix_loop.Operator.Store.{Env, is_expired}
use autobugfix_loop.Operator.Layers.{Constitution, LayerTable, layers_for_file}
use autobugfix_loop.Operator.Layers.Owners.{owns, mem-layers_for_file}
use autobugfix_loop.Operator.Approvals.{
  approval_le, keep_effective, Trust, same_key, effective_approvals,
}
use autobugfix_loop.Operator.Approvals.Effective.{IsEffective, IsEffective-iff_latest}
use autobugfix_loop.Operator.Policy.{
  CandidateSnapshot, PolicyDecision, merging, constitutional_class, evaluate_policy, is_preflight,
  is_empty,
}
use autobugfix_loop.Operator.Policy.Allowed.{
  IsHumanApproval, protected-IsHumanApproval, merge-IsHumanApproval,
}
use autobugfix_loop.Operator.Policy.InScope.{IsInScope, allowed-IsInScope}
use autobugfix_loop.Operator.Guard.{patterns_may_overlap, ScopeAuthority, check_scope_authority}
use autobugfix_loop.Operator.Guard.Authority.{authority-IsHumanApproval}

abbrev pub env : Env
env = record {
  request_digest = λ r. "";
  policy_digest = "";
  from_isoformat = λ s. none;
  isoformat = λ n. "";
  now = 0;
}

abbrev pub trust : Trust
trust = record { request_digest = λ r. "d"; verify_external_approval = λ a. none }

abbrev pub table : LayerTable
table = ("operator", some ("o/*" ∷ [])) ∷ ("docs", some ("d/**" ∷ [])) ∷ []

abbrev pub constitution : Constitution
constitution = record {
  strategy = some "";
  layers = some table;
  protected_paths = "o/g" ∷ [];
  protected_branches = "main" ∷ [];
  validation_profiles = "operator" ∷ [];
  risk_required_profiles = λ r. [];
}

abbrev pub request : OperatorRequest
request = record {
  request_id = "r";
  summary = "s";
  primary_layer = "operator";
  triage_id = "t";
  triage_digest = "td";
  evidence = "e" ∷ [];
  validation_profiles = "operator" ∷ [];
  branch = "b";
  base_sha = "base";
  creator = "c";
  secondary_layers = [];
  requested_risk = low;
  performance_baseline = none;
  planned_paths = "o/g" ∷ [];
  constitution_digest = none;
  experiment_line_id = none;
  experiment_line_generation = none;
  budget_grant_id = none;
  budget_grant_digest = none;
  expires_at = none;
  created_at = "";
  persisted_request_digest_schema = none;
}

abbrev pub approval : String → Stage → Decision → OperatorApproval
approval id stage decision = record {
  approval_id = id;
  request_id = "r";
  request_digest = "d";
  base_sha = "base";
  approver = "h";
  kind = human_signed;
  stage = stage;
  decision = decision;
  reason = "ok";
  allowed_layers = "operator" ∷ [];
  scope_version = 1;
  allowed_paths = [];
  expires_at = none;
  patch_digest = some "p";
  head_sha = none;
  created_at = id;
}

abbrev approvals : List OperatorApproval
approvals = approval "1" scope approve ∷ approval "2" merge approve ∷ []

abbrev snapshot : CandidateSnapshot
snapshot = record {
  branch = "b";
  head_sha = "head";
  base_sha = "base";
  changed_files = "o/g" ∷ [];
  patch_digest = "p";
  base_is_ancestor = true;
}

abbrev decision : PolicyDecision
decision = record {
  allowed = true;
  snapshot = snapshot;
  changed_layers = "operator" ∷ [];
  protected_files = "o/g" ∷ [];
  out_of_scope_files = [];
  unclassified_files = [];
  computed_risk = constitutional;
  effective_risk = constitutional;
  permission_class = constitutional_class;
  required_profiles = "operator" ∷ [];
  review_required = true;
  human_required = true;
  merge_human_required = true;
  violations = [];
}

decided :
    evaluate_policy env trust constitution request approvals snapshot [] merging 1 ≡ ok decision
unfolding evaluate_policy keep_effective approval_le matches tokens accepts
decided = refl

merge-IsHumanApproval_example :
    (a : OperatorApproval) × IsEffective env approvals a
    × (a.stage ≡ merge)
    × IsHumanApproval trust request 1 a
    × ((a.patch_digest ≡ some "p") ⊎ (a.head_sha ≡ some "head"))
unfolding matches_any match_path slashes fnmatch matches tokens accepts
merge-IsHumanApproval_example =
    merge-IsHumanApproval env trust constitution request approvals snapshot [] 1 decision "o/g"
      decided refl refl refl

protected-IsHumanApproval_example :
    (a : OperatorApproval) × IsEffective env approvals a
    × (a.stage ≡ scope)
    × IsHumanApproval trust request 1 a
unfolding matches_any match_path slashes fnmatch matches tokens accepts
protected-IsHumanApproval_example =
    protected-IsHumanApproval env trust constitution request approvals snapshot [] merging 1
      decision "o/g" decided refl refl refl

allowed-IsInScope_example :
    All (IsInScope constitution request) snapshot.changed_files
    × (snapshot.branch ≡ request.branch)
    × (mem snapshot.branch constitution.protected_branches ≡ false)
    × (snapshot.base_sha ≡ request.base_sha)
    × (snapshot.base_is_ancestor ≡ true)
    × (is_expired env request.expires_at ≡ ok false)
    × ((is_preflight merging || not (is_empty snapshot.changed_files)) ≡ true)
allowed-IsInScope_example =
    allowed-IsInScope env trust constitution request approvals snapshot [] merging 1 decision
      decided refl

abbrev authority : ScopeAuthority
authority = record {
  allowed = true;
  risk = constitutional;
  permission_class = constitutional_class;
  human_required = true;
  review_required = true;
  violations = [];
}

authorized : check_scope_authority env trust constitution request approvals 1 ≡ ok authority
unfolding check_scope_authority keep_effective approval_le matches tokens accepts
authorized = refl

authority-IsHumanApproval_example :
    (a : OperatorApproval) × IsEffective env approvals a
    × (a.stage ≡ scope)
    × IsHumanApproval trust request 1 a
unfolding patterns_may_overlap matches tokens accepts
authority-IsHumanApproval_example =
    authority-IsHumanApproval env trust constitution request approvals 1 authority "o/g" authorized
      refl refl refl

-- The approval of the scope is revoked, that of the merge stays.
abbrev revoked : List OperatorApproval
revoked = approval "3" scope revoke ∷ approvals

effective : effective_approvals env revoked ≡ ok (approval "2" merge approve ∷ [])
unfolding effective_approvals keep_effective approval_le
effective = refl

IsEffective-iff_latest_example :
    (find? (same_key (approval "2" merge approve)) (approval "2" merge approve ∷ [])
      ≡ some (approval "2" merge approve))
    ↔ IsEffective env revoked (approval "2" merge approve)
IsEffective-iff_latest_example =
    IsEffective-iff_latest env revoked (approval "2" merge approve ∷ [])
      (approval "2" merge approve) effective

mem-layers_for_file_example : mem "operator" ("operator" ∷ []) ≡ owns table "o/g" "operator"
unfolding layers_for_file fnmatch matches tokens accepts
mem-layers_for_file_example =
    mem-layers_for_file constitution "o/g" "operator" table ("operator" ∷ []) refl refl
