-- ===== src/Operator/Policy.antt =====
-- operator/policy.py: `evaluate_policy`. The candidate's snapshot, which git gives, and the findings
-- of `static_constitution_violations`, which reads the candidate's files, are arguments.
pub mod Steps
pub mod Allowed
pub mod InScope
use autobugfix_loop.Prelude.{
  ℕ, ◌<◌, String, Bool, true, false, not, ◌&&◌, ◌||◌, Option, none, some, List, [], ◌∷◌, ◌++◌, map,
  ltb, str_le, ◌==◌, any, length, filter, sort_by, if◌then◌else◌, Result, ok, raise, ◌>>=◌,
}
use autobugfix_loop.Operator.Records.{mem, dedup}
use autobugfix_loop.Operator.Records.Request.{
  Risk, low, medium, high, constitutional, OperatorRequest, declared_layers, OperatorApproval,
  scope, merge, max_risk,
}
use autobugfix_loop.Operator.Store.{Env, Error, is_expired}
use autobugfix_loop.Operator.Glob.{matches_any}
use autobugfix_loop.Operator.Layers.{Constitution, layers_for_file}
use autobugfix_loop.Operator.Approvals.{
  Trust, Demand, effective_approvals, any_matches, externally_valid, unverified,
}

pub record CandidateSnapshot : Type 0 where
  pub branch : String
  pub head_sha : String
  pub base_sha : String
  pub changed_files : List String
  pub patch_digest : String
  pub base_is_ancestor : Bool

-- The argument `phase`.
pub data PolicyPhase : Type 0 where
  preflight postflight merging : PolicyPhase

pub data PermissionClass : Type 0 where
  layer_local cross_layer constitutional_class : PermissionClass

-- One constructor for each message.
pub data Violation : Type 0 where
  ambiguous_file outside_scope unknown_profile static_finding : String → Violation
  protected_branch other_branch other_base not_ancestor expired no_changes : Violation
  invalid_external : String × String → Violation
  no_scope_approval no_merge_approval : Violation

-- What the loop over the changed files collects. A layer stands once in `changed_layers`.
pub record Scan : Type 0 where
  pub changed_layers : List String
  pub protected : List String
  pub unclassified : List String
  pub out_of_scope : List String
  pub violations : List Violation

abbrev pub add : {A : Type 0} → Bool → A → List A → List A
add true x xs = xs ++ x ∷ []
add false x xs = xs

abbrev pub is_empty : {A : Type 0} → List A → Bool
is_empty [] = true
is_empty (x ∷ xs) = false

-- The body of the loop, after `layers_for_file`.
unfoldable pub scan_file : Constitution → OperatorRequest → String → List String → Scan → Scan
unfolding matches_any
scan_file c r path layers s =
    let is_protected = matches_any path c.protected_paths in
    let p = add is_protected path s.protected in
    elim layers [
      | [] ↦ record s {
        protected = p;
        unclassified = s.unclassified ++ path ∷ [];
        out_of_scope = s.out_of_scope ++ path ∷ [];
      }
      | layer ∷ more ↦ elim more [
        | [] ↦ record s {
          protected = p;
          changed_layers = add (not (mem layer s.changed_layers)) layer s.changed_layers;
          out_of_scope =
              add (not (is_empty r.planned_paths) && not (matches_any path r.planned_paths)) path
                (add (not (mem layer (declared_layers r))) path s.out_of_scope);
        }
        | other ∷ others ↦ record s {
          protected = p;
          unclassified = s.unclassified ++ path ∷ [];
          out_of_scope = s.out_of_scope ++ path ∷ [];
          violations = s.violations ++ ambiguous_file path ∷ [];
        }
      ]
    ]

unfoldable pub scan_files : Constitution → OperatorRequest → List String → Scan → Result Error Scan
unfolding layers_for_file scan_file
scan_files c r [] s = ok s
scan_files c r (path ∷ paths) s = do
  layers ← layers_for_file c path
  scan_files c r paths (scan_file c r path layers s)

abbrev pub no_scan : Scan
no_scan = record {
  changed_layers = [];
  protected = [];
  unclassified = [];
  out_of_scope = [];
  violations = [];
}

-- `_computed_risk`
unfoldable pub computed_risk : Scan → Risk
computed_risk s =
    if not (is_empty s.protected)
    then constitutional
    else if not (is_empty s.unclassified)
    then high
    else if ltb 1 (length s.changed_layers)
    then medium
    else low

unfoldable pub permission_class : Risk → List String → PermissionClass
permission_class constitutional layers = constitutional_class
permission_class medium layers = cross_layer
permission_class high layers = cross_layer
permission_class low layers = if ltb 1 (length layers) then cross_layer else layer_local

abbrev pub is_constitutional : PermissionClass → Bool
is_constitutional constitutional_class = true
is_constitutional _ = false

abbrev pub is_local : PermissionClass → Bool
is_local layer_local = true
is_local _ = false

-- `_required_profiles`, and those of them that are not available
unfoldable pub required_profiles : Constitution → OperatorRequest → List String → Risk → List String
unfolding dedup sort_by str_le
required_profiles c r changed risk = sort_by str_le (
    dedup (
      r.validation_profiles
      ++ (if is_empty changed then declared_layers r else changed)
      ++ c.risk_required_profiles risk))

unfoldable pub missing_profiles : Constitution → List String → List String
missing_profiles c profiles = filter (λ p. not (mem p c.validation_profiles)) profiles

pub record PolicyDecision : Type 0 where
  pub allowed : Bool
  pub snapshot : CandidateSnapshot
  pub changed_layers : List String
  pub protected_files : List String
  pub out_of_scope_files : List String
  pub unclassified_files : List String
  pub computed_risk : Risk
  pub effective_risk : Risk
  pub permission_class : PermissionClass
  pub required_profiles : List String
  pub review_required : Bool
  pub human_required : Bool
  pub merge_human_required : Bool
  pub violations : List Violation

abbrev pub is_merging : PolicyPhase → Bool
is_merging merging = true
is_merging _ = false

abbrev pub is_preflight : PolicyPhase → Bool
is_preflight preflight = true
is_preflight _ = false

-- The violations that are read off the snapshot, before the approvals.
unfoldable pub candidate_violations :
    Constitution
    → OperatorRequest
    → PolicyPhase
    → CandidateSnapshot
    → Scan
    → Bool
    → List String
    → List Violation
unfolding dedup sort_by str_le
candidate_violations c r phase snapshot scan is_late missing =
    scan.violations
    ++ add (mem snapshot.branch c.protected_branches) protected_branch []
    ++ add (not (snapshot.branch == r.branch)) other_branch []
    ++ add (not (snapshot.base_sha == r.base_sha)) other_base []
    ++ add (not snapshot.base_is_ancestor) not_ancestor []
    ++ add is_late expired []
    ++ map outside_scope (sort_by str_le (dedup scan.out_of_scope))
    ++ map unknown_profile missing
    ++ add (not (is_preflight phase) && is_empty snapshot.changed_files) no_changes []

abbrev pub scope_demand : List String → Bool → ℕ → Demand
scope_demand files human version = record {
  files = files;
  require_human = human;
  stage = scope;
  patch_digest = none;
  head_sha = none;
  scope_version = version;
}

abbrev pub merge_demand : CandidateSnapshot → ℕ → Demand
merge_demand snapshot version = record {
  files = snapshot.changed_files;
  require_human = true;
  stage = merge;
  patch_digest = some snapshot.patch_digest;
  head_sha = some snapshot.head_sha;
  scope_version = version;
}

module _ (env : Env) (trust : Trust) where
  unfoldable pub evaluate_policy :
      Constitution
      → OperatorRequest
      → List OperatorApproval
      → CandidateSnapshot
      → List String
      → PolicyPhase
      → ℕ
      → Result Error PolicyDecision
  unfolding scan_files computed_risk max_risk permission_class required_profiles missing_profiles
      candidate_violations is_expired effective_approvals externally_valid unverified any_matches
  evaluate_policy c r approvals snapshot findings phase version = do
    scan ← scan_files c r snapshot.changed_files no_scan
    let risk = max_risk r.requested_risk (computed_risk scan)
    let class = permission_class risk (dedup (declared_layers r))
    let human = is_constitutional class
    let profiles = required_profiles c r scan.changed_layers risk
    is_late ← is_expired env r.expires_at
    effective ← effective_approvals env approvals
    let valid = externally_valid trust effective
    has_scope ←
        if is_local class
        then ok true
        else any_matches trust env valid r (scope_demand snapshot.changed_files human version)
    has_merge ←
        if human && is_merging phase
        then any_matches trust env valid r (merge_demand snapshot version)
        else ok true
    let violations =
        candidate_violations c r phase snapshot scan is_late (missing_profiles c profiles)
        ++ map invalid_external (unverified trust effective)
        ++ add (not has_scope) no_scope_approval []
        ++ add (not has_merge) no_merge_approval []
        ++ map static_finding findings
    ok record {
      allowed = is_empty violations;
      snapshot = snapshot;
      changed_layers = scan.changed_layers;
      protected_files = sort_by str_le scan.protected;
      out_of_scope_files = sort_by str_le (dedup scan.out_of_scope);
      unclassified_files = sort_by str_le scan.unclassified;
      computed_risk = computed_risk scan;
      effective_risk = risk;
      permission_class = class;
      required_profiles = profiles;
      review_required = not (is_local class);
      human_required = human;
      merge_human_required = human && is_merging phase;
      violations = violations;
    }
