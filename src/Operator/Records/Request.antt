-- ===== src/Operator/Records/Request.antt =====
-- operator/models.py: OperatorRequest, OperatorApproval and ScopeRevision. A risk is one of
-- VALID_RISKS, an approval's kind, stage and decision one of their lists.
use autobugfix_loop.Prelude.{
  ℕ, String, Bool, true, false, not, ◌&&◌, ◌||◌, Option, none, some, List, [], ◌∷◌, leb, nat_eq,
  opt_truthy, any, all, codes, codes_eq, has_prefix, if◌then◌else◌, Result, ok, raise_if, ◌>>◌,
}
use autobugfix_loop.Operator.Records.{
  not_positive, ModelError, bad_choice, bad_expiry, unpaired_binding, repeated_layer, empty_field,
  absolute_path, required, mem,
}
use autobugfix_loop.Operator.Glob.{slashes, segments}

pub data Risk : Type 0 where
  low medium high constitutional : Risk

pub record OperatorRequest : Type 0 where
  pub request_id : String
  pub summary : String
  pub primary_layer : String
  pub triage_id : String
  pub triage_digest : String
  pub evidence : List String
  pub validation_profiles : List String
  pub branch : String
  pub base_sha : String
  pub creator : String
  pub secondary_layers : List String
  pub requested_risk : Risk
  pub performance_baseline : Option String
  pub planned_paths : List String
  pub constitution_digest : Option String
  pub experiment_line_id : Option String
  pub experiment_line_generation : Option ℕ
  pub budget_grant_id : Option String
  pub budget_grant_digest : Option String
  pub expires_at : Option String
  pub created_at : String
  pub persisted_request_digest_schema : Option String

-- VALID_LAYERS
unfoldable pub is_layer : String → Bool
is_layer l =
    mem l ("execution" ∷ "memory" ∷ "eval" ∷ "operator" ∷ "shared_runtime" ∷ "docs_skills" ∷ [])

abbrev is_some_nat : Option ℕ → Bool
is_some_nat none = false
is_some_nat (some n) = true

abbrev bool_eq : Bool → Bool → Bool
bool_eq true b = b
bool_eq false b = not b

abbrev is_empty : List String → Bool
is_empty [] = true
is_empty (x ∷ xs) = false

-- A planned path that is blank, absolute, or has a `..`: the first of them decides the error.
unfoldable pub check_paths : List String → Result ModelError (Unit {0})
unfolding slashes segments required
check_paths [] = ok tt
check_paths (p ∷ ps) = do
  required (p ∷ [])
  raise_if
      (has_prefix (47 ∷ []) (slashes (codes p))
        || any (codes_eq (46 ∷ 46 ∷ [])) (segments (slashes (codes p))))
      absolute_path
  check_paths ps

-- `declared_layers`, a set
abbrev pub declared_layers : OperatorRequest → List String
declared_layers r = r.primary_layer ∷ r.secondary_layers

-- `__post_init__`; the first argument is whether `datetime.fromisoformat` accepts a text.
unfoldable pub check_request : (String → Bool) → OperatorRequest → Result ModelError (Unit {0})
unfolding required is_layer check_paths
check_request parses r = do
  required (
      r.request_id ∷ r.summary ∷ r.triage_id ∷ r.triage_digest ∷ r.branch ∷ r.base_sha ∷ r.creator
      ∷ [])
  raise_if (not (is_layer r.primary_layer)) bad_choice
  raise_if (not (all is_layer r.secondary_layers)) bad_choice
  raise_if (mem r.primary_layer r.secondary_layers) repeated_layer
  raise_if (is_empty r.evidence || is_empty r.validation_profiles || is_empty r.planned_paths)
      empty_field
  check_paths r.planned_paths
  raise_if (elim r.expires_at [ none ↦ false | some t ↦ opt_truthy (some t) && not (parses t) ])
      bad_expiry
  raise_if
      (not (bool_eq (opt_truthy r.experiment_line_id) (is_some_nat r.experiment_line_generation)))
      unpaired_binding
  raise_if (not (bool_eq (opt_truthy r.budget_grant_id) (opt_truthy r.budget_grant_digest)))
      unpaired_binding
  raise_if (not (bool_eq (opt_truthy r.budget_grant_id) (opt_truthy r.experiment_line_id)))
      unpaired_binding

pub data ApprovalKind : Type 0 where
  reviewer human_signed github interactive : ApprovalKind

pub data Stage : Type 0 where
  scope merge : Stage

pub data Decision : Type 0 where
  approve request_changes reject revoke : Decision

pub record OperatorApproval : Type 0 where
  pub approval_id : String
  pub request_id : String
  pub request_digest : String
  pub base_sha : String
  pub approver : String
  pub kind : ApprovalKind
  pub stage : Stage
  pub decision : Decision
  pub reason : String
  pub allowed_layers : List String
  pub scope_version : ℕ
  pub allowed_paths : List String
  pub expires_at : Option String
  pub patch_digest : Option String
  pub head_sha : Option String
  pub created_at : String

unfoldable pub check_approval : OperatorApproval → Result ModelError (Unit {0})
unfolding required is_layer
check_approval a = do
  required
      (a.approval_id ∷ a.request_id ∷ a.request_digest ∷ a.base_sha ∷ a.approver ∷ a.reason ∷ [])
  raise_if (is_empty a.allowed_layers) empty_field
  raise_if (nat_eq a.scope_version 0) not_positive
  raise_if (not (all is_layer a.allowed_layers)) bad_choice

abbrev pub stage_eq : Stage → Stage → Bool
stage_eq scope scope = true
stage_eq merge merge = true
stage_eq _ _ = false

unfoldable pub human_verified_kind : ApprovalKind → Bool
human_verified_kind human_signed = true
human_verified_kind github = true
human_verified_kind _ = false

abbrev pub is_reviewer : ApprovalKind → Bool
is_reviewer reviewer = true
is_reviewer _ = false

abbrev pub is_approve : Decision → Bool
is_approve approve = true
is_approve _ = false

pub data RevisionStatus : Type 0 where
  proposed approved rejected superseded : RevisionStatus

pub record ScopeRevision : Type 0 where
  pub revision_id : String
  pub request_id : String
  pub version : ℕ
  pub status : RevisionStatus
  pub layers : List String
  pub paths : List String
  pub requested_risk : Risk
  pub reason : String
  pub creator : String
  pub approval_ids : List String

unfoldable pub risk_rank : Risk → ℕ
risk_rank low = 0
risk_rank medium = 1
risk_rank high = 2
risk_rank constitutional = 3

-- `max_risk` of operator/guard.py and `_max_risk` of operator/policy.py at two risks
unfoldable pub max_risk : Risk → Risk → Risk
unfolding risk_rank
max_risk a b = if leb (risk_rank b) (risk_rank a) then a else b
