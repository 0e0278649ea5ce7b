-- ===== src/Operator/Records/Line.antt =====
-- operator/models.py: StudyRecord, ExperimentLineRecord, IntegrationRecord and CheckpointRecord.
use autobugfix_loop.Prelude.{
  ℕ, String, Bool, true, false, not, ◌&&◌, ◌||◌, Option, none, some, List, [], ◌∷◌, ◌==◌,
  opt_truthy, Result, raise_if, ◌>>◌,
}
use autobugfix_loop.Operator.Records.{
  ModelError, bad_choice, unpaired_binding, candidate_unbound, h0_parent, missing_parent, required,
  LineStatus,
}

-- The success contract is held by its digest.
pub record Study : Type 0 where
  pub study_id : String
  pub purpose : String
  pub base_checkpoint_id : String
  pub base_subject_sha : String
  pub harness_sha : String
  pub policy_digest : String
  pub line_id : String
  pub primary_model : String
  pub target_checkpoint_name : String
  pub manifest_digest : String
  pub role_config_digest : String
  pub memory_digest : String
  pub success_contract : String
  pub cohort_id : Option String
  pub base_config_digest : Option String
  pub base_model_digest : Option String
  pub base_skills_digest : Option String
  pub memory_snapshot_path : Option String
  pub manifest_snapshot_path : Option String
  pub created_at : String

pub record ExperimentLine : Type 0 where
  pub line_id : String
  pub study_id : String
  pub branch : String
  pub base_sha : String
  pub head_sha : String
  pub generation : ℕ
  pub active_checkpoint_id : Option String
  pub status : LineStatus
  pub remote : Option String
  pub created_at : String

pub data IntegrationKind : Type 0 where
  candidate rollback reconciliation : IntegrationKind

pub record Integration : Type 0 where
  pub integration_id : String
  pub study_id : String
  pub line_id : String
  pub kind : IntegrationKind
  pub expected_head_sha : String
  pub expected_generation : ℕ
  pub candidate_head_sha : String
  pub result_head_sha : String
  pub result_tree_sha : String
  pub patch_digest : String
  pub policy_digest : String
  pub actor : String
  pub request_id : Option String
  pub check_run_id : Option String
  pub budget_grant_id : Option String
  pub budget_digest : Option String
  pub artifact_ids : List String
  pub created_at : String

pub record Checkpoint : Type 0 where
  pub checkpoint_id : String
  pub study_id : String
  pub line_id : String
  pub name : String
  pub subject_sha : String
  pub tree_sha : String
  pub harness_sha : String
  pub policy_digest : String
  pub config_digest : String
  pub model_digest : String
  pub skills_digest : String
  pub memory_digest : String
  pub manifest_digest : String
  pub budget_digest : String
  pub metric_digest : String
  pub release_path : String
  pub parent_checkpoint_id : Option String
  pub parent_subject_sha : Option String
  pub created_at : String

unfoldable pub check_line : ExperimentLine → Result ModelError (Unit {0})
check_line l = do
  required (l.line_id ∷ l.study_id ∷ l.branch ∷ l.base_sha ∷ l.head_sha ∷ [])
  required (elim l.remote [ none ↦ [] | some r ↦ r ∷ [] ])

abbrev is_candidate : IntegrationKind → Bool
is_candidate candidate = true
is_candidate _ = false

abbrev bool_eq : Bool → Bool → Bool
bool_eq true b = b
bool_eq false b = not b

unfoldable pub check_integration : Integration → Result ModelError (Unit {0})
check_integration i = do
  required (
      i.integration_id ∷ i.study_id ∷ i.line_id ∷ i.expected_head_sha ∷ i.candidate_head_sha
      ∷ i.result_head_sha ∷ i.result_tree_sha ∷ i.patch_digest ∷ i.policy_digest ∷ i.actor ∷ [])
  raise_if
      (is_candidate i.kind && (not (opt_truthy i.request_id) || not (opt_truthy i.check_run_id)))
      candidate_unbound
  raise_if (not (bool_eq (opt_truthy i.budget_grant_id) (opt_truthy i.budget_digest)))
      unpaired_binding

unfoldable pub check_checkpoint : Checkpoint → Result ModelError (Unit {0})
check_checkpoint c = do
  required (
      c.checkpoint_id ∷ c.study_id ∷ c.line_id ∷ c.subject_sha ∷ c.tree_sha ∷ c.harness_sha
      ∷ c.policy_digest ∷ c.config_digest ∷ c.model_digest ∷ c.skills_digest ∷ c.memory_digest
      ∷ c.manifest_digest ∷ c.budget_digest ∷ c.metric_digest ∷ c.release_path ∷ [])
  raise_if (not (c.name == "H0" || c.name == "H_bug" || c.name == "H_general")) bad_choice
  raise_if
      (c.name == "H0" && (opt_truthy c.parent_checkpoint_id || opt_truthy c.parent_subject_sha))
      h0_parent
  raise_if
      (not (c.name == "H0")
        && (not (opt_truthy c.parent_checkpoint_id) || not (opt_truthy c.parent_subject_sha)))
      missing_parent
