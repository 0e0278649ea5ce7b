-- ===== src/Operator/Records/Budget.antt =====
-- operator/models.py: BudgetRequestRecord, BudgetGrantRecord and UsageEntryRecord.
use autobugfix_loop.Prelude.{
  ℕ, String, Bool, true, false, not, ◌&&◌, ◌||◌, Option, none, some, List, [], ◌∷◌, ltb, nat_eq,
  opt_truthy, length, any, is_blank, Result, raise_if, ◌>>◌,
}
use autobugfix_loop.Operator.Records.{
  ModelError, bad_wave, bad_cases, empty_case, not_positive, bad_expiry, reserved_finished,
  terminal_unfinished, required, dedup, UsageStatus, is_reserved,
}

pub record BudgetRequest : Type 0 where
  pub budget_request_id : String
  pub study_id : String
  pub wave : ℕ
  pub case_ids : List String
  pub model : String
  pub max_calls : ℕ
  pub max_writer_attempts : ℕ
  pub max_operator_revisions : ℕ
  pub wall_time_seconds : ℕ
  pub case_concurrency : ℕ
  pub reason : String
  pub requester : String
  pub previous_grant_id : Option String
  pub created_at : String

pub record BudgetGrant : Type 0 where
  pub grant_id : String
  pub budget_request_id : String
  pub budget_request_digest : String
  pub study_id : String
  pub wave : ℕ
  pub case_ids : List String
  pub model : String
  pub max_calls : ℕ
  pub max_writer_attempts : ℕ
  pub max_operator_revisions : ℕ
  pub wall_time_seconds : ℕ
  pub case_concurrency : ℕ
  pub approved_by : String
  pub approval_kind : String
  pub previous_grant_id : Option String
  pub expires_at : Option String
  pub created_at : String

pub record UsageEntry : Type 0 where
  pub usage_id : String
  pub grant_id : String
  pub study_id : String
  pub call_key : String
  pub execution_id : String
  pub role : String
  pub model : String
  pub status : UsageStatus
  pub attempt : ℕ
  pub revision : ℕ
  pub case_id : Option String
  pub result_id : Option String
  pub raw_log_path : Option String
  pub stderr_log_path : Option String
  pub input_tokens : Option ℕ
  pub cached_input_tokens : Option ℕ
  pub output_tokens : Option ℕ
  -- in microseconds
  pub duration : Option ℕ
  pub error : Option String
  pub reserved_at : String
  pub finished_at : Option String

-- VALID_BUDGET_WAVES
abbrev pub valid_wave : ℕ → Bool
valid_wave w = nat_eq w 3 || nat_eq w 8 || nat_eq w 16

-- The part that both records check alike.
abbrev check_budget : ℕ → List String → List ℕ → Result ModelError (Unit {0})
check_budget wave case_ids limits = do
  raise_if (not (valid_wave wave)) bad_wave
  raise_if (not (nat_eq (length case_ids) wave) || not (nat_eq (length (dedup case_ids)) wave))
      bad_cases
  raise_if (any is_blank case_ids) empty_case
  raise_if (any (λ n. ltb n 1) limits) not_positive

unfoldable pub check_request : BudgetRequest → Result ModelError (Unit {0})
check_request r = do
  required (r.budget_request_id ∷ r.study_id ∷ r.model ∷ r.reason ∷ r.requester ∷ [])
  check_budget r.wave r.case_ids (
      r.max_calls ∷ r.max_writer_attempts ∷ r.max_operator_revisions ∷ r.wall_time_seconds
      ∷ r.case_concurrency ∷ [])

-- `parses` is whether `datetime.fromisoformat` accepts the text.
unfoldable pub check_grant : (String → Bool) → BudgetGrant → Result ModelError (Unit {0})
check_grant parses g = do
  required (
      g.grant_id ∷ g.budget_request_id ∷ g.budget_request_digest ∷ g.study_id ∷ g.model
      ∷ g.approved_by ∷ g.approval_kind ∷ [])
  check_budget g.wave g.case_ids (
      g.max_calls ∷ g.max_writer_attempts ∷ g.max_operator_revisions ∷ g.wall_time_seconds
      ∷ g.case_concurrency ∷ [])
  raise_if (elim g.expires_at [ none ↦ false | some t ↦ opt_truthy (some t) && not (parses t) ])
      bad_expiry

abbrev is_some : Option String → Bool
is_some none = false
is_some (some _) = true

unfoldable pub check_usage : UsageEntry → Result ModelError (Unit {0})
check_usage u = do
  required
      (u.usage_id ∷ u.grant_id ∷ u.study_id ∷ u.call_key ∷ u.execution_id ∷ u.role ∷ u.model ∷ [])
  raise_if (is_reserved u.status && is_some u.finished_at) reserved_finished
  raise_if (not (is_reserved u.status) && not (is_some u.finished_at)) terminal_unfinished
