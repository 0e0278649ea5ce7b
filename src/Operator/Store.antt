-- ===== src/Operator/Store.antt =====
-- operator/store.py: the tables of the authority database that the budgets and the experiment lines
-- use, and what the store takes from its environment. A method is one transaction: it returns the
-- new tables, or raises and changes nothing (the connection's context manager rolls back). A row
-- holds its record; the columns that the code compares with the record are held beside it.
use autobugfix_loop.Prelude.{
  nat_eq, ◌&&◌, ℕ, String, Bool, true, false, not, Option, none, some, List, leb, ◌==◌, truthy,
  find?, is_safe_id, Result, ok, raise, raise_if, ◌>>=◌, ◌>>◌,
}
use autobugfix_loop.Operator.Records.{line_status_eq, ModelError, UsageStatus, LineStatus}
use autobugfix_loop.Operator.Records.Budget.{BudgetRequest, BudgetGrant, UsageEntry}
use autobugfix_loop.Operator.Records.Line.{Study, ExperimentLine, Integration, Checkpoint}

-- OperatorStoreError and OperatorGovernanceError, one constructor for each message.
pub data Error : Type 0 where
  model : ModelError → Error
  bad_timestamp unsafe_id missing_record already_exists : Error
  -- a constraint of the database
  integrity_error : Error
  -- reservations
  not_reserved no_authority_request request_digest_mismatch other_study other_model : Error
  grant_expired superseded_wave status_disagrees calls_exhausted concurrency_exhausted : Error
  case_outside_grant attempt_not_positive attempts_exhausted not_next_attempt : Error
  case_exposed revision_outside not_next_revision role_outside : Error
  -- finalizations
  not_terminal reservation_changed already_finalized finalized_concurrently : Error
  -- budget requests and grants
  line_closed stale_policy final_wave wrong_wave dropped_case model_changed model_not_allowed :
      Error
  no_wave_limit over_ceiling digest_unconfirmed not_interactive request_superseded : Error
  stale_wave stale_previous_grant : Error
  -- experiment lines
  not_h0 other_line designates_other_line baseline_id_mismatch baseline_sha_mismatch : Error
  columns_disagree stale_line identity_changed generation_not_next : Error
  result_head_mismatch not_activated subject_not_head : Error
  -- layers, scopes and requests
  bad_resolution no_layers wrong_phase writer_active check_active : Error
  empty_scope_change pathless_layer unmatched_layer unknown_revision not_pending : Error
  authority_missing own_review no_writer_run not_cancellable : Error
  workspace_exists event_hash_mismatch event_chain_mismatch bad_projection : Error

pub record UsageRow : Type 0 where
  pub status : UsageStatus
  pub entry : UsageEntry

pub record LineRow : Type 0 where
  pub line_id : String
  pub study_id : String
  pub branch : String
  pub head_sha : String
  pub generation : ℕ
  pub status : LineStatus
  pub line : ExperimentLine

pub record Tables : Type 0 where
  pub studies : List Study
  pub lines : List LineRow
  pub integrations : List Integration
  pub checkpoints : List Checkpoint
  pub requests : List BudgetRequest
  pub grants : List BudgetGrant
  pub usage : List UsageRow

-- `data TEXT` digests, the clock and the trusted policy, which are not the store's own.
pub record Env : Type 0 where
  -- the SHA-256 of a record's canonical JSON
  pub request_digest : BudgetRequest → String
  -- the digest of the machine constitution that is in force
  pub policy_digest : String
  -- `datetime.fromisoformat`, in microseconds; `none` where it raises
  pub from_isoformat : String → Option ℕ
  pub isoformat : ℕ → String
  pub now : ℕ

module _ (env : Env) where
  -- operator/models.py, `is_expired`
  unfoldable pub is_expired : Option String → Result Error Bool
  is_expired none = ok false
  is_expired (some t) = elim (truthy t) [
    | false ↦ ok false
    | true ↦ elim (env.from_isoformat t) [
      | none ↦ raise bad_timestamp
      | some value ↦ ok (leb value env.now)
    ]
  ]

-- `row is None` after a SELECT.
abbrev pub or_raise {ℓ} : {A : Type ℓ} → Option A → Error → Result Error A
or_raise none e = raise e
or_raise (some a) e = ok a

abbrev pub lift_model : Result ModelError (Unit {0}) → Result Error (Unit {0})
lift_model (ok a) = ok tt
lift_model (raise e) = raise (model e)

-- `safe_id`
abbrev pub safe_id : String → Result Error (Unit {0})
safe_id s = raise_if (not (is_safe_id s)) unsafe_id

unfoldable pub find_study : String → List Study → Option Study
find_study key = find? (λ r. r.study_id == key)

unfoldable pub find_grant : String → List BudgetGrant → Option BudgetGrant
find_grant key = find? (λ r. r.grant_id == key)

unfoldable pub find_request : String → List BudgetRequest → Option BudgetRequest
find_request key = find? (λ r. r.budget_request_id == key)

unfoldable pub find_usage : String → List UsageRow → Option UsageRow
find_usage key = find? (λ r. r.entry.usage_id == key)

unfoldable pub find_line : String → List LineRow → Option LineRow
find_line key = find? (λ r. r.line_id == key)

-- The methods `read_study` and `read_budget_grant`, which are `_read` at their table.
unfoldable pub read_study : String → Tables → Result Error Study
unfolding find_study
read_study key t = do safe_id key; or_raise (find_study key t.studies) missing_record

unfoldable pub read_budget_grant : String → Tables → Result Error BudgetGrant
unfolding find_grant
read_budget_grant key t = do safe_id key; or_raise (find_grant key t.grants) missing_record

unfoldable pub read_budget_request : String → Tables → Result Error BudgetRequest
unfolding find_request
read_budget_request key t = do safe_id key; or_raise (find_request key t.requests) missing_record

unfoldable pub read_usage_entry : String → Tables → Result Error UsageEntry
unfolding find_usage
read_usage_entry key t = do
  safe_id key
  row ← or_raise (find_usage key t.usage) missing_record
  ok row.entry

-- `database_values` are `record_values`.
unfoldable pub columns_agree : LineRow → Bool
columns_agree row =
    row.study_id == row.line.study_id
    && row.branch == row.line.branch
    && row.head_sha == row.line.head_sha
    && nat_eq row.generation row.line.generation
    && line_status_eq row.status row.line.status

-- `read_experiment_line`, with `_read_experiment_line_row`
unfoldable pub read_experiment_line : String → Tables → Result Error ExperimentLine
unfolding find_line
read_experiment_line key t = do
  safe_id key
  row ← or_raise (find_line key t.lines) missing_record
  raise_if (not (columns_agree row)) columns_disagree
  ok row.line
