-- ===== src/Operator/Metering.antt =====
-- operator/metering.py, `MeteredCodexBackend.run`, with `reserve_usage` and `finalize_usage` of
-- operator/service.py: a model call between two transactions. What the backend answers, the clock,
-- the fresh id and the retained log paths are parameters, and so is what other clients commit while
-- the call runs. An answer whose tokens cannot be read, and a log that cannot be kept, are left out.
pub mod Settlement
use autobugfix_loop.Prelude.{
  truthy, raise_if, ℕ, String, Bool, true, false, not, Option, none, some, opt_truthy,
  if◌then◌else◌, Result, ok, raise, ◌>>=◌, ◌>>◌,
}
use autobugfix_loop.Operator.Records.{UsageStatus, reserved, completed, indeterminate, is_reserved}
use autobugfix_loop.Operator.Records.Budget.{UsageEntry, check_usage}
use autobugfix_loop.Operator.Store.{
  Error, Tables, Env, lift_model, read_budget_grant, read_usage_entry, not_terminal,
}
use autobugfix_loop.Operator.Budget.{reserve_usage_entry, finalize_usage_entry}

-- StudyCallContext, and the parts of the CodexRequest that are read.
pub record CallRequest : Type 0 where
  pub grant_id : String
  pub call_key : String
  pub execution_id : String
  pub case_id : Option String
  pub attempt : ℕ
  pub revision : ℕ
  pub role : String
  pub model : Option String

-- What a finalization writes; the logs are the paths that `_retain_usage_log` returns.
pub record Closing : Type 0 where
  pub raw_log_path : Option String
  pub stderr_log_path : Option String
  pub result_id : Option String
  pub input_tokens : Option ℕ
  pub cached_input_tokens : Option ℕ
  pub output_tokens : Option ℕ
  pub duration : Option ℕ
  pub error : Option String
  pub finished_at : String

-- The entry that `reserve_usage` makes.
abbrev pub new_entry : CallRequest → String → String → String → String → String → UsageEntry
new_entry c grant_id study_id model fresh now = record {
  usage_id = fresh;
  grant_id = grant_id;
  study_id = study_id;
  call_key = c.call_key;
  execution_id = c.execution_id;
  role = c.role;
  model = model;
  status = reserved;
  attempt = c.attempt;
  revision = c.revision;
  case_id = c.case_id;
  result_id = none;
  raw_log_path = none;
  stderr_log_path = none;
  input_tokens = none;
  cached_input_tokens = none;
  output_tokens = none;
  duration = none;
  error = none;
  reserved_at = now;
  finished_at = none;
}

unfoldable pub reserve_usage :
    Env → CallRequest → String → String → String → Tables → Result Error (UsageEntry × Tables)
reserve_usage env c model fresh now t = do
  grant ← read_budget_grant c.grant_id t
  let entry = new_entry c grant.grant_id grant.study_id model fresh now
  lift_model (check_usage entry)
  after ← reserve_usage_entry env entry t
  ok (entry, after)

abbrev pub closed_entry : UsageEntry → UsageStatus → Closing → UsageEntry
closed_entry u status c = record u {
  status = status;
  raw_log_path = c.raw_log_path;
  stderr_log_path = c.stderr_log_path;
  result_id = c.result_id;
  input_tokens = c.input_tokens;
  cached_input_tokens = c.cached_input_tokens;
  output_tokens = c.output_tokens;
  duration = c.duration;
  error = c.error;
  finished_at = some c.finished_at;
}

unfoldable pub finalize_usage : String → UsageStatus → Closing → Tables → Result Error Tables
finalize_usage usage_id status c t = do
  raise_if (is_reserved status) not_terminal
  current ← read_usage_entry usage_id t
  let updated = closed_entry current status c
  lift_model (check_usage updated)
  finalize_usage_entry updated t

-- How the backend ends.
pub data Answer : Type 0 where
  returned : String → Answer
  failed : Answer

pub data MeterError : Type 0 where
  -- no explicit model; the reservation was refused; the backend's own exception; it and then the
  -- finalization failed; the finalization after a good answer failed
  no_model backend_failed finalize_failed : MeterError
  refused unfinalized : Error → MeterError

abbrev pub status_of : Answer → UsageStatus
status_of (returned text) = completed
status_of failed = indeterminate

-- The keyword arguments of the two finalizations: a failure has no result, a result no error.
abbrev pub closing_of : Answer → Closing → Closing
closing_of (returned text) c = record c { error = none }
closing_of failed c = record c {
  result_id = none;
  input_tokens = none;
  cached_input_tokens = none;
  output_tokens = none;
}

-- The call after its reservation.
unfoldable pub settle : UsageEntry → Answer → Closing → Tables → Tables × Result MeterError String
settle usage answer c t =
    elim (finalize_usage usage.usage_id (status_of answer) (closing_of answer c) t) [
      | raise e ↦ (
        t,
        elim answer [ returned text ↦ raise (unfinalized e) | failed ↦ raise finalize_failed ],
      )
      | ok after ↦ (after, elim answer [ returned text ↦ ok text | failed ↦ raise backend_failed ])
    ]

-- `run`; `meanwhile` is what other clients commit while the backend works.
unfoldable pub run_metered :
    Env
    → CallRequest
    → String
    → String
    → Answer
    → Closing
    → (Tables → Tables)
    → Tables
    → Tables × Result MeterError String
run_metered env c fresh now answer closing meanwhile t = elim c.model [
  | none ↦ (t, raise no_model)
  | some model ↦
      if not (truthy model)
      then (t, raise no_model)
      else elim (reserve_usage env c model fresh now t) [
        | raise e ↦ (t, raise (refused e))
        | ok (usage, reserved_) ↦ settle usage answer closing (meanwhile reserved_)
      ]
]
