-- ===== src/Operator/Scenario.antt =====
-- Concrete tables: one study whose first wave is requested, granted, and used by one call.
use autobugfix_loop.Prelude.{none, some, [], ◌∷◌}
use autobugfix_loop.Operator.Records.{reserved, completed}
use autobugfix_loop.Operator.Records.Budget.{BudgetRequest, UsageEntry}
use autobugfix_loop.Operator.Records.Line.{Study}
use autobugfix_loop.Operator.Store.{Tables, Env}
use autobugfix_loop.Operator.Budget.Grants.{new_grant}

abbrev pub env : Env
env = record {
  request_digest = λ r. r.budget_request_id;
  policy_digest = "policy";
  from_isoformat = λ s. some 100;
  isoformat = λ n. "2026-01-02";
  now = 1;
}

abbrev pub study : Study
study = record {
  study_id = "study";
  purpose = "calibration";
  base_checkpoint_id = "h0";
  base_subject_sha = "aaa";
  harness_sha = "hhh";
  policy_digest = "policy";
  line_id = "line";
  primary_model = "model";
  target_checkpoint_name = "H_bug";
  manifest_digest = "m";
  role_config_digest = "c";
  memory_digest = "e";
  success_contract = "s";
  cohort_id = none;
  base_config_digest = none;
  base_model_digest = none;
  base_skills_digest = none;
  memory_snapshot_path = none;
  manifest_snapshot_path = none;
  created_at = "2026-01-01";
}

abbrev pub wave_3 : BudgetRequest
wave_3 = record {
  budget_request_id = "request";
  study_id = "study";
  wave = 3;
  case_ids = "one" ∷ "two" ∷ "three" ∷ [];
  model = "model";
  max_calls = 10;
  max_writer_attempts = 2;
  max_operator_revisions = 1;
  wall_time_seconds = 60;
  case_concurrency = 1;
  reason = "first wave";
  requester = "operator";
  previous_grant_id = none;
  created_at = "2026-01-01";
}

abbrev pub call_1 : UsageEntry
call_1 = record {
  usage_id = "call";
  grant_id = "grant";
  study_id = "study";
  call_key = "key";
  execution_id = "run";
  role = "writer";
  model = "model";
  status = reserved;
  attempt = 1;
  revision = 0;
  case_id = some "two";
  result_id = none;
  raw_log_path = none;
  stderr_log_path = none;
  input_tokens = none;
  cached_input_tokens = none;
  output_tokens = none;
  duration = none;
  error = none;
  reserved_at = "2026-01-01";
  finished_at = none;
}

abbrev pub call_1_done : UsageEntry
call_1_done = record call_1 { status = completed; finished_at = some "2026-01-02" }

abbrev pub asked : Tables
asked = record {
  studies = study ∷ [];
  lines = [];
  integrations = [];
  checkpoints = [];
  requests = wave_3 ∷ [];
  grants = [];
  usage = [];
}

abbrev pub granted : Tables
granted = record asked {
  grants = new_grant env wave_3 "grant" "alice" "interactive" "2026-01-01" ∷ [];
}

abbrev pub used : Tables
used = record granted { usage = record { status = reserved; entry = call_1 } ∷ [] }

abbrev pub settled : Tables
settled = record granted { usage = record { status = completed; entry = call_1_done } ∷ [] }
