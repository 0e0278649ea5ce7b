-- ===== src/Operator/MeteringTests.antt =====
-- The theorem on metered calls at a concrete call.
use autobugfix_loop.Operator.Budget.{
  insert_usage, check_case_role, check_role, running, check_limits, study_usage, latest_wave,
  check_authority, reserve_usage_entry,
}
use autobugfix_loop.Operator.Records.Budget.{check_usage}
use autobugfix_loop.Prelude.{is_blank, is_safe_id, ◌≡◌, refl, none, some, ok}
use autobugfix_loop.Operator.Scenario.{env, granted, used, call_1}
use autobugfix_loop.Operator.Records.{required, completed}
use autobugfix_loop.Operator.Store.{is_expired, find_request, read_budget_grant, find_usage}
use autobugfix_loop.Operator.Budget.Finalize.{finalized}
use autobugfix_loop.Operator.Metering.{
  CallRequest, Closing, reserve_usage, closed_entry, returned, closing_of, run_metered,
}
use autobugfix_loop.Operator.Metering.Settlement.{metered_settles}

abbrev request : CallRequest
request = record {
  grant_id = "grant";
  call_key = "key";
  execution_id = "run";
  case_id = some "two";
  attempt = 1;
  revision = 0;
  role = "writer";
  model = some "model";
}

abbrev closing : Closing
closing = record {
  raw_log_path = some "/log";
  stderr_log_path = none;
  result_id = some "thread";
  input_tokens = some 100;
  cached_input_tokens = none;
  output_tokens = some 20;
  duration = some 5;
  error = none;
  finished_at = "2026-01-02";
}

reserved_call : reserve_usage env request "model" "call" "2026-01-01" granted ≡ ok (call_1, used)
unfolding reserve_usage read_budget_grant is_safe_id check_usage required is_blank
    reserve_usage_entry check_authority find_request is_expired latest_wave study_usage check_limits
    running check_role check_case_role insert_usage
reserved_call = refl

metered_settles_example :
    let end =
      run_metered env request "call" "2026-01-01" (returned "text") closing (λ t. t) granted in
    (find_usage "call" end.0.usage
      ≡ some (finalized (closed_entry call_1 completed (closing_of (returned "text") closing))))
    × (end.1 ≡ ok "text")
unfolding find_usage
metered_settles_example =
    metered_settles env request "model" "call" "2026-01-01" (returned "text") closing (λ t. t)
      granted used call_1 refl refl reserved_call refl refl
