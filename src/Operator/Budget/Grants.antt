-- ===== src/Operator/Budget/Grants.antt =====
-- Budget requests and their approval: operator/service.py, `create_budget_request` and
-- `approve_budget_grant`, over the methods of operator/store.py that they call. The code
-- reads and inserts over connections of their own, without a lease; each of the two is one step here.
use autobugfix_loop.Prelude.{
  ℕ, ◌+◌, ◌*◌, String, Bool, true, false, not, ◌&&◌, ◌||◌, Option, none, some, List, [], ◌∷◌, ◌++◌,
  ltb, leb, nat_eq, ◌==◌, str_le, opt_eq, truthy, any, filter, get_last?, sort_by, if◌then◌else◌,
  Result, ok, raise_if, ◌>>=◌, ◌>>◌,
}
use autobugfix_loop.Operator.Records.{dedup, subset, mem, open_line, line_status_eq}
use autobugfix_loop.Operator.Records.Budget.{BudgetRequest, BudgetGrant, check_request, check_grant}
use autobugfix_loop.Operator.Records.Line.{Study}
use autobugfix_loop.Operator.Store.{
  Error, Tables, Env, or_raise, lift_model, safe_id, read_study, read_budget_request,
  read_experiment_line, already_exists, line_closed, stale_policy, final_wave, wrong_wave,
  dropped_case, model_changed, model_not_allowed, no_wave_limit, over_ceiling, digest_unconfirmed,
  not_interactive, request_superseded, stale_wave, stale_previous_grant,
}

-- autobugfix/models.py, OperatorBudgetConfig; a missing key of `max_calls_by_wave` is `none`.
pub record BudgetConfig : Type 0 where
  pub allowed_primary_models : List String
  pub max_calls_by_wave : ℕ → Option ℕ
  pub max_case_concurrency : ℕ
  pub default_case_concurrency : ℕ
  pub default_max_writer_attempts : ℕ
  pub default_max_operator_revisions : ℕ
  pub default_wall_time_seconds : ℕ

-- The arguments of `create_budget_request`, and the id and the actor that it draws.
pub record RequestArgs : Type 0 where
  pub study_id : String
  pub wave : ℕ
  pub case_ids : List String
  pub reason : String
  pub requester : String
  pub model : Option String
  pub max_calls : Option ℕ
  pub max_writer_attempts : Option ℕ
  pub max_operator_revisions : Option ℕ
  pub wall_time_seconds : Option ℕ
  pub case_concurrency : Option ℕ
  pub fresh_id : String
  pub created_at : String

-- `read_budget_grants`: ORDER BY wave.
unfoldable pub read_budget_grants : String → Tables → List BudgetGrant
read_budget_grants study t =
    sort_by (λ a b. leb a.wave b.wave) (filter (λ g. g.study_id == study) t.grants)

-- `read_budget_requests`: ORDER BY created_at, budget_request_id.
abbrev before : BudgetRequest → BudgetRequest → Bool
before a b =
    if a.created_at == b.created_at
    then str_le a.budget_request_id b.budget_request_id
    else str_le a.created_at b.created_at

unfoldable pub read_budget_requests : String → Tables → List BudgetRequest
read_budget_requests study t = sort_by before (filter (λ r. r.study_id == study) t.requests)

-- `3 if not grants else {3: 8, 8: 16}.get(grants[-1].wave)`
unfoldable pub expected_wave : Option BudgetGrant → Option ℕ
expected_wave none = some 3
expected_wave (some g) =
    if nat_eq g.wave 3 then some 8 else if nat_eq g.wave 8 then some 16 else none

-- `model or study.primary_model`
abbrev or_model : Option String → String → String
or_model none d = d
or_model (some m) d = if truthy m then m else d

abbrev or_default : Option ℕ → ℕ → ℕ
or_default none d = d
or_default (some n) d = n

-- `grants and not set(grants[-1].case_ids).issubset(cases)`
abbrev pub drops_case : Option BudgetGrant → List String → Bool
drops_case none cases = false
drops_case (some g) cases = not (subset g.case_ids cases)

abbrev grant_id_of : Option BudgetGrant → Option String
grant_id_of none = none
grant_id_of (some g) = some g.grant_id

abbrev within : ℕ → ℕ → Result Error (Unit {0})
within value ceiling = raise_if (ltb value 1 || ltb ceiling value) over_ceiling

unfoldable pub write_budget_request : BudgetRequest → Tables → Result Error Tables
write_budget_request r t = do
  safe_id r.budget_request_id
  raise_if
      (any (λ q. q.budget_request_id == r.budget_request_id) t.requests
        || not (any (λ (s : Study). s.study_id == r.study_id) t.studies))
      already_exists
  ok (record t { requests = t.requests ++ r ∷ [] })

-- The primary key, UNIQUE(study_id, wave) and the foreign key.
unfoldable pub write_budget_grant : BudgetGrant → Tables → Result Error Tables
write_budget_grant g t = do
  safe_id g.grant_id
  raise_if
      (any (λ q. q.grant_id == g.grant_id || (q.study_id == g.study_id && nat_eq q.wave g.wave))
          t.grants
        || not (any (λ (s : Study). s.study_id == g.study_id) t.studies))
      already_exists
  ok (record t { grants = t.grants ++ g ∷ [] })

-- The request that the arguments describe, with the defaults of the configuration.
abbrev new_request : BudgetConfig → RequestArgs → Study → Option BudgetGrant → ℕ → BudgetRequest
new_request config args study last wave_calls = record {
  budget_request_id = args.fresh_id;
  study_id = study.study_id;
  wave = args.wave;
  case_ids = dedup args.case_ids;
  model = or_model args.model study.primary_model;
  max_calls = or_default args.max_calls wave_calls;
  max_writer_attempts = or_default args.max_writer_attempts config.default_max_writer_attempts;
  max_operator_revisions =
      or_default args.max_operator_revisions config.default_max_operator_revisions;
  wall_time_seconds = or_default args.wall_time_seconds config.default_wall_time_seconds;
  case_concurrency = or_default args.case_concurrency config.default_case_concurrency;
  reason = args.reason;
  requester = args.requester;
  previous_grant_id = grant_id_of last;
  created_at = args.created_at;
}

-- The loop over `ceilings`.
unfoldable pub check_ceilings : BudgetConfig → ℕ → BudgetRequest → Result Error (Unit {0})
check_ceilings config wave_calls r = do
  within r.max_calls wave_calls
  within r.max_writer_attempts config.default_max_writer_attempts
  within r.max_operator_revisions config.default_max_operator_revisions
  within r.wall_time_seconds config.default_wall_time_seconds
  within r.case_concurrency config.max_case_concurrency

unfoldable pub create_budget_request :
    Env → BudgetConfig → RequestArgs → Tables → Result Error Tables
create_budget_request env config args t = do
  study ← read_study args.study_id t
  line ← read_experiment_line study.line_id t
  raise_if (not (line_status_eq line.status open_line)) line_closed
  raise_if (not (study.policy_digest == env.policy_digest)) stale_policy
  let last = get_last? (read_budget_grants study.study_id t)
  expected ← or_raise (expected_wave last) final_wave
  raise_if (not (nat_eq args.wave expected)) wrong_wave
  raise_if (drops_case last (dedup args.case_ids)) dropped_case
  raise_if (not (or_model args.model study.primary_model == study.primary_model)) model_changed
  raise_if (not (mem study.primary_model config.allowed_primary_models)) model_not_allowed
  wave_calls ← or_raise (config.max_calls_by_wave args.wave) no_wave_limit
  let request = new_request config args study last wave_calls
  check_ceilings config wave_calls request
  lift_model (check_request request)
  write_budget_request request t

-- The grant that carries a request over.
abbrev pub new_grant : Env → BudgetRequest → String → String → String → String → BudgetGrant
new_grant env r fresh_id approver kind created_at = record {
  grant_id = fresh_id;
  budget_request_id = r.budget_request_id;
  budget_request_digest = env.request_digest r;
  study_id = r.study_id;
  wave = r.wave;
  case_ids = r.case_ids;
  model = r.model;
  max_calls = r.max_calls;
  max_writer_attempts = r.max_writer_attempts;
  max_operator_revisions = r.max_operator_revisions;
  wall_time_seconds = r.wall_time_seconds;
  case_concurrency = r.case_concurrency;
  approved_by = approver;
  approval_kind = kind;
  previous_grant_id = r.previous_grant_id;
  expires_at = some (env.isoformat (env.now + 1_000_000 * r.wall_time_seconds));
  created_at = created_at;
}

abbrev opt_nat_is : Option ℕ → ℕ → Bool
opt_nat_is none n = false
opt_nat_is (some m) n = nat_eq m n

-- `not requests or requests[-1].budget_request_id != request.budget_request_id`
abbrev superseded : Option BudgetRequest → BudgetRequest → Bool
superseded none r = true
superseded (some q) r = not (q.budget_request_id == r.budget_request_id)

abbrev can_parse : Env → String → Bool
can_parse env s = elim (env.from_isoformat s) [ none ↦ false | some _ ↦ true ]

-- The checks of `approve_budget_grant`, with the last grant of the study.
unfoldable pub check_approval :
    Env → BudgetRequest → String → String → Tables → Result Error (Unit {0})
check_approval env request confirm kind t = do
  raise_if (not (confirm == env.request_digest request)) digest_unconfirmed
  raise_if (not (kind == "interactive")) not_interactive
  study ← read_study request.study_id t
  raise_if (not (study.policy_digest == env.policy_digest)) stale_policy
  let same_wave = filter (λ q. nat_eq q.wave request.wave) (read_budget_requests study.study_id t)
  raise_if (superseded (get_last? same_wave) request) request_superseded
  let last = get_last? (read_budget_grants study.study_id t)
  raise_if (not (opt_nat_is (expected_wave last) request.wave)) stale_wave
  raise_if (not (opt_eq request.previous_grant_id (grant_id_of last))) stale_previous_grant
  raise_if (drops_case last request.case_ids) dropped_case

unfoldable pub approve_budget_grant :
    Env → String → String → String → String → String → String → Tables → Result Error Tables
approve_budget_grant env request_id approver confirm kind fresh_id created_at t = do
  request ← read_budget_request request_id t
  check_approval env request confirm kind t
  let grant = new_grant env request fresh_id approver kind created_at
  lift_model (check_grant (can_parse env) grant)
  write_budget_grant grant t
