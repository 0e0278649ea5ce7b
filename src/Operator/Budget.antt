-- ===== src/Operator/Budget.antt =====
-- The study budgets: operator/store.py from `write_budget_grant` to `finalize_usage_entry`.
pub mod Grants
pub mod Rows
pub mod Reserve
pub mod Finalize
pub mod Counted
pub mod Invariant
pub mod Ladder
pub mod Reach
pub mod Settled
pub mod Granted
use autobugfix_loop.Prelude.{
  ℕ, ◌+◌, max, String, Bool, true, false, not, ◌&&◌, ◌||◌, Option, none, some, List, [], ◌∷◌, ◌++◌,
  ltb, leb, nat_eq, ◌==◌, opt_eq, truthy, length, count, any, map, if◌then◌else◌, Result, ok, raise,
  raise_if, ◌>>=◌, ◌>>◌,
}
use autobugfix_loop.Operator.Records.{is_reserved, status_eq, mem}
use autobugfix_loop.Operator.Records.Budget.{BudgetGrant, UsageEntry}
use autobugfix_loop.Operator.Store.{
  Error, Tables, UsageRow, Env, is_expired, or_raise, safe_id, find_grant, find_request, find_usage,
  missing_record, already_exists, not_reserved, no_authority_request, request_digest_mismatch,
  other_study, other_model, grant_expired, superseded_wave, status_disagrees, calls_exhausted,
  concurrency_exhausted, case_outside_grant, attempt_not_positive, attempts_exhausted,
  not_next_attempt, case_exposed, revision_outside, not_next_revision, role_outside, not_terminal,
  reservation_changed, already_finalized, finalized_concurrently,
}

-- `SELECT MAX(wave) … WHERE study_id = ?`; 0 where there is no grant.
unfoldable pub latest_wave : String → List BudgetGrant → ℕ
latest_wave study [] = 0
latest_wave study (g ∷ gs) =
    let rest = latest_wave study gs in if g.study_id == study then max g.wave rest else rest

-- The first block of `reserve_usage_entry`: the grant, and that it covers the entry.
unfoldable pub check_authority : Env → UsageEntry → Tables → Result Error BudgetGrant
check_authority env entry t = do
  safe_id entry.grant_id
  grant ← or_raise (find_grant entry.grant_id t.grants) missing_record
  request ← or_raise (find_request grant.budget_request_id t.requests) no_authority_request
  raise_if (not (env.request_digest request == grant.budget_request_digest)) request_digest_mismatch
  raise_if (not (grant.study_id == entry.study_id) || not (request.study_id == entry.study_id))
      other_study
  raise_if (not (grant.model == entry.model)) other_model
  expired ← is_expired env grant.expires_at
  raise_if expired grant_expired
  raise_if (not (nat_eq (latest_wave entry.study_id t.grants) grant.wave)) superseded_wave
  ok grant

-- The entries of a study; every row is read, and its status column is held to its record.
unfoldable pub study_usage : String → List UsageRow → Result Error (List UsageEntry)
study_usage study [] = ok []
study_usage study (r ∷ rs) =
    let rest = study_usage study rs in
    let this : Result Error (List UsageEntry) = (do
      raise_if (not (status_eq r.status r.entry.status)) status_disagrees
      tail ← rest
      ok (r.entry ∷ tail)) in
    if r.entry.study_id == study then this else rest

unfoldable pub running : List UsageEntry → ℕ
running usage = count (λ u. is_reserved u.status) usage

unfoldable pub is_case_role : String → Bool
is_case_role r = r == "writer" || r == "evaluator" || r == "eval_judge"

unfoldable pub is_operator_role : String → Bool
is_operator_role r =
    r == "operator_supervisor" || r == "operator_writer" || r == "operator_verifier"

-- `item.role == "writer" and item.case_id == case_id and item.execution_id == execution_id`
abbrev pub is_attempt_of : Option String → String → UsageEntry → Bool
is_attempt_of case execution u =
    u.role == "writer" && opt_eq u.case_id case && u.execution_id == execution

abbrev pub is_call_of : String → String → UsageEntry → Bool
is_call_of role execution u = u.role == role && u.execution_id == execution

unfoldable pub check_writer : BudgetGrant → UsageEntry → List UsageEntry → Result Error (Unit {0})
check_writer grant entry usage = do
  let prior = count (is_attempt_of entry.case_id entry.execution_id) usage
  raise_if (leb grant.max_writer_attempts prior) attempts_exhausted
  raise_if (not (nat_eq entry.attempt (prior + 1))) not_next_attempt

-- `not entry.case_id or entry.case_id not in grant.case_ids`
abbrev pub case_outside : BudgetGrant → Option String → Bool
case_outside grant none = true
case_outside grant (some c) = not (truthy c) || not (mem c grant.case_ids)

unfoldable pub check_case_role :
    BudgetGrant → UsageEntry → List UsageEntry → Result Error (Unit {0})
unfolding check_writer
check_case_role grant entry usage = do
  raise_if (case_outside grant entry.case_id) case_outside_grant
  raise_if (ltb entry.attempt 1) attempt_not_positive
  if entry.role == "writer" then check_writer grant entry usage else ok tt

abbrev is_some : Option String → Bool
is_some none = false
is_some (some _) = true

unfoldable pub check_operator_role :
    BudgetGrant → UsageEntry → List UsageEntry → Result Error (Unit {0})
check_operator_role grant entry usage = do
  raise_if (is_some entry.case_id) case_exposed
  raise_if (ltb entry.revision 1 || ltb grant.max_operator_revisions entry.revision)
      revision_outside
  let prior = count (is_call_of entry.role entry.execution_id) usage
  raise_if (not (nat_eq entry.revision (prior + 1))) not_next_revision

unfoldable pub check_role : BudgetGrant → UsageEntry → List UsageEntry → Result Error (Unit {0})
unfolding is_case_role is_operator_role
check_role grant entry usage =
    if is_case_role entry.role
    then check_case_role grant entry usage
    else if is_operator_role entry.role
    then check_operator_role grant entry usage
    else raise role_outside

abbrev has_study : String → Tables → Bool
has_study study t = any (λ s. s.study_id == study) t.studies

-- INSERT INTO usage_entries: the primary key, UNIQUE(call_key) and the foreign keys.
unfoldable pub insert_usage : UsageEntry → Tables → Result Error Tables
insert_usage entry t = do
  safe_id entry.usage_id
  raise_if
      (any (λ r. r.entry.usage_id == entry.usage_id || r.entry.call_key == entry.call_key) t.usage
        || not (has_study entry.study_id t))
      already_exists
  ok (record t { usage = t.usage ++ record { status = entry.status; entry = entry } ∷ [] })

-- The limits of the grant against what the study has used.
unfoldable pub check_limits : BudgetGrant → UsageEntry → List UsageEntry → Result Error (Unit {0})
check_limits grant entry usage = do
  raise_if (leb grant.max_calls (length usage)) calls_exhausted
  raise_if (leb grant.case_concurrency (running usage)) concurrency_exhausted
  check_role grant entry usage

unfoldable pub reserve_usage_entry : Env → UsageEntry → Tables → Result Error Tables
reserve_usage_entry env entry t = do
  raise_if (not (is_reserved entry.status)) not_reserved
  grant ← check_authority env entry t
  usage ← study_usage entry.study_id t.usage
  check_limits grant entry usage
  insert_usage entry t

-- The fields of `immutable_before` and `immutable_after`.
unfoldable pub same_reservation : UsageEntry → UsageEntry → Bool
same_reservation a b =
    a.usage_id == b.usage_id
    && a.grant_id == b.grant_id
    && a.study_id == b.study_id
    && a.call_key == b.call_key
    && a.execution_id == b.execution_id
    && opt_eq a.case_id b.case_id
    && a.role == b.role
    && a.model == b.model
    && nat_eq a.attempt b.attempt
    && nat_eq a.revision b.revision
    && a.reserved_at == b.reserved_at

-- WHERE usage_id = ? AND status = 'RESERVED'
abbrev pub is_open : String → UsageRow → Bool
is_open key r = r.entry.usage_id == key && is_reserved r.status

unfoldable pub set_usage : UsageEntry → List UsageRow → List UsageRow
set_usage entry [] = []
set_usage entry (r ∷ rs) =
    (if is_open entry.usage_id r then record { status = entry.status; entry = entry } else r)
    ∷ set_usage entry rs

unfoldable pub finalize_usage_entry : UsageEntry → Tables → Result Error Tables
unfolding set_usage
finalize_usage_entry entry t = do
  raise_if (is_reserved entry.status) not_terminal
  safe_id entry.usage_id
  row ← or_raise (find_usage entry.usage_id t.usage) missing_record
  raise_if (not (same_reservation row.entry entry)) reservation_changed
  raise_if (not (is_reserved row.entry.status) || not (is_reserved row.status)) already_finalized
  raise_if (not (nat_eq (count (is_open entry.usage_id) t.usage) 1)) finalized_concurrently
  ok (record t { usage = set_usage entry t.usage })
