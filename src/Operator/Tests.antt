-- ===== src/Operator/Tests.antt =====
-- The Operator's theorems at concrete tables.
use autobugfix_loop.Operator.Budget.Granted.{
  reserve_within_grant, approval_binds, GrantsRequest, reserved_finalizes,
}
use autobugfix_loop.Operator.Budget.Counted.{calls, running_calls}
use autobugfix_loop.Prelude.{
  String, ◌≤◌, ◌++◌, is_blank, sort_by, is_safe_id, ◌≡◌, ◌≢◌, refl, [], ◌∷◌, map, take, length,
  some, ok,
}
use autobugfix_loop.Operator.Records.Budget.{BudgetRequest, BudgetGrant}
use autobugfix_loop.Operator.Scenario.{env, asked, granted, used, settled, call_1, call_1_done}
use autobugfix_loop.Operator.Store.{
  Tables, find_usage, find_study, find_grant, find_request, is_expired, read_study,
  read_budget_request,
}
use autobugfix_loop.Operator.Records.{dedup, required}
use autobugfix_loop.Operator.Records.Budget.{check_grant}
use autobugfix_loop.Operator.Budget.{
  reserve_usage_entry, finalize_usage_entry, check_authority, latest_wave, study_usage, running,
  check_limits, check_role, is_case_role, check_case_role, check_writer, insert_usage,
  same_reservation, set_usage,
}
use autobugfix_loop.Operator.Budget.Grants.{
  approve_budget_grant, check_approval, read_budget_grants, read_budget_requests, expected_wave,
  write_budget_grant,
}
use autobugfix_loop.Operator.Budget.Finalize.{finalized}
use autobugfix_loop.Operator.Budget.Ladder.{study_grants}
use autobugfix_loop.Operator.Budget.Invariant.{IsSound}
use autobugfix_loop.Operator.Budget.Reach.{
  Reach, here, next, reserve, finalize, approve, usage-IsSound, grants_climb,
}
use autobugfix_loop.Operator.Budget.Settled.{finalized_forever}

to_granted :
    approve_budget_grant env "request" "alice" "request" "interactive" "grant" "2026-01-01" asked
    ≡ ok granted
unfolding approve_budget_grant check_approval read_budget_grants read_budget_requests expected_wave
    write_budget_grant find_study find_request required check_grant read_study read_budget_request
    is_safe_id sort_by is_blank dedup
to_granted = refl

to_used : reserve_usage_entry env call_1 granted ≡ ok used
unfolding reserve_usage_entry check_authority latest_wave study_usage running check_limits
    check_role is_case_role check_case_role check_writer insert_usage find_grant find_request
    is_expired is_safe_id
to_used = refl

to_settled : finalize_usage_entry call_1_done used ≡ ok settled
unfolding finalize_usage_entry same_reservation set_usage find_usage is_safe_id
to_settled = refl

to_end : Reach asked settled
to_end =
    next
      (next
        (next here
          (approve env "request" "alice" "request" "interactive" "grant" "2026-01-01" to_granted))
        (reserve env call_1 to_used))
      (finalize call_1_done to_settled)

usage-IsSound_example : IsSound settled
usage-IsSound_example = usage-IsSound asked settled refl to_end

grants_climb_example :
    map (λ (g : BudgetGrant). g.wave) (study_grants "study" settled.grants)
    ≡ take (length (study_grants "study" settled.grants)) (3 ∷ 8 ∷ 16 ∷ [])
grants_climb_example = grants_climb asked settled "study" refl to_end

finalized_forever_example :
    (find_usage "call" settled.usage ≡ some (finalized call_1_done))
    × (finalize_usage_entry call_1_done settled ≢ ok settled)
finalized_forever_example =
    finalized_forever call_1_done call_1_done used settled settled settled to_settled here refl

reserve_within_grant_example :
    (g : BudgetGrant) × (find_grant "grant" granted.grants ≡ some g)
    × (g.study_id ≡ "study")
    × (g.model ≡ "model")
    × (latest_wave "study" granted.grants ≡ g.wave)
    × (calls "study" used ≤ g.max_calls)
    × (running_calls "study" used ≤ g.case_concurrency)
reserve_within_grant_example = reserve_within_grant env call_1 granted used to_used

approval_binds_example :
    (◌≡◌ {A = String} "interactive" "interactive")
    × ((r : BudgetRequest) × (g : BudgetGrant) × (find_request "request" asked.requests ≡ some r)
        × ("request" ≡ env.request_digest r)
        × (granted ≡ record asked { grants = asked.grants ++ g ∷ [] })
        × GrantsRequest env r g
        × (g.approved_by ≡ "alice")
        × (g.approval_kind ≡ "interactive"))
approval_binds_example =
    approval_binds env "request" "alice" "request" "interactive" "grant" "2026-01-01" asked granted
      to_granted

reserved_finalizes_example :
    (u : Tables) × (finalize_usage_entry call_1_done used ≡ ok u)
    × (find_usage "call" u.usage ≡ some (finalized call_1_done))
unfolding same_reservation
reserved_finalizes_example =
    reserved_finalizes env call_1 call_1_done granted used to_used refl refl
