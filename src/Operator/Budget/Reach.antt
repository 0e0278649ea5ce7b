-- ===== src/Operator/Budget/Reach.antt =====
-- Any sequence of budget transactions, by any clients, each with its own clock and arguments.
use autobugfix_loop.Prelude.{
  ℕ, ◌≤◌, ◌≡◌, refl, String, List, [], ◌∷◌, ◌++◌, arith, length, map, take, ok,
}
use autobugfix_loop.Operator.Records.Budget.{BudgetGrant, UsageEntry}
use autobugfix_loop.Operator.Store.{Tables, Env}
use autobugfix_loop.Operator.Budget.{running, reserve_usage_entry, finalize_usage_entry}
use autobugfix_loop.Operator.Budget.Grants.{
  BudgetConfig, RequestArgs, create_budget_request, approve_budget_grant,
}
use autobugfix_loop.Operator.Budget.Reserve.{reserve-steps, insert_facts}
use autobugfix_loop.Operator.Budget.Finalize.{finalize-steps}
use autobugfix_loop.Operator.Budget.Counted.{cap, running_calls}
use autobugfix_loop.Operator.Budget.Invariant.{IsSound, reserve-IsSound, finalize-IsSound}
use autobugfix_loop.Operator.Budget.Ladder.{
  study_grants, Ladder-waves, create-usage, approve-steps, IsLaddered, approve-IsLaddered,
}

-- A transaction that commits.
pub data Step (t t' : Tables) : Type 0 where
  reserve : (env : Env) (e : UsageEntry) → reserve_usage_entry env e t ≡ ok t' → Step t t'
  finalize : (e : UsageEntry) → finalize_usage_entry e t ≡ ok t' → Step t t'
  request :
      (env : Env) (config : BudgetConfig) (args : RequestArgs)
      → create_budget_request env config args t ≡ ok t'
      → Step t t'
  approve :
      (env : Env) (id approver confirm kind fresh created : String)
      → approve_budget_grant env id approver confirm kind fresh created t ≡ ok t'
      → Step t t'

pub data Reach (t : Tables) : Tables → Type 0 where
  here : Reach t t
  next : {u v : Tables} → Reach t u → Step u v → Reach t v

cap-append_one :
    (limit : BudgetGrant → ℕ) (study : String) (gs : List BudgetGrant) (g : BudgetGrant)
    → cap limit study gs ≤ cap limit study (gs ++ g ∷ [])
cap-append_one limit study [] g = omega arith
cap-append_one limit study (h ∷ gs) g = ground (arith, cap-append_one limit study gs g)

-- The invariant reads the usage table and the grants alone, and more grants do no harm.
IsSound-keep :
    (t t' : Tables)
    → t'.usage ≡ t.usage
    → ((limit : BudgetGrant → ℕ) (study : String)
        → cap limit study t.grants ≤ cap limit study t'.grants)
    → IsSound t
    → IsSound t'
unfolding running_calls
IsSound-keep t t' u g v = record {
  writers = λ study case execution. rw u (v.writers study case execution);
  operators = λ study role execution o. rw u (v.operators study role execution o);
  columns = rw u v.columns;
  calls_capped = λ study. rw u (omega (arith, v.calls_capped study, g (λ g. g.max_calls) study));
  running_capped =
      λ study. rw u (omega (arith, v.running_capped study, g (λ g. g.case_concurrency) study));
}

Step-IsSound : (t t' : Tables) → Step t t' → IsSound t → IsSound t'
Step-IsSound t t' (reserve env e h) v = reserve-IsSound env e t t' v h
Step-IsSound t t' (finalize e h) v = finalize-IsSound e t t' v h
Step-IsSound t t' (request env config args h) v =
    let (u, g) = create-usage env config args t t' h in
    IsSound-keep t t' u (λ limit study. rw g (omega arith)) v
Step-IsSound t t' (approve env id approver confirm kind fresh created h) v =
    let (r, f, c, same) = approve-steps env id approver confirm kind fresh created t t' h in
    IsSound-keep t t' (ground arith)
      (λ limit study. rw same (cap-append_one limit study t.grants _)) v

pub Reach-IsSound : (t t' : Tables) → Reach t t' → IsSound t → IsSound t'
Reach-IsSound t t' here v = v
Reach-IsSound t t' (next {u = u} r s) v = Step-IsSound u t' s (Reach-IsSound t u r v)

Step-IsLaddered : (t t' : Tables) → Step t t' → IsLaddered t → IsLaddered t'
Step-IsLaddered t t' (reserve env e h) v study =
    let (g, r, a, l, i) = reserve-steps env e t t' h in rw (insert_facts e t t' i).0 (v study)
Step-IsLaddered t t' (finalize e h) v study =
    let (row, f, o, o', z, s, same, d) = finalize-steps e t t' h in rw same (v study)
Step-IsLaddered t t' (request env config args h) v study =
    rw (create-usage env config args t t' h).1 (v study)
Step-IsLaddered t t' (approve env id approver confirm kind fresh created h) v study =
    approve-IsLaddered env id approver confirm kind fresh created t t' v h study

Reach-IsLaddered : (t t' : Tables) → Reach t t' → IsLaddered t → IsLaddered t'
Reach-IsLaddered t t' here v = v
Reach-IsLaddered t t' (next {u = u} r s) v = Step-IsLaddered u t' s (Reach-IsLaddered t u r v)

IsSound-empty : (t : Tables) → t.usage ≡ [] → IsSound t
unfolding running_calls running
IsSound-empty t u = record {
  writers = λ study case execution. rw u refl;
  operators = λ study role execution o. rw u refl;
  columns = rw u tt;
  calls_capped = λ study. rw u (omega arith);
  running_capped = λ study. rw u (omega arith);
}

-- From tables with no usage entry, whatever transactions commit, in any order: in each study the
-- writer's attempts at a case in an execution are 1, 2, …, in the order in which they were reserved,
-- and so are the revisions of each operator role in an execution; each status column is that of its
-- record; and the calls, and those that are running, are at most the largest such limit of the
-- study's grants.
pub usage-IsSound : (t t' : Tables) → t.usage ≡ [] → Reach t t' → IsSound t'
usage-IsSound t t' u r = Reach-IsSound t t' r (IsSound-empty t u)

-- From tables with no grant, whatever transactions commit: the grants of each study, in the order in
-- which they were written, have the waves 3, 8 and 16, as far as they go.
pub grants_climb :
    (t t' : Tables) (study : String)
    → t.grants ≡ []
    → Reach t t'
    → map (λ (g : BudgetGrant). g.wave) (study_grants study t'.grants)
      ≡ take (length (study_grants study t'.grants)) (3 ∷ 8 ∷ 16 ∷ [])
grants_climb t t' study e r =
    Ladder-waves (study_grants study t'.grants) (Reach-IsLaddered t t' r (λ s. rw e tt) study)
