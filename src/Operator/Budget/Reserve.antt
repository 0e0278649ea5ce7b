-- ===== src/Operator/Budget/Reserve.antt =====
-- What a successful reservation says of the tables: the grant that carries it, the limits that it
-- keeps, and the row that it adds.
use autobugfix_loop.Prelude.{
  suc, ◌≤◌, ◌≡◌, refl, String, true, false, ◌||◌, List, [], ◌∷◌, ◌++◌, arith, ◌==◌, length, count,
  any, ok, eq_iff, inl, inr, Result-cases, Option-cases, some, none,
}
use autobugfix_loop.Operator.Records.{is_reserved}
use autobugfix_loop.Operator.Records.Budget.{BudgetGrant, UsageEntry}
use autobugfix_loop.Operator.Store.{Tables, Env, is_expired, find_grant, find_request}
use autobugfix_loop.Operator.Budget.{
  latest_wave, check_authority, study_usage, running, is_attempt_of, check_writer, check_case_role,
  is_call_of, is_case_role, is_operator_role, check_operator_role, check_role, check_limits,
  insert_usage, reserve_usage_entry,
}
use autobugfix_loop.Operator.Budget.Rows.{study_entries, study_usage-eq_entries}

module _ (env : Env) (e : UsageEntry) (t t' : Tables) where
  -- Every step of a successful reservation succeeded, on the entries of the entry's study.
  pub reserve-steps :
      reserve_usage_entry env e t ≡ ok t'
      → (g : BudgetGrant) × (is_reserved e.status ≡ true)
        × (check_authority env e t ≡ ok g)
        × (check_limits g e (study_entries e.study_id t.usage) ≡ ok tt)
        × (insert_usage e t ≡ ok t')
  unfolding reserve_usage_entry
  reserve-steps h = elim (Result-cases (check_authority env e t)) [
    | inl (g, p) ↦ elim (Result-cases (study_usage e.study_id t.usage)) [
      | inl (us, q) ↦
          let r = study_usage-eq_entries e.study_id t.usage us q in
          (g, ground arith, p, ground arith, ground arith)
      | inr (x, q) ↦ absurd (ground arith)
    ]
    | inr (x, p) ↦ absurd (ground arith)
  ]

-- The grant of a checked entry is in the table, of the entry's study and model, and of its last wave.
pub authority_facts :
    (env : Env) (e : UsageEntry) (t : Tables) (g : BudgetGrant)
    → check_authority env e t ≡ ok g
    → (find_grant e.grant_id t.grants ≡ some g)
      × ((g.study_id == e.study_id) ≡ true)
      × ((g.model == e.model) ≡ true)
      × (latest_wave e.study_id t.grants ≡ g.wave)
unfolding check_authority
authority_facts env e t g h = elim (Option-cases (find_grant e.grant_id t.grants)) [
  | inl p ↦ absurd (ground arith)
  | inr (g', p) ↦ elim (Option-cases (find_request g'.budget_request_id t.requests)) [
    | inl q ↦ absurd (ground arith)
    | inr (r, q) ↦ elim (Result-cases (is_expired env g'.expires_at)) [
      | inl (x, s) ↦ (ground arith, ground arith, ground arith, ground arith)
      | inr (x, s) ↦ absurd (ground arith)
    ]
  ]
]

-- The limits hold before the row is added, with room for it.
pub limit_facts :
    (g : BudgetGrant) (e : UsageEntry) (us : List UsageEntry)
    → check_limits g e us ≡ ok tt
    → (suc (length us) ≤ g.max_calls)
      × (suc (running us) ≤ g.case_concurrency)
      × (check_role g e us ≡ ok tt)
unfolding check_limits
limit_facts g e us h = ground arith

-- A writer's reservation is numbered one after those of the same case and execution, within the
-- grant's attempts.
pub writer_facts :
    (g : BudgetGrant) (e : UsageEntry) (us : List UsageEntry)
    → check_role g e us ≡ ok tt
    → (e.role == "writer") ≡ true
    → (e.attempt ≡ suc (count (is_attempt_of e.case_id e.execution_id) us))
      × (e.attempt ≤ g.max_writer_attempts)
unfolding check_role check_case_role check_writer
writer_facts g e us h w = ground arith

-- The two sets of roles are disjoint.
role_at : (r s : String) → (r == s) ≡ true → is_case_role s ≡ false → is_case_role r ≡ false
role_at r s h k = rw ((eq_iff r s).0 h) k

operator_not_case : (r : String) → is_operator_role r ≡ true → is_case_role r ≡ false
unfolding is_operator_role
operator_not_case r h = ground (
  arith,
  λ (p : (r == "operator_supervisor") ≡ true).
      role_at r "operator_supervisor" p (unfold is_case_role in refl),
  λ (p : (r == "operator_writer") ≡ true).
      role_at r "operator_writer" p (unfold is_case_role in refl),
  λ (p : (r == "operator_verifier") ≡ true).
      role_at r "operator_verifier" p (unfold is_case_role in refl),
)

pub operator_facts :
    (g : BudgetGrant) (e : UsageEntry) (us : List UsageEntry)
    → check_role g e us ≡ ok tt
    → is_operator_role e.role ≡ true
    → (e.revision ≡ suc (count (is_call_of e.role e.execution_id) us))
      × (e.revision ≤ g.max_operator_revisions)
      × (e.case_id ≡ none)
unfolding check_role check_operator_role
operator_facts g e us h w = let n = operator_not_case e.role w in ground arith

-- The row that is added, and that its keys were free.
pub insert_facts :
    (e : UsageEntry) (t t' : Tables)
    → insert_usage e t ≡ ok t'
    → (t' ≡ record t { usage = t.usage ++ record { status = e.status; entry = e } ∷ [] })
      × (any (λ r. r.entry.usage_id == e.usage_id || r.entry.call_key == e.call_key) t.usage
          ≡ false)
unfolding insert_usage
insert_facts e t t' h = ground arith
