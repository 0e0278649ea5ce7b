-- ===== src/Operator/Budget/Invariant.antt =====
-- What holds of the usage table whatever reservations and finalizations are made, in any order.
use autobugfix_loop.Prelude.{
  IsNumbered, suc, ◌≤◌, ◌≡◌, ◌∙◌, refl, sym, ap, String, true, [], ◌∷◌, ◌++◌, arith, ◌==◌,
  opt_eq→eq, length, ok, eq_iff, inl, inr, Option, some, Bool-cases, All, length-append,
  count-append,
}
use autobugfix_loop.Operator.Records.{is_reserved}
use autobugfix_loop.Operator.Records.Budget.{BudgetGrant, UsageEntry}
use autobugfix_loop.Operator.Store.{Tables, UsageRow, Env, find_grant}
use autobugfix_loop.Operator.Budget.{
  running, is_attempt_of, is_call_of, is_operator_role, reserve_usage_entry, finalize_usage_entry,
  check_role,
}
use autobugfix_loop.Operator.Budget.Rows.{
  study_entries, study_entries-append_one, count-study_entries,
}
use autobugfix_loop.Operator.Budget.Reserve.{
  reserve-steps, authority_facts, limit_facts, writer_facts, operator_facts, insert_facts,
}
use autobugfix_loop.Operator.Budget.Finalize.{finalize-steps}
use autobugfix_loop.Operator.Budget.Counted.{
  cap, cap_of_grant, writer_entry, role_entry, attempts, revisions, calls, running_calls,
  IsNumbered-reserve, numbers-Replaces, same_reservation-Kept, writer_entry-Kept, role_entry-Kept,
  length-Replaces, running-Replaces, All-Replaces, All-append_one,
}

pub record IsSound (t : Tables) : Type 0 where
  pub writers :
      (study : String) (case : Option String) (execution : String)
      → IsNumbered (attempts study case execution t)
  pub operators :
      (study role execution : String)
      → is_operator_role role ≡ true
      → IsNumbered (revisions study role execution t)
  pub columns : All (λ (r : UsageRow). r.status ≡ r.entry.status) t.usage
  pub calls_capped : (study : String) → calls study t ≤ cap (λ g. g.max_calls) study t.grants
  pub running_capped :
      (study : String) → running_calls study t ≤ cap (λ g. g.case_concurrency) study t.grants

abbrev reserved_row : UsageEntry → UsageRow
reserved_row e = record { status = e.status; entry = e }

-- The tables after a reservation that was granted.
abbrev with_row : Tables → UsageEntry → Tables
with_row t e = record t { usage = t.usage ++ reserved_row e ∷ [] }

module _ (e : UsageEntry) (t : Tables) (g : BudgetGrant)
    (role : check_role g e (study_entries e.study_id t.usage) ≡ ok tt) where
  writers_reserved :
      (study : String) (case : Option String) (execution : String)
      → IsNumbered (attempts study case execution t)
      → IsNumbered (attempts study case execution (with_row t e))
  writers_reserved study case execution h =
      IsNumbered-reserve (λ u. u.attempt) (writer_entry study case execution) t.usage
        (reserved_row e) h
        λ m.
          let s : e.study_id ≡ study = (eq_iff e.study_id study).0 (ground arith) in
          let c : e.case_id ≡ case = opt_eq→eq e.case_id case (ground arith) in
          let x : e.execution_id ≡ execution = (eq_iff e.execution_id execution).0 (ground arith) in
          let w : (e.role == "writer") ≡ true = ground arith in
          let n = (writer_facts g e (study_entries e.study_id t.usage) role w).0 in
          rw (← s, ← c, ← x)
            (n
              ∙ ap suc (
                  count-study_entries (λ u. u.attempt) (is_attempt_of e.case_id e.execution_id)
                    e.study_id t.usage))

  operators_reserved :
      (study role_ execution : String)
      → is_operator_role role_ ≡ true
      → IsNumbered (revisions study role_ execution t)
      → IsNumbered (revisions study role_ execution (with_row t e))
  operators_reserved study role_ execution o h =
      IsNumbered-reserve (λ u. u.revision) (role_entry study role_ execution) t.usage
        (reserved_row e) h
        λ m.
          let s : e.study_id ≡ study = (eq_iff e.study_id study).0 (ground arith) in
          let r : e.role ≡ role_ = (eq_iff e.role role_).0 (ground arith) in
          let x : e.execution_id ≡ execution = (eq_iff e.execution_id execution).0 (ground arith) in
          let n = (operator_facts g e (study_entries e.study_id t.usage) role (rw r o)).0 in
          rw (← s, ← r, ← x)
            (n
              ∙ ap suc (
                  count-study_entries (λ u. u.revision) (is_call_of e.role e.execution_id)
                    e.study_id t.usage))

  calls_reserved :
      (study : String)
      → (g.study_id == e.study_id) ≡ true
      → find_grant e.grant_id t.grants ≡ some g
      → suc (length (study_entries e.study_id t.usage)) ≤ g.max_calls
      → calls study t ≤ cap (λ g. g.max_calls) study t.grants
      → calls study (with_row t e) ≤ cap (λ g. g.max_calls) study t.grants
  calls_reserved study s f l h = elim (Bool-cases (e.study_id == study)) [
    | inl y ↦
        let same : e.study_id ≡ study = (eq_iff e.study_id study).0 y in
        let c = cap_of_grant (λ g. g.max_calls) e.study_id e.grant_id t.grants g f s in
        rw (study_entries-append_one study t.usage (reserved_row e), y)
          (rw (← same)
            (omega (arith, c, l, length-append (study_entries e.study_id t.usage) (e ∷ []))))
    | inr n ↦ rw (study_entries-append_one study t.usage (reserved_row e), n) h
  ]

  running_reserved :
      (study : String)
      → (g.study_id == e.study_id) ≡ true
      → find_grant e.grant_id t.grants ≡ some g
      → suc (running (study_entries e.study_id t.usage)) ≤ g.case_concurrency
      → running_calls study t ≤ cap (λ g. g.case_concurrency) study t.grants
      → running_calls study (with_row t e) ≤ cap (λ g. g.case_concurrency) study t.grants
  unfolding running_calls
  running_reserved study s f l h = elim (Bool-cases (e.study_id == study)) [
    | inl y ↦
        let same : e.study_id ≡ study = (eq_iff e.study_id study).0 y in
        let c = cap_of_grant (λ g. g.case_concurrency) e.study_id e.grant_id t.grants g f s in
        let m =
          count-append (λ (u : UsageEntry). is_reserved u.status) (study_entries e.study_id t.usage)
            (e ∷ []) in
        rw (study_entries-append_one study t.usage (reserved_row e), y)
          (rw (← same) (ground (arith, c, l, m)))
    | inr n ↦ rw (study_entries-append_one study t.usage (reserved_row e), n) h
  ]

-- A granted reservation keeps the tables sound.
pub reserve-IsSound :
    (env : Env) (e : UsageEntry) (t t' : Tables)
    → IsSound t
    → reserve_usage_entry env e t ≡ ok t'
    → IsSound t'
reserve-IsSound env e t t' v h =
    let (g, r, a, l, i) = reserve-steps env e t t' h in
    let (f, s, m, w) = authority_facts env e t g a in
    let (n, c, k) = limit_facts g e (study_entries e.study_id t.usage) l in
    let (same, free) = insert_facts e t t' i in
    rw same (record {
      writers = λ study case execution.
          writers_reserved e t g k study case execution (v.writers study case execution);
      operators = λ study role execution o.
          operators_reserved e t g k study role execution o (v.operators study role execution o);
      columns = All-append_one t.usage (reserved_row e) v.columns refl;
      calls_capped = λ study. calls_reserved e t g k study s f n (v.calls_capped study);
      running_capped = λ study. running_reserved e t g k study s f c (v.running_capped study);
    })

-- So does a finalization.
pub finalize-IsSound :
    (e : UsageEntry) (t t' : Tables) → IsSound t → finalize_usage_entry e t ≡ ok t' → IsSound t'
unfolding running_calls
finalize-IsSound e t t' v h =
    let (row, f, o, o', z, s, same, d) = finalize-steps e t t' h in
    let k = same_reservation-Kept row.entry e s in
    rw same (record {
      writers = λ study case execution.
          rw
            (numbers-Replaces (λ u. u.attempt) (writer_entry study case execution) d
              (writer_entry-Kept study case execution k) (sym k.attempt))
            (v.writers study case execution);
      operators = λ study role execution r.
          rw
            (numbers-Replaces (λ u. u.revision) (role_entry study role execution) d
              (role_entry-Kept study role execution k) (sym k.revision))
            (v.operators study role execution r);
      columns = All-Replaces d refl v.columns;
      calls_capped = λ study. rw (length-Replaces study d (sym k.study_id)) (v.calls_capped study);
      running_capped = λ study.
          ground (arith, v.running_capped study, running-Replaces study d (sym k.study_id) o' z);
    })
