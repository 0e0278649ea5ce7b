-- ===== src/Operator/Budget/Granted.antt =====
-- What one transaction that commits promises: a reservation, an approval, and the finalization that a
-- reservation always leaves possible.
use autobugfix_loop.Prelude.{
  ◌+◌, ◌*◌, ◌≤◌, ◌≡◌, refl, sym, String, Bool, true, false, ◌||◌, some, List, [], ◌∷◌, ◌++◌, arith,
  ◌==◌, length-append, count, count-append, any, ok, eq_iff, eq_refl, is_safe_id,
}
use autobugfix_loop.Operator.Records.{is_reserved}
use autobugfix_loop.Operator.Records.Budget.{BudgetRequest, BudgetGrant, UsageEntry}
use autobugfix_loop.Operator.Store.{Tables, UsageRow, Env, find_grant, find_request, find_usage}
use autobugfix_loop.Operator.Budget.{
  latest_wave, running, same_reservation, is_open, set_usage, insert_usage, reserve_usage_entry,
  finalize_usage_entry,
}
use autobugfix_loop.Operator.Budget.Grants.{check_approval, approve_budget_grant, new_grant}
use autobugfix_loop.Operator.Budget.Rows.{study_entries, study_entries-append_one}
use autobugfix_loop.Operator.Budget.Reserve.{
  reserve-steps, authority_facts, limit_facts, insert_facts,
}
use autobugfix_loop.Operator.Budget.Finalize.{finalized}
use autobugfix_loop.Operator.Budget.Counted.{calls, running_calls}
use autobugfix_loop.Operator.Budget.Ladder.{approve-steps, approval_facts}
use autobugfix_loop.Operator.Budget.Settled.{find_usage-finalized}

-- A reservation that commits is carried by the grant that it names: a grant of the entry's study and
-- model and of the study's last wave, within whose calls and concurrency the study is, the new call
-- counted.
pub reserve_within_grant :
    (env : Env) (e : UsageEntry) (t t' : Tables)
    → reserve_usage_entry env e t ≡ ok t'
    → (g : BudgetGrant) × (find_grant e.grant_id t.grants ≡ some g)
      × (g.study_id ≡ e.study_id)
      × (g.model ≡ e.model)
      × (latest_wave e.study_id t.grants ≡ g.wave)
      × (calls e.study_id t' ≤ g.max_calls)
      × (running_calls e.study_id t' ≤ g.case_concurrency)
unfolding running_calls running
reserve_within_grant env e t t' h =
    let (g, r, a, l, i) = reserve-steps env e t t' h in
    let (f, s, m, w) = authority_facts env e t g a in
    let us = study_entries e.study_id t.usage in
    let (n, c, k) = limit_facts g e us l in
    let (same, free) = insert_facts e t t' i in
    let added : study_entries e.study_id t'.usage ≡ us ++ e ∷ [] =
      rw same (rw (study_entries-append_one e.study_id t.usage _) (rw (eq_refl e.study_id) refl)) in
    (
      g,
      f,
      (eq_iff g.study_id e.study_id).0 s,
      (eq_iff g.model e.model).0 m,
      w,
      rw added (omega (arith, n, length-append us (e ∷ []))),
      rw added
          (ground (arith, c, count-append (λ (u : UsageEntry). is_reserved u.status) us (e ∷ []))),
    )

interactive_approval :
    (env : Env) (r : BudgetRequest) (confirm kind : String) (t : Tables)
    → check_approval env r confirm kind t ≡ ok tt
    → kind ≡ "interactive"
unfolding check_approval
interactive_approval env r confirm kind t h = (eq_iff kind "interactive").0 (ground arith)

-- The grant gives exactly what the request asks for, and lasts for the request's wall time from now.
abbrev pub GrantsRequest : Env → BudgetRequest → BudgetGrant → Type 0
GrantsRequest env r g =
    (g.budget_request_id ≡ r.budget_request_id)
    × (g.budget_request_digest ≡ env.request_digest r)
    × (g.study_id ≡ r.study_id)
    × (g.wave ≡ r.wave)
    × (g.case_ids ≡ r.case_ids)
    × (g.model ≡ r.model)
    × (g.max_calls ≡ r.max_calls)
    × (g.max_writer_attempts ≡ r.max_writer_attempts)
    × (g.max_operator_revisions ≡ r.max_operator_revisions)
    × (g.wall_time_seconds ≡ r.wall_time_seconds)
    × (g.case_concurrency ≡ r.case_concurrency)
    × (g.previous_grant_id ≡ r.previous_grant_id)
    × (g.expires_at ≡ some (env.isoformat (env.now + 1_000_000 * r.wall_time_seconds)))

-- An approval that commits was interactive, confirmed the digest of a stored request, and adds one
-- grant and nothing else: it has that request's id, digest, study, wave, cases, model, previous grant
-- and each of its limits, the name and the kind of the approval, and expires after the request's wall
-- time.
pub approval_binds :
    (env : Env) (id approver confirm kind fresh created : String) (t t' : Tables)
    → approve_budget_grant env id approver confirm kind fresh created t ≡ ok t'
    → (kind ≡ "interactive")
      × ((r : BudgetRequest) × (g : BudgetGrant) × (find_request id t.requests ≡ some r)
          × (confirm ≡ env.request_digest r)
          × (t' ≡ record t { grants = t.grants ++ g ∷ [] })
          × GrantsRequest env r g
          × (g.approved_by ≡ approver)
          × (g.approval_kind ≡ "interactive"))
approval_binds env id approver confirm kind fresh created t t' h =
    let (r, f, c, same) = approve-steps env id approver confirm kind fresh created t t' h in
    let (w, d, x) = approval_facts env r confirm kind t c in
    let i = interactive_approval env r confirm kind t c in
    (
      i,
      (
        r,
        new_grant env r fresh approver kind created,
        f,
        x,
        same,
        (refl, refl, refl, refl, refl, refl, refl, refl, refl, refl, refl, refl, refl),
        refl,
        i,
      ),
    )

abbrev taken : UsageEntry → List UsageRow → Bool
taken e rs = any (λ r. r.entry.usage_id == e.usage_id || r.entry.call_key == e.call_key) rs

-- A row with a free key is the one that its key finds, and the only open one.
fresh_row :
    (e : UsageEntry) (rs : List UsageRow)
    → taken e rs ≡ false
    → is_reserved e.status ≡ true
    → (find_usage e.usage_id (rs ++ record { status = e.status; entry = e } ∷ [])
        ≡ some (record { status = e.status; entry = e }))
      × (count (is_open e.usage_id) (rs ++ record { status = e.status; entry = e } ∷ []) ≡ 1)
unfolding find_usage
fresh_row e [] h s = ground (arith, eq_refl e.usage_id)
fresh_row e (r ∷ rs) h s = ground (arith, fresh_row e rs)

pub insert_safe :
    (e : UsageEntry) (t t' : Tables) → insert_usage e t ≡ ok t' → is_safe_id e.usage_id ≡ true
unfolding insert_usage
insert_safe e t t' h = ground arith

pub finalize-ok :
    (d : UsageEntry) (row : UsageRow) (t : Tables)
    → find_usage d.usage_id t.usage ≡ some row
    → count (is_open d.usage_id) t.usage ≡ 1
    → is_safe_id d.usage_id ≡ true
    → is_reserved d.status ≡ false
    → is_reserved row.status ≡ true
    → is_reserved row.entry.status ≡ true
    → same_reservation row.entry d ≡ true
    → finalize_usage_entry d t ≡ ok (record t { usage = set_usage d t.usage })
unfolding finalize_usage_entry
finalize-ok d row t f c s n o o' same = ground arith

same_key : (a b : UsageEntry) → same_reservation a b ≡ true → b.usage_id ≡ a.usage_id
unfolding same_reservation
same_key a b h = sym ((eq_iff a.usage_id b.usage_id).0 (ground arith))

-- A call that was reserved can be finalized: any entry with its reservation and a status that is not
-- RESERVED commits, and is then the one that the call's id finds.
pub reserved_finalizes :
    (env : Env) (e d : UsageEntry) (t t' : Tables)
    → reserve_usage_entry env e t ≡ ok t'
    → same_reservation e d ≡ true
    → is_reserved d.status ≡ false
    → (u : Tables) × (finalize_usage_entry d t' ≡ ok u)
      × (find_usage e.usage_id u.usage ≡ some (finalized d))
reserved_finalizes env e d t t' h s n =
    let (g, r, a, l, i) = reserve-steps env e t t' h in
    let (same, free) = insert_facts e t t' i in
    let k = same_key e d s in
    let (f, c) = fresh_row e t.usage free r in
    let f' : find_usage d.usage_id t'.usage ≡ some (record { status = e.status; entry = e }) =
      rw (k, same) f in
    let c' : count (is_open d.usage_id) t'.usage ≡ 1 = rw (k, same) c in
    let z : is_safe_id d.usage_id ≡ true = rw k (insert_safe e t t' i) in
    (
      record t' { usage = set_usage d t'.usage },
      finalize-ok d (record { status = e.status; entry = e }) t' f' c' z n r r s,
      rw (← k) (find_usage-finalized d t'.usage _ f' r),
    )
