-- ===== src/Operator/Metering/Settlement.antt =====
-- A metered call whose reservation was granted leaves a finalized entry, however the backend ends.
use autobugfix_loop.Prelude.{
  ◌≡◌, refl, String, true, false, Option, none, some, truthy, arith, eq_refl, opt_eq, count, Result,
  ok, raise, inl, inr, Result-cases, is_safe_id,
}
use autobugfix_loop.Operator.Records.{UsageStatus, reserved, is_reserved}
use autobugfix_loop.Operator.Records.Budget.{UsageEntry, check_usage}
use autobugfix_loop.Operator.Store.{Tables, Env, find_usage, read_usage_entry, read_budget_grant}
use autobugfix_loop.Operator.Budget.{same_reservation, is_open, set_usage, reserve_usage_entry}
use autobugfix_loop.Operator.Budget.Finalize.{finalized}
use autobugfix_loop.Operator.Budget.Reserve.{reserve-steps}
use autobugfix_loop.Operator.Budget.Granted.{insert_safe, finalize-ok}
use autobugfix_loop.Operator.Budget.Settled.{find_usage-finalized}
use autobugfix_loop.Operator.Metering.{
  CallRequest, Closing, reserve_usage, finalize_usage, closed_entry, Answer, returned, failed,
  MeterError, backend_failed, status_of, closing_of, settle, run_metered,
}

reserve_usage-facts :
    (env : Env) (c : CallRequest) (model fresh now : String) (t v : Tables) (u : UsageEntry)
    → reserve_usage env c model fresh now t ≡ ok (u, v)
    → (check_usage u ≡ ok tt) × (u.status ≡ reserved) × (reserve_usage_entry env u t ≡ ok v)
unfolding reserve_usage
reserve_usage-facts env c model fresh now t v u h =
    elim (Result-cases (read_budget_grant c.grant_id t)) [
      | inr (x, p) ↦ absurd (ground arith)
      | inl (g, p) ↦ (ground arith, ground arith, ground arith)
    ]

opt_eq_refl : (o : Option String) → opt_eq o o ≡ true
opt_eq_refl none = refl
opt_eq_refl (some s) = eq_refl s

closed_same :
    (u : UsageEntry) (s : UsageStatus) (c : Closing)
    → same_reservation u (closed_entry u s c) ≡ true
unfolding same_reservation
closed_same u s c = ground (
  arith,
  eq_refl u.usage_id,
  eq_refl u.grant_id,
  eq_refl u.study_id,
  eq_refl u.call_key,
  eq_refl u.execution_id,
  opt_eq_refl u.case_id,
  eq_refl u.role,
  eq_refl u.model,
  eq_refl u.reserved_at,
)

closed_checks :
    (u : UsageEntry) (s : UsageStatus) (c : Closing)
    → check_usage u ≡ ok tt
    → is_reserved s ≡ false
    → check_usage (closed_entry u s c) ≡ ok tt
unfolding check_usage
closed_checks u s c h n = ground arith

-- The finalization of an open call succeeds, and leaves its entry.
finalize_open :
    (u : UsageEntry) (s : UsageStatus) (c : Closing) (t : Tables)
    → check_usage u ≡ ok tt
    → u.status ≡ reserved
    → is_safe_id u.usage_id ≡ true
    → is_reserved s ≡ false
    → find_usage u.usage_id t.usage ≡ some (finalized u)
    → count (is_open u.usage_id) t.usage ≡ 1
    → finalize_usage u.usage_id s c t
      ≡ ok (record t { usage = set_usage (closed_entry u s c) t.usage })
unfolding finalize_usage read_usage_entry
finalize_open u s c t k r z n f o =
    let e = closed_entry u s c in
    let open_ : is_reserved u.status ≡ true = rw r refl in
    let done = finalize-ok e (finalized u) t f o z n open_ open_ (closed_same u s c) in
    let checked = closed_checks u s c k n in ground arith

terminal : (a : Answer) → is_reserved (status_of a) ≡ false
terminal (returned text) = refl
terminal failed = refl

abbrev pub reply : Answer → Result MeterError String
reply (returned text) = ok text
reply failed = raise backend_failed

settle_open :
    (u : UsageEntry) (a : Answer) (c : Closing) (t after : Tables)
    → finalize_usage u.usage_id (status_of a) (closing_of a c) t ≡ ok after
    → settle u a c t ≡ (after, reply a)
unfolding settle
settle_open u (returned text) c t after h = ground arith
settle_open u failed c t after h = ground arith

-- A metered call whose reservation is granted, and is still open when the backend ends, leaves its
-- entry finalized: COMPLETED with the backend's answer returned, or INDETERMINATE with the backend's
-- exception raised.
pub metered_settles :
    (env : Env) (c : CallRequest) (model fresh now : String) (a : Answer) (closing : Closing)
    (meanwhile : Tables → Tables) (t v : Tables) (u : UsageEntry)
    → c.model ≡ some model
    → truthy model ≡ true
    → reserve_usage env c model fresh now t ≡ ok (u, v)
    → find_usage u.usage_id (meanwhile v).usage ≡ some (finalized u)
    → count (is_open u.usage_id) (meanwhile v).usage ≡ 1
    → let end = run_metered env c fresh now a closing meanwhile t in
      (find_usage u.usage_id end.0.usage
        ≡ some (finalized (closed_entry u (status_of a) (closing_of a closing))))
      × (end.1 ≡ reply a)
unfolding run_metered
metered_settles env c model fresh now a closing meanwhile t v u m y h f o =
    let (k, s, r) = reserve_usage-facts env c model fresh now t v u h in
    let (g, x, b, l, i) = reserve-steps env u t v r in
    let z = insert_safe u t v i in
    let open_ : is_reserved u.status ≡ true = rw s refl in
    let d =
      finalize_open u (status_of a) (closing_of a closing) (meanwhile v) k s z (terminal a) f o in
    let e = settle_open u a closing (meanwhile v) _ d in
    let whole : run_metered env c fresh now a closing meanwhile t
        ≡ settle u a closing (meanwhile v) =
      rw (m, run_metered) (rw (y, h) refl) in
    rw (whole, e)
      (
        find_usage-finalized (closed_entry u (status_of a) (closing_of a closing))
            (meanwhile v).usage (finalized u) f open_,
        refl,
      )
