-- ===== src/Operator/Budget/Counted.antt =====
-- The quantities of the usage table that the budgets bound, and how adding a row and replacing one
-- change them.
use autobugfix_loop.Prelude.{
  IsNumbered, IsNumbered-append_one, ℕ, suc, max, ◌+◌, ◌≤◌, ◌≡◌, ap, String, Bool, true, false,
  ◌&&◌, List, [], ◌∷◌, ◌++◌, arith, ◌==◌, opt_eq→eq, length, if◌then◌else◌, eq_iff, inl, inr,
  Option, some, Bool-cases, All,
}
use autobugfix_loop.Operator.Records.{is_reserved}
use autobugfix_loop.Operator.Records.Budget.{BudgetGrant, UsageEntry}
use autobugfix_loop.Operator.Store.{Tables, UsageRow, find_grant}
use autobugfix_loop.Operator.Budget.{running, is_attempt_of, is_call_of, same_reservation}
use autobugfix_loop.Operator.Budget.Rows.{numbers, numbers-append_one, study_entries}
use autobugfix_loop.Operator.Budget.Finalize.{Replaces, here, there}

-- The largest of a study's limits, over its grants.
abbrev pub cap : (BudgetGrant → ℕ) → String → List BudgetGrant → ℕ
cap limit study [] = 0
cap limit study (g ∷ gs) =
    let rest = cap limit study gs in if g.study_id == study then max (limit g) rest else rest

pub cap_of_grant :
    (limit : BudgetGrant → ℕ) (study key : String) (gs : List BudgetGrant) (g : BudgetGrant)
    → find_grant key gs ≡ some g
    → (g.study_id == study) ≡ true
    → limit g ≤ cap limit study gs
unfolding find_grant
cap_of_grant limit study key [] g f s = cc
cap_of_grant limit study key (x ∷ gs) g f s = elim (Bool-cases (x.grant_id == key)) [
  | inl p ↦
      let same : x ≡ g = ground arith in
      let mine : (x.study_id == study) ≡ true = rw same s in
      rw mine (rw (ap limit same) (omega arith))
  | inr p ↦ ground (arith, cap_of_grant limit study key gs g)
]

-- The writer's attempts of a study at a case in an execution, and an operator role's revisions.
abbrev pub writer_entry : String → Option String → String → UsageEntry → Bool
writer_entry study case execution u = u.study_id == study && is_attempt_of case execution u

abbrev pub role_entry : String → String → String → UsageEntry → Bool
role_entry study role execution u = u.study_id == study && is_call_of role execution u

abbrev pub attempts : String → Option String → String → Tables → List ℕ
attempts study case execution t =
    numbers (λ u. u.attempt) (writer_entry study case execution) t.usage

abbrev pub revisions : String → String → String → Tables → List ℕ
revisions study role execution t =
    numbers (λ u. u.revision) (role_entry study role execution) t.usage

-- Calls of a study, and those that are running.
abbrev pub calls : String → Tables → ℕ
calls study t = length (study_entries study t.usage)

unfoldable pub running_calls : String → Tables → ℕ
unfolding running
running_calls study t = running (study_entries study t.usage)

-- Adding a row whose entry has the next number, or does not match, keeps the numbers in order.
pub IsNumbered-reserve :
    (f : UsageEntry → ℕ) (p : UsageEntry → Bool) (rs : List UsageRow) (r : UsageRow)
    → IsNumbered (numbers f p rs)
    → (p r.entry ≡ true → f r.entry ≡ suc (length (numbers f p rs)))
    → IsNumbered (numbers f p (rs ++ r ∷ []))
IsNumbered-reserve f p rs r h next = elim (Bool-cases (p r.entry)) [
  | inl y ↦ rw (numbers-append_one f p rs r, y) (IsNumbered-append_one _ _ h (next y))
  | inr n ↦ rw (numbers-append_one f p rs r, n) h
]

-- Replacing a row by one that matches alike and has the same number changes nothing.
pub numbers-Replaces :
    (f : UsageEntry → ℕ) (p : UsageEntry → Bool) {old new : UsageRow} {rs ss : List UsageRow}
    → Replaces old new rs ss
    → p new.entry ≡ p old.entry
    → f new.entry ≡ f old.entry
    → numbers f p ss ≡ numbers f p rs
numbers-Replaces f p (here rs) a b = rw (a, b)
numbers-Replaces f p (there r d) a b = rw (numbers-Replaces f p d a b)

-- What a finalization must leave as it was.
pub record Kept (a b : UsageEntry) : Type 0 where
  pub usage_id : a.usage_id ≡ b.usage_id
  pub study_id : a.study_id ≡ b.study_id
  pub call_key : a.call_key ≡ b.call_key
  pub execution_id : a.execution_id ≡ b.execution_id
  pub case_id : a.case_id ≡ b.case_id
  pub role : a.role ≡ b.role
  pub attempt : a.attempt ≡ b.attempt
  pub revision : a.revision ≡ b.revision

pub same_reservation-Kept : (a b : UsageEntry) → same_reservation a b ≡ true → Kept a b
unfolding same_reservation
same_reservation-Kept a b h = record {
  usage_id = (eq_iff a.usage_id b.usage_id).0 (ground arith);
  study_id = (eq_iff a.study_id b.study_id).0 (ground arith);
  call_key = (eq_iff a.call_key b.call_key).0 (ground arith);
  execution_id = (eq_iff a.execution_id b.execution_id).0 (ground arith);
  case_id = opt_eq→eq a.case_id b.case_id (ground arith);
  role = (eq_iff a.role b.role).0 (ground arith);
  attempt = ground arith;
  revision = ground arith;
}

pub writer_entry-Kept :
    (study : String) (case : Option String) (execution : String) {a b : UsageEntry}
    → Kept a b
    → writer_entry study case execution b ≡ writer_entry study case execution a
writer_entry-Kept study case execution k = rw (k.study_id, k.role, k.case_id, k.execution_id)

pub role_entry-Kept :
    (study role execution : String) {a b : UsageEntry}
    → Kept a b
    → role_entry study role execution b ≡ role_entry study role execution a
role_entry-Kept study role execution k = rw (k.study_id, k.role, k.execution_id)

pub length-Replaces :
    (study : String) {old new : UsageRow} {rs ss : List UsageRow}
    → Replaces old new rs ss
    → new.entry.study_id ≡ old.entry.study_id
    → length (study_entries study ss) ≡ length (study_entries study rs)
length-Replaces study {old} {new} (here rs) e = rw e (ground arith)
length-Replaces study (there r d) e = ground (arith, length-Replaces study d e)

-- A finalization of a reserved call frees one place in its study, and none in another.
pub running-Replaces :
    (study : String) {old new : UsageRow} {rs ss : List UsageRow}
    → Replaces old new rs ss
    → new.entry.study_id ≡ old.entry.study_id
    → is_reserved old.entry.status ≡ true
    → is_reserved new.entry.status ≡ false
    → running (study_entries study ss) + (if old.entry.study_id == study then 1 else 0)
      ≡ running (study_entries study rs)
unfolding running
running-Replaces study {old} {new} (here rs) e o n = rw e (ground arith)
running-Replaces study (there r d) e o n = ground (arith, running-Replaces study d e o n)

pub All-Replaces :
    {old new : UsageRow} {rs ss : List UsageRow}
    → Replaces old new rs ss
    → new.status ≡ new.entry.status
    → All (λ (r : UsageRow). r.status ≡ r.entry.status) rs
    → All (λ (r : UsageRow). r.status ≡ r.entry.status) ss
All-Replaces (here rs) e (h, hs) = (e, hs)
All-Replaces (there r d) e (h, hs) = (h, All-Replaces d e hs)

pub All-append_one :
    (rs : List UsageRow) (r : UsageRow)
    → All (λ (r : UsageRow). r.status ≡ r.entry.status) rs
    → r.status ≡ r.entry.status
    → All (λ (r : UsageRow). r.status ≡ r.entry.status) (rs ++ r ∷ [])
All-append_one [] r h e = (e, tt)
All-append_one (q ∷ rs) r (h, hs) e = (h, All-append_one rs r hs e)
