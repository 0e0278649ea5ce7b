-- ===== src/Operator/Budget/Rows.antt =====
-- What the rows of `usage_entries` hold: the numbers that matching entries carry, in the order in
-- which they were reserved, and how a SELECT of one study reads them.
use autobugfix_loop.Prelude.{
  ℕ, ◌≡◌, refl, String, Bool, true, ◌&&◌, List, [], ◌∷◌, ◌++◌, arith, ◌==◌, length, count,
  if◌then◌else◌, ok, raise, All,
}
use autobugfix_loop.Operator.Records.{UsageStatus, status_eq, reserved, completed, indeterminate}
use autobugfix_loop.Operator.Records.Budget.{UsageEntry}
use autobugfix_loop.Operator.Store.{UsageRow, status_disagrees}
use autobugfix_loop.Operator.Budget.{study_usage}

abbrev pub numbers : (UsageEntry → ℕ) → (UsageEntry → Bool) → List UsageRow → List ℕ
numbers f p [] = []
numbers f p (r ∷ rs) = let rest = numbers f p rs in if p r.entry then f r.entry ∷ rest else rest

pub status_eq_refl : (s : UsageStatus) → status_eq s s ≡ true
status_eq_refl reserved = refl
status_eq_refl completed = refl
status_eq_refl indeterminate = refl

pub numbers-append_one :
    (f : UsageEntry → ℕ) (p : UsageEntry → Bool) (rs : List UsageRow) (r : UsageRow)
    → numbers f p (rs ++ r ∷ [])
      ≡ (if p r.entry then numbers f p rs ++ f r.entry ∷ [] else numbers f p rs)
numbers-append_one f p [] r = refl
numbers-append_one f p (q ∷ rs) r = ground (arith, numbers-append_one f p rs r)

-- The entries of a study, as a SELECT returns them.
abbrev pub study_entries : String → List UsageRow → List UsageEntry
study_entries study [] = []
study_entries study (r ∷ rs) =
    let rest = study_entries study rs in if r.entry.study_id == study then r.entry ∷ rest else rest

abbrev agrees : String → List UsageRow → Bool
agrees study [] = true
agrees study (r ∷ rs) =
    let rest = agrees study rs in
    if r.entry.study_id == study then status_eq r.status r.entry.status && rest else rest

study_usage_lem :
    (study : String) (rs : List UsageRow)
    → study_usage study rs
      ≡ (if agrees study rs then ok (study_entries study rs) else raise status_disagrees)
unfolding study_usage
study_usage_lem study [] = refl
study_usage_lem study (r ∷ rs) = ground (arith, study_usage_lem study rs)

pub study_usage-eq_entries :
    (study : String) (rs : List UsageRow) (us : List UsageEntry)
    → study_usage study rs ≡ ok us
    → us ≡ study_entries study rs
study_usage-eq_entries study rs us h = ground (arith, study_usage_lem study rs)

pub study_entries-append_one :
    (study : String) (rs : List UsageRow) (r : UsageRow)
    → study_entries study (rs ++ r ∷ []) ≡ (
        if r.entry.study_id == study
        then study_entries study rs ++ r.entry ∷ []
        else study_entries study rs)
study_entries-append_one study [] r = refl
study_entries-append_one study (q ∷ rs) r = ground (arith, study_entries-append_one study rs r)

-- The entries of the study that pass `q` are those that `numbers` lists.
pub count-study_entries :
    (f : UsageEntry → ℕ) (q : UsageEntry → Bool) (study : String) (rs : List UsageRow)
    → count q (study_entries study rs) ≡ length (numbers f (λ u. u.study_id == study && q u) rs)
count-study_entries f q study [] = refl
count-study_entries f q study (r ∷ rs) = ground (arith, count-study_entries f q study rs)

-- Under the invariant that the status columns agree with the records the SELECT does not raise.
pub study_usage_total :
    (study : String) (rs : List UsageRow)
    → All (λ r. r.status ≡ r.entry.status) rs
    → study_usage study rs ≡ ok (study_entries study rs)
unfolding study_usage
study_usage_total study [] h = refl
study_usage_total study (r ∷ rs) h =
    rw (study_usage_total study rs h.1) (ground (arith, status_eq_refl r.entry.status, h.0))
