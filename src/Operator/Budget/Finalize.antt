-- ===== src/Operator/Budget/Finalize.antt =====
-- What a successful finalization does to the rows: it replaces the one open row of the reservation,
-- and leaves all that the budgets count but the status.
use autobugfix_loop.Prelude.{
  ◌≡◌, refl, true, false, List, [], ◌∷◌, arith, ◌==◌, count, ok, inl, inr, Option-cases, some,
  Bool-cases,
}
use autobugfix_loop.Operator.Records.{is_reserved}
use autobugfix_loop.Operator.Records.Budget.{UsageEntry}
use autobugfix_loop.Operator.Store.{Tables, UsageRow, find_usage}
use autobugfix_loop.Operator.Budget.{same_reservation, is_open, set_usage, finalize_usage_entry}

-- One list is the other with one row replaced.
pub data Replaces (old new : UsageRow) : List UsageRow → List UsageRow → Type 0 where
  here : (rs : List UsageRow) → Replaces old new (old ∷ rs) (new ∷ rs)
  there :
      (r : UsageRow) {rs ss : List UsageRow}
      → Replaces old new rs ss
      → Replaces old new (r ∷ rs) (r ∷ ss)

abbrev pub finalized : UsageEntry → UsageRow
finalized e = record { status = e.status; entry = e }

set_usage_none :
    (e : UsageEntry) (rs : List UsageRow) → count (is_open e.usage_id) rs ≡ 0 → set_usage e rs ≡ rs
unfolding set_usage
set_usage_none e [] h = refl
set_usage_none e (r ∷ rs) h = ground (arith, set_usage_none e rs)

set_usage-Replaces :
    (e : UsageEntry) (row : UsageRow) (rs : List UsageRow)
    → find_usage e.usage_id rs ≡ some row
    → is_reserved row.status ≡ true
    → count (is_open e.usage_id) rs ≡ 1
    → Replaces row (finalized e) rs (set_usage e rs)
unfolding set_usage find_usage
set_usage-Replaces e row [] f o c = cc
set_usage-Replaces e row (r ∷ rs) f o c = elim (Bool-cases (r.entry.usage_id == e.usage_id)) [
  | inl p ↦
      let same : r ≡ row = ground arith in
      let open_ : is_reserved r.status ≡ true = ground arith in
      let rest : count (is_open e.usage_id) rs ≡ 0 = ground arith in
      rw (p, open_) (rw (set_usage_none e rs rest) (rw same (here rs)))
  | inr p ↦ rw p (there r (set_usage-Replaces e row rs (ground arith) o (ground arith)))
]

pub finalize-steps :
    (e : UsageEntry) (t t' : Tables)
    → finalize_usage_entry e t ≡ ok t'
    → (row : UsageRow) × (find_usage e.usage_id t.usage ≡ some row)
      × (is_reserved row.status ≡ true)
      × (is_reserved row.entry.status ≡ true)
      × (is_reserved e.status ≡ false)
      × (same_reservation row.entry e ≡ true)
      × (t' ≡ record t { usage = t'.usage })
      × Replaces row (finalized e) t.usage t'.usage
unfolding finalize_usage_entry
finalize-steps e t t' h = elim (Option-cases (find_usage e.usage_id t.usage)) [
  | inl p ↦ absurd (ground arith)
  | inr (row, p) ↦
      let c : count (is_open e.usage_id) t.usage ≡ 1 = ground arith in
      let o : is_reserved row.status ≡ true = ground arith in
      let u : set_usage e t.usage ≡ t'.usage = ground arith in
      (
        row,
        p,
        o,
        ground arith,
        ground arith,
        ground arith,
        ground arith,
        rw (← u) (set_usage-Replaces e row t.usage p o c),
      )
]
