-- ===== src/Operator/Budget/Settled.antt =====
-- A finalized call stays as it was finalized.
use autobugfix_loop.Prelude.{
  ◌≡◌, ◌≢◌, String, true, false, List, [], ◌∷◌, ◌++◌, arith, eq_iff, eq_refl, ok, inl, inr, some,
  Option-cases,
}
use autobugfix_loop.Operator.Records.{is_reserved}
use autobugfix_loop.Operator.Records.Budget.{UsageEntry}
use autobugfix_loop.Operator.Store.{Tables, UsageRow, find_usage}
use autobugfix_loop.Operator.Budget.{set_usage, finalize_usage_entry}
use autobugfix_loop.Operator.Budget.Reserve.{reserve-steps, insert_facts}
use autobugfix_loop.Operator.Budget.Finalize.{finalized, finalize-steps}
use autobugfix_loop.Operator.Budget.Ladder.{create-usage, approve-steps}
use autobugfix_loop.Operator.Budget.Reach.{
  Step, reserve, finalize, request, approve, Reach, here, next,
}

find_usage-append_one :
    (key : String) (rs : List UsageRow) (r row : UsageRow)
    → find_usage key rs ≡ some row
    → find_usage key (rs ++ r ∷ []) ≡ some row
unfolding find_usage
find_usage-append_one key [] r row h = cc
find_usage-append_one key (q ∷ rs) r row h = ground (arith, find_usage-append_one key rs r row)

-- Writing the rows of another key does not move the first row of this one.
find_usage-set_usage :
    (key : String) (e : UsageEntry) (rs : List UsageRow) (row : UsageRow)
    → find_usage key rs ≡ some row
    → is_reserved row.status ≡ false
    → find_usage key (set_usage e rs) ≡ some row
unfolding find_usage set_usage
find_usage-set_usage key e [] row h s = cc
find_usage-set_usage key e (q ∷ rs) row h s =
    ground (arith, find_usage-set_usage key e rs row, eq_iff q.entry.usage_id e.usage_id)

-- The row that a finalization writes is the one that its key finds afterwards.
pub find_usage-finalized :
    (e : UsageEntry) (rs : List UsageRow) (row : UsageRow)
    → find_usage e.usage_id rs ≡ some row
    → is_reserved row.status ≡ true
    → find_usage e.usage_id (set_usage e rs) ≡ some (finalized e)
unfolding find_usage set_usage
find_usage-finalized e [] row h s = cc
find_usage-finalized e (q ∷ rs) row h s =
    ground (arith, find_usage-finalized e rs row, eq_refl e.usage_id)

finalize-rows :
    (e : UsageEntry) (t t' : Tables)
    → finalize_usage_entry e t ≡ ok t'
    → t'.usage ≡ set_usage e t.usage
unfolding finalize_usage_entry
finalize-rows e t t' h = elim (Option-cases (find_usage e.usage_id t.usage)) [
  | inl p ↦ absurd (ground arith)
  | inr (row, p) ↦ ground arith
]

settled-Step :
    (t t' : Tables) (key : String) (row : UsageRow)
    → Step t t'
    → find_usage key t.usage ≡ some row
    → is_reserved row.status ≡ false
    → find_usage key t'.usage ≡ some row
settled-Step t t' key row (reserve env e h) f s =
    let (g, r, a, l, i) = reserve-steps env e t t' h in
    rw (insert_facts e t t' i).0 (find_usage-append_one key t.usage _ row f)
settled-Step t t' key row (finalize e h) f s =
    rw (finalize-rows e t t' h) (find_usage-set_usage key e t.usage row f s)
settled-Step t t' key row (request env config args h) f s =
    rw (create-usage env config args t t' h).0 f
settled-Step t t' key row (approve env id approver confirm kind fresh created h) f s =
    let (r, p, c, same) = approve-steps env id approver confirm kind fresh created t t' h in
    rw same f

settled-Reach :
    (t t' : Tables) (key : String) (row : UsageRow)
    → Reach t t'
    → find_usage key t.usage ≡ some row
    → is_reserved row.status ≡ false
    → find_usage key t'.usage ≡ some row
settled-Reach t t' key row here f s = f
settled-Reach t t' key row (next {u = u} r st) f s =
    settled-Step u t' key row st (settled-Reach t u key row r f s) s

-- Once a call is finalized, whatever transactions commit after that, its row is found as it was
-- finalized, and no finalization of it commits again.
pub finalized_forever :
    (e d : UsageEntry) (t u v w : Tables)
    → finalize_usage_entry e t ≡ ok u
    → Reach u v
    → d.usage_id ≡ e.usage_id
    → (find_usage e.usage_id v.usage ≡ some (finalized e)) × (finalize_usage_entry d v ≢ ok w)
finalized_forever e d t u v w h r same =
    let (row, f, o, o', z, s, x, rep) = finalize-steps e t u h in
    let now : find_usage e.usage_id u.usage ≡ some (finalized e) =
      rw (finalize-rows e t u h) (find_usage-finalized e t.usage row f o) in
    let later = settled-Reach u v e.usage_id (finalized e) r now z in
    (
      later,
      λ again.
          let (row', f', p', q', z', s', x', rep') = finalize-steps d v w again in
          let g : find_usage e.usage_id v.usage ≡ some row' = rw (← same) f' in ground arith,
    )
