-- ===== src/Operator/Budget/Ladder.antt =====
-- The waves of a study's grants climb 3, 8, 16, and each keeps the cases of the one before.
use autobugfix_loop.Prelude.{
  ◌≡◌, refl, String, Bool, false, List, [], ◌∷◌, ◌++◌, arith, ◌==◌, length, leb, filter, get_last?,
  sort_by, if◌then◌else◌, ok, inl, inr, Option, some, none, Bool-cases, Option-cases, eq_iff, take,
  map,
}
use autobugfix_loop.Operator.Records.Budget.{BudgetGrant, BudgetRequest}
use autobugfix_loop.Operator.Records.Line.{Study}
use autobugfix_loop.Operator.Store.{
  Tables, Env, read_study, read_budget_request, find_study, find_request,
}
use autobugfix_loop.Operator.Budget.Grants.{
  BudgetConfig, RequestArgs, read_budget_grants, expected_wave, drops_case, check_approval,
  write_budget_grant, approve_budget_grant, create_budget_request, write_budget_request, new_grant,
}

-- The grants of a study, in the order in which they were written.
abbrev pub study_grants : String → List BudgetGrant → List BudgetGrant
study_grants study gs = filter (λ (g : BudgetGrant). g.study_id == study) gs

-- Each grant has the wave that the one before it asks for, and drops none of its cases.
abbrev pub Ladder : Option BudgetGrant → List BudgetGrant → Type 0
Ladder before [] = Unit
Ladder before (g ∷ gs) =
    (expected_wave before ≡ some g.wave)
    × (drops_case before g.case_ids ≡ false)
    × Ladder (some g) gs

abbrev last_or : Option BudgetGrant → List BudgetGrant → Option BudgetGrant
last_or before [] = before
last_or before (g ∷ gs) = last_or (some g) gs

last_or-get_last? :
    (g : BudgetGrant) (gs : List BudgetGrant) → last_or (some g) gs ≡ get_last? (g ∷ gs)
last_or-get_last? g [] = refl
last_or-get_last? g (h ∷ gs) = last_or-get_last? h gs

last_or-none : (gs : List BudgetGrant) → last_or none gs ≡ get_last? gs
last_or-none [] = refl
last_or-none (g ∷ gs) = last_or-get_last? g gs

Ladder-append_one :
    (before : Option BudgetGrant) (gs : List BudgetGrant) (g : BudgetGrant)
    → Ladder before gs
    → expected_wave (last_or before gs) ≡ some g.wave
    → drops_case (last_or before gs) g.case_ids ≡ false
    → Ladder before (gs ++ g ∷ [])
Ladder-append_one before [] g l w d = (w, d, tt)
Ladder-append_one before (h ∷ gs) g (a, b, l) w d = (a, b, Ladder-append_one (some h) gs g l w d)

abbrev by_wave : BudgetGrant → BudgetGrant → Bool
by_wave a b = leb a.wave b.wave

-- ORDER BY wave leaves the ladder as it stands.
sort-Ladder :
    (before : Option BudgetGrant) (gs : List BudgetGrant)
    → Ladder before gs
    → sort_by by_wave gs ≡ gs
unfolding sort_by expected_wave
sort-Ladder before [] l = refl
sort-Ladder before (x ∷ []) l = refl
sort-Ladder before (x ∷ y ∷ gs) (a, b, (c, d, l)) =
    rw (sort-Ladder (some x) (y ∷ gs) (c, d, l)) (ground arith)

-- The waves are 3, 8, 16, as far as they go.
waves_from : (g : BudgetGrant) (gs : List BudgetGrant) → Ladder (some g) gs → g.wave ≡ 16 → gs ≡ []
unfolding expected_wave
waves_from g [] l e = refl
waves_from g (h ∷ gs) (a, b, l) e = ground arith

create_keeps :
    (env : Env) (config : BudgetConfig) (args : RequestArgs) (t t' : Tables)
    → create_budget_request env config args t ≡ ok t'
    → t' ≡ record t { requests = t'.requests }
unfolding create_budget_request write_budget_request
create_keeps env config args t t' h = ground arith

pub create-usage :
    (env : Env) (config : BudgetConfig) (args : RequestArgs) (t t' : Tables)
    → create_budget_request env config args t ≡ ok t'
    → (t'.usage ≡ t.usage) × (t'.grants ≡ t.grants)
create-usage env config args t t' h = let e = create_keeps env config args t t' h in ground arith

-- What a successful approval adds.
pub approve-steps :
    (env : Env) (id approver confirm kind fresh created : String) (t t' : Tables)
    → approve_budget_grant env id approver confirm kind fresh created t ≡ ok t'
    → (r : BudgetRequest) × (find_request id t.requests ≡ some r)
      × (check_approval env r confirm kind t ≡ ok tt)
      × (t' ≡ record t { grants = t.grants ++ new_grant env r fresh approver kind created ∷ [] })
unfolding approve_budget_grant write_budget_grant read_budget_request
approve-steps env id approver confirm kind fresh created t t' h =
    elim (Option-cases (find_request id t.requests)) [
      | inl p ↦ absurd (ground arith)
      | inr (r, p) ↦ (r, p, ground arith, ground arith)
    ]

find_study-key :
    (key : String) (ss : List Study) (s : Study) → find_study key ss ≡ some s → s.study_id ≡ key
unfolding find_study
find_study-key key [] s h = cc
find_study-key key (x ∷ ss) s h = elim (Bool-cases (x.study_id == key)) [
  | inl p ↦ let same : x ≡ s = ground arith in rw (← same) ((eq_iff x.study_id key).0 p)
  | inr p ↦ find_study-key key ss s (ground arith)
]

-- An approval confirms the digest of the request, at the wave that the study's last grant asks for.
pub approval_facts :
    (env : Env) (r : BudgetRequest) (confirm kind : String) (t : Tables)
    → check_approval env r confirm kind t ≡ ok tt
    → let last = get_last? (read_budget_grants r.study_id t) in
      (expected_wave last ≡ some r.wave)
      × (drops_case last r.case_ids ≡ false)
      × (confirm ≡ env.request_digest r)
unfolding check_approval read_study
approval_facts env r confirm kind t h = elim (Option-cases (find_study r.study_id t.studies)) [
  | inl p ↦ absurd (ground arith)
  | inr (s, p) ↦
      let e = find_study-key r.study_id t.studies s p in
      (
        rw (← e) (ground arith),
        rw (← e) (ground arith),
        (eq_iff confirm (env.request_digest r)).0 (ground arith),
      )
]

study_grants-append_one :
    (study : String) (gs : List BudgetGrant) (g : BudgetGrant)
    → study_grants study (gs ++ g ∷ [])
      ≡ (if g.study_id == study then study_grants study gs ++ g ∷ [] else study_grants study gs)
study_grants-append_one study [] g = refl
study_grants-append_one study (h ∷ gs) g = ground (arith, study_grants-append_one study gs g)

-- `read_budget_grants` returns a ladder as it was written.
read_budget_grants-Ladder :
    (key study : String) (t : Tables)
    → key ≡ study
    → Ladder none (study_grants study t.grants)
    → read_budget_grants key t ≡ study_grants study t.grants
unfolding read_budget_grants
read_budget_grants-Ladder key study t e l = rw e (sort-Ladder none (study_grants study t.grants) l)

-- Every study's grants are a ladder.
abbrev pub IsLaddered : Tables → Type 0
IsLaddered t = (study : String) → Ladder none (study_grants study t.grants)

pub approve-IsLaddered :
    (env : Env) (id approver confirm kind fresh created : String) (t t' : Tables)
    → IsLaddered t
    → approve_budget_grant env id approver confirm kind fresh created t ≡ ok t'
    → IsLaddered t'
approve-IsLaddered env id approver confirm kind fresh created t t' v h study =
    let (r, f, c, same) = approve-steps env id approver confirm kind fresh created t t' h in
    let (w, d, x) = approval_facts env r confirm kind t c in
    let g = new_grant env r fresh approver kind created in
    rw same (
      rw (study_grants-append_one study t.grants g) (elim (Bool-cases (r.study_id == study)) [
        | inl y ↦
            let e : r.study_id ≡ study = (eq_iff r.study_id study).0 y in
            let s = read_budget_grants-Ladder r.study_id study t e (v study) in
            rw y (
              Ladder-append_one none (study_grants study t.grants) g (v study)
                (rw (last_or-none, ← s) w) (rw (last_or-none, ← s) d))
        | inr n ↦ rw n (v study)
      ]))

-- The waves of a ladder are the first of 3, 8, 16.
pub Ladder-waves :
    (gs : List BudgetGrant)
    → Ladder none gs
    → map (λ (g : BudgetGrant). g.wave) gs ≡ take (length gs) (3 ∷ 8 ∷ 16 ∷ [])
unfolding expected_wave
Ladder-waves [] l = refl
Ladder-waves (a ∷ []) l = ground arith
Ladder-waves (a ∷ b ∷ []) l = ground arith
Ladder-waves (a ∷ b ∷ c ∷ []) l = ground arith
Ladder-waves (a ∷ b ∷ c ∷ d ∷ gs) l = absurd (ground arith)
