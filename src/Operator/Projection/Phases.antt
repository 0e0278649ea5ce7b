-- ===== src/Operator/Projection/Phases.antt =====
-- The phases of a request, by its projection.
use autobugfix_loop.Prelude.{
  ◌≢◌, ◌≡◌, refl, sym, ◌∙◌, String, Bool, true, false, ◌&&◌, Option, none, some, List, [], ◌∷◌,
  ◌++◌, arith, Result, ok, raise, inl, inr, Bool-cases, Option-cases, Result-cases,
}
use autobugfix_loop.Operator.Projection.{
  EventKind, request_created, request_activated, writer_started, writer_completed, writer_failed,
  writer_timed_out, writer_cancelled, check_started, check_passed, check_failed, check_error,
  check_cancelled, patch_observed, scope_revision_approved, gate_updated, verification_accepted,
  request_reopened, request_closed, other, OperatorEvent, Phase, requested, active, verified,
  closed, Projection, ProjectionError, phase_of, is_allowed, apply_event, enter, project_from,
  new_projection, project_request,
}

-- Independent of the projection: the phases that a log names, and whether they are a legal walk.
abbrev pub phases : List OperatorEvent → List Phase
phases [] = []
phases (e ∷ es) = let rest = phases es in elim (phase_of e.kind) [ none ↦ rest | some p ↦ p ∷ rest ]

-- Each phase is allowed after the one before it.
abbrev pub allows : Option Phase → List Phase → Bool
allows c [] = true
allows c (p ∷ ps) = is_allowed c p && allows (some p) ps

abbrev pub is_walk : List Phase → Bool
is_walk [] = false
is_walk (p ∷ ps) = allows none (p ∷ ps)

abbrev pub succeeds : {A : Type 0} → Result ProjectionError A → Bool
succeeds (ok a) = true
succeeds (raise e) = false

apply_event-state : (k : EventKind) (p : Projection) → (apply_event k p).state ≡ p.state
unfolding apply_event
apply_event-state request_created p = refl
apply_event-state (request_activated path) p = refl
apply_event-state (writer_started run) p = refl
apply_event-state writer_completed p = refl
apply_event-state writer_failed p = refl
apply_event-state writer_timed_out p = refl
apply_event-state writer_cancelled p = refl
apply_event-state (check_started check) p = refl
apply_event-state (check_passed check failures) p = refl
apply_event-state (check_failed check failures) p = refl
apply_event-state (check_error check failures) p = refl
apply_event-state (check_cancelled check failures) p = refl
apply_event-state (patch_observed patch head) p = refl
apply_event-state (scope_revision_approved version) p = refl
apply_event-state (gate_updated blocked) p = refl
apply_event-state (verification_accepted check patch head) p = refl
apply_event-state (request_reopened reason) p = refl
apply_event-state (request_closed outcome) p = refl
apply_event-state (other kind) p = refl

-- Where a walk from a phase ends.
abbrev pub finishes : Option Phase → List Phase → Option Phase
finishes c [] = c
finishes c (p ∷ ps) = finishes (some p) ps

abbrev Holds : Option Phase → Projection → Type 0
Holds none p = Unit
Holds (some c) p = p.state ≡ c

Holds-keep : (c : Option Phase) (p q : Projection) → q.state ≡ p.state → Holds c p → Holds c q
Holds-keep none p q e h = tt
Holds-keep (some c) p q e h = e ∙ h

-- The loop succeeds on the legal walks alone, and ends at their last phase.
project_from-ok :
    (c d : Option Phase) (p q : Projection) (es : List OperatorEvent)
    → Holds c p
    → project_from c p es ≡ ok (d, q)
    → (allows c (phases es) ≡ true) × (finishes c (phases es) ≡ d) × Holds d q
unfolding project_from enter
project_from-ok c d p q [] v h =
    let e : c ≡ d = ground arith in let f : p ≡ q = ground arith in (refl, e, rw (← e, ← f) v)
project_from-ok c d p q (e ∷ es) v h = elim (Option-cases (phase_of e.kind)) [
  | inl n ↦
      let p' = apply_event e.kind (record p { last_event_hash = some e.hash }) in
      let v' : Holds c p' = Holds-keep c p p' (apply_event-state e.kind _) v in
      rw (n, allows, finishes) (project_from-ok c d p' q es v' (ground arith))
  | inr (k, n) ↦ elim (Bool-cases (is_allowed c k)) [
    | inr bad ↦ absurd (ground arith)
    | inl may ↦
        let p' = apply_event e.kind (record p { state = k; last_event_hash = some e.hash }) in
        rw (n, may, allows, finishes)
          (project_from-ok (some k) d p' q es (rw apply_event-state refl) (ground arith))
  ]
]

project_from-raise :
    (c : Option Phase) (p : Projection) (x : ProjectionError) (es : List OperatorEvent)
    → project_from c p es ≡ raise x
    → allows c (phases es) ≡ false
unfolding project_from enter
project_from-raise c p x [] h = cc
project_from-raise c p x (e ∷ es) h = elim (Option-cases (phase_of e.kind)) [
  | inl n ↦
      rw (n, allows)
        (project_from-raise c (apply_event e.kind (record p { last_event_hash = some e.hash })) x es
          (ground arith))
  | inr (k, n) ↦ elim (Bool-cases (is_allowed c k)) [
    | inr bad ↦ rw (n, bad, allows) refl
    | inl may ↦
        rw (n, may, allows)
          (project_from-raise (some k)
            (apply_event e.kind (record p { state = k; last_event_hash = some e.hash })) x es
            (ground arith))
  ]
]

is_walk-finishes :
    (ps : List Phase) (k : Phase) → finishes none ps ≡ some k → is_walk ps ≡ allows none ps
is_walk-finishes [] k h = cc
is_walk-finishes (p ∷ ps) k h = refl

finishes-some : (c : Phase) (ps : List Phase) → finishes (some c) ps ≢ none
finishes-some c [] h = cc
finishes-some c (p ∷ ps) h = finishes-some p ps h

is_walk-none : (ps : List Phase) → finishes none ps ≡ none → is_walk ps ≡ false
is_walk-none [] h = refl
is_walk-none (p ∷ ps) h = absurd (finishes-some p ps h)

allows-is_walk : (ps : List Phase) → allows none ps ≡ false → is_walk ps ≡ false
allows-is_walk [] h = cc
allows-is_walk (p ∷ ps) h = h

-- A log can be projected exactly when it names a phase, the first that it names is REQUESTED, and
-- each that it names is allowed after the one before.
pub project-is_walk :
    (id : String) (es : List OperatorEvent) → succeeds (project_request id es) ≡ is_walk (phases es)
unfolding project_request
project-is_walk id es = elim (Result-cases (project_from none (new_projection id) es)) [
  | inr (x, p) ↦
      rw (p, project_request) (sym (allows-is_walk (phases es) (project_from-raise none _ x es p)))
  | inl ((none, q), p) ↦
      let (a, f, v) = project_from-ok none none (new_projection id) q es tt p in
      rw (p, project_request) (sym (is_walk-none (phases es) f))
  | inl ((some k, q), p) ↦
      let (a, f, v) = project_from-ok none (some k) (new_projection id) q es tt p in
      rw (p, project_request) (sym (is_walk-finishes (phases es) k f ∙ a))
]

project-facts :
    (id : String) (es : List OperatorEvent) (p : Projection)
    → project_request id es ≡ ok p
    → (allows none (phases es) ≡ true) × (finishes none (phases es) ≡ some p.state)
unfolding project_request
project-facts id es p h = elim (Result-cases (project_from none (new_projection id) es)) [
  | inr (x, q) ↦ absurd (ground arith)
  | inl ((none, r), q) ↦ absurd (ground arith)
  | inl ((some k, r), q) ↦
      let (a, f, v) = project_from-ok none (some k) (new_projection id) r es tt q in
      let same : r ≡ p = ground arith in (a, rw (← same) (ground arith))
]

-- The state of a projected request is the last phase that its log names.
pub project-finishes :
    (id : String) (es : List OperatorEvent) (p : Projection)
    → project_request id es ≡ ok p
    → finishes none (phases es) ≡ some p.state
project-finishes id es p h = (project-facts id es p h).1

phases-append : (es ds : List OperatorEvent) → phases (es ++ ds) ≡ phases es ++ phases ds
phases-append [] ds = refl
phases-append (e ∷ es) ds = ground (arith, phases-append es ds)

walk-append :
    (c : Option Phase) (ps qs : List Phase)
    → (allows c (ps ++ qs) ≡ (allows c ps && allows (finishes c ps) qs))
      × (finishes c (ps ++ qs) ≡ finishes (finishes c ps) qs)
walk-append c [] qs = (refl, refl)
walk-append c (p ∷ ps) qs = ground (arith, walk-append (some p) ps qs)

closed_walk :
    (qs : List Phase) → allows (some closed) qs ≡ true → finishes (some closed) qs ≡ some closed
unfolding is_allowed
closed_walk [] h = refl
closed_walk (requested ∷ qs) h = cc
closed_walk (active ∷ qs) h = cc
closed_walk (verified ∷ qs) h = cc
closed_walk (closed ∷ qs) h = closed_walk qs h

-- After the events of a log have closed a request, more events cannot take it elsewhere.
pub closed-append :
    (id : String) (es ds : List OperatorEvent) (q : Projection)
    → finishes none (phases es) ≡ some closed
    → project_request id (es ++ ds) ≡ ok q
    → q.state ≡ closed
closed-append id es ds q end k =
    let (b, g) = project-facts id (es ++ ds) q k in
    let (w, x) = walk-append none (phases es) (phases ds) in
    let e = phases-append es ds in
    let on : allows (some closed) (phases ds) ≡ true = ground arith in
    let last = closed_walk (phases ds) on in ground arith

-- A request that is closed stays closed: a longer log that can still be projected has it closed.
pub closed_stays :
    (id : String) (es ds : List OperatorEvent) (p q : Projection)
    → project_request id es ≡ ok p
    → p.state ≡ closed
    → project_request id (es ++ ds) ≡ ok q
    → q.state ≡ closed
closed_stays id es ds p q h c k =
    let (a, f) = project-facts id es p h in
    let end : finishes none (phases es) ≡ some closed = f ∙ rw c refl in
    closed-append id es ds q end k
