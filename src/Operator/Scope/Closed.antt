-- ===== src/Operator/Scope/Closed.antt =====
-- The calls of operator/service.py on a request whose log has the event that closed it.
use mathlib.Core.List.{append-nil, append_assoc}
use autobugfix_loop.Operator.Records.Request.{OperatorRequest}
use autobugfix_loop.Prelude.{
  map, if◌then◌else◌, ◌==◌, ◌≡◌, refl, sym, ap, ◌∙◌, String, Option, none, some, List, [], ◌∷◌,
  ◌++◌, arith, map-append_one, eq_refl, ok, raise, ◌>>=◌, ◌>>◌, bind-ok, ok-injective, inl, inr,
  Option-cases, Result-cases,
}
use autobugfix_loop.Operator.Store.{Error, safe_id, wrong_phase}
use autobugfix_loop.Operator.Events.{
  LoggedEvent, EventRow, NewEvent, rows_of, chained, row_of, append_event, load_event, load_events,
  check_chain, read_events, projected_events,
}
use autobugfix_loop.Operator.Events.Chain.{last_hash, append-row, load-row_of, rows_of-append_one}
use autobugfix_loop.Operator.Projection.{
  OperatorEvent, phase_of, request_closed, Phase, requested, active, verified, closed, Projection,
  project_request,
}
use autobugfix_loop.Operator.Projection.Phases.{phases, finishes, closed-append}
use autobugfix_loop.Operator.Guard.{require_phase, require_no_active_run}
use autobugfix_loop.Operator.Scope.{
  Value, text, new_event, Governance, Service, ScopeChange, read_request, projection, log,
  prepare_change, begin_change, request_scope_change, reopen, close,
}

-- The last event decides the phase where it names one.
finishes-append_one :
    (c : Option Phase) (es : List OperatorEvent) (e : OperatorEvent) (k : Phase)
    → phase_of e.kind ≡ some k
    → finishes c (phases (es ++ e ∷ [])) ≡ some k
finishes-append_one c [] e k h = rw (h, finishes) refl
finishes-append_one c (x ∷ es) e k h = elim (Option-cases (phase_of x.kind)) [
  | inl n ↦ rw (n, finishes) (finishes-append_one c es e k h)
  | inr (p, n) ↦ rw (n, finishes) (finishes-append_one (some p) es e k h)
]

module _ (hash : LoggedEvent → String) where
  -- A log that loads with one more row has the row's event last.
  load-append_one :
      (rows : List EventRow) (e : LoggedEvent) (fs : List LoggedEvent)
      → load_events hash (rows ++ row_of hash e ∷ []) ≡ ok fs
      → (es : List LoggedEvent) × (fs ≡ es ++ e ∷ [])
  unfolding load_events
  load-append_one [] e fs h =
      let (x, e1, h1) = bind-ok (load_event hash (row_of hash e)) (λ x. ok (x ∷ [])) fs h in
      let f = ok-injective e x (sym (load-row_of hash e) ∙ e1) in
      ([], sym (ok-injective (x ∷ []) fs h1) ∙ ap (λ y. y ∷ []) (sym f))
  load-append_one (r ∷ rows) e fs h =
      let (x, e1, h1) =
        bind-ok (load_event hash r)
          (λ x. load_events hash (rows ++ row_of hash e ∷ []) >>= λ es. ok (x ∷ es)) fs h in
      let (gs, e2, h2) =
        bind-ok (load_events hash (rows ++ row_of hash e ∷ [])) (λ es. ok (x ∷ es)) fs h1 in
      let (es, f) = load-append_one rows e gs e2 in
      (x ∷ es, sym (ok-injective (x ∷ gs) fs h2) ∙ ap (λ l. x ∷ l) f)

  -- The rows of the calls of `append_event` that came later, whatever they append and whichever
  -- requests the database had by then.
  pub data Later : List EventRow → List EventRow → Type 0 where
    now : (rows : List EventRow) → Later rows rows
    then_appended :
        (requests : List String) (n : NewEvent) (rows mid next : List EventRow)
        → append_event hash requests n rows ≡ ok mid
        → Later mid next
        → Later rows next

  -- What is appended later comes after what is there.
  rows-Later :
      (request_id : String) (rows next : List EventRow)
      → Later rows next
      → (more : List EventRow) × (rows_of request_id next ≡ rows_of request_id rows ++ more)
  rows-Later request_id _ _ (now rows) = ([], sym (append-nil (rows_of request_id rows)))
  rows-Later request_id _ _ (then_appended requests n rows mid next h l) =
      let (more, e) = rows-Later request_id mid next l in
      let r = row_of hash (chained hash n (last_hash hash (rows_of n.request_id rows))) in
      let one = if r.request_id == request_id then r ∷ [] else [] in
      let m : rows_of request_id mid ≡ rows_of request_id rows ++ one =
        ap (rows_of request_id) (append-row hash requests n rows mid h)
        ∙ rows_of-append_one hash request_id rows r in
      (one ++ more, e ∙ (ap (λ x. x ++ more) m ∙ append_assoc (rows_of request_id rows) one more))

  load-append :
      (rows more : List EventRow) (fs : List LoggedEvent)
      → load_events hash (rows ++ more) ≡ ok fs
      → (es : List LoggedEvent) × (ds : List LoggedEvent) × (load_events hash rows ≡ ok es)
        × (fs ≡ es ++ ds)
  unfolding load_events
  load-append [] more fs h = ([], fs, refl, refl)
  load-append (r ∷ rows) more fs h =
      let (x, e1, h1) =
        bind-ok (load_event hash r) (λ x. load_events hash (rows ++ more) >>= λ es. ok (x ∷ es)) fs
          h in
      let (gs, e2, h2) = bind-ok (load_events hash (rows ++ more)) (λ es. ok (x ∷ es)) fs h1 in
      let (es, ds, f, g) = load-append rows more gs e2 in
      (x ∷ es, ds, rw (e1, f) refl, sym (ok-injective (x ∷ gs) fs h2) ∙ ap (λ l. x ∷ l) g)

  -- A log that is read after an event was appended, and possibly others later, has that event in it.
  read-append_event :
      (requests : List String) (n : NewEvent) (rows next last : List EventRow)
      (fs : List LoggedEvent)
      → append_event hash requests n rows ≡ ok next
      → Later next last
      → read_events hash n.request_id last ≡ ok fs
      → (es : List LoggedEvent) × (e : LoggedEvent) × (ds : List LoggedEvent) × (e.kind ≡ n.kind)
        × (fs ≡ (es ++ e ∷ []) ++ ds)
  unfolding read_events
  read-append_event requests n rows next last fs h l k =
      let a = append-row hash requests n rows next h in
      let e = chained hash n (last_hash hash (rows_of n.request_id rows)) in
      let b : rows_of n.request_id next ≡ rows_of n.request_id rows ++ row_of hash e ∷ [] =
        ap (rows_of n.request_id) a
        ∙ (rows_of-append_one hash n.request_id rows (row_of hash e)
            ∙ rw (eq_refl n.request_id) refl) in
      let (more, c) = rows-Later n.request_id next last l in
      let load = load_events hash (rows_of n.request_id last) in
      let check = λ (l : List LoggedEvent). check_chain hash none l >> ok l in
      let (u, h0, h1) = bind-ok (safe_id n.request_id) (λ t. load >>= check) fs k in
      let (loaded, h2, h3) = bind-ok load check fs h1 in
      let (v, h4, h5) = bind-ok (check_chain hash none loaded) (λ t. ok loaded) fs h3 in
      let f = ok-injective loaded fs h5 in
      let (first, ds, h6, g) = load-append (rows_of n.request_id next) more loaded (rw (← c) h2) in
      let (es, g') = load-append_one (rows_of n.request_id rows) e first (rw (← b) h6) in
      (es, e, ds, refl, sym f ∙ (g ∙ ap (λ x. x ++ ds) g'))

  -- What is projected of it.
  projected-append_one :
      (es : List LoggedEvent) (e : LoggedEvent)
      → projected_events hash (es ++ e ∷ [])
        ≡ projected_events hash es ++ record { kind = e.kind; hash = hash e } ∷ []
  unfolding projected_events
  projected-append_one es e = map-append_one (λ e. record { kind = e.kind; hash = hash e }) es e

  projected-append :
      (es ds : List LoggedEvent)
      → projected_events hash (es ++ ds) ≡ projected_events hash es ++ projected_events hash ds
  unfolding projected_events
  projected-append [] ds = refl
  projected-append (e ∷ es) ds =
      ap (λ l. record { kind = e.kind; hash = hash e } ∷ l) (projected-append es ds)

module _ (service : Service) where
  projection-reads :
      (request_id : String) (h : Governance) (p : Projection)
      → projection service request_id h ≡ ok p
      → (fs : List LoggedEvent) × (read_events service.hash request_id h.events ≡ ok fs)
        × (project_request request_id (projected_events service.hash fs) ≡ ok p)
  unfolding projection
  projection-reads request_id h p q = elim (Result-cases (read_request request_id h)) [
    | inr (e, a) ↦ ground (arith, q, a)
    | inl (r, a) ↦ elim (Result-cases (read_events service.hash request_id h.events)) [
      | inr (e, b) ↦ ground (arith, q, a, b)
      | inl (fs, b) ↦
          elim (Result-cases (project_request request_id (projected_events service.hash fs))) [
            | inr (e, d) ↦ ground (arith, q, a, b, d)
            | inl (p', d) ↦ (fs, b, d ∙ ground (arith, q, a, b, d))
          ]
    ]
  ]

  -- After the event that closes it is logged, and whatever is logged later, a request is closed if it
  -- can be projected.
  logged-closed :
      (request_id actor outcome : String) (payload : List (String × Value)) (g h k : Governance)
      (p : Projection)
      → log service request_id (request_closed outcome) actor payload g ≡ ok h
      → Later service.hash h.events k.events
      → projection service request_id k ≡ ok p
      → p.state ≡ closed
  unfolding log projection phase_of
  logged-closed request_id actor outcome payload g h k p l t q =
      let n = new_event service request_id (request_closed outcome) actor payload g in
      let requests = map (λ (r : OperatorRequest). r.request_id) g.requests in
      let (rows, e, e') =
        bind-ok (append_event service.hash requests n g.events)
          (λ rows. ok (record g { events = rows })) h l in
      let same =
        ap (λ (y : Governance). y.events) (ok-injective (record g { events = rows }) h e') in
      let e2 : append_event service.hash requests n g.events ≡ ok h.events = e ∙ ap ok same in
      let (fs, u, w) = projection-reads request_id k p q in
      let (es, e1, ds, m, f) =
        read-append_event service.hash requests n g.events h.events k.events fs e2 t u in
      let last : OperatorEvent = record { kind = e1.kind; hash = service.hash e1 } in
      let events = projected_events service.hash es ++ last ∷ [] in
      let later = projected_events service.hash ds in
      let a : projected_events service.hash fs ≡ events ++ later =
        ap (projected_events service.hash) f
        ∙ (projected-append service.hash (es ++ e1 ∷ []) ds
            ∙ ap (λ x. x ++ later) (projected-append_one service.hash es e1)) in
      let b : finishes none (phases events) ≡ some closed =
        finishes-append_one none (projected_events service.hash es) last closed
          (ap phase_of m ∙ refl) in
      closed-append request_id events later p b (rw (← a) w)

  pub close-logs :
      (request_id outcome actor : String) (g h : Governance)
      → close service request_id outcome actor g ≡ ok h
      → log service request_id (request_closed outcome) actor (("outcome", text outcome) ∷ []) g
        ≡ ok h
  unfolding close
  close-logs request_id outcome actor g h c =
      elim (Result-cases (projection service request_id g)) [
        | inr (e, q) ↦ ground (arith, c, q)
        | inl (p, q) ↦
            elim (Result-cases (require_phase p.state (requested ∷ active ∷ verified ∷ []))) [
              | inr (e, u) ↦ ground (arith, c, q, u)
              | inl (t, u) ↦
                  elim (Result-cases
                    (require_no_active_run p.active_writer_run_id p.active_check_run_id)) [
                      | inr (e, w) ↦ ground (arith, c, q, u, w)
                      | inl (t', w) ↦ ground (arith, c, q, u, w)
                    ]
            ]
      ]

  -- Once a request is closed, at any later tables, whatever events of whichever requests were appended
  -- by then and however the other tables changed, `request_scope_change`, `reopen` and `close` raise
  -- for it, whoever calls them, and the first of them, which writes in several steps, leaves the tables
  -- as they are.
  pub closed-refuses :
      (request_id outcome actor other_outcome reason reopener closer : String) (x : ScopeChange)
      (g h k : Governance)
      → close service request_id outcome actor g ≡ ok h
      → Later service.hash h.events k.events
      → ((e : Error) × (request_scope_change service request_id x k ≡ (k, raise e)))
        × ((e : Error) × (reopen service request_id reason reopener k ≡ raise e))
        × ((e : Error) × (close service request_id other_outcome closer k ≡ raise e))
  unfolding close reopen request_scope_change begin_change prepare_change require_phase
  closed-refuses request_id outcome actor other_outcome reason reopener closer x g h k c l =
      elim (Result-cases (projection service request_id k)) [
        | inr (e, q) ↦ ((e, rw q refl), (e, rw q refl), (e, rw q refl))
        | inl (p, q) ↦
            let s =
              logged-closed request_id actor outcome (("outcome", text outcome) ∷ []) g h k p
                (close-logs request_id outcome actor g h c) l q in
            (
              (wrong_phase, rw (q, s) refl),
              (wrong_phase, rw (q, s) refl),
              (wrong_phase, rw (q, s) refl),
            )
      ]
