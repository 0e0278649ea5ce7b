-- ===== src/Operator/Scope/Kept.antt =====
-- The scope in effect changes with authority alone, and a change without it blocks the next ones.
use autobugfix_loop.Prelude.{
  ℕ, ◌≡◌, refl, sym, ap, ◌∙◌, String, Bool, false, ◌&&◌, ◌||◌, List, [], ◌∷◌, arith, any, filter,
  insert_by, map, leb, nat_eq, ◌==◌, is_safe_id, Result, ok, raise, ◌>>=◌, bind-ok, ok-injective,
  inl, inr, Bool-cases, Result-cases,
}
use autobugfix_loop.Operator.Records.Request.{OperatorRequest, ScopeRevision}
use autobugfix_loop.Operator.Store.{Error}
use autobugfix_loop.Operator.Guard.{
  require_phase, ScopeAuthority, effective_request, is_approved_status,
}
use autobugfix_loop.Operator.Projection.{other, verified, active, requested, Phase, EventKind}
use autobugfix_loop.Operator.Scope.{
  authority_for, begin_change, write_change, end_change, settle_change, check_change, projection,
  Value, new_event, proposal_payload, new_revision, append_event, Governance, Service, ScopeChange,
  read_request, revisions_of, current_request, prepare_change, write_scope_revision, decide_change,
  request_scope_change, log,
}

-- Two tests in a row do not see an element that the second one refuses.
filter-insert_by :
    (p q : ScopeRevision → Bool) (le : ScopeRevision → ScopeRevision → Bool) (s : ScopeRevision)
    (l : List ScopeRevision)
    → q s ≡ false
    → filter q (filter p (insert_by le s l)) ≡ filter q (filter p l)
unfolding insert_by
filter-insert_by p q le s [] h = elim (Bool-cases (p s)) [
  | inl t ↦ ground (arith, h, t)
  | inr t ↦ ground (arith, t)
]
filter-insert_by p q le s (y ∷ ys) h = elim (Bool-cases (le s y)) [
  | inl t ↦ elim (Bool-cases (p s)) [
    | inl u ↦ ground (arith, h, t, u)
    | inr u ↦ ground (arith, t, u)
  ]
  | inr t ↦ elim (Bool-cases (p y)) [
    | inl u ↦ ground (arith, t, u, filter-insert_by p q le s ys h)
    | inr u ↦ ground (arith, t, u, filter-insert_by p q le s ys h)
  ]
]

-- What `_effective_request` reads.
abbrev approved_of : String → Governance → List ScopeRevision
approved_of request_id g = filter (λ s. is_approved_status s.status) (revisions_of request_id g)

abbrev pub le_version : ScopeRevision → ScopeRevision → Bool
le_version t u = leb t.version u.version

-- A version of a request that stands already, or an identifier.
abbrev pub is_taken : ScopeRevision → Governance → Bool
is_taken s g =
    any (λ t. t.revision_id == s.revision_id) g.revisions
    || any (λ t. t.request_id == s.request_id && nat_eq t.version s.version) g.revisions

pub write-row :
    (s : ScopeRevision) (g h : Governance)
    → write_scope_revision s g ≡ ok h
    → record g { revisions = insert_by le_version s g.revisions } ≡ h
unfolding write_scope_revision
write-row s g h w =
    let more = record g { revisions = insert_by le_version s g.revisions } in
    elim (Bool-cases (is_safe_id s.revision_id)) [
      | inr t ↦ ground (arith, w, t)
      | inl t ↦ elim (Bool-cases (is_taken s g)) [
        | inl u ↦ ground (arith, w, t, u)
        | inr u ↦
            let e : write_scope_revision s g ≡ ok more = rw (t, u) refl in
            ok-injective more h (sym e ∙ w)
      ]
    ]

module _ (service : Service) where
  current_request-reads :
      (request_id : String) (g h : Governance)
      → h.requests ≡ g.requests
      → approved_of request_id h ≡ approved_of request_id g
      → current_request service request_id h ≡ current_request service request_id g
  unfolding current_request read_request effective_request
  current_request-reads request_id g h e f = rw (e, f) refl

  written-reads :
      (s : ScopeRevision) (g h : Governance)
      → is_approved_status s.status ≡ false
      → write_scope_revision s g ≡ ok h
      → (h.requests ≡ g.requests)
        × ((request_id : String) → approved_of request_id h ≡ approved_of request_id g)
  unfolding revisions_of
  written-reads s g h n w =
      let e = write-row s g h w in
      (
        ap (λ (x : Governance). x.requests) (sym e),
        λ request_id.
            ap (approved_of request_id) (sym e)
            ∙ filter-insert_by (λ t. t.request_id == request_id) (λ t. is_approved_status t.status)
                le_version s g.revisions n,
      )

  pub log-reads :
      (request_id actor : String) (kind : EventKind) (payload : List (String × Value))
      (g h : Governance)
      → log service request_id kind actor payload g ≡ ok h
      → (h.requests ≡ g.requests) × (h.revisions ≡ g.revisions)
  unfolding log
  log-reads request_id actor kind payload g h w =
      let n = new_event service request_id kind actor payload g in
      let (rows, e, f) =
        bind-ok (append_event service.hash (map (λ r. r.request_id) g.requests) n g.events)
          (λ rows. ok (record g { events = rows })) h w in
      let k = ok-injective (record g { events = rows }) h f in
      (ap (λ (x : Governance). x.requests) (sym k), ap (λ (x : Governance). x.revisions) (sym k))

  -- The revision that is prepared is the one over the scope in effect.
  pub prepared-new :
      (request_id : String) (x : ScopeChange) (g : Governance)
      (p : Phase × OperatorRequest × ScopeRevision)
      → prepare_change service request_id x g ≡ ok p
      → (c : OperatorRequest × ℕ) × (current_request service request_id g ≡ ok c)
        × (new_revision request_id x c ≡ p.2)
  unfolding prepare_change
  prepared-new request_id x g p h = elim (Result-cases (projection service request_id g)) [
    | inr (e, q) ↦ ground (arith, h, q)
    | inl (y, q) ↦
        elim (Result-cases (require_phase y.state (requested ∷ active ∷ verified ∷ []))) [
          | inr (e, u) ↦ ground (arith, h, q, u)
          | inl (u, v) ↦ elim (Result-cases (current_request service request_id g)) [
            | inr (e, w) ↦ ground (arith, h, q, v, w)
            | inl (c, w) ↦ elim (Result-cases (check_change service x)) [
              | inr (e, k) ↦ ground (arith, h, q, v, w, k)
              | inl (k, l) ↦
                  let z : Phase × OperatorRequest × ScopeRevision =
                    (y.state, c.0, new_revision request_id x c) in
                  let e : prepare_change service request_id x g ≡ ok z = rw (q, v, w, l) refl in
                  (
                    c,
                    w,
                    ap (λ (t : Phase × OperatorRequest × ScopeRevision). t.2)
                        (ok-injective z p (sym e ∙ h)),
                  )
            ]
          ]
        ]
  ]

  -- What `_effective_request` of any request reads is the same.
  abbrev SameScope : Governance → Governance → Type 0
  SameScope g h = (h.requests ≡ g.requests) × ((r : String) → approved_of r h ≡ approved_of r g)

  -- The call returns an authority that allows the change.
  abbrev pub is_granted : Result Error ScopeAuthority → Bool
  is_granted (ok a) = a.allowed
  is_granted (raise e) = false

  settled-SameScope :
      (request_id : String) (x : ScopeChange) (phase : Phase) (s : ScopeRevision)
      (a : ScopeAuthority) (g h : Governance)
      → settle_change service request_id x phase s a g ≡ ok h
      → a.allowed ≡ false
      → SameScope g h
  unfolding settle_change revisions_of
  settled-SameScope request_id x phase s a g h e n =
      let k =
        log-reads request_id x.actor (other "scope_revision_proposed")
          (proposal_payload service s a) g h (ground (arith, e, n)) in
      (k.0, λ r. rw k.1 refl)

  ended-SameScope :
      (request_id : String) (x : ScopeChange) (phase : Phase) (r : OperatorRequest)
      (s : ScopeRevision) (g : Governance) (o : Result Error (ScopeAuthority × Governance))
      → decide_change service request_id x phase r s g ≡ o
      → is_granted (end_change service g o).1 ≡ false
      → SameScope g (end_change service g o).0
  unfolding end_change decide_change
  ended-SameScope request_id x phase r s g (raise e) h n = (refl, λ r. refl)
  ended-SameScope request_id x phase r s g (ok (a, settled)) h n =
      let (b, e1, h1) =
        bind-ok (authority_for service request_id r s g)
          (λ b. settle_change service request_id x phase s b g >>= λ t. ok (b, t)) (a, settled) h in
      let (t, e2, h2) =
        bind-ok (settle_change service request_id x phase s b g) (λ t. ok (b, t)) (a, settled) h1 in
      let e = ok-injective (b, t) (a, settled) h2 in
      let e3 = ap (λ (y : ScopeAuthority × Governance). y.0) e in
      let e4 = ap (λ (y : ScopeAuthority × Governance). y.1) e in
      settled-SameScope request_id x phase s a g settled (rw (← e3, ← e4) e2) n

  SameScope-trans : (g h k : Governance) → SameScope g h → SameScope h k → SameScope g k
  SameScope-trans g h k p q = (q.0 ∙ p.0, λ r. q.1 r ∙ p.1 r)

  written-SameScope :
      (request_id : String) (x : ScopeChange) (phase : Phase) (r : OperatorRequest)
      (s : ScopeRevision) (g : Governance) (o : Result Error Governance)
      → is_approved_status s.status ≡ false
      → write_scope_revision s g ≡ o
      → is_granted (write_change service request_id x phase r s g o).1 ≡ false
      → SameScope g (write_change service request_id x phase r s g o).0
  unfolding write_change
  written-SameScope request_id x phase r s g (raise e) p w n = (refl, λ r. refl)
  written-SameScope request_id x phase r s g (ok h) p w n =
      SameScope-trans g h _ (written-reads s g h p w) (
        ended-SameScope request_id x phase r s h (decide_change service request_id x phase r s h)
          refl n)

  begun-SameScope :
      (request_id : String) (x : ScopeChange) (g : Governance)
      (o : Result Error (Phase × OperatorRequest × ScopeRevision))
      → prepare_change service request_id x g ≡ o
      → is_granted (begin_change service request_id x g o).1 ≡ false
      → SameScope g (begin_change service request_id x g o).0
  unfolding begin_change new_revision
  begun-SameScope request_id x g (raise e) q n = (refl, λ r. refl)
  begun-SameScope request_id x g (ok (phase, r, s)) q n =
      let fresh = prepared-new request_id x g (phase, r, s) q in
      let p : is_approved_status s.status ≡ false =
        ap (λ (t : ScopeRevision). is_approved_status t.status) (sym fresh.2) in
      written-SameScope request_id x phase r s g (write_scope_revision s g) p refl n

  -- A scope change that is not authorized, whether it raises or returns, leaves the scope in effect of
  -- every request as it was.
  pub request_scope_change-keeps :
      (request_id other_id : String) (x : ScopeChange) (g : Governance)
      → is_granted (request_scope_change service request_id x g).1 ≡ false
      → current_request service other_id (request_scope_change service request_id x g).0
        ≡ current_request service other_id g
  unfolding request_scope_change
  request_scope_change-keeps request_id other_id x g n =
      let k = begun-SameScope request_id x g (prepare_change service request_id x g) refl n in
      current_request-reads other_id g (request_scope_change service request_id x g).0 k.0
        (k.1 other_id)
