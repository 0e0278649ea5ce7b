-- ===== src/Operator/Scope/Blocked.antt =====
-- A request is blocked while a revision stands at the version that its next scope change takes.
use autobugfix_loop.Prelude.{
  ℕ, ◌+◌, ◌≡◌, refl, sym, ap, ◌∙◌, String, Bool, true, false, ◌&&◌, ◌||◌, List, [], ◌∷◌, arith, any,
  insert_by, nat_eq, ◌==◌, eq_refl, is_safe_id, Result, ok, raise, ◌>>=◌, bind-ok, ok-injective,
  inl, inr, Bool-cases,
}
use autobugfix_loop.Operator.Records.Request.{OperatorRequest, ScopeRevision}
use autobugfix_loop.Operator.Store.{Error, already_exists, unsafe_id}
use autobugfix_loop.Operator.Guard.{ScopeAuthority}
use autobugfix_loop.Operator.Projection.{Phase, other}
use autobugfix_loop.Operator.Scope.{
  proposal_payload, Governance, Service, ScopeChange, new_revision, current_request, prepare_change,
  write_scope_revision, authority_for, settle_change, decide_change, end_change, write_change,
  begin_change, request_scope_change, read_request, revisions_of,
}
use autobugfix_loop.Operator.Scope.Kept.{
  le_version, is_taken, write-row, log-reads, prepared-new, is_granted, request_scope_change-keeps,
}

-- A revision of the request stands at the version.
abbrev Stands : String → ℕ → Governance → Type 0
Stands request_id version g =
    any (λ t. t.request_id == request_id && nat_eq t.version version) g.revisions ≡ true

or_second : (a b : Bool) → b ≡ true → (a || b) ≡ true
or_second true b h = refl
or_second false b h = h

any-insert_by :
    (p : ScopeRevision → Bool) (le : ScopeRevision → ScopeRevision → Bool) (s : ScopeRevision)
    (l : List ScopeRevision)
    → p s ≡ true
    → any p (insert_by le s l) ≡ true
unfolding insert_by
any-insert_by p le s [] h = rw h refl
any-insert_by p le s (y ∷ ys) h = elim (Bool-cases (le s y)) [
  | inl t ↦ ground (arith, h, t)
  | inr t ↦ ground (arith, t, any-insert_by p le s ys h)
]

module _ (service : Service) where
  ended-Stands :
      (request_id : String) (version : ℕ) (x : ScopeChange) (phase : Phase) (r : OperatorRequest)
      (s : ScopeRevision) (g : Governance) (a : ScopeAuthority)
      (o : Result Error (ScopeAuthority × Governance))
      → decide_change service request_id x phase r s g ≡ o
      → (end_change service g o).1 ≡ ok a
      → a.allowed ≡ false
      → Stands request_id version g
      → Stands request_id version (end_change service g o).0
  unfolding end_change decide_change settle_change
  ended-Stands request_id version x phase r s g a (raise e) h k n v = v
  ended-Stands request_id version x phase r s g a (ok (b, settled)) h k n v =
      let same = ok-injective b a k in
      let (b', e1, h1) =
        bind-ok (authority_for service request_id r s g)
          (λ c. settle_change service request_id x phase s c g >>= λ t. ok (c, t)) (b, settled) h in
      let (t, e2, h2) =
        bind-ok (settle_change service request_id x phase s b' g) (λ t. ok (b', t)) (b, settled)
          h1 in
      let e = ok-injective (b', t) (b, settled) h2 in
      let e3 : b'.allowed ≡ false =
        ap (λ (y : ScopeAuthority × Governance). y.0.allowed) e
        ∙ (ap (λ (y : ScopeAuthority). y.allowed) same ∙ n) in
      let l =
        log-reads service request_id x.actor (other "scope_revision_proposed")
          (proposal_payload service s b') g t (ground (arith, e2, e3)) in
      let f : settled.revisions ≡ g.revisions =
        ap (λ (y : ScopeAuthority × Governance). y.1.revisions) (sym e) ∙ l.1 in
      rw f v

  written-Stands :
      (request_id : String) (c : OperatorRequest × ℕ) (x : ScopeChange) (phase : Phase)
      (r : OperatorRequest) (s : ScopeRevision) (g : Governance) (a : ScopeAuthority)
      (o : Result Error Governance)
      → new_revision request_id x c ≡ s
      → write_scope_revision s g ≡ o
      → (write_change service request_id x phase r s g o).1 ≡ ok a
      → a.allowed ≡ false
      → Stands request_id (c.1 + 1) (write_change service request_id x phase r s g o).0
  unfolding write_change new_revision
  written-Stands request_id c x phase r s g a (raise e) f w k n = ground (arith, k)
  written-Stands request_id c x phase r s g a (ok h) f w k n =
      let p = λ (t : ScopeRevision). t.request_id == request_id && nat_eq t.version (c.1 + 1) in
      let q : p s ≡ true = rw (← f) (rw (eq_refl request_id) (ground arith)) in
      let v : Stands request_id (c.1 + 1) h =
        ap (λ (y : Governance). any p y.revisions) (sym (write-row s g h w))
        ∙ any-insert_by p le_version s g.revisions q in
      ended-Stands request_id (c.1 + 1) x phase r s h a
        (decide_change service request_id x phase r s h) refl k n v

  begun-Stands :
      (request_id : String) (x : ScopeChange) (g : Governance) (a : ScopeAuthority)
      (o : Result Error (Phase × OperatorRequest × ScopeRevision))
      → prepare_change service request_id x g ≡ o
      → (begin_change service request_id x g o).1 ≡ ok a
      → a.allowed ≡ false
      → (c : OperatorRequest × ℕ) × (current_request service request_id g ≡ ok c)
        × Stands request_id (c.1 + 1) (begin_change service request_id x g o).0
  unfolding begin_change
  begun-Stands request_id x g a (raise e) q k n = ground (arith, k)
  begun-Stands request_id x g a (ok (phase, r, s)) q k n =
      let (c, e, f) = prepared-new service request_id x g (phase, r, s) q in
      (c, e, written-Stands request_id c x phase r s g a (write_scope_revision s g) f refl k n)

  taken-blocks :
      (s : ScopeRevision) (g : Governance)
      → Stands s.request_id s.version g
      → (e : Error) × (write_scope_revision s g ≡ raise e)
  unfolding write_scope_revision
  taken-blocks s g v = elim (Bool-cases (is_safe_id s.revision_id)) [
    | inl t ↦
        let u : is_taken s g ≡ true =
          or_second (any (λ t. t.revision_id == s.revision_id) g.revisions) _ v in
        (already_exists, rw (t, u) refl)
    | inr t ↦ (unsafe_id, rw t refl)
  ]

  begun-blocks :
      (request_id : String) (y : ScopeChange) (g : Governance) (c : OperatorRequest × ℕ)
      (o : Result Error (Phase × OperatorRequest × ScopeRevision))
      → prepare_change service request_id y g ≡ o
      → current_request service request_id g ≡ ok c
      → Stands request_id (c.1 + 1) g
      → (e : Error) × (begin_change service request_id y g o ≡ (g, raise e))
  unfolding begin_change write_change new_revision
  begun-blocks request_id y g c (raise e) q h v = (e, refl)
  begun-blocks request_id y g c (ok (phase, r, s)) q h v =
      let (d, e, f) = prepared-new service request_id y g (phase, r, s) q in
      let same : d ≡ c = ok-injective d c (sym e ∙ h) in
      let v' : Stands s.request_id s.version g = rw (← f) (rw same v) in
      let (x, w) = taken-blocks s g v' in (x, rw w refl)

  -- The version after the scope in effect stands.
  abbrev pub IsBlocked : String → Governance → Type 0
  IsBlocked request_id g =
      (c : OperatorRequest × ℕ) × (current_request service request_id g ≡ ok c)
      × Stands request_id (c.1 + 1) g

  pub refused-IsBlocked :
      (request_id : String) (x : ScopeChange) (g : Governance) (a : ScopeAuthority)
      → (request_scope_change service request_id x g).1 ≡ ok a
      → a.allowed ≡ false
      → IsBlocked request_id (request_scope_change service request_id x g).0
  unfolding request_scope_change
  refused-IsBlocked request_id x g a k n =
      let (c, e, v) =
        begun-Stands request_id x g a (prepare_change service request_id x g) refl k n in
      let kept =
        request_scope_change-keeps service request_id request_id x g
          (ap (is_granted service) k ∙ n) in
      (c, kept ∙ e, v)

  pub IsBlocked-raises :
      (request_id : String) (y : ScopeChange) (g : Governance)
      → IsBlocked request_id g
      → (e : Error) × (request_scope_change service request_id y g ≡ (g, raise e))
  unfolding request_scope_change
  IsBlocked-raises request_id y g (c, e, v) =
      begun-blocks request_id y g c (prepare_change service request_id y g) refl e v

  -- Nothing but the requests and the revisions decides.
  pub IsBlocked-reads :
      (request_id : String) (g h : Governance)
      → h.requests ≡ g.requests
      → h.revisions ≡ g.revisions
      → IsBlocked request_id g
      → IsBlocked request_id h
  unfolding current_request read_request revisions_of
  IsBlocked-reads request_id g h e f (c, k, v) = (c, rw (e, f) k, rw f v)
