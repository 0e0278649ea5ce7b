-- ===== src/Operator/Scope/Refused.antt =====
-- What may follow a scope change without authority.
use autobugfix_loop.Prelude.{
  ◌≡◌, refl, ap, String, false, List, [], ◌∷◌, ◌++◌, arith, Result, ok, raise, inl, inr,
  Result-cases,
}
use autobugfix_loop.Operator.Records.Request.{OperatorApproval}
use autobugfix_loop.Operator.Store.{Error}
use autobugfix_loop.Operator.Guard.{ScopeAuthority, require_phase}
use autobugfix_loop.Operator.Projection.{request_closed, request_reopened, verified}
use autobugfix_loop.Operator.Scope.{
  text, Governance, Service, ScopeChange, projection, log, request_scope_change, reopen, close,
}
use autobugfix_loop.Operator.Scope.Kept.{log-reads}
use autobugfix_loop.Operator.Scope.Closed.{close-logs}
use autobugfix_loop.Operator.Scope.Blocked.{
  IsBlocked, refused-IsBlocked, IsBlocked-raises, IsBlocked-reads,
}

-- What may happen next, short of an activation: the calls for the request, and approvals of any
-- request that are stored.
pub data Call : Type 0 where
  changes : ScopeChange → Call
  reopens closes : String → String → Call
  is_approved : OperatorApproval → Call

-- What a call that may raise leaves.
abbrev after : Governance → Result Error Governance → Governance
after g (ok h) = h
after g (raise e) = g

module _ (service : Service) where
  abbrev pub perform : String → Call → Governance → Governance
  perform request_id (changes x) g = (request_scope_change service request_id x g).0
  perform request_id (reopens reason actor) g = after g (reopen service request_id reason actor g)
  perform request_id (closes outcome actor) g = after g (close service request_id outcome actor g)
  perform request_id (is_approved a) g = record g { approvals = g.approvals ++ a ∷ [] }

  abbrev pub perform_all : String → List Call → Governance → Governance
  perform_all request_id [] g = g
  perform_all request_id (call ∷ calls) g = perform_all request_id calls (perform request_id call g)

  reopen-logs :
      (request_id reason actor : String) (g h : Governance)
      → reopen service request_id reason actor g ≡ ok h
      → log service request_id (request_reopened reason) actor (("reason", text reason) ∷ []) g
        ≡ ok h
  unfolding reopen
  reopen-logs request_id reason actor g h c =
      elim (Result-cases (projection service request_id g)) [
        | inr (e, q) ↦ ground (arith, c, q)
        | inl (p, q) ↦ elim (Result-cases (require_phase p.state (verified ∷ []))) [
          | inr (e, u) ↦ ground (arith, c, q, u)
          | inl (t, u) ↦ ground (arith, c, q, u)
        ]
      ]

  perform-IsBlocked :
      (request_id : String) (call : Call) (g : Governance)
      → IsBlocked service request_id g
      → IsBlocked service request_id (perform request_id call g)
  perform-IsBlocked request_id (changes x) g b =
      let (e, h) = IsBlocked-raises service request_id x g b in
      IsBlocked-reads service request_id g (request_scope_change service request_id x g).0
        (ap (λ (r : Governance × Result Error ScopeAuthority). r.0.requests) h)
        (ap (λ (r : Governance × Result Error ScopeAuthority). r.0.revisions) h) b
  perform-IsBlocked request_id (reopens reason actor) g b =
      elim (Result-cases (reopen service request_id reason actor g)) [
        | inr (e, q) ↦ rw (q, perform) b
        | inl (h, q) ↦
            let l =
              log-reads service request_id actor (request_reopened reason)
                (("reason", text reason) ∷ []) g h (reopen-logs request_id reason actor g h q) in
            rw (q, perform) (IsBlocked-reads service request_id g h l.0 l.1 b)
      ]
  perform-IsBlocked request_id (closes outcome actor) g b =
      elim (Result-cases (close service request_id outcome actor g)) [
        | inr (e, q) ↦ rw (q, perform) b
        | inl (h, q) ↦
            let l =
              log-reads service request_id actor (request_closed outcome)
                (("outcome", text outcome) ∷ []) g h
                (close-logs service request_id outcome actor g h q) in
            rw (q, perform) (IsBlocked-reads service request_id g h l.0 l.1 b)
      ]
  perform-IsBlocked request_id (is_approved a) g b =
      IsBlocked-reads service request_id g (record g { approvals = g.approvals ++ a ∷ [] }) refl
        refl b

  perform_all-IsBlocked :
      (request_id : String) (calls : List Call) (g : Governance)
      → IsBlocked service request_id g
      → IsBlocked service request_id (perform_all request_id calls g)
  perform_all-IsBlocked request_id [] g b = b
  perform_all-IsBlocked request_id (call ∷ calls) g b =
      perform_all-IsBlocked request_id calls (perform request_id call g)
        (perform-IsBlocked request_id call g b)

  -- Once a scope change has been proposed without authority, and whatever further scope changes,
  -- reopens and closes of the request and new approvals of any request follow, but no activation of
  -- the proposal: the next scope change of the request raises and changes nothing.
  pub refused-blocks :
      (request_id : String) (x y : ScopeChange) (calls : List Call) (g : Governance)
      (a : ScopeAuthority)
      → (request_scope_change service request_id x g).1 ≡ ok a
      → a.allowed ≡ false
      → let h = perform_all request_id calls (request_scope_change service request_id x g).0 in
        (e : Error) × (request_scope_change service request_id y h ≡ (h, raise e))
  refused-blocks request_id x y calls g a k n =
      let h = perform_all request_id calls (request_scope_change service request_id x g).0 in
      IsBlocked-raises service request_id y h (
        perform_all-IsBlocked request_id calls (request_scope_change service request_id x g).0
          (refused-IsBlocked service request_id x g a k n))
