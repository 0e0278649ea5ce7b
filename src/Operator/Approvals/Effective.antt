-- ===== src/Operator/Approvals/Effective.antt =====
-- Which approvals are in effect, and what one that matches binds.
use autobugfix_loop.Prelude.{
  ◌≡◌, ◌↔◌, refl, subst, ◌∙◌, Bool, true, false, ◌&&◌, none, some, List, [], ◌∷◌, arith, find?,
  sort_by, All, ok, inl, inr, Bool-cases, Option-cases, Result-cases, if◌then◌else◌,
}
use autobugfix_loop.Operator.Records.Request.{OperatorRequest, OperatorApproval, is_approve}
use autobugfix_loop.Operator.Store.{Env, is_expired}
use autobugfix_loop.Operator.Approvals.{
  Trust, Demand, approval_le, same_key, set_all, is_approved, in_effect, keep_effective,
  effective_approvals, external_error, externally_valid, binds, approval_matches, any_matches,
}
use autobugfix_loop.Operator.Approvals.Latest.{
  latest_for, find-set_all, found-All, latest-All, IsDistinct-set_all, or_else-none,
}

abbrev pub IsEffective : Env → List OperatorApproval → OperatorApproval → Type 0
IsEffective env approvals a =
    (latest_for a approvals ≡ some a)
    × (is_approve a.decision ≡ true)
    × (is_expired env a.expires_at ≡ ok false)

All-find :
    (P : OperatorApproval → Type 0) (p : OperatorApproval → Bool) (l : List OperatorApproval)
    (a : OperatorApproval)
    → All P l
    → find? p l ≡ some a
    → P a
All-find P p [] a all f = ground arith
All-find P p (b ∷ l) a all f = elim (Bool-cases (p b)) [
  | inl t ↦ let e : b ≡ a = ground (arith, f, t) in rw (← e) all.0
  | inr t ↦ All-find P p l a all.1 (ground (arith, f, t))
]

module _ (env : Env) where
  in_effect-ok :
      (a : OperatorApproval)
      → in_effect env a ≡ ok true
      → (is_approve a.decision ≡ true) × (is_expired env a.expires_at ≡ ok false)
  unfolding in_effect is_approved
  in_effect-ok a h = ground arith

  in_effect-true :
      (a : OperatorApproval)
      → is_approve a.decision ≡ true
      → is_expired env a.expires_at ≡ ok false
      → in_effect env a ≡ ok true
  unfolding in_effect is_approved
  in_effect-true a h e = rw (h, e) refl

  keep-cons :
      (a : OperatorApproval) (l es : List OperatorApproval)
      → keep_effective env (a ∷ l) ≡ ok es
      → (k : Bool) × (rest : List OperatorApproval) × (in_effect env a ≡ ok k)
        × (keep_effective env l ≡ ok rest)
        × (es ≡ (if k then a ∷ rest else rest))
  unfolding keep_effective
  keep-cons a l es h = elim (Result-cases (in_effect env a)) [
    | inl k ↦ elim (Result-cases (keep_effective env l)) [
      | inl r ↦ (k.0, r.0, k.1, r.1, ground (arith, h, k.1, r.1))
      | inr e ↦ ground (arith, h, k.1, e.1)
    ]
    | inr e ↦ ground (arith, h, e.1)
  ]

  keep-All :
      (approvals l es : List OperatorApproval)
      → keep_effective env l ≡ ok es
      → All (λ b. latest_for b approvals ≡ some b) l
      → All (IsEffective env approvals) es
  unfolding keep_effective
  keep-All approvals [] es h all = let e : es ≡ [] = ground arith in rw e tt
  keep-All approvals (a ∷ l) es h all =
      let w = keep-cons a l es h in
      let rest = keep-All approvals l w.1 w.3 all.1 in
      elim (Bool-cases w.0) [
        | inl t ↦
            let i = in_effect-ok a (rw (← t) w.2) in
            let e : es ≡ a ∷ w.1 = ground (arith, t, w.4) in rw e ((all.0, i.0, i.1), rest)
        | inr t ↦ let e : es ≡ w.1 = ground (arith, t, w.4) in rw e rest
      ]

  keep-find :
      (k a : OperatorApproval) (l es : List OperatorApproval)
      → keep_effective env l ≡ ok es
      → in_effect env a ≡ ok true
      → find? (same_key k) l ≡ some a
      → find? (same_key k) es ≡ some a
  unfolding keep_effective
  keep-find k a [] es h i f = ground arith
  keep-find k a (b ∷ l) es h i f =
      let w = keep-cons b l es h in
      elim (Bool-cases (same_key k b)) [
        | inl t ↦
            let e : b ≡ a = ground (arith, f, t) in
            let g : in_effect env b ≡ ok true = rw e i in
            let n : w.0 ≡ true = ground (arith, g, w.2) in rw w.4 (ground (arith, f, t, n))
        | inr t ↦
            let n = keep-find k a l w.1 w.3 i (ground (arith, f, t)) in
            elim (Bool-cases w.0) [
              | inl q ↦ rw w.4 (ground (arith, n, t, q))
              | inr q ↦ rw w.4 (ground (arith, n, q))
            ]
      ]

  -- `effective_approvals` returns, where no time stamp is malformed, approvals that are the last of
  -- their approver at their stage, say approve, and have not expired.
  pub IsEffective-All :
      (approvals es : List OperatorApproval)
      → effective_approvals env approvals ≡ ok es
      → All (IsEffective env approvals) es
  unfolding effective_approvals
  IsEffective-All approvals es h =
      let l = set_all [] (sort_by approval_le approvals) in
      keep-All approvals l es h (
        latest-All approvals l refl l
          (found-All l (IsDistinct-set_all [] (sort_by approval_le approvals) tt)))

  -- Where `effective_approvals` returns, an approval is the returned one of its approver and stage
  -- exactly when it is, of all those given, the last of that approver at that stage in the order of
  -- creation, says approve, and has not expired.
  pub IsEffective-iff_latest :
      (approvals es : List OperatorApproval) (a : OperatorApproval)
      → effective_approvals env approvals ≡ ok es
      → (find? (same_key a) es ≡ some a) ↔ IsEffective env approvals a
  unfolding effective_approvals
  IsEffective-iff_latest approvals es a h = (
    λ f. All-find (IsEffective env approvals) (same_key a) es a (IsEffective-All approvals es h) f,
    λ i.
        keep-find a a (set_all [] (sort_by approval_le approvals)) es h (in_effect-true a i.1 i.2)
          (find-set_all a [] (sort_by approval_le approvals) ∙ (or_else-none _ ∙ i.0)),
  )

-- What a matching approval is: in effect, externally verified where its kind asks for it, and bound to
-- what is demanded.
abbrev pub IsBacked :
    Env → Trust → List OperatorApproval → OperatorRequest → Demand → OperatorApproval → Type 0
IsBacked env trust approvals r d a =
    IsEffective env approvals a × (external_error trust a ≡ none) × (binds trust a r d ≡ true)

module _ (env : Env) (trust : Trust) where
  abbrev IsVerified : List OperatorApproval → OperatorApproval → Type 0
  IsVerified approvals a = IsEffective env approvals a × (external_error trust a ≡ none)

  externally_valid-All :
      (approvals l : List OperatorApproval)
      → All (IsEffective env approvals) l
      → All (IsVerified approvals) (externally_valid trust l)
  unfolding externally_valid
  externally_valid-All approvals [] all = tt
  externally_valid-All approvals (a ∷ l) all = elim (Option-cases (external_error trust a)) [
    | inl n ↦
        let e : a ∷ externally_valid trust l ≡ externally_valid trust (a ∷ l) = ground (arith, n) in
        subst (λ m. All (IsVerified approvals) m) e
          ((all.0, n), externally_valid-All approvals l all.1)
    | inr m ↦
        let e : externally_valid trust l ≡ externally_valid trust (a ∷ l) = ground (arith, m.1) in
        subst (λ m. All (IsVerified approvals) m) e (externally_valid-All approvals l all.1)
  ]

  matches-found :
      (approvals l : List OperatorApproval) (r : OperatorRequest) (d : Demand)
      → All (IsVerified approvals) l
      → any_matches trust env l r d ≡ ok true
      → (a : OperatorApproval) × IsBacked env trust approvals r d a
  unfolding any_matches approval_matches
  matches-found approvals [] r d all h = ground arith
  matches-found approvals (a ∷ l) r d all h = elim (Result-cases (is_approved env a)) [
    | inl (b, q) ↦ elim (Bool-cases (b && binds trust a r d)) [
      | inl t ↦ (a, (all.0.0, all.0.1, ground arith))
      | inr t ↦ matches-found approvals l r d all.1 (ground (arith, h, q, t))
    ]
    | inr (e, q) ↦ ground (arith, h, q)
  ]

  pub matches-IsBacked :
      (approvals es : List OperatorApproval) (r : OperatorRequest) (d : Demand)
      → effective_approvals env approvals ≡ ok es
      → any_matches trust env (externally_valid trust es) r d ≡ ok true
      → (a : OperatorApproval) × IsBacked env trust approvals r d a
  matches-IsBacked approvals es r d h m =
      matches-found approvals (externally_valid trust es) r d
        (externally_valid-All approvals es (IsEffective-All env approvals es h)) m
