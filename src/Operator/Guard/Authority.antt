-- ===== src/Operator/Guard/Authority.antt =====
-- What authorizes a scope.
use autobugfix_loop.Prelude.{
  ℕ, ◌≡◌, refl, subst, ◌∙◌, ap, String, Bool, true, false, not, ◌||◌, List, [], ◌∷◌, ◌++◌, map,
  arith, any, ok, bind-ok, ok-injective, inl, inr, ◌⊎◌, Bool-cases, if◌then◌else◌,
}
use autobugfix_loop.Operator.Records.{mem}
use autobugfix_loop.Operator.Records.Request.{
  Risk, constitutional, OperatorRequest, OperatorApproval, scope,
}
use autobugfix_loop.Operator.Store.{Env}
use autobugfix_loop.Operator.Layers.{Constitution, layers_for_file}
use autobugfix_loop.Operator.Approvals.{
  Trust, effective_approvals, any_matches, externally_valid, unverified,
}
use autobugfix_loop.Operator.Approvals.Effective.{IsEffective, matches-IsBacked}
use autobugfix_loop.Operator.Policy.{
  permission_class, is_constitutional, is_empty, add, scope_demand,
}
use autobugfix_loop.Operator.Policy.Steps.{
  add-full, empty_left, empty_right, add-empty, add-full, add-true-full,
}
use autobugfix_loop.Operator.Policy.Allowed.{
  IsHumanApproval, IsBacked-human, max_risk-constitutional, mem-cons,
}
use autobugfix_loop.Operator.Guard.{
  ScopeScan, ScopeViolation, ScopeAuthority, invalid_external, needs_human, needs_reviewer,
  patterns_may_overlap, scan_path, scan_paths, scope_risk, has_scope, authority_of, no_paths,
  unclassified_path, compute_scope_risk, check_scope_authority,
}

abbrev pub touches : Constitution → String → Bool
touches c path = any (patterns_may_overlap path) c.protected_paths

-- A planned path that is classified keeps the scan protected, and sets it where it may overlap a
-- protected pattern; one that is not classified leaves a violation, which stays.
abbrev IsMarked : ScopeScan → Type 0
IsMarked s = (s.protected ≡ true) ⊎ (is_empty s.violations ≡ false)

or-true : (b : Bool) → (b || true) ≡ true
or-true true = refl
or-true false = refl

scan_path-IsMarked :
    (c : Constitution) (r : OperatorRequest) (path : String) (layers : List String) (s : ScopeScan)
    → (touches c path ≡ true) ⊎ IsMarked s
    → IsMarked (scan_path c r path layers s)
unfolding scan_path
scan_path-IsMarked c r path [] s o = inr (add-true-full (unclassified_path path) s.violations)
scan_path-IsMarked c r path (l ∷ ls) s (inl t) = inl (rw t refl)
scan_path-IsMarked c r path (l ∷ ls) s (inr (inl p)) = inl (rw p (or-true (touches c path)))
scan_path-IsMarked c r path (l ∷ ls) s (inr (inr n)) = inr (add-full _ _ s.violations n)

scan_paths-IsMarked :
    (c : Constitution) (r : OperatorRequest) (path : String) (paths : List String) (s t : ScopeScan)
    → touches c path ≡ true
    → scan_paths c r paths s ≡ ok t
    → (mem path paths ≡ true) ⊎ IsMarked s
    → IsMarked t
unfolding scan_paths
scan_paths-IsMarked c r path [] s t p h (inl m) = ground arith
scan_paths-IsMarked c r path [] s t p h (inr m) = rw (← ok-injective s t h) m
scan_paths-IsMarked c r path (q ∷ paths) s t p h o =
    let (layers, e, h1) =
      bind-ok (layers_for_file c q) (λ ls. scan_paths c r paths (scan_path c r q ls s)) t h in
    scan_paths-IsMarked c r path paths (scan_path c r q layers s) t p h1 (elim o [
      | inl m ↦ elim (mem-cons path q paths m) [
        | inl e' ↦
            let f : touches c q ≡ true = rw (← e') p in
            inr (scan_path-IsMarked c r q layers s (inl f))
        | inr n ↦ inl n
      ]
      | inr k ↦ inr (scan_path-IsMarked c r q layers s (inr k))
    ])

full_left : (xs ys : List ScopeViolation) → is_empty xs ≡ false → is_empty (xs ++ ys) ≡ false
full_left xs ys h = elim (Bool-cases (is_empty (xs ++ ys))) [
  | inl t ↦ ground (arith, h, empty_left xs ys t)
  | inr t ↦ t
]

scope_risk-marked :
    (r : OperatorRequest) (scan : ScopeScan)
    → IsMarked scan
    → ((scope_risk r scan).0 ≡ constitutional) ⊎ (is_empty (scope_risk r scan).1 ≡ false)
unfolding scope_risk
scope_risk-marked r scan (inl k) = inl (rw k (max_risk-constitutional r.requested_risk))
scope_risk-marked r scan (inr n) = inr (full_left scan.violations _ n)

risk-constitutional :
    (c : Constitution) (r : OperatorRequest) (path : String) (x : Risk × List ScopeViolation)
    → mem path r.planned_paths ≡ true
    → touches c path ≡ true
    → compute_scope_risk c r ≡ ok x
    → (x.0 ≡ constitutional) ⊎ (is_empty x.1 ≡ false)
unfolding compute_scope_risk
risk-constitutional c r path x m p h =
    let (scan, e, h1) =
      bind-ok (scan_paths c r r.planned_paths no_paths) (λ s. ok (scope_risk r s)) x h in
    rw (← ok-injective (scope_risk r scan) x h1) (
      scope_risk-marked r scan
        (scan_paths-IsMarked c r path r.planned_paths no_paths scan p e (inl m)))

abbrev violations_of :
    Trust → Risk × List ScopeViolation → List OperatorApproval → Bool → List ScopeViolation
violations_of trust computed eff found =
    computed.1
    ++ map invalid_external (unverified trust eff)
    ++ add (not found)
        (if is_constitutional (permission_class computed.0 []) then needs_human else needs_reviewer)
        []

authorized :
    (env : Env) (trust : Trust) (c : Constitution) (r : OperatorRequest)
    (approvals : List OperatorApproval) (version : ℕ) (s : ScopeAuthority)
    (eff : List OperatorApproval) (computed : Risk × List ScopeViolation) (found : Bool)
    → effective_approvals env approvals ≡ ok eff
    → has_scope env trust r (permission_class computed.0 []) version eff ≡ ok found
    → authority_of computed.0 (violations_of trust computed eff found) ≡ s
    → s.allowed ≡ true
    → (computed.0 ≡ constitutional) ⊎ (is_empty computed.1 ≡ false)
    → (a : OperatorApproval) × IsEffective env approvals a
      × (a.stage ≡ scope)
      × IsHumanApproval trust r version a
unfolding authority_of has_scope permission_class
authorized env trust c r approvals version s eff computed found e2 e3 h ok_s o =
    let q = map invalid_external (unverified trust eff) in
    let wants =
      if is_constitutional (permission_class computed.0 []) then needs_human else needs_reviewer in
    let quiet : is_empty (violations_of trust computed eff found) ≡ true =
      ap (λ (x : ScopeAuthority). x.allowed) h ∙ ok_s in
    let first = empty_left computed.1 q (empty_left (computed.1 ++ q) _ quiet) in
    let matched = (add-empty (not found) wants [] (empty_right (computed.1 ++ q) _ quiet)).0 in
    let k : found ≡ true = ground (arith, matched) in
    elim o [
      | inr n ↦ ground (arith, n, first)
      | inl t ↦
          let demand = scope_demand r.planned_paths true version in
          let m : any_matches trust env (externally_valid trust eff) r demand ≡ ok true =
            subst
              (λ (x : Risk). has_scope env trust r (permission_class x []) version eff ≡ ok found) t
              e3
            ∙ ap ok k in
          let (a, b) = matches-IsBacked env trust approvals eff r demand e2 m in
          let z = IsBacked-human env trust approvals r demand a refl b in (a, b.0, z.0, z.1)
    ]

-- Where a scope is authorized and one of its planned paths may overlap a protected pattern, a person
-- has approved it: there is an approval that is the last one of its approver at the stage `scope`,
-- says approve, has not expired, is signed or a GitHub review, passes the external check, and names
-- the request, its digest, its base, the scope version and every declared layer.
pub authority-IsHumanApproval :
    (env : Env) (trust : Trust) (c : Constitution) (r : OperatorRequest)
    (approvals : List OperatorApproval) (version : ℕ) (s : ScopeAuthority) (path : String)
    → check_scope_authority env trust c r approvals version ≡ ok s
    → s.allowed ≡ true
    → mem path r.planned_paths ≡ true
    → touches c path ≡ true
    → (a : OperatorApproval) × IsEffective env approvals a
      × (a.stage ≡ scope)
      × IsHumanApproval trust r version a
unfolding check_scope_authority
authority-IsHumanApproval env trust c r approvals version s path h ok_s m p =
    let (computed, e1, h1) = bind-ok _ _ s h in
    let (eff, e2, h2) = bind-ok _ _ s h1 in
    let (found, e3, h3) = bind-ok _ _ s h2 in
    authorized env trust c r approvals version s eff computed found e2 e3 (ok-injective _ s h3) ok_s
      (risk-constitutional c r path computed m p e1)
