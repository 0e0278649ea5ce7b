-- ===== src/Operator/Policy/Steps.antt =====
-- The parts of `evaluate_policy` where it returns, and what an empty list of violations says of them.
use autobugfix_loop.Prelude.{
  ℕ, ◌≡◌, refl, String, Bool, true, false, not, ◌&&◌, List, [], ◌∷◌, ◌++◌, map, arith, sym, ◌∙◌, ap,
  bind-ok, ok-injective, ok, if◌then◌else◌,
}
use autobugfix_loop.Operator.Records.{dedup}
use autobugfix_loop.Operator.Records.Request.{
  OperatorRequest, OperatorApproval, declared_layers, Risk, max_risk,
}
use autobugfix_loop.Operator.Store.{Env, is_expired}
use autobugfix_loop.Operator.Layers.{Constitution}
use autobugfix_loop.Operator.Approvals.{
  Trust, effective_approvals, any_matches, externally_valid, unverified,
}
use autobugfix_loop.Operator.Policy.{
  CandidateSnapshot, PolicyPhase, PermissionClass, Scan, PolicyDecision, add, is_empty, scan_files,
  no_scan, computed_risk, permission_class, is_constitutional, is_local, is_merging,
  required_profiles, missing_profiles, candidate_violations, scope_demand, merge_demand,
  invalid_external, no_scope_approval, no_merge_approval, static_finding, evaluate_policy,
}

module _ {A : Type 0} where
  pub empty_left : (xs ys : List A) → is_empty (xs ++ ys) ≡ true → is_empty xs ≡ true
  empty_left [] ys h = refl
  empty_left (x ∷ xs) ys h = ground arith

  pub empty_right : (xs ys : List A) → is_empty (xs ++ ys) ≡ true → is_empty ys ≡ true
  empty_right [] ys h = h
  empty_right (x ∷ xs) ys h = ground arith

  pub add-empty :
      (b : Bool) (x : A) (xs : List A)
      → is_empty (add b x xs) ≡ true
      → (b ≡ false) × (is_empty xs ≡ true)
  add-empty true x [] h = ground arith
  add-empty true x (y ∷ xs) h = ground arith
  add-empty false x xs h = (refl, h)

  pub add-full :
      (b : Bool) (x : A) (xs : List A) → is_empty xs ≡ false → is_empty (add b x xs) ≡ false
  add-full true x [] h = refl
  add-full true x (y ∷ xs) h = refl
  add-full false x xs h = h

  pub add-true-full : (x : A) (xs : List A) → is_empty (add true x xs) ≡ false
  add-true-full x [] = refl
  add-true-full x (y ∷ xs) = refl

abbrev pub risk_of : OperatorRequest → Scan → Risk
risk_of r scan = max_risk r.requested_risk (computed_risk scan)

abbrev pub class_of : OperatorRequest → Scan → PermissionClass
class_of r scan = permission_class (risk_of r scan) (dedup (declared_layers r))

abbrev pub missing_of : Constitution → OperatorRequest → Scan → List String
missing_of c r scan =
    missing_profiles c (required_profiles c r scan.changed_layers (risk_of r scan))

-- The parts, and the equations that tie them to the decision.
pub record Steps (env : Env) (trust : Trust) (c : Constitution) (r : OperatorRequest)
    (approvals : List OperatorApproval) (s : CandidateSnapshot) (findings : List String)
    (phase : PolicyPhase) (version : ℕ) (d : PolicyDecision) : Type 0 where
  pub scan : Scan
  pub is_late : Bool
  pub effective : List OperatorApproval
  pub has_scope : Bool
  pub has_merge : Bool
  pub scanned : scan_files c r s.changed_files no_scan ≡ ok scan
  pub lateness : is_expired env r.expires_at ≡ ok is_late
  pub effectiveness : effective_approvals env approvals ≡ ok effective
  pub scope_matched :
      (if is_local (class_of r scan)
        then ok true
        else any_matches trust env
            (externally_valid trust effective)
            r
            (scope_demand s.changed_files (is_constitutional (class_of r scan)) version))
      ≡ ok has_scope
  pub merge_matched :
      (if is_constitutional (class_of r scan) && is_merging phase
        then any_matches trust env (externally_valid trust effective) r (merge_demand s version)
        else ok true)
      ≡ ok has_merge
  pub verdict :
      d.allowed
      ≡ is_empty (
          candidate_violations c r phase s scan is_late (missing_of c r scan)
          ++ map invalid_external (unverified trust effective)
          ++ add (not has_scope) no_scope_approval []
          ++ add (not has_merge) no_merge_approval []
          ++ map static_finding findings)
  pub risk : d.effective_risk ≡ risk_of r scan
  pub class : d.permission_class ≡ class_of r scan

pub evaluate-Steps :
    (env : Env) (trust : Trust) (c : Constitution) (r : OperatorRequest)
    (approvals : List OperatorApproval) (s : CandidateSnapshot) (findings : List String)
    (phase : PolicyPhase) (version : ℕ) (d : PolicyDecision)
    → evaluate_policy env trust c r approvals s findings phase version ≡ ok d
    → Steps env trust c r approvals s findings phase version d
unfolding evaluate_policy
evaluate-Steps env trust c r approvals s findings phase version d h =
    let (scan, e1, h1) = bind-ok _ _ _ h in
    let (late, e2, h2) = bind-ok _ _ _ h1 in
    let (eff, e3, h3) = bind-ok _ _ _ h2 in
    let (hs, e4, h4) = bind-ok _ _ _ h3 in
    let (hm, e5, h5) = bind-ok _ _ _ h4 in
    let e = ok-injective _ d h5 in
    record {
      scan = scan;
      is_late = late;
      effective = eff;
      has_scope = hs;
      has_merge = hm;
      scanned = e1;
      lateness = e2;
      effectiveness = e3;
      scope_matched = e4;
      merge_matched = e5;
      verdict = ap (λ (x : PolicyDecision). x.allowed) (sym e);
      risk = ap (λ (x : PolicyDecision). x.effective_risk) (sym e);
      class = ap (λ (x : PolicyDecision). x.permission_class) (sym e);
    }

pub allowed-quiet :
    (env : Env) (trust : Trust) (c : Constitution) (r : OperatorRequest)
    (approvals : List OperatorApproval) (s : CandidateSnapshot) (findings : List String)
    (phase : PolicyPhase) (version : ℕ) (d : PolicyDecision)
    (t : Steps env trust c r approvals s findings phase version d)
    → d.allowed ≡ true
    → (is_empty (candidate_violations c r phase s t.scan t.is_late (missing_of c r t.scan)) ≡ true)
      × (t.has_scope ≡ true)
      × (t.has_merge ≡ true)
      × (is_empty (map static_finding findings) ≡ true)
allowed-quiet env trust c r approvals s findings phase version d t h =
    let p = candidate_violations c r phase s t.scan t.is_late (missing_of c r t.scan) in
    let q = map invalid_external (unverified trust t.effective) in
    let x = add (not t.has_scope) no_scope_approval [] in
    let y = add (not t.has_merge) no_merge_approval [] in
    let z = map static_finding findings in
    let e = sym t.verdict ∙ h in
    let e4 = empty_left (p ++ q ++ x ++ y) z e in
    let e3 = empty_left (p ++ q ++ x) y e4 in
    let e2 = empty_left (p ++ q) x e3 in
    let n = add-empty (not t.has_scope) no_scope_approval [] (empty_right (p ++ q) x e3) in
    let m = add-empty (not t.has_merge) no_merge_approval [] (empty_right (p ++ q ++ x) y e4) in
    (
      empty_left p q e2,
      ground (arith, n.0),
      ground (arith, m.0),
      empty_right (p ++ q ++ x ++ y) z e,
    )
