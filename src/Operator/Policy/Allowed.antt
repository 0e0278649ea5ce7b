-- ===== src/Operator/Policy/Allowed.antt =====
-- What an allowed candidate is.
use autobugfix_loop.Prelude.{
  ℕ, ◌≡◌, refl, subst, ◌∙◌, ap, String, true, false, ◌&&◌, none, some, List, [], ◌∷◌, arith,
  and_split, opt_eq→eq, opt_truthy, eq_true, eq_iff, ◌==◌, ok, bind-ok, ok-injective, inl, inr, ◌⊎◌,
  Bool-cases, if◌then◌else◌,
}
use autobugfix_loop.Operator.Records.{mem, subset}
use autobugfix_loop.Operator.Records.Request.{
  OperatorRequest, OperatorApproval, declared_layers, Risk, low, medium, high, constitutional,
  max_risk, scope, merge, human_verified_kind,
}
use autobugfix_loop.Operator.Store.{Env}
use autobugfix_loop.Operator.Glob.{matches_any}
use autobugfix_loop.Operator.Layers.{Constitution, layers_for_file}
use autobugfix_loop.Operator.Approvals.{
  merge_bound, external_error, binds, Demand, Trust, any_matches, externally_valid,
}
use autobugfix_loop.Operator.Approvals.Latest.{stage_eq_iff}
use autobugfix_loop.Operator.Approvals.Effective.{IsEffective, IsBacked, matches-IsBacked}
use autobugfix_loop.Operator.Policy.{
  CandidateSnapshot, PolicyPhase, merging, PolicyDecision, Scan, add, is_empty, scan_file,
  scan_files, no_scan, computed_risk, permission_class, constitutional_class, is_constitutional,
  is_local, scope_demand, merge_demand, evaluate_policy,
}
use autobugfix_loop.Operator.Policy.Steps.{
  evaluate-Steps, allowed-quiet, add-full, add-true-full, class_of,
}

scan_file-protected :
    (c : Constitution) (r : OperatorRequest) (path : String) (layers : List String) (s : Scan)
    → (scan_file c r path layers s).protected
      ≡ add (matches_any path c.protected_paths) path s.protected
unfolding scan_file
scan_file-protected c r path [] s = refl
scan_file-protected c r path (l ∷ []) s = refl
scan_file-protected c r path (l ∷ m ∷ ls) s = refl

pub mem-cons :
    (path q : String) (paths : List String)
    → mem path (q ∷ paths) ≡ true
    → (path ≡ q) ⊎ (mem path paths ≡ true)
mem-cons path q paths h = elim (Bool-cases (q == path)) [
  | inl t ↦ inl (ground (arith, eq_iff q path))
  | inr t ↦ inr (ground (arith, h, t))
]

noted :
    (c : Constitution) (r : OperatorRequest) (path q : String) (paths layers : List String)
    (s : Scan)
    → matches_any path c.protected_paths ≡ true
    → (mem path (q ∷ paths) ≡ true) ⊎ (is_empty s.protected ≡ false)
    → (mem path paths ≡ true) ⊎ (is_empty (scan_file c r q layers s).protected ≡ false)
noted c r path q paths layers s p (inr n) = inr (
    rw (scan_file-protected c r q layers s)
      (add-full (matches_any q c.protected_paths) q s.protected n))
noted c r path q paths layers s p (inl m) = elim (mem-cons path q paths m) [
  | inl e ↦
      let f : matches_any q c.protected_paths ≡ true = rw (← e) p in
      inr (rw (scan_file-protected c r q layers s, f) (add-true-full q s.protected))
  | inr n ↦ inl n
]

-- A protected file among the changed ones is noted, and stays noted.
scan_files-protected :
    (c : Constitution) (r : OperatorRequest) (path : String) (paths : List String) (s t : Scan)
    → matches_any path c.protected_paths ≡ true
    → scan_files c r paths s ≡ ok t
    → (mem path paths ≡ true) ⊎ (is_empty s.protected ≡ false)
    → is_empty t.protected ≡ false
unfolding scan_files
scan_files-protected c r path [] s t p h (inl m) = ground arith
scan_files-protected c r path [] s t p h (inr n) = let e : s ≡ t = ok-injective s t h in rw (← e) n
scan_files-protected c r path (q ∷ paths) s t p h o =
    let (layers, e, h1) =
      bind-ok (layers_for_file c q) (λ ls. scan_files c r paths (scan_file c r q ls s)) t h in
    scan_files-protected c r path paths (scan_file c r q layers s) t p h1
      (noted c r path q paths layers s p o)

pub max_risk-constitutional : (a : Risk) → max_risk a constitutional ≡ constitutional
unfolding max_risk
max_risk-constitutional low = refl
max_risk-constitutional medium = refl
max_risk-constitutional high = refl
max_risk-constitutional constitutional = refl

class-protected :
    (r : OperatorRequest) (scan : Scan)
    → is_empty scan.protected ≡ false
    → class_of r scan ≡ constitutional_class
unfolding permission_class computed_risk
class-protected r scan h =
    let e : computed_risk scan ≡ constitutional = rw h refl in
    rw (e, max_risk-constitutional r.requested_risk) refl

-- What a human's approval vouches for.
abbrev pub IsHumanApproval : Trust → OperatorRequest → ℕ → OperatorApproval → Type 0
IsHumanApproval trust r version a =
    (human_verified_kind a.kind ≡ true)
    × (trust.verify_external_approval a ≡ none)
    × (a.request_id ≡ r.request_id)
    × (a.request_digest ≡ trust.request_digest r)
    × (a.base_sha ≡ r.base_sha)
    × (a.scope_version ≡ version)
    × (subset (declared_layers r) a.allowed_layers ≡ true)

pub IsBacked-human :
    (env : Env) (trust : Trust) (approvals : List OperatorApproval) (r : OperatorRequest)
    (d : Demand) (a : OperatorApproval)
    → d.require_human ≡ true
    → IsBacked env trust approvals r d a
    → (a.stage ≡ d.stage) × IsHumanApproval trust r d.scope_version a
unfolding binds external_error
IsBacked-human env trust approvals r d a h b =
    let (c8, b9) = and_split _ _ b.2 in
    let (c7, b8) = and_split _ _ c8 in
    let (c6, b7) = and_split _ _ c7 in
    let (c5, b6) = and_split _ _ c6 in
    let (c4, b5) = and_split _ _ c5 in
    let (c3, b4) = and_split _ _ c4 in
    let (c2, b3) = and_split _ _ c3 in
    let (c1, b2) = and_split _ _ c2 in
    let (b0, b1) = and_split _ _ c1 in
    let k : human_verified_kind a.kind ≡ true = ground (arith, h, b6) in
    (
      stage_eq_iff a.stage d.stage b0,
      (
        k,
        ground (arith, k, b.1),
        eq_true a.request_id r.request_id b1,
        eq_true a.request_digest (trust.request_digest r) b2,
        eq_true a.base_sha r.base_sha b3,
        ground (arith, b4),
        b7,
      ),
    )

-- Where a decision allows the candidate of a request and one of the files that the candidate changes
-- is protected, a person has approved: there is an approval that is the last one of its approver at
-- the stage `scope`, says approve, has not expired, is signed or a GitHub review, passes the external
-- check, and names the request, its digest, its base, the scope version and every declared layer.
pub protected-IsHumanApproval :
    (env : Env) (trust : Trust) (c : Constitution) (r : OperatorRequest)
    (approvals : List OperatorApproval) (s : CandidateSnapshot) (findings : List String)
    (phase : PolicyPhase) (version : ℕ) (d : PolicyDecision) (path : String)
    → evaluate_policy env trust c r approvals s findings phase version ≡ ok d
    → d.allowed ≡ true
    → mem path s.changed_files ≡ true
    → matches_any path c.protected_paths ≡ true
    → (a : OperatorApproval) × IsEffective env approvals a
      × (a.stage ≡ scope)
      × IsHumanApproval trust r version a
protected-IsHumanApproval env trust c r approvals s findings phase version d path h ok_d m p =
    let steps = evaluate-Steps env trust c r approvals s findings phase version d h in
    let class =
      class-protected r steps.scan (
        scan_files-protected c r path s.changed_files no_scan steps.scan p steps.scanned (inl m)) in
    let quiet = allowed-quiet env trust c r approvals s findings phase version d steps ok_d in
    let matched =
      subst
        (λ k.
          (if is_local k
            then ok true
            else any_matches trust env (externally_valid trust steps.effective) r
                (scope_demand s.changed_files (is_constitutional k) version))
          ≡ ok steps.has_scope)
        class steps.scope_matched in
    let (a, b) =
      matches-IsBacked env trust approvals steps.effective r
        (scope_demand s.changed_files true version) steps.effectiveness (matched ∙ ap ok quiet.1) in
    let k =
      IsBacked-human env trust approvals r (scope_demand s.changed_files true version) a refl b in
    (a, b.0, k.0, k.1)

merge_bound-names :
    (a : OperatorApproval) (patch head : String)
    → merge_bound a (some patch) (some head) ≡ true
    → (a.patch_digest ≡ some patch) ⊎ (a.head_sha ≡ some head)
unfolding merge_bound
merge_bound-names a patch head h = elim (Bool-cases (opt_truthy a.patch_digest)) [
  | inl t ↦ inl (opt_eq→eq a.patch_digest (some patch) (ground (arith, h, t)))
  | inr t ↦ inr (opt_eq→eq a.head_sha (some head) (ground (arith, h, t)))
]

-- Where a decision at merge time allows the candidate of a request and one of the files that the
-- candidate changes is protected, a person has approved this very candidate: there is an approval that
-- is the last one of its approver at the stage `merge`, says approve, has not expired, is signed or a
-- GitHub review, passes the external check, names the request, its digest, its base, the scope version
-- and every declared layer, and names the candidate's patch digest or its head.
pub merge-IsHumanApproval :
    (env : Env) (trust : Trust) (c : Constitution) (r : OperatorRequest)
    (approvals : List OperatorApproval) (s : CandidateSnapshot) (findings : List String)
    (version : ℕ) (d : PolicyDecision) (path : String)
    → evaluate_policy env trust c r approvals s findings merging version ≡ ok d
    → d.allowed ≡ true
    → mem path s.changed_files ≡ true
    → matches_any path c.protected_paths ≡ true
    → (a : OperatorApproval) × IsEffective env approvals a
      × (a.stage ≡ merge)
      × IsHumanApproval trust r version a
      × ((a.patch_digest ≡ some s.patch_digest) ⊎ (a.head_sha ≡ some s.head_sha))
unfolding binds
merge-IsHumanApproval env trust c r approvals s findings version d path h ok_d m p =
    let steps = evaluate-Steps env trust c r approvals s findings merging version d h in
    let class =
      class-protected r steps.scan (
        scan_files-protected c r path s.changed_files no_scan steps.scan p steps.scanned (inl m)) in
    let quiet = allowed-quiet env trust c r approvals s findings merging version d steps ok_d in
    let demand = merge_demand s version in
    let matched =
      subst
        (λ k.
          (if is_constitutional k && true
            then any_matches trust env (externally_valid trust steps.effective) r demand
            else ok true)
          ≡ ok steps.has_merge)
        class steps.merge_matched in
    let (a, b) =
      matches-IsBacked env trust approvals steps.effective r demand steps.effectiveness
        (matched ∙ ap ok quiet.2) in
    let k = IsBacked-human env trust approvals r demand a refl b in
    let n : merge_bound a (some s.patch_digest) (some s.head_sha) ≡ true = (and_split _ _ b.2).1 in
    (a, b.0, k.0, k.1, merge_bound-names a s.patch_digest s.head_sha n)
