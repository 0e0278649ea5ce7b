-- ===== src/Operator/Policy/InScope.antt =====
-- The files, the branch and the base of an allowed candidate.
use autobugfix_loop.Prelude.{
  ℕ, ◌≡◌, refl, sym, ap, ◌∙◌, String, Bool, true, false, not, ◌&&◌, ◌||◌, List, [], ◌∷◌, ◌++◌, map,
  arith, inl, inr, Bool-cases, eq_true, ◌==◌, sort_by, insert_by, str_le, All, ok, bind-ok,
  ok-injective,
}
use autobugfix_loop.Operator.Records.{mem, without, dedup}
use autobugfix_loop.Operator.Records.Request.{OperatorRequest, OperatorApproval, declared_layers}
use autobugfix_loop.Operator.Store.{Env, is_expired}
use autobugfix_loop.Operator.Glob.{matches_any}
use autobugfix_loop.Operator.Layers.{Constitution, layers_for_file}
use autobugfix_loop.Operator.Approvals.{Trust}
use autobugfix_loop.Operator.Policy.{
  CandidateSnapshot, PolicyPhase, PolicyDecision, Scan, Violation, add, is_empty, is_preflight,
  scan_file, scan_files, no_scan, candidate_violations, outside_scope, unknown_profile,
  protected_branch, other_branch, other_base, not_ancestor, expired, no_changes, evaluate_policy,
}
use autobugfix_loop.Operator.Policy.Steps.{
  evaluate-Steps, allowed-quiet, empty_left, empty_right, add-empty, add-true-full, missing_of,
}

-- A changed file of one declared layer, within the planned paths where the request has some.
abbrev pub IsInScope : Constitution → OperatorRequest → String → Type 0
IsInScope c r path =
    (layer : String) × (layers_for_file c path ≡ ok (layer ∷ []))
    × (mem layer (declared_layers r) ≡ true)
    × ((is_empty r.planned_paths || matches_any path r.planned_paths) ≡ true)

some_true : (p m : Bool) → (not p && not m) ≡ false → (p || m) ≡ true
some_true true m h = refl
some_true false true h = refl
some_true false false h = ground (arith, h)

or_not : (p m : Bool) → (not p && m) ≡ false → (p || not m) ≡ true
or_not true m h = refl
or_not false false h = refl
or_not false true h = ground (arith, h)

scan_file-IsInScope :
    (c : Constitution) (r : OperatorRequest) (path : String) (layers : List String) (s : Scan)
    → layers_for_file c path ≡ ok layers
    → is_empty (scan_file c r path layers s).out_of_scope ≡ true
    → (is_empty s.out_of_scope ≡ true) × IsInScope c r path
unfolding scan_file
scan_file-IsInScope c r path [] s e h = ground (arith, h, add-true-full path s.out_of_scope)
scan_file-IsInScope c r path (l ∷ []) s e h =
    let p = is_empty r.planned_paths in
    let m = matches_any path r.planned_paths in
    let f =
      add-empty (not p && not m) path (add (not (mem l (declared_layers r))) path s.out_of_scope)
        h in
    let g = add-empty (not (mem l (declared_layers r))) path s.out_of_scope f.1 in
    (g.1, (l, e, ground (arith, g.0), some_true p m f.0))
scan_file-IsInScope c r path (l ∷ k ∷ ls) s e h =
    ground (arith, h, add-true-full path s.out_of_scope)

scan_files-IsInScope :
    (c : Constitution) (r : OperatorRequest) (paths : List String) (s t : Scan)
    → scan_files c r paths s ≡ ok t
    → is_empty t.out_of_scope ≡ true
    → (is_empty s.out_of_scope ≡ true) × All (IsInScope c r) paths
unfolding scan_files
scan_files-IsInScope c r [] s t h e = (rw (ok-injective s t h) e, tt)
scan_files-IsInScope c r (p ∷ paths) s t h e =
    let (ls, f, h1) =
      bind-ok (layers_for_file c p) (λ ls. scan_files c r paths (scan_file c r p ls s)) t h in
    let (g, all) = scan_files-IsInScope c r paths (scan_file c r p ls s) t h1 e in
    let (k, i) = scan_file-IsInScope c r p ls s f g in (k, (i, all))

empty-map : (f : String → Violation) (xs : List String) → is_empty (map f xs) ≡ is_empty xs
empty-map f [] = refl
empty-map f (x ∷ xs) = refl

empty-insert_by : (x : String) (xs : List String) → is_empty (insert_by str_le x xs) ≡ false
unfolding insert_by
empty-insert_by x [] = refl
empty-insert_by x (y ∷ ys) = elim (Bool-cases (str_le x y)) [
  | inl t ↦ rw t refl
  | inr t ↦ rw t refl
]

empty_scope :
    (xs : List String)
    → is_empty (map outside_scope (sort_by str_le (dedup xs))) ≡ true
    → is_empty xs ≡ true
unfolding sort_by dedup
empty_scope [] h = refl
empty_scope (x ∷ xs) h =
    let e = empty-map outside_scope (sort_by str_le (dedup (x ∷ xs))) in
    sym (empty-insert_by x (sort_by str_le (without x (dedup xs)))) ∙ (sym e ∙ h)

-- Where a decision allows the candidate of a request, each file that the candidate changes has exactly
-- one layer, a declared one, and matches a planned path if there are any; the candidate is on the
-- request's branch, which is not protected, and on its base, from which it descends; the request has
-- not expired; and after the preflight something has changed.
pub allowed-IsInScope :
    (env : Env) (trust : Trust) (c : Constitution) (r : OperatorRequest)
    (approvals : List OperatorApproval) (s : CandidateSnapshot) (findings : List String)
    (phase : PolicyPhase) (version : ℕ) (d : PolicyDecision)
    → evaluate_policy env trust c r approvals s findings phase version ≡ ok d
    → d.allowed ≡ true
    → All (IsInScope c r) s.changed_files
      × (s.branch ≡ r.branch)
      × (mem s.branch c.protected_branches ≡ false)
      × (s.base_sha ≡ r.base_sha)
      × (s.base_is_ancestor ≡ true)
      × (is_expired env r.expires_at ≡ ok false)
      × ((is_preflight phase || not (is_empty s.changed_files)) ≡ true)
unfolding candidate_violations
allowed-IsInScope env trust c r approvals s findings phase version d h ok_d =
    let t = evaluate-Steps env trust c r approvals s findings phase version d h in
    let q = (allowed-quiet env trust c r approvals s findings phase version d t ok_d).0 in
    let v0 = t.scan.violations in
    let v1 = v0 ++ add (mem s.branch c.protected_branches) protected_branch [] in
    let v2 = v1 ++ add (not (s.branch == r.branch)) other_branch [] in
    let v3 = v2 ++ add (not (s.base_sha == r.base_sha)) other_base [] in
    let v4 = v3 ++ add (not s.base_is_ancestor) not_ancestor [] in
    let v5 = v4 ++ add t.is_late expired [] in
    let outside = map outside_scope (sort_by str_le (dedup t.scan.out_of_scope)) in
    let v6 = v5 ++ outside in
    let profiles = map unknown_profile (missing_of c r t.scan) in
    let v7 = v6 ++ profiles in
    let e7 = empty_left v7 _ q in
    let e6 = empty_left v6 profiles e7 in
    let e5 = empty_left v5 outside e6 in
    let e4 = empty_left v4 _ e5 in
    let e3 = empty_left v3 _ e4 in
    let e2 = empty_left v2 _ e3 in
    let e1 = empty_left v1 _ e2 in
    let last = (add-empty _ no_changes [] (empty_right v7 _ q)).0 in
    let late : t.is_late ≡ false = (add-empty _ expired [] (empty_right v4 _ e5)).0 in
    let base = (add-empty _ other_base [] (empty_right v2 _ e3)).0 in
    let branch = (add-empty _ other_branch [] (empty_right v1 _ e2)).0 in
    (
      (scan_files-IsInScope c r s.changed_files no_scan t.scan t.scanned
          (empty_scope t.scan.out_of_scope (empty_right v5 outside e6))).1,
      eq_true s.branch r.branch (ground (arith, branch)),
      (add-empty _ protected_branch [] (empty_right v0 _ e1)).0,
      eq_true s.base_sha r.base_sha (ground (arith, base)),
      ground (arith, (add-empty _ not_ancestor [] (empty_right v3 _ e4)).0),
      t.lateness ∙ ap ok late,
      or_not (is_preflight phase) (is_empty s.changed_files) last,
    )
