-- ===== src/Operator/Approvals.antt =====
-- operator/approvals.py: which approvals are in effect, and which of them matches a request. What lies
-- outside the program is a parameter: the digest of a request, and the check of an SSH signature or a
-- GitHub review.
pub mod Latest
pub mod Effective
use autobugfix_loop.Prelude.{
  ℕ, String, Bool, true, false, not, ◌&&◌, ◌||◌, Option, none, some, List, [], ◌∷◌, nat_eq, str_le,
  ◌==◌, opt_eq, opt_truthy, any, all, codes, sort_by, if◌then◌else◌, Result, ok, raise, ◌>>=◌,
}
use autobugfix_loop.Operator.Records.{subset}
use autobugfix_loop.Operator.Records.Request.{
  OperatorRequest, declared_layers, OperatorApproval, stage_eq, human_verified_kind, is_reviewer,
  is_approve, Stage, scope, merge,
}
use autobugfix_loop.Operator.Store.{Env, Error, is_expired}
use autobugfix_loop.Operator.Glob.{fnmatch}

pub record Trust : Type 0 where
  -- the SHA-256 of the request's canonical JSON
  pub request_digest : OperatorRequest → String
  -- `verify_external_approval`: the message where it raises
  pub verify_external_approval : OperatorApproval → Option String

-- The order of `sorted(approvals, key=lambda item: (item.created_at, item.approval_id))`.
unfoldable pub approval_le : OperatorApproval → OperatorApproval → Bool
unfolding str_le
approval_le a b =
    if a.created_at == b.created_at
    then str_le a.approval_id b.approval_id
    else str_le a.created_at b.created_at

-- The same key of the dictionary `latest`.
unfoldable pub same_key : OperatorApproval → OperatorApproval → Bool
same_key a b = a.approver == b.approver && stage_eq a.stage b.stage

-- `latest[key] = approval`: a key keeps the place of its first value.
unfoldable pub set_latest : OperatorApproval → List OperatorApproval → List OperatorApproval
unfolding same_key
set_latest a [] = a ∷ []
set_latest a (b ∷ latest) =
    let rest = set_latest a latest in if same_key a b then a ∷ latest else b ∷ rest

unfoldable pub set_all : List OperatorApproval → List OperatorApproval → List OperatorApproval
unfolding set_latest
set_all latest [] = latest
set_all latest (a ∷ later) = set_all (set_latest a latest) later

module _ (env : Env) where
  -- the property `approved`
  unfoldable pub is_approved : OperatorApproval → Result Error Bool
  unfolding is_expired
  is_approved a =
      if is_approve a.decision
      then (do expired ← is_expired env a.expires_at; ok (not expired))
      else ok false

  -- The last test repeats the second half of `approved`.
  unfoldable pub in_effect : OperatorApproval → Result Error Bool
  unfolding is_approved
  in_effect a = do
    yes_approved ← is_approved a
    if yes_approved then (do expired ← is_expired env a.expires_at; ok (not expired)) else ok false

  unfoldable pub keep_effective : List OperatorApproval → Result Error (List OperatorApproval)
  unfolding in_effect
  keep_effective [] = ok []
  keep_effective (a ∷ later) = do
    keep ← in_effect a
    rest ← keep_effective later
    ok (if keep then a ∷ rest else rest)

  unfoldable pub effective_approvals : List OperatorApproval → Result Error (List OperatorApproval)
  unfolding set_all sort_by
  effective_approvals approvals = keep_effective (set_all [] (sort_by approval_le approvals))

-- Each of the paths matches one of the patterns.
unfoldable pub paths_allowed : List String → List String → Bool
unfolding fnmatch
paths_allowed allowed files =
    all (λ path. any (λ pattern. fnmatch (codes pattern) (codes path)) allowed) files

abbrev is_empty : List String → Bool
is_empty [] = true
is_empty (x ∷ xs) = false

-- A merge approval names the patch or the head, and what it names is the candidate's.
unfoldable pub merge_bound : OperatorApproval → Option String → Option String → Bool
merge_bound a patch head =
    not (opt_truthy a.patch_digest && not (opt_eq a.patch_digest patch))
    && not (opt_truthy a.head_sha && not (opt_eq a.head_sha head))
    && (opt_truthy a.patch_digest || opt_truthy a.head_sha)

-- What a caller asks of an approval.
pub record Demand : Type 0 where
  pub files : List String
  pub require_human : Bool
  pub stage : Stage
  pub patch_digest : Option String
  pub head_sha : Option String
  pub scope_version : ℕ

module _ (trust : Trust) where
  -- The tests of `approval_matches` after that of `approved`, in its order.
  unfoldable pub binds : OperatorApproval → OperatorRequest → Demand → Bool
  unfolding human_verified_kind paths_allowed merge_bound
  binds a r d =
      stage_eq a.stage d.stage
      && a.request_id == r.request_id
      && a.request_digest == trust.request_digest r
      && a.base_sha == r.base_sha
      && nat_eq a.scope_version d.scope_version
      && not (a.approver == r.creator && is_reviewer a.kind)
      && not (d.require_human && not (human_verified_kind a.kind))
      && subset (declared_layers r) a.allowed_layers
      && (is_empty a.allowed_paths || paths_allowed a.allowed_paths d.files)
      && (not (stage_eq d.stage merge) || merge_bound a d.patch_digest d.head_sha)

  unfoldable pub approval_matches :
      Env → OperatorApproval → OperatorRequest → Demand → Result Error Bool
  unfolding binds is_approved
  approval_matches env a r d = do yes_approved ← is_approved env a; ok (yes_approved && binds a r d)

  -- `any(approval_matches(…) for approval in approvals)`
  unfoldable pub any_matches :
      Env → List OperatorApproval → OperatorRequest → Demand → Result Error Bool
  unfolding approval_matches
  any_matches env [] r d = ok false
  any_matches env (a ∷ later) r d = do
    found ← approval_matches env a r d
    if found then ok true else any_matches env later r d

  -- The loop of `evaluate_policy` and of `check_scope_authority`: the error of an external check, the
  -- approvals that stay, and the others with their messages.
  unfoldable pub external_error : OperatorApproval → Option String
  unfolding human_verified_kind
  external_error a = if human_verified_kind a.kind then trust.verify_external_approval a else none

  unfoldable pub externally_valid : List OperatorApproval → List OperatorApproval
  unfolding external_error
  externally_valid [] = []
  externally_valid (a ∷ later) =
      let rest = externally_valid later in
      elim (external_error a) [ none ↦ a ∷ rest | some m ↦ rest ]

  unfoldable pub unverified : List OperatorApproval → List (String × String)
  unfolding external_error
  unverified [] = []
  unverified (a ∷ later) =
      let rest = unverified later in
      elim (external_error a) [ none ↦ rest | some m ↦ (a.approval_id, m) ∷ rest ]
