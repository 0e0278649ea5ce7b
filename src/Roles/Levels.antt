-- ===== src/Roles/Levels.antt =====
-- Where each setting of a resolved role comes from.
use autobugfix_loop.Prelude.{
  ◌≡◌, refl, sym, ap, ◌∙◌, String, Bool, true, false, Option, none, some, List, [], ◌∷◌, ◌++◌,
  arith, any, ◌>>=◌, truthy, if◌then◌else◌, Result, ok, ok-injective, bind-ok, Bool-cases, inl, inr,
}
use autobugfix_loop.Roles.Config.{
  RoleConfig, ResolvedRoleConfig, Config, RoleError, Paths, lookup, first_set, or_else, value_or,
  is_set, merge_role_config, merge_all, repo_override, resolve_skill_paths, resolved, resolve_role,
  timeout_fallback,
}

-- The first setting among several levels.
abbrev pub first_of : {A : Type 0} → (RoleConfig → Option A) → List RoleConfig → Option A
first_of f [] = none
first_of f (l ∷ ls) = first_set (f l) (first_of f ls)

-- The given overrides before the levels, the last override first.
abbrev pub reversed : List (Option RoleConfig) → List RoleConfig → List RoleConfig
reversed [] ls = ls
reversed (none ∷ later) ls = reversed later ls
reversed (some o ∷ later) ls = reversed later (o ∷ ls)

abbrev as_list : {A : Type 0} → Option A → List A
as_list none = []
as_list (some a) = a ∷ []

abbrev pub repo_level : Config → String → Option String → List RoleConfig
repo_level c role none = []
repo_level c role (some id) =
    if truthy id then as_list (lookup role (value_or (lookup id c.repos) [])) else []

-- The levels, the most specific first: the repository's settings where the others let it override,
-- the overrides from the last to the first, the role.
abbrev pub levels :
    Config → String → Option String → List (Option RoleConfig) → RoleConfig → List RoleConfig
levels c role repo_id overrides base =
    let own = reversed overrides (base ∷ []) in
    if value_or (first_of (λ l. l.allow_repo_overrides) own) true
    then repo_level c role repo_id ++ own
    else own

abbrev pub IsField : {A : Type 0} → (RoleConfig → Option A) → Type 0
IsField f = (b o : RoleConfig) → f (merge_role_config b (some o)) ≡ first_set (f o) (f b)

merge_all-first_of :
    {A : Type 0} (f : RoleConfig → Option A) (b : RoleConfig) (os : List (Option RoleConfig))
    (ls : List RoleConfig)
    → IsField f
    → f b ≡ first_of f ls
    → f (merge_all b os) ≡ first_of f (reversed os ls)
unfolding merge_all merge_role_config
merge_all-first_of f b [] ls m h = h
merge_all-first_of f b (none ∷ os) ls m h = merge_all-first_of f b os ls m h
merge_all-first_of f b (some o ∷ os) ls m h =
    merge_all-first_of f (merge_role_config b (some o)) os (o ∷ ls) m
      (m b o ∙ ap (first_set (f o)) h)

merge-as_list :
    {A : Type 0} (f : RoleConfig → Option A) (merged : RoleConfig) (o : Option RoleConfig)
    (ls : List RoleConfig)
    → IsField f
    → f merged ≡ first_of f ls
    → f (merge_role_config merged o) ≡ first_of f (as_list o ++ ls)
unfolding merge_role_config
merge-as_list f merged none ls m k = k
merge-as_list f merged (some o) ls m k = m merged o ∙ ap (first_set (f o)) k

repo_override-found :
    (c : Config) (role id : String) (rs : Option (List (String × RoleConfig)))
    (repo : Option RoleConfig)
    → lookup id c.repos ≡ rs
    → repo_override c role (some id) true ≡ ok repo
    → truthy id ≡ true
    → lookup role (value_or rs []) ≡ repo
unfolding repo_override
repo_override-found c role id none repo e h t = ground (arith, e, h, t)
repo_override-found c role id (some rs) repo e h t =
    ok-injective (lookup role rs) repo (sym (rw (t, e) refl) ∙ h)

-- The repository's settings, when the code looks them up, stand before the others.
repo_override-first_of :
    {A : Type 0} (f : RoleConfig → Option A) (c : Config) (role : String) (repo_id : Option String)
    (allow : Bool) (repo : Option RoleConfig) (merged : RoleConfig) (ls : List RoleConfig)
    → IsField f
    → repo_override c role repo_id allow ≡ ok repo
    → f merged ≡ first_of f ls
    → f (merge_role_config merged repo)
      ≡ first_of f (if allow then repo_level c role repo_id ++ ls else ls)
unfolding repo_override merge_role_config
repo_override-first_of f c role none true repo merged ls m h k =
    rw (sym (ok-injective none repo h)) k
repo_override-first_of f c role none false repo merged ls m h k =
    rw (sym (ok-injective none repo h)) k
repo_override-first_of f c role (some id) false repo merged ls m h k =
    elim (Bool-cases (truthy id)) [
      | inl t ↦ rw (sym (ok-injective none repo (sym (rw t refl) ∙ h))) k
      | inr t ↦ rw (sym (ok-injective none repo (sym (rw t refl) ∙ h))) k
    ]
repo_override-first_of f c role (some id) true repo merged ls m h k =
    elim (Bool-cases (truthy id)) [
      | inl t ↦
          let e = repo_override-found c role id (lookup id c.repos) repo refl h t in
          rw (t, e) (merge-as_list f merged repo ls m k)
      | inr t ↦ rw (t, sym (ok-injective none repo (sym (rw t refl) ∙ h))) k
    ]

first_self : {A : Type 0} (o : Option A) → o ≡ first_set o none
first_self none = refl
first_self (some a) = refl

module _ (paths : Paths) (c : Config) (role : String) (repo_id : Option String)
    (overrides : List (Option RoleConfig)) where
  abbrev done : RoleConfig → Option RoleConfig → List String → ResolvedRoleConfig
  done merged repo skill_paths =
      resolved c role repo_id (any is_set overrides) merged repo (merge_role_config merged repo)
        skill_paths

  abbrev rest : RoleConfig → Option RoleConfig → Result RoleError ResolvedRoleConfig
  rest merged repo =
      resolve_skill_paths paths c.project_root role (merge_role_config merged repo).skill_paths
      >>= λ skill_paths. ok (done merged repo skill_paths)

  pub resolve_role-inverts :
      (base : RoleConfig) (r : ResolvedRoleConfig)
      → lookup role c.roles ≡ some base
      → resolve_role paths c role repo_id overrides ≡ ok r
      → (repo : Option RoleConfig) × (skill_paths : List String) × (repo_override c role repo_id
            (value_or (merge_all base overrides).allow_repo_overrides true)
          ≡ ok repo)
        × (done (merge_all base overrides) repo skill_paths ≡ r)
  unfolding resolve_role
  resolve_role-inverts base r e h =
      let merged = merge_all base overrides in
      let found = repo_override c role repo_id (value_or merged.allow_repo_overrides true) in
      let k : (found >>= λ repo. rest merged repo) ≡ ok r = sym (rw e refl) ∙ h in
      let (repo, a, k2) = bind-ok found (λ repo. rest merged repo) r k in
      let skills =
        resolve_skill_paths paths c.project_root role (merge_role_config merged repo).skill_paths in
      let (s, b, k3) = bind-ok skills (λ s. ok (done merged repo s)) r k2 in
      (repo, s, a, ok-injective (done merged repo s) r k3)

  pub final-first_of :
      {A : Type 0} (f : RoleConfig → Option A) (base : RoleConfig) (repo : Option RoleConfig)
      → IsField f
      → repo_override c role repo_id (value_or (merge_all base overrides).allow_repo_overrides true)
        ≡ ok repo
      → f (merge_role_config (merge_all base overrides) repo)
        ≡ first_of f (levels c role repo_id overrides base)
  unfolding merge_role_config
  final-first_of f base repo m h =
      let merged = merge_all base overrides in
      let own = reversed overrides (base ∷ []) in
      let allow : merged.allow_repo_overrides ≡ first_of (λ l. l.allow_repo_overrides) own =
        merge_all-first_of (λ l. l.allow_repo_overrides) base overrides (base ∷ []) (λ b o. refl)
          (first_self base.allow_repo_overrides) in
      let k = merge_all-first_of f base overrides (base ∷ []) m (first_self (f base)) in
      rw (sym allow) (
        repo_override-first_of f c role repo_id (value_or merged.allow_repo_overrides true) repo
          merged own m h k)

  -- Where a role resolves, its model, timeout, sandbox and backend are those of the first level that
  -- sets them, of the repository's settings where they are allowed to count, the overrides from the
  -- last to the first and the role, or else the defaults; an empty sandbox or backend counts as none.
  pub resolve_role-takes_first :
      (base : RoleConfig) (r : ResolvedRoleConfig)
      → lookup role c.roles ≡ some base
      → resolve_role paths c role repo_id overrides ≡ ok r
      → let ls = levels c role repo_id overrides base in
        (r.model ≡ first_set (first_of (λ l. l.model) ls) c.default_model)
        × (r.timeout_seconds
            ≡ value_or (first_of (λ l. l.timeout_seconds) ls) (timeout_fallback c role))
        × (r.sandbox ≡ or_else (first_of (λ l. l.sandbox) ls) "read-only")
        × (r.backend ≡ or_else (first_of (λ l. l.backend) ls) "codex")
  unfolding resolved merge_role_config
  resolve_role-takes_first base r e h =
      let (repo, skills, a, k) = resolve_role-inverts base r e h in
      let m = final-first_of (λ l. l.model) base repo (λ b o. refl) a in
      let t = final-first_of (λ l. l.timeout_seconds) base repo (λ b o. refl) a in
      let s = final-first_of (λ l. l.sandbox) base repo (λ b o. refl) a in
      let b = final-first_of (λ l. l.backend) base repo (λ b o. refl) a in
      (
        sym (ap (λ r. r.model) k) ∙ ap (λ x. first_set x c.default_model) m,
        sym (ap (λ r. r.timeout_seconds) k) ∙ ap (λ x. value_or x (timeout_fallback c role)) t,
        sym (ap (λ r. r.sandbox) k) ∙ ap (λ x. or_else x "read-only") s,
        sym (ap (λ r. r.backend) k) ∙ ap (λ x. or_else x "codex") b,
      )
