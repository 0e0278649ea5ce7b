-- ===== src/Roles/Sources.antt =====
-- That a role resolves, and what it says about where its timeout comes from.
use autobugfix_loop.Prelude.{
  ℕ, ◌≡◌, refl, sym, ap, ◌∙◌, String, true, false, ◌&&◌, Option, none, some, List, [], ◌∷◌, arith,
  ◌==◌, ok, Bool-cases, and_split, inl, inr,
}
use autobugfix_loop.Roles.Config.{
  RoleConfig, ResolvedRoleConfig, Config, Paths, lookup, value_or, is_set, resolved, resolve_role,
  timeout_fallback, timeout_source, merge_all, merge_role_config,
}
use autobugfix_loop.Roles.Levels.{first_of, levels, final-first_of, resolve_role-inverts}

-- The configured times by the names that `source` gives them; `own` is the role's.
abbrev pub times : Config → Option ℕ → List (String × Option ℕ)
times c own =
    ("role", own)
    ∷ ("scheduler.writer_timeout_seconds", c.writer_timeout_seconds)
    ∷ ("scheduler.evaluator_timeout_seconds", c.evaluator_timeout_seconds)
    ∷ ("codex.default_timeout_seconds", c.default_timeout_seconds)
    ∷ ("scheduler.codex_timeout_seconds", some c.codex_timeout_seconds)
    ∷ []

set_value : (o : Option ℕ) (d : ℕ) → is_set o ≡ true → o ≡ some (value_or o d)
set_value none d h = ground (arith, h)
set_value (some n) d h = refl

unset_value : (o : Option ℕ) (d : ℕ) → is_set o ≡ false → value_or o d ≡ d
unset_value none d h = refl
unset_value (some n) d h = ground (arith, h)

timeout_source-times :
    (c : Config) (role : String) (own : Option ℕ)
    → lookup (timeout_source c role own) (times c own)
      ≡ some (some (value_or own (timeout_fallback c role)))
unfolding timeout_source timeout_fallback
timeout_source-times c role (some t) = refl
timeout_source-times c role none =
    elim (Bool-cases (role == "writer" && is_set c.writer_timeout_seconds)) [
      | inl w ↦
          rw w (ap some (set_value c.writer_timeout_seconds 0 (and_split (role == "writer") _ w).1))
      | inr w ↦ elim (Bool-cases (role == "evaluator" && is_set c.evaluator_timeout_seconds)) [
        | inl v ↦
            rw (w, v)
              (ap some
                (set_value c.evaluator_timeout_seconds 0 (and_split (role == "evaluator") _ v).1))
        | inr v ↦ elim (Bool-cases (is_set c.default_timeout_seconds)) [
          | inl d ↦
              rw (w, v, d) (ap some (set_value c.default_timeout_seconds c.codex_timeout_seconds d))
          | inr d ↦
              rw (w, v, d)
                (ap (λ n. some (some n))
                  (sym (unset_value c.default_timeout_seconds c.codex_timeout_seconds d)))
        ]
      ]
    ]

-- Where a role resolves, the time that its `source` names is configured, and is its timeout; the
-- name `role` is that of the first level that sets one.
pub resolve_role-names_timeout :
    (paths : Paths) (c : Config) (role : String) (repo_id : Option String)
    (overrides : List (Option RoleConfig)) (base : RoleConfig) (r : ResolvedRoleConfig)
    → lookup role c.roles ≡ some base
    → resolve_role paths c role repo_id overrides ≡ ok r
    → lookup r.source.timeout
        (times c (first_of (λ l. l.timeout_seconds) (levels c role repo_id overrides base)))
      ≡ some (some r.timeout_seconds)
unfolding resolved merge_role_config
resolve_role-names_timeout paths c role repo_id overrides base r e h =
    let (repo, skills, a, k) = resolve_role-inverts paths c role repo_id overrides base r e h in
    let final = merge_role_config (merge_all base overrides) repo in
    let t =
      final-first_of paths c role repo_id overrides (λ l. l.timeout_seconds) base repo (λ b o. refl)
        a in
    ap (λ own. lookup r.source.timeout (times c own)) (sym t)
    ∙ (sym (ap (λ r. lookup r.source.timeout (times c final.timeout_seconds)) k)
        ∙ (timeout_source-times c role final.timeout_seconds
            ∙ ap (λ r. some (some r.timeout_seconds)) k))

-- Where a configured path is: a path that is absolute after its `~` is expanded is resolved as it
-- is, another one below the project's root.
abbrev pub IsLocated : Paths → String → String → String → Type 0
IsLocated paths root value path =
    (paths.is_absolute (paths.expanduser value) ≡ true
      → path ≡ paths.resolve (paths.expanduser value))
    × (paths.is_absolute (paths.expanduser value) ≡ false
        → path ≡ paths.resolve (paths.join root (paths.expanduser value)))

-- One path for each value, in their order.
abbrev pub AreLocated : Paths → String → List String → List String → Type 0
AreLocated paths root [] [] = Unit
AreLocated paths root [] (p ∷ ps) = ⊥
AreLocated paths root (v ∷ vs) [] = ⊥
AreLocated paths root (v ∷ vs) (p ∷ ps) = IsLocated paths root v p × AreLocated paths root vs ps
