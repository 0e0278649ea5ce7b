-- ===== src/Roles/Config.antt =====
-- role_config.py: `merge_role_config` and `resolve_role`. A dictionary is an association list whose
-- first entry of a key counts; the paths of pathlib are a parameter. A timeout is a
-- natural number, with which nothing is computed.
use autobugfix_loop.Prelude.{
  ℕ, String, Bool, true, false, ◌&&◌, Option, none, some, List, [], ◌∷◌, map, ◌==◌, truthy, any,
  find?, if◌then◌else◌, Result, ok, raise, ◌>>=◌,
}
use Prim.Native.String.{◌++◌}
use mathlib.Core.Option

pub record RoleConfig : Type 0 where
  pub backend : Option String
  pub model : Option String
  pub sandbox : Option String
  pub approval_mode : Option String
  pub timeout_seconds : Option ℕ
  pub skill_paths : Option (List String)
  pub raw_log_template : Option String
  pub stderr_log_template : Option String
  pub allow_repo_overrides : Option Bool

-- `source`: where the settings come from, by the four keys of the dictionary
pub record Source : Type 0 where
  pub base : String
  pub model : String
  pub timeout : String
  pub repo_override : String

pub record ResolvedRoleConfig : Type 0 where
  pub role : String
  pub backend : String
  pub model : Option String
  pub sandbox : String
  pub approval_mode : String
  pub timeout_seconds : ℕ
  pub skill_paths : List String
  pub raw_log_template : String
  pub stderr_log_template : String
  pub allow_repo_overrides : Bool
  pub source : Source

-- What `resolve_role` reads of the configuration, with each repository's `codex_roles`.
pub record Config : Type 0 where
  pub project_root : String
  pub default_model : Option String
  pub default_timeout_seconds : Option ℕ
  pub codex_timeout_seconds : ℕ
  pub writer_timeout_seconds : Option ℕ
  pub evaluator_timeout_seconds : Option ℕ
  pub roles : List (String × RoleConfig)
  pub repos : List (String × List (String × RoleConfig))

pub data RoleError : Type 0 where
  unknown_role : String → RoleError
  unknown_repo : String → RoleError
  no_skill_paths : String → RoleError

pub record Paths : Type 0 where
  pub expanduser : String → String
  pub is_absolute : String → Bool
  pub join : String → String → String
  pub resolve : String → String

abbrev pub lookup : {A : Type 0} → String → List (String × A) → Option A
lookup k xs = Option.map (λ e. e.1) (find? (λ e. e.0 == k) xs)

-- `a if a is not None else b`
abbrev pub first_set : {A : Type 0} → Option A → Option A → Option A
first_set none b = b
first_set (some a) b = some a

-- `a or b` for a string that may be None
abbrev pub or_else : Option String → String → String
or_else none b = b
or_else (some a) b = if truthy a then a else b

abbrev pub is_set : {A : Type 0} → Option A → Bool
is_set none = false
is_set (some a) = true

abbrev pub value_or : {A : Type 0} → Option A → A → A
value_or none b = b
value_or (some a) b = a

unfoldable pub merge_role_config : RoleConfig → Option RoleConfig → RoleConfig
merge_role_config base none = base
merge_role_config base (some override) = record {
  backend = first_set override.backend base.backend;
  model = first_set override.model base.model;
  sandbox = first_set override.sandbox base.sandbox;
  approval_mode = first_set override.approval_mode base.approval_mode;
  timeout_seconds = first_set override.timeout_seconds base.timeout_seconds;
  skill_paths = first_set override.skill_paths base.skill_paths;
  raw_log_template = first_set override.raw_log_template base.raw_log_template;
  stderr_log_template = first_set override.stderr_log_template base.stderr_log_template;
  allow_repo_overrides = first_set override.allow_repo_overrides base.allow_repo_overrides;
}

abbrev writer_set : Config → String → Bool
writer_set c role = role == "writer" && is_set c.writer_timeout_seconds

abbrev evaluator_set : Config → String → Bool
evaluator_set c role = role == "evaluator" && is_set c.evaluator_timeout_seconds

unfoldable pub timeout_fallback : Config → String → ℕ
timeout_fallback c role =
    if writer_set c role
    then value_or c.writer_timeout_seconds 0
    else if evaluator_set c role
    then value_or c.evaluator_timeout_seconds 0
    else value_or c.default_timeout_seconds c.codex_timeout_seconds

-- `source["timeout"]`, for a role whose merged settings have or lack a time of their own
unfoldable pub timeout_source : Config → String → Option ℕ → String
timeout_source c role (some t) = "role"
timeout_source c role none =
    if writer_set c role
    then "scheduler.writer_timeout_seconds"
    else if evaluator_set c role
    then "scheduler.evaluator_timeout_seconds"
    else if is_set c.default_timeout_seconds
    then "codex.default_timeout_seconds"
    else "scheduler.codex_timeout_seconds"

unfoldable pub merge_all : RoleConfig → List (Option RoleConfig) → RoleConfig
merge_all merged [] = merged
merge_all merged (override ∷ later) = merge_all (merge_role_config merged override) later

-- The settings of the repository, where a named one may override and has some for the role.
unfoldable pub repo_override :
    Config → String → Option String → Bool → Result RoleError (Option RoleConfig)
repo_override c role none allow = ok none
repo_override c role (some repo_id) allow =
    if truthy repo_id && allow then codex_role (lookup repo_id c.repos) else ok none
  where
    codex_role : Option (List (String × RoleConfig)) → Result RoleError (Option RoleConfig)
    codex_role none = raise (unknown_repo repo_id)
    codex_role (some codex_roles) = ok (lookup role codex_roles)

abbrev pub resolve_path : Paths → String → String → String
resolve_path paths project_root value =
    let path = paths.expanduser value in
    paths.resolve (if paths.is_absolute path then path else paths.join project_root path)

unfoldable pub resolve_skill_paths :
    Paths → String → String → Option (List String) → Result RoleError (List String)
resolve_skill_paths paths root role none = raise (no_skill_paths role)
resolve_skill_paths paths root role (some []) = raise (no_skill_paths role)
resolve_skill_paths paths root role (some (value ∷ values)) =
    ok (map (resolve_path paths root) (value ∷ values))

-- ROLE_LOG_DEFAULTS
unfoldable pub role_log_defaults : String → String × String
role_log_defaults role =
    value_or
      (lookup role (
        ("writer", ("logs/writer-{iteration}.raw.jsonl", "logs/writer-{iteration}.stderr.log"))
        ∷ (
          "evaluator",
          ("logs/evaluator-{iteration}.raw.jsonl", "logs/evaluator-{iteration}.stderr.log"),
        )
        ∷ (
          "controller",
          (".autobugfix/controller/{role}.raw.jsonl", ".autobugfix/controller/{role}.stderr.log"),
        )
        ∷ ("memory_maintainer", ("maintainer.raw.jsonl", "maintainer.stderr.log"))
        ∷ ("eval_judge", ("judge.raw.jsonl", "judge.stderr.log"))
        ∷ []))
      (role ++ ".raw.jsonl", role ++ ".stderr.log")

abbrev default_approval_mode : String → String
default_approval_mode sandbox = if sandbox == "workspace-write" then "auto_review" else "deny_all"

-- The result of `resolve_role` from the settings merged with the overrides and, `final`, with the
-- repository's too.
unfoldable pub resolved :
    Config
    → String
    → Option String
    → Bool
    → RoleConfig
    → Option RoleConfig
    → RoleConfig
    → List String
    → ResolvedRoleConfig
unfolding timeout_fallback timeout_source role_log_defaults
resolved c role repo_id overridden merged repo final skill_paths =
    let sandbox = or_else final.sandbox "read-only" in
    record {
      role = role;
      backend = or_else final.backend "codex";
      model = first_set final.model c.default_model;
      sandbox = sandbox;
      approval_mode = or_else final.approval_mode (default_approval_mode sandbox);
      timeout_seconds = value_or final.timeout_seconds (timeout_fallback c role);
      skill_paths = skill_paths;
      raw_log_template = or_else final.raw_log_template (role_log_defaults role).0;
      stderr_log_template = or_else final.stderr_log_template (role_log_defaults role).1;
      allow_repo_overrides = value_or merged.allow_repo_overrides true;
      source = record {
        base = if overridden then "role override" else "codex.roles";
        model = if is_set final.model then "role" else "codex.default_model";
        timeout = timeout_source c role final.timeout_seconds;
        repo_override =
            if is_set repo
            then "repos." ++ (value_or repo_id "" ++ (".codex.roles." ++ role))
            else "none";
      };
    }

abbrev pub base_of : Config → String → Result RoleError RoleConfig
base_of c role = found (lookup role c.roles)
  where
    found : Option RoleConfig → Result RoleError RoleConfig
    found none = raise (unknown_role role)
    found (some base) = ok base

unfoldable pub resolve_role :
    Paths
    → Config
    → String
    → Option String
    → List (Option RoleConfig)
    → Result RoleError ResolvedRoleConfig
unfolding merge_all repo_override resolve_skill_paths resolved
resolve_role paths c role repo_id overrides = do
  base ← base_of c role
  let merged = merge_all base overrides
  repo ← repo_override c role repo_id (value_or merged.allow_repo_overrides true)
  let final = merge_role_config merged repo
  skill_paths ← resolve_skill_paths paths c.project_root role final.skill_paths
  ok (resolved c role repo_id (any is_set overrides) merged repo final skill_paths)
