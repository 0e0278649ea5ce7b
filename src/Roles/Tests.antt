-- ===== src/Roles/Tests.antt =====
-- The theorems on roles for a writer whose repository sets the model, with one override.
use autobugfix_loop.Prelude.{◌≡◌, refl, none, some, [], ◌∷◌, ok, true, false}
use autobugfix_loop.Roles.Config.{
  RoleConfig, ResolvedRoleConfig, Config, Paths, lookup, first_set, or_else, value_or, resolve_role,
  timeout_fallback, merge_role_config,
}
use autobugfix_loop.Roles.Levels.{first_of, levels, resolve_role-takes_first}
use autobugfix_loop.Roles.Sources.{times, resolve_role-names_timeout}

abbrev paths : Paths
paths = record { expanduser = λ s. s; is_absolute = λ s. false; join = λ a b. b; resolve = λ s. s }

abbrev base : RoleConfig
base = record {
  backend = some "";
  model = some "small";
  sandbox = some "read-only";
  approval_mode = none;
  timeout_seconds = none;
  skill_paths = some ("fix" ∷ []);
  raw_log_template = none;
  stderr_log_template = none;
  allow_repo_overrides = some true;
}

abbrev override : RoleConfig
override = record {
  backend = none;
  model = some "medium";
  sandbox = some "workspace-write";
  approval_mode = none;
  timeout_seconds = none;
  skill_paths = none;
  raw_log_template = none;
  stderr_log_template = none;
  allow_repo_overrides = none;
}

abbrev of_repo : RoleConfig
of_repo = record {
  backend = none;
  model = some "large";
  sandbox = none;
  approval_mode = none;
  timeout_seconds = none;
  skill_paths = none;
  raw_log_template = none;
  stderr_log_template = none;
  allow_repo_overrides = none;
}

abbrev config : Config
config = record {
  project_root = "/p";
  default_model = none;
  default_timeout_seconds = some 60;
  codex_timeout_seconds = 1800;
  writer_timeout_seconds = some 90;
  evaluator_timeout_seconds = none;
  roles = ("writer", base) ∷ [];
  repos = ("app", ("writer", of_repo) ∷ []) ∷ [];
}

abbrev writer : ResolvedRoleConfig
writer = record {
  role = "writer";
  backend = "codex";
  model = some "large";
  sandbox = "workspace-write";
  approval_mode = "auto_review";
  timeout_seconds = 90;
  skill_paths = "fix" ∷ [];
  raw_log_template = "logs/writer-{iteration}.raw.jsonl";
  stderr_log_template = "logs/writer-{iteration}.stderr.log";
  allow_repo_overrides = true;
  source = record {
    base = "role override";
    model = "role";
    timeout = "scheduler.writer_timeout_seconds";
    repo_override = "repos.app.codex.roles.writer";
  };
}

resolves : resolve_role paths config "writer" (some "app") (some override ∷ []) ≡ ok writer
unfolding resolve_role merge_role_config
resolves = refl

resolve_role-takes_first_example :
    let ls = levels config "writer" (some "app") (some override ∷ []) base in
    (writer.model ≡ first_set (first_of (λ l. l.model) ls) config.default_model)
    × (writer.timeout_seconds
        ≡ value_or (first_of (λ l. l.timeout_seconds) ls) (timeout_fallback config "writer"))
    × (writer.sandbox ≡ or_else (first_of (λ l. l.sandbox) ls) "read-only")
    × (writer.backend ≡ or_else (first_of (λ l. l.backend) ls) "codex")
resolve_role-takes_first_example =
    resolve_role-takes_first paths config "writer" (some "app") (some override ∷ []) base writer
      refl resolves

resolve_role-names_timeout_example :
    lookup writer.source.timeout (
      times config (
        first_of
          (λ l. l.timeout_seconds)
          (levels config "writer" (some "app") (some override ∷ []) base)))
    ≡ some (some writer.timeout_seconds)
resolve_role-names_timeout_example =
    resolve_role-names_timeout paths config "writer" (some "app") (some override ∷ []) base writer
      refl resolves
