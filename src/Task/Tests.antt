-- ===== src/Task/Tests.antt =====
-- The task's theorems at concrete stores.
use autobugfix_loop.Task.Outcomes.{answers, outcome, run_task-outcome}
use autobugfix_loop.Task.Refused.{refused-keeps}
use autobugfix_loop.Prelude.{
  ok, raise, str_le, sort_by, Option, ◌≡◌, refl, String, true, none, some, List, [], ◌∷◌, take,
}
use autobugfix_loop.Task.Model.{
  TaskStore, wrong_state, TaskDir, on_task, accept, approve_ppe, exited,
}
use autobugfix_loop.Task.Runner.{run, conclude, evaluate, verify, Config, Nodes}
use autobugfix_loop.Task.Service.{gate_target, apply_gate, created_dir, run_task, create_task}
use autobugfix_loop.Task.Evaluator.{parse_evaluator_decision, Answer}
use autobugfix_loop.Task.Scheduler.{
  list_active, tick_limit, runnable_names, tick, tick_loop, run_in_order, tick_runs_first,
}
use autobugfix_loop.Task.Stored.{IsSound}
use autobugfix_loop.Task.Lifecycle.{
  perform, launch, Call, create, launch, gate, shelve, deploy, history, empty, history_accounted,
}

abbrev config : Config
config =
    record {
      repo_id = "service";
      main_checkout = "/checkout";
      ppe_enabled = true;
      ppe_command = some "make deploy";
    }
    ∷ []

abbrev yaml : String → Option Answer
yaml text = some (record { decision = some text; reason = none })

abbrev passing : Nodes
passing = record {
  writer = some "done";
  verifier = some (exited 0);
  diff = some "diff";
  evaluator = some "pass";
}

-- A task that is written, approved, deployed, accepted and archived.
abbrev whole_life : List Call
whole_life =
    create "t1" "service" "title" "body" (some ("branch", "/worktree"))
    ∷ launch "t1" passing
    ∷ gate "t1" approve_ppe
    ∷ deploy "t1" (exited 0)
    ∷ gate "t1" accept
    ∷ shelve "t1" "accepted"
    ∷ []

history_accounted_example : IsSound (history config yaml whole_life empty)
history_accounted_example = history_accounted config yaml whole_life

abbrev two_created : List Call
two_created =
    create "t2" "service" "second" "" (some ("b2", "/w2"))
    ∷ create "t1" "service" "first" "" (some ("b1", "/w1"))
    ∷ []

abbrev ticked : TaskStore
ticked = (tick config yaml (λ id. passing) (some 1) 4 (history config yaml two_created empty)).0

tick_runs_first_example :
    let names =
      take
        (tick_limit (some 1) 4)
        (runnable_names (list_active (history config yaml two_created empty))) in
    ("t1" ∷ [] ≡ names)
    × (run_in_order config yaml (λ id. passing) names (history config yaml two_created empty)
        ≡ (ticked, ok tt))
unfolding tick tick_loop list_active sort_by history create_task str_le tick_limit on_task run_task
    run verify evaluate conclude parse_evaluator_decision perform
tick_runs_first_example =
    tick_runs_first config yaml (λ id. passing) (some 1) 4 (history config yaml two_created empty)
      ticked ("t1" ∷ []) refl

abbrev fresh : TaskDir
fresh =
    created_dir
      (record {
        repo_id = "service";
        main_checkout = "/checkout";
        ppe_enabled = true;
        ppe_command = some "make deploy";
      })
      "t1" "title" "" "branch" "/worktree"

run_task-outcome_example :
    let after = run_task config yaml (answers "done" (exited 0) "diff" "pass") fresh in
    (after.1 ≡ ok tt)
    × (after.0.task.state ≡ outcome (exited 0) (parse_evaluator_decision yaml "pass").decision)
    × (after.0.task.iterations ≡ 1)
run_task-outcome_example =
    run_task-outcome config yaml
      (record {
        repo_id = "service";
        main_checkout = "/checkout";
        ppe_enabled = true;
        ppe_command = some "make deploy";
      })
      "done" "diff" "pass" (exited 0) fresh refl refl refl

accept_refused :
    (perform config yaml (gate "t1" accept) (history config yaml two_created empty)).1
    ≡ raise wrong_state
unfolding perform history on_task create_task apply_gate gate_target
accept_refused = refl

refused-keeps_example :
    (perform config yaml (gate "t1" accept) (history config yaml two_created empty)).0
    ≡ history config yaml two_created empty
refused-keeps_example =
    refused-keeps config yaml (gate "t1" accept) (history config yaml two_created empty) wrong_state
      refl accept_refused
