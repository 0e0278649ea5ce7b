-- ===== src/Operator/LineTests.antt =====
-- The theorems on experiment lines and on the projection at concrete values.
use autobugfix_loop.Prelude.{
  true, is_safe_id, ◌≡◌, ◌≢◌, ◌+◌, refl, none, some, [], ◌∷◌, ◌++◌, ok, List,
}
use autobugfix_loop.Operator.Records.{open_line}
use autobugfix_loop.Operator.Records.Line.{ExperimentLine, Integration, candidate}
use autobugfix_loop.Operator.Store.{columns_agree, Tables, read_experiment_line}
use autobugfix_loop.Operator.Scenario.{asked}
use autobugfix_loop.Operator.Line.{
  insert_integration, set_line, update_line, same_line, validate_line_update, line_row,
  compare_and_swap_experiment_line, advance_experiment_line,
}
use autobugfix_loop.Operator.Line.Rows.{identity}
use autobugfix_loop.Operator.Line.History.{
  here, next, swap, advance, updates, line_history, swapped_once,
}
use autobugfix_loop.Operator.Projection.{
  apply_event, is_allowed, enter, project_from, OperatorEvent, EventKind, request_created,
  request_activated, writer_started, verification_accepted, request_closed, closed, Projection,
  project_request, new_projection,
}
use autobugfix_loop.Operator.Projection.Phases.{
  phases, is_walk, succeeds, finishes, project-is_walk, project-finishes, closed_stays,
}

abbrev line_0 : ExperimentLine
line_0 = record {
  line_id = "line";
  study_id = "study";
  branch = "experiment";
  base_sha = "aaa";
  head_sha = "aaa";
  generation = 0;
  active_checkpoint_id = some "h0";
  status = open_line;
  remote = none;
  created_at = "2026-01-01";
}

abbrev line_1 : ExperimentLine
line_1 = record line_0 { head_sha = "bbb"; generation = 1 }

abbrev line_2 : ExperimentLine
line_2 = record line_0 { head_sha = "ccc"; generation = 2 }

abbrev merged : Integration
merged = record {
  integration_id = "merge";
  study_id = "study";
  line_id = "line";
  kind = candidate;
  expected_head_sha = "bbb";
  expected_generation = 1;
  candidate_head_sha = "ddd";
  result_head_sha = "ccc";
  result_tree_sha = "eee";
  patch_digest = "p";
  policy_digest = "policy";
  actor = "operator";
  request_id = some "r";
  check_run_id = some "check";
  budget_grant_id = none;
  budget_digest = none;
  artifact_ids = [];
  created_at = "2026-01-02";
}

abbrev at_0 : Tables
at_0 = record asked { lines = line_row line_0 ∷ [] }

abbrev at_1 : Tables
at_1 = record asked { lines = line_row line_1 ∷ [] }

abbrev at_2 : Tables
at_2 = record asked { lines = line_row line_2 ∷ []; integrations = merged ∷ [] }

to_1 : compare_and_swap_experiment_line line_1 "aaa" 0 at_0 ≡ ok at_1
unfolding compare_and_swap_experiment_line read_experiment_line is_safe_id columns_agree
    validate_line_update same_line update_line set_line
to_1 = refl

to_2 : advance_experiment_line (λ r. true) line_2 merged at_1 ≡ ok at_2
unfolding advance_experiment_line read_experiment_line is_safe_id columns_agree validate_line_update
    same_line insert_integration update_line set_line
to_2 = refl

read_0 : read_experiment_line "line" at_0 ≡ ok line_0
unfolding read_experiment_line is_safe_id columns_agree
read_0 = refl

line_history_example :
    (b : ExperimentLine) × (read_experiment_line "line" at_2 ≡ ok b)
    × (identity b ≡ identity line_0)
    × (b.generation
        ≡ 0
          + updates "line" (
              next (next here (swap line_1 "aaa" 0 to_1)) (advance (λ r. true) line_2 merged to_2)))
line_history_example =
    line_history "line" line_0 at_0 at_2
      (next (next here (swap line_1 "aaa" 0 to_1)) (advance (λ r. true) line_2 merged to_2)) read_0

swapped_once_example : compare_and_swap_experiment_line line_1 "aaa" 0 at_2 ≢ ok at_1
swapped_once_example =
    swapped_once line_1 line_1 "aaa" "aaa" 0 at_0 at_1 at_2 at_1 to_1
      (next here (advance (λ r. true) line_2 merged to_2)) refl

abbrev events : List EventKind → List OperatorEvent
events [] = []
events (k ∷ ks) = record { kind = k; hash = "x" } ∷ events ks

abbrev short_log : List OperatorEvent
short_log = events (
    request_created
    ∷ request_activated "/w"
    ∷ verification_accepted "c" "p" "h"
    ∷ request_closed "merged"
    ∷ [])

abbrev short_end : Projection
short_end = record (new_projection "r") {
  state = closed;
  last_event_hash = some "x";
  workspace_path = some "/w";
  validation_id = some "c";
  patch_digest = some "p";
  head_sha = some "h";
  outcome = some "merged";
}

project_short : project_request "r" short_log ≡ ok short_end
unfolding project_request project_from enter is_allowed apply_event
project_short = refl

abbrev closed_log : List OperatorEvent
closed_log = events (request_created ∷ request_closed "dropped" ∷ [])

abbrev closed_end : Projection
closed_end = record (new_projection "r") {
  state = closed;
  last_event_hash = some "x";
  outcome = some "dropped";
}

project_closed : project_request "r" closed_log ≡ ok closed_end
unfolding project_request project_from enter is_allowed apply_event
project_closed = refl

abbrev long_end : Projection
long_end = record closed_end { active_writer_run_id = some "w2" }

project_long : project_request "r" (closed_log ++ events (writer_started "w2" ∷ [])) ≡ ok long_end
unfolding project_request project_from enter is_allowed apply_event
project_long = refl

project-is_walk_example : succeeds (project_request "r" short_log) ≡ is_walk (phases short_log)
project-is_walk_example = project-is_walk "r" short_log

project-finishes_example : finishes none (phases short_log) ≡ some closed
project-finishes_example = project-finishes "r" short_log short_end project_short

closed_stays_example : long_end.state ≡ closed
closed_stays_example =
    closed_stays "r" closed_log (events (writer_started "w2" ∷ [])) closed_end long_end
      project_closed refl project_long
