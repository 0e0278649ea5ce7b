-- ===== src/Eval/Tests.antt =====
-- The scorer's theorem at a concrete observation.
use autobugfix_loop.Prelude.{◌≡◌, true, some, none}
use autobugfix_loop.Eval.Scorers.{passed, EvalObservation, score_observation}
use autobugfix_loop.Eval.Verdicts.{passes, has_no_stage, is_flawless, score-passes}

abbrev clean : EvalObservation
clean = record {
  patch_required = true;
  generated_non_empty = true;
  execution_verifier_passed = some true;
  execution_reached_human_gate = true;
  oracle_status = passed;
  generated_equals_oracle = none;
  harness_error = "";
}

score-passes_example :
    (passes (score_observation clean).decision ≡ is_flawless clean)
    × (has_no_stage (score_observation clean).failure_stage ≡ is_flawless clean)
score-passes_example = score-passes clean
