-- ===== src/Eval/Verdicts.antt =====
-- When the scorer passes a case.
use autobugfix_loop.Prelude.{
  ◌≡◌, Bool, true, false, not, ◌&&◌, ◌||◌, Option, none, some, truthy, arith,
}
use autobugfix_loop.Eval.Scorers.{
  EvalObservation, ScoreDecision, pass, Stage, is_passed, failure_stage_of, score_observation,
}

abbrev pub passes : ScoreDecision → Bool
passes pass = true
passes _ = false

abbrev pub has_no_stage : Option Stage → Bool
has_no_stage none = true
has_no_stage (some s) = false

abbrev verified : Option Bool → Bool
verified (some true) = true
verified _ = false

-- Independent of the chain of tests: everything that a pass asks for.
unfoldable pub is_flawless : EvalObservation → Bool
is_flawless o =
    not (truthy o.harness_error)
    && is_passed o.oracle_status
    && verified o.execution_verifier_passed
    && o.execution_reached_human_gate
    && (o.generated_non_empty || not o.patch_required)

-- A case is scored a pass exactly when the harness had no error, the oracle passed, the loop's own
-- verification passed, the loop reached the human gate, and there is a patch where one is required;
-- and exactly then no stage has failed.
pub score-passes :
    (o : EvalObservation)
    → (passes (score_observation o).decision ≡ is_flawless o)
      × (has_no_stage (score_observation o).failure_stage ≡ is_flawless o)
unfolding score_observation failure_stage_of is_flawless
score-passes o = ground arith
