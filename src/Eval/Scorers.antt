-- ===== src/Eval/Scorers.antt =====
-- eval/scorers.py, `score_observation`, with EvalObservation and EvalScore of eval/models.py.
use autobugfix_loop.Prelude.{
  String, Bool, true, false, not, ◌&&◌, ◌||◌, Option, none, some, truthy, if◌then◌else◌,
}

pub data OracleStatus : Type 0 where
  passed failed error : OracleStatus

-- Less the fields that the scorer does not read.
pub record EvalObservation : Type 0 where
  pub patch_required : Bool
  pub generated_non_empty : Bool
  pub execution_verifier_passed : Option Bool
  pub execution_reached_human_gate : Bool
  pub oracle_status : OracleStatus
  pub generated_equals_oracle : Option Bool
  pub harness_error : String

pub data ScoreDecision : Type 0 where
  pass fail harness_failure : ScoreDecision

pub data Stage : Type 0 where
  harness writer execution_verifier execution_evaluator oracle : Stage

pub record EvalScore : Type 0 where
  pub decision : ScoreDecision
  pub failure_stage : Option Stage
  pub generated_equals_oracle : Option Bool
  pub generated_non_empty : Bool
  pub execution_verifier_passed : Option Bool
  pub execution_reached_human_gate : Bool
  pub oracle_passed : Bool

abbrev is_error : OracleStatus → Bool
is_error error = true
is_error _ = false

abbrev pub is_passed : OracleStatus → Bool
is_passed passed = true
is_passed _ = false

-- `execution_verifier_passed is True`
abbrev is_true : Option Bool → Bool
is_true none = false
is_true (some b) = b

-- The chain of tests; `none` where there is no failure.
unfoldable pub failure_stage_of : EvalObservation → Option Stage
failure_stage_of o =
    if o.patch_required && not o.generated_non_empty
    then some writer
    else if not (is_true o.execution_verifier_passed)
    then some execution_verifier
    else if not o.execution_reached_human_gate
    then some execution_evaluator
    else if not (is_passed o.oracle_status)
    then some oracle
    else none

abbrev decision_of : Option Stage → ScoreDecision
decision_of none = pass
decision_of (some s) = fail

unfoldable pub score_observation : EvalObservation → EvalScore
unfolding failure_stage_of
score_observation o =
    if truthy o.harness_error || is_error o.oracle_status
    then record {
      decision = harness_failure;
      failure_stage = some harness;
      generated_equals_oracle = o.generated_equals_oracle;
      generated_non_empty = o.generated_non_empty;
      execution_verifier_passed = o.execution_verifier_passed;
      execution_reached_human_gate = o.execution_reached_human_gate;
      oracle_passed = false;
    }
    else record {
      decision = decision_of (failure_stage_of o);
      failure_stage = failure_stage_of o;
      generated_equals_oracle = o.generated_equals_oracle;
      generated_non_empty = o.generated_non_empty;
      execution_verifier_passed = o.execution_verifier_passed;
      execution_reached_human_gate = o.execution_reached_human_gate;
      oracle_passed = is_passed o.oracle_status;
    }
