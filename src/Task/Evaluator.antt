-- ===== src/Task/Evaluator.antt =====
-- autobugfix/evaluator.py: how the evaluator's answer is read. PyYAML is a parameter.
use autobugfix_loop.Prelude.{
  ℕ, String, ◌||◌, Option, none, some, List, codes, codes_eq, contains, lower, strip, if◌then◌else◌,
}
use autobugfix_loop.Task.Model.{Decision, pass, needs_changes, block}

-- A mapping that `yaml.safe_load` returned: `str` of its two keys' values, where they are present.
pub record Answer : Type 0 where
  pub decision : Option String
  pub reason : Option String

pub record Verdict : Type 0 where
  pub decision : Decision
  pub reason : List ℕ

-- The decision of an answer that is no mapping, by the words in it.
unfoldable pub unstructured : String → Verdict
unfolding lower strip
unstructured text =
    let lowered = lower (codes text) in
    if contains (codes "needs_changes") lowered || contains (codes "needs changes") lowered
    then record { decision = needs_changes; reason = strip (codes text) }
    else if contains (codes "blocked") lowered
    then record { decision = block; reason = strip (codes text) }
    else if contains (codes "pass") lowered
    then record { decision = pass; reason = strip (codes text) }
    else record {
      decision = needs_changes;
      reason = codes "Evaluator output was not structured YAML.";
    }

abbrev or_text : Option String → String → String
or_text none d = d
or_text (some s) d = s

abbrev known_decision : List ℕ → Decision
known_decision s =
    if codes_eq s (codes "pass")
    then pass
    else if codes_eq s (codes "blocked")
    then block
    else needs_changes

-- `load` is `yaml.safe_load`, with `none` where it raises or the value is no mapping.
unfoldable pub parse_evaluator_decision : (String → Option Answer) → String → Verdict
unfolding unstructured strip
parse_evaluator_decision load text = elim (load text) [
  | none ↦ unstructured text
  | some answer ↦ record {
    decision = known_decision (strip (codes (or_text answer.decision "needs_changes")));
    reason = strip (codes (or_text answer.reason ""));
  }
]
