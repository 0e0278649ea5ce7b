-- ===== src/Operator/Line.antt =====
-- The experiment lines: operator/store.py from `initialize_experiment_line` to
-- `write_checkpoint_and_activate`. A line is the branch of a study, with the head that it has now and
-- a generation that each update advances.
pub mod Rows
pub mod History
use autobugfix_loop.Prelude.{
  some, ℕ, ◌+◌, String, Bool, true, false, none, some, not, ◌&&◌, ◌||◌, Option, List, [], ◌∷◌, ◌++◌,
  nat_eq, ◌==◌, opt_eq, count, any, if◌then◌else◌, Result, ok, raise_if, ◌>>=◌, ◌>>◌,
}
use autobugfix_loop.Operator.Records.Line.{ExperimentLine, Integration, Checkpoint}
use autobugfix_loop.Operator.Store.{
  Error, Tables, LineRow, or_raise, safe_id, find_study, read_experiment_line, missing_record,
  already_exists, not_h0, other_line, designates_other_line, baseline_id_mismatch,
  baseline_sha_mismatch, stale_line, identity_changed, generation_not_next, result_head_mismatch,
  not_activated, subject_not_head,
}

-- The row that the INSERT and the UPDATE write, with its columns from the record.
abbrev pub line_row : ExperimentLine → LineRow
line_row l = record {
  line_id = l.line_id;
  study_id = l.study_id;
  branch = l.branch;
  head_sha = l.head_sha;
  generation = l.generation;
  status = l.status;
  line = l;
}

abbrev has_study : String → Tables → Bool
has_study study t = any (λ s. s.study_id == study) t.studies

abbrev has_line : String → Tables → Bool
has_line line t = any (λ r. r.line_id == line) t.lines

-- INSERT INTO experiment_lines: the primary key, UNIQUE(study_id), UNIQUE(branch), the foreign key.
unfoldable pub insert_line : ExperimentLine → Tables → Result Error Tables
insert_line l t = do
  safe_id l.line_id
  raise_if
      (any (λ r. r.line_id == l.line_id || r.study_id == l.study_id || r.branch == l.branch) t.lines
        || not (has_study l.study_id t))
      already_exists
  ok (record t { lines = t.lines ++ line_row l ∷ [] })

-- INSERT INTO checkpoints: the primary key, UNIQUE(study_id, name) and the foreign keys.
unfoldable pub insert_checkpoint : Checkpoint → Tables → Result Error Tables
insert_checkpoint c t = do
  safe_id c.checkpoint_id
  raise_if
      (any
          (λ q.
            q.checkpoint_id == c.checkpoint_id || (q.study_id == c.study_id && q.name == c.name))
          t.checkpoints
        || not (has_study c.study_id t)
        || not (has_line c.line_id t))
      already_exists
  ok (record t { checkpoints = t.checkpoints ++ c ∷ [] })

-- INSERT INTO integrations; `known` is whether the requests table, not held here, has the id.
unfoldable pub insert_integration : (String → Bool) → Integration → Tables → Result Error Tables
insert_integration known i t = do
  safe_id i.integration_id
  raise_if
      (any (λ q. q.integration_id == i.integration_id) t.integrations
        || not (has_study i.study_id t)
        || not (has_line i.line_id t)
        || elim i.request_id [ none ↦ false | some r ↦ not (known r) ])
      already_exists
  ok (record t { integrations = t.integrations ++ i ∷ [] })

unfoldable pub initialize_experiment_line :
    ExperimentLine → Checkpoint → Tables → Result Error Tables
initialize_experiment_line l c t = do
  raise_if (not (c.name == "H0")) not_h0
  raise_if (not (c.study_id == l.study_id) || not (c.line_id == l.line_id)) other_line
  safe_id l.study_id
  study ← or_raise (find_study l.study_id t.studies) missing_record
  raise_if (not (study.line_id == l.line_id)) designates_other_line
  raise_if (not (study.base_checkpoint_id == c.checkpoint_id)) baseline_id_mismatch
  raise_if (not (study.base_subject_sha == c.subject_sha) || not (l.base_sha == c.subject_sha))
      baseline_sha_mismatch
  with_line ← insert_line l t
  insert_checkpoint c with_line

-- The fields of `immutable_before` and `immutable_after`.
unfoldable pub same_line : ExperimentLine → ExperimentLine → Bool
same_line a b =
    a.line_id == b.line_id
    && a.study_id == b.study_id
    && a.branch == b.branch
    && a.base_sha == b.base_sha
    && opt_eq a.remote b.remote
    && a.created_at == b.created_at

unfoldable pub validate_line_update :
    ExperimentLine → ExperimentLine → String → ℕ → Result Error (Unit {0})
validate_line_update current updated head generation = do
  raise_if (not (current.head_sha == head) || not (nat_eq current.generation generation)) stale_line
  raise_if (not (same_line current updated)) identity_changed
  raise_if (not (nat_eq updated.generation (generation + 1))) generation_not_next

-- WHERE line_id = ? AND head_sha = ? AND generation = ?
abbrev pub is_at : String → String → ℕ → LineRow → Bool
is_at line head generation r =
    r.line_id == line && r.head_sha == head && nat_eq r.generation generation

unfoldable pub set_line : ExperimentLine → String → ℕ → List LineRow → List LineRow
set_line l head generation [] = []
set_line l head generation (r ∷ rs) =
    (if is_at l.line_id head generation r
      then record r {
        head_sha = l.head_sha;
        generation = l.generation;
        status = l.status;
        line = l;
      }
      else r)
    ∷ set_line l head generation rs

-- The UPDATE and the test of its `rowcount`.
unfoldable pub update_line : ExperimentLine → String → ℕ → Tables → Result Error Tables
update_line l head generation t = do
  raise_if (not (nat_eq (count (is_at l.line_id head generation) t.lines) 1)) stale_line
  ok (record t { lines = set_line l head generation t.lines })

unfoldable pub compare_and_swap_experiment_line :
    ExperimentLine → String → ℕ → Tables → Result Error Tables
compare_and_swap_experiment_line l head generation t = do
  current ← read_experiment_line l.line_id t
  validate_line_update current l head generation
  update_line l head generation t

unfoldable pub advance_experiment_line :
    (String → Bool) → ExperimentLine → Integration → Tables → Result Error Tables
advance_experiment_line known l i t = do
  raise_if (not (i.line_id == l.line_id) || not (i.study_id == l.study_id)) other_line
  raise_if (not (i.result_head_sha == l.head_sha)) result_head_mismatch
  current ← read_experiment_line l.line_id t
  validate_line_update current l i.expected_head_sha i.expected_generation
  with_integration ← insert_integration known i t
  update_line l i.expected_head_sha i.expected_generation with_integration

unfoldable pub write_checkpoint_and_activate :
    ExperimentLine → Checkpoint → String → ℕ → Tables → Result Error Tables
write_checkpoint_and_activate l c head generation t = do
  raise_if (not (c.study_id == l.study_id) || not (c.line_id == l.line_id)) other_line
  raise_if (not (opt_eq l.active_checkpoint_id (some c.checkpoint_id))) not_activated
  raise_if (not (l.head_sha == c.subject_sha)) subject_not_head
  current ← read_experiment_line l.line_id t
  validate_line_update current l head generation
  with_checkpoint ← insert_checkpoint c t
  update_line l head generation with_checkpoint
