-- ===== src/Task/Scheduler.antt =====
-- autobugfix/scheduler.py: one tick runs the runnable tasks in the order of their directories.
use mathlib.Core.List.{append-nil, append_assoc}
use autobugfix_loop.Prelude.{
  ◌∙◌, refl, ℕ, zero, suc, ◌-◌, ◌≡◌, inl, inr, String, true, false, Option, none, some, List, [],
  ◌∷◌, ◌++◌, map, filter, take, length, leb, str_le, sort_by, Result, ok, raise, arith, Bool-cases,
  Result-cases, length-append,
}
use autobugfix_loop.Task.Model.{is_runnable, TaskDir, TaskError, TaskStore, on_task}
use autobugfix_loop.Task.Evaluator.{Answer}
use autobugfix_loop.Task.Runner.{Config, Nodes}
use autobugfix_loop.Task.Service.{run_task}

-- TaskStore.list_active: sorted by the path of the directory.
unfoldable pub list_active : TaskStore → List TaskDir
list_active s = sort_by (λ a b. str_le a.name b.name) s.active

-- `max_concurrent or default_max_concurrent`
unfoldable pub tick_limit : Option ℕ → ℕ → ℕ
tick_limit none default = default
tick_limit (some zero) default = default
tick_limit (some (suc n)) default = suc n

pub runnable_names : List TaskDir → List String
runnable_names ds =
    map (λ (d : TaskDir). d.name) (filter (λ (d : TaskDir). is_runnable d.task.state) ds)

module _ (config : Config) (yaml : String → Option Answer) (nodes : String → Nodes) where
  -- The loop; `ran` holds the tasks run so far, and what `run_task` raises ends the tick.
  unfoldable pub tick_loop :
      ℕ → List TaskDir → List String → TaskStore → TaskStore × Result TaskError (List String)
  tick_loop limit [] ran s = (s, ok ran)
  tick_loop limit (d ∷ ds) ran s = elim (leb limit (length ran)) [
    | true ↦ (s, ok ran)
    | false ↦ elim (is_runnable d.task.state) [
      | false ↦ tick_loop limit ds ran s
      | true ↦
          let after = on_task d.name (run_task config yaml (nodes d.name)) s in
          elim after.1 [
            | raise e ↦ (after.0, raise e)
            | ok u ↦ tick_loop limit ds (ran ++ d.name ∷ []) after.0
          ]
    ]
  ]

  unfoldable pub tick : Option ℕ → ℕ → TaskStore → TaskStore × Result TaskError (List String)
  tick max_concurrent default s = tick_loop (tick_limit max_concurrent default) (list_active s) [] s

  -- Independent of the tick: the named tasks are run, each after the one before it has returned.
  abbrev pub run_in_order : List String → TaskStore → TaskStore × Result TaskError (Unit {0})
  run_in_order [] s = (s, ok tt)
  run_in_order (name ∷ names) s =
      let after = on_task name (run_task config yaml (nodes name)) s in
      elim after.1 [ raise e ↦ (after.0, raise e) | ok u ↦ run_in_order names after.0 ]

  run_in_order-first :
      (name : String) (names : List String) (s : TaskStore) (u : Unit {0})
      → (on_task name (run_task config yaml (nodes name)) s).1 ≡ ok u
      → run_in_order (name ∷ names) s
        ≡ run_in_order names (on_task name (run_task config yaml (nodes name)) s).0
  run_in_order-first name names s u p = rw (p, run_in_order) refl

  -- The loop runs the first runnable tasks of those left, as many as there is room for.
  tick_loop-runs :
      (limit room : ℕ) (ds : List TaskDir) (ran out : List String) (s s' : TaskStore)
      → room ≡ limit - length ran
      → tick_loop limit ds ran s ≡ (s', ok out)
      → (out ≡ ran ++ take room (runnable_names ds))
        × (run_in_order (take room (runnable_names ds)) s ≡ (s', ok tt))
  unfolding tick_loop runnable_names
  tick_loop-runs limit zero [] ran out s s' e h = (rw append-nil (ground arith), ground arith)
  tick_loop-runs limit (suc room) [] ran out s s' e h = (rw append-nil (ground arith), ground arith)
  tick_loop-runs limit zero (d ∷ ds) ran out s s' e h =
      let full : leb limit (length ran) ≡ true = ground arith in
      (rw append-nil (ground arith), ground arith)
  tick_loop-runs limit (suc room) (d ∷ ds) ran out s s' e h =
      let left : leb limit (length ran) ≡ false = ground arith in
      elim (Bool-cases (is_runnable d.task.state)) [
        | inr idle ↦ rw idle (tick_loop-runs limit (suc room) ds ran out s s' e (ground arith))
        | inl due ↦
            let after = on_task d.name (run_task config yaml (nodes d.name)) s in
            elim (Result-cases after.1) [
              | inr (x, p) ↦ absurd (ground arith)
              | inl (u, p) ↦
                  let l = length-append ran (d.name ∷ []) in
                  let (o, r) =
                    tick_loop-runs limit room ds (ran ++ d.name ∷ []) out after.0 s'
                      (omega (arith, l)) (ground arith) in
                  rw due (
                    o ∙ append_assoc ran (d.name ∷ []) (take room (runnable_names ds)),
                    run_in_order-first d.name (take room (runnable_names ds)) s u p ∙ r,
                  )
            ]
      ]

  -- A tick that finishes has run the first runnable tasks of the store it starts from, in the order of
  -- their directories, as many as the limit allows (the given limit, or the configured one where none
  -- or 0 is given): it returns their names, and its store is the one that running them one after the
  -- other, none of which raises, makes.
  pub tick_runs_first :
      (max_concurrent : Option ℕ) (default : ℕ) (s s' : TaskStore) (out : List String)
      → tick max_concurrent default s ≡ (s', ok out)
      → (out ≡ take (tick_limit max_concurrent default) (runnable_names (list_active s)))
        × (run_in_order
              (take (tick_limit max_concurrent default) (runnable_names (list_active s)))
              s
            ≡ (s', ok tt))
  unfolding tick
  tick_runs_first m default s s' out h =
      tick_loop-runs (tick_limit m default) (tick_limit m default) (list_active s) [] out s s'
        (omega arith) h
