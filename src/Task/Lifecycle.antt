-- ===== src/Task/Lifecycle.antt =====
-- Any history of service calls, from an empty store: a call that raises leaves what it wrote.
use autobugfix_loop.Prelude.{Result, String, Bool, Option, List, [], ◌∷◌}
use autobugfix_loop.Task.Model.{
  TaskError, ExitCode, GateAction, add_context, write, TaskStore, on_task,
}
use autobugfix_loop.Task.Evaluator.{Answer}
use autobugfix_loop.Task.Runner.{Config, Nodes}
use autobugfix_loop.Task.Service.{
  apply_gate, add_feedback, deploy_ppe, run_task, archive, create_task,
}
use autobugfix_loop.Task.Account.{}
use autobugfix_loop.Task.Triple.{}
use autobugfix_loop.Task.Steps.{
  apply_gate-IsAccounted, add_feedback-IsAccounted, add_context-IsAccounted, deploy-Triple,
}
use autobugfix_loop.Task.Runs.{run_task-Triple}
use autobugfix_loop.Task.Stored.{
  IsSound, Post-IsAccounted, on_task-IsSound, archive-IsSound, create-IsSound,
}

-- The calls of AutobugfixService, with what the world answers to them.
pub data Call : Type 0 where
  create : String → String → String → String → Option (String × String) → Call
  context : String → String → String → Call
  feedback : String → String → String → Bool → Call
  gate : String → GateAction → Call
  deploy : String → ExitCode → Call
  launch : String → Nodes → Call
  shelve : String → String → Call

module _ (config : Config) (yaml : String → Option Answer) where
  unfoldable pub perform : Call → TaskStore → TaskStore × Result TaskError (Unit {0})
  perform (create id repo_id title body worktree) s =
      create_task config id repo_id title body worktree s
  perform (context id kind content) s = on_task id (write (add_context kind content)) s
  perform (feedback id decision content queue_only) s =
      on_task id (add_feedback decision content queue_only) s
  perform (gate id action) s = on_task id (apply_gate action) s
  perform (deploy id result) s = on_task id (deploy_ppe config result) s
  perform (launch id nodes) s = on_task id (run_task config yaml nodes) s
  perform (shelve id result) s = archive id result s

  abbrev pub call : Call → TaskStore → TaskStore
  call c s = (perform c s).0

  unfoldable pub history : List Call → TaskStore → TaskStore
  history [] s = s
  history (c ∷ cs) s = history cs (call c s)

abbrev pub empty : TaskStore
empty = record { active = []; archived = [] }

module _ (config : Config) (yaml : String → Option Answer) where
  call-IsSound : (c : Call) (s : TaskStore) → IsSound s → IsSound (call config yaml c s)
  unfolding perform
  call-IsSound (create id repo_id title body worktree) s v =
      create-IsSound config id repo_id title body worktree s v
  call-IsSound (context id kind content) s v =
      on_task-IsSound id (write (add_context kind content)) s (add_context-IsAccounted kind content)
        v
  call-IsSound (feedback id decision content q) s v =
      on_task-IsSound id _ s (add_feedback-IsAccounted decision content q) v
  call-IsSound (gate id action) s v = on_task-IsSound id _ s (apply_gate-IsAccounted action) v
  call-IsSound (deploy id result) s v =
      on_task-IsSound id _ s (λ d w. Post-IsAccounted _ _ ((deploy-Triple config result).at d w)) v
  call-IsSound (launch id nodes) s v =
      on_task-IsSound id _ s
        (λ d w. Post-IsAccounted _ _ ((run_task-Triple config yaml nodes).at d w)) v
  call-IsSound (shelve id result) s v = archive-IsSound id result s v

  history-IsSound :
      (cs : List Call) (s : TaskStore) → IsSound s → IsSound (history config yaml cs s)
  unfolding history
  history-IsSound [] s v = v
  history-IsSound (c ∷ cs) s v = history-IsSound cs (call config yaml c s) (call-IsSound c s v)

  -- After any calls from an empty store, whatever the nodes and the world answer and wherever a call
  -- raises, every task, active or archived, has its account: its events are numbered 1, 2, …; its
  -- iterations are the runs that its log opens; it is accepted only if its log holds a human's
  -- acceptance, approved for or deployed to the PPE only if it holds a human's approval, and at the
  -- human gate only if it holds a passed verification and a passing evaluation.
  pub history_accounted : (cs : List Call) → IsSound (history config yaml cs empty)
  history_accounted cs = history-IsSound cs empty (record { active = tt; archived = tt })
