-- ===== src/Task/Stored.antt =====
-- What every directory of the store keeps, under each operation on the store.
use autobugfix_loop.Prelude.{
  ◌≡◌, inl, inr, refl, String, Bool, not, ◌&&◌, Option, some, List, [], ◌∷◌, ◌++◌, any, filter,
  truthy, opt_eq, find?, ◌==◌, Result, ok, raise, arith, All, Bool-cases, Option-cases,
  Result-cases,
}
use autobugfix_loop.Task.Model.{
  archived, task_created, worktree_created, task_archived, TaskDir, TaskError, append_event, Exec,
  get, TaskStore, on_task, run_in,
}
use autobugfix_loop.Task.Evaluator.{}
use autobugfix_loop.Task.Runner.{Config, RepoProfile}
use autobugfix_loop.Task.Service.{new_dir, created_dir, is_archivable, archive, create_task}
use autobugfix_loop.Task.Account.{IsAccounted}
use autobugfix_loop.Task.Triple.{Post, log_IsAccounted}
use autobugfix_loop.Task.Steps.{Accounted, add_context-IsAccounted}
use autobugfix_loop.Task.Runs.{}

-- Every directory of the store has its account.
pub record IsSound (s : TaskStore) : Type 0 where
  pub active : All IsAccounted s.active
  pub archived : All IsAccounted s.archived

pub Post-IsAccounted :
    {A : Type 0} (d : TaskDir) (r : Result TaskError A) → Post Accounted d r → IsAccounted d
Post-IsAccounted d (ok a) p = p
Post-IsAccounted d (raise e) p = p

run_in-All :
    {A : Type 0} (id : String) (m : Exec A) (ds out : List TaskDir) (r : Result TaskError A)
    → ((d : TaskDir) → IsAccounted d → IsAccounted (m d).0)
    → run_in id m ds ≡ some (out, r)
    → All IsAccounted ds
    → All IsAccounted out
run_in-All id m [] out r k h a = absurd (ground arith)
run_in-All id m (d ∷ ds) out r k h (v, a) = elim (Bool-cases (d.name == id)) [
  | inl y ↦ let e : (m d).0 ∷ ds ≡ out = ground arith in rw (← e) (k d v, a)
  | inr n ↦ elim (Option-cases (run_in id m ds)) [
    | inl p ↦ absurd (ground arith)
    | inr ((ds', r'), p) ↦
        let e : d ∷ ds' ≡ out = ground arith in rw (← e) (v, run_in-All id m ds ds' r' k p a)
  ]
]

pub on_task-IsSound :
    {A : Type 0} (id : String) (m : Exec A) (s : TaskStore)
    → ((d : TaskDir) → IsAccounted d → IsAccounted (m d).0)
    → IsSound s
    → IsSound (on_task id m s).0
unfolding on_task
on_task-IsSound id m s k v = elim (Option-cases (run_in id m s.active)) [
  | inr ((ds, r), p) ↦
      rw (p, on_task)
        (record { active = run_in-All id m s.active ds r k p v.active; archived = v.archived })
  | inl p ↦ elim (Option-cases (run_in id m s.archived)) [
    | inr ((ds, r), q) ↦
        rw (p, q, on_task)
          (record { active = v.active; archived = run_in-All id m s.archived ds r k q v.archived })
    | inl q ↦ rw (p, q, on_task) v
  ]
]

All-filter :
    (p : TaskDir → Bool) (ds : List TaskDir) → All IsAccounted ds → All IsAccounted (filter p ds)
All-filter p [] a = tt
All-filter p (d ∷ ds) (v, a) = elim (Bool-cases (p d)) [
  | inl y ↦ rw y (v, All-filter p ds a)
  | inr n ↦ rw n (All-filter p ds a)
]

All-append_one :
    (ds : List TaskDir) (d : TaskDir)
    → All IsAccounted ds
    → IsAccounted d
    → All IsAccounted (ds ++ d ∷ [])
All-append_one [] d a v = (v, tt)
All-append_one (e ∷ ds) d (w, a) v = (w, All-append_one ds d a v)

All-find? :
    (p : TaskDir → Bool) (ds : List TaskDir) (d : TaskDir)
    → find? p ds ≡ some d
    → All IsAccounted ds
    → IsAccounted d
All-find? p [] d h a = absurd (ground arith)
All-find? p (e ∷ ds) d h (v, a) = elim (Bool-cases (p e)) [
  | inl y ↦ let same : e ≡ d = ground arith in rw (← same) v
  | inr n ↦ All-find? p ds d (ground arith) a
]

-- Moving a task to the archive sets a state that asks for no grant.
shelved-IsAccounted :
    (d : TaskDir) (result : String)
    → IsAccounted d
    → IsAccounted (
        append_event
          (task_archived result)
          (record d { task = record d.task { state = archived; archived_result = some result } }))
shelved-IsAccounted d result v = log_IsAccounted (task_archived result) _ refl (record {
  numbered = v.numbered;
  runs = v.runs;
  acceptance = λ e. absurd (ground arith);
  approval = λ e. absurd (ground arith);
  deployment = λ e. absurd (ground arith);
  gate = λ e. absurd (ground arith);
})

pub archive-IsSound :
    (id result : String) (s : TaskStore) → IsSound s → IsSound (archive id result s).0
unfolding archive
archive-IsSound id result s v = elim (Result-cases (on_task id get s).1) [
  | inr (e, p) ↦ rw (p, archive) v
  | inl (task, p) ↦ elim (Bool-cases (is_archivable task.state)) [
    | inr n ↦ rw (p, n, archive) v
    | inl y ↦ elim (Option-cases (find? (λ (a : TaskDir). a.name == id) s.active)) [
      | inl q ↦ rw (p, y, q, archive) v
      | inr (d, q) ↦
          elim (Bool-cases (
            any (λ (a : TaskDir). a.name == id && opt_eq a.task.archived_result (some result))
              s.archived)) [
                | inl b ↦ rw (p, y, q, b, archive) v
                | inr b ↦
                    rw (p, y, q, b, archive)
                      (record {
                        active = All-filter (λ a. not (a.name == id)) s.active v.active;
                        archived = All-append_one s.archived _ v.archived (
                            shelved-IsAccounted d result
                              (All-find? (λ a. a.name == id) s.active d q v.active));
                      })
              ]
    ]
  ]
]

new_dir-IsAccounted :
    (r : RepoProfile) (id title body branch path : String)
    → IsAccounted (new_dir r id title body branch path)
new_dir-IsAccounted r id title body branch path = record {
  numbered = refl;
  runs = refl;
  acceptance = λ e. absurd (ground arith);
  approval = λ e. absurd (ground arith);
  deployment = λ e. absurd (ground arith);
  gate = λ e. absurd (ground arith);
}

created_dir-IsAccounted :
    (r : RepoProfile) (id title body branch path : String)
    → IsAccounted (created_dir r id title body branch path)
created_dir-IsAccounted r id title body branch path =
    let d = new_dir r id title body branch path in
    let v =
      log_IsAccounted (task_created r.repo_id title) d refl
        (new_dir-IsAccounted r id title body branch path) in
    log_IsAccounted (worktree_created branch path) _ refl (elim (Bool-cases (truthy body)) [
      | inl y ↦
          rw y (
            add_context-IsAccounted "initial" body (append_event (task_created r.repo_id title) d)
              v)
      | inr n ↦ rw n v
    ])

pub create-IsSound :
    (config : Config) (id repo_id title body : String) (worktree : Option (String × String))
    (s : TaskStore)
    → IsSound s
    → IsSound (create_task config id repo_id title body worktree s).0
unfolding create_task
create-IsSound config id repo_id title body worktree s v =
    elim (Option-cases (find? (λ (r : RepoProfile). r.repo_id == repo_id) config)) [
      | inl p ↦ rw (p, create_task) v
      | inr (r, p) ↦ elim (Option-cases worktree) [
        | inl q ↦ rw (p, q, create_task) v
        | inr ((branch, path), q) ↦
            elim (Bool-cases (any (λ (d : TaskDir). d.name == id) s.active)) [
              | inl b ↦ rw (p, q, b, create_task) v
              | inr b ↦
                  rw (p, q, b, create_task)
                    (record {
                      active =
                          All-append_one s.active _ v.active
                            (created_dir-IsAccounted r id title body branch path);
                      archived = v.archived;
                    })
            ]
      ]
    ]
