-- ===== src/Memory/Service.antt =====
-- memory/store.py and memory/service.py: the calls that change the memory.
use autobugfix_loop.Prelude.{
  ℕ, zero, suc, String, Bool, true, false, not, ◌||◌, ◌&&◌, Option, none, some, List, [], ◌∷◌, ◌++◌,
  map, str_le, ◌==◌, opt_eq, any, filter, find?, sort_by, if◌then◌else◌, Result, ok, raise,
}
use autobugfix_loop.Task.Model.{TaskState, accepted, archived, TaskRecord}

pub data Status : Type 0 where
  pending approved rejected : Status

-- A directory under proposals/ or rejected/: proposal.yaml, and patch.md where it exists.
pub record Proposal : Type 0 where
  pub proposal_id : String
  pub task_id : String
  pub status : Status
  pub patch : Option String

-- What `approve` appends to active/user-preferences.md.
pub record Section : Type 0 where
  pub proposal_id : String
  pub note : String
  pub text : Option String

-- A directory under raw/tasks/, with its packet.yaml where it exists, and a file under digests/tasks/.
pub record RawTask : Type 0 where
  pub task_id : String
  pub packet : Option String

pub record Digest : Type 0 where
  pub task_id : String
  pub text : String

pub record MemoryRoot : Type 0 where
  pub raw : List RawTask
  pub digests : List Digest
  pub proposals : List Proposal
  pub rejected : List Proposal
  pub active : List Section

pub data MemoryError : Type 0 where
  not_accepted missing_packet missing_digest unknown_proposal already_rejected backend_failed :
      MemoryError

abbrev Call : Type 0 → Type 0
Call A = MemoryRoot × Result MemoryError A

unfoldable pub find_proposal : String → List Proposal → Option Proposal
find_proposal id = find? (λ p. p.proposal_id == id)

unfoldable pub has_digest : String → List Digest → Bool
has_digest task_id = any (λ d. d.task_id == task_id)

abbrev is_accepted_state : TaskState → Bool
is_accepted_state accepted = true
is_accepted_state _ = false

abbrev is_archived_state : TaskState → Bool
is_archived_state archived = true
is_archived_state _ = false

unfoldable pub is_collectable : TaskRecord → Bool
is_collectable task =
    is_accepted_state task.state
    || (is_archived_state task.state && opt_eq task.archived_result (some "accepted"))

abbrev pub put_packet : String → String → MemoryRoot → MemoryRoot
put_packet task_id packet m = record m {
  raw =
      filter (λ r. not (r.task_id == task_id)) m.raw
      ++ record { task_id = task_id; packet = some packet } ∷ [];
}

-- `MemoryService.collect`, of a task that was loaded, with the packet that is made of it.
unfoldable pub collect : TaskRecord → String → MemoryRoot → Call (Unit {0})
unfolding is_collectable
collect task packet m =
    if is_collectable task
    then (put_packet task.task_id packet m, ok tt)
    else (m, raise not_accepted)

module _ (render_digest : String → String) where
  -- `MemoryService.digest`
  unfoldable pub digest : String → MemoryRoot → Call (Unit {0})
  digest task_id m = elim (find? (λ r. r.task_id == task_id) m.raw) [
    | none ↦ (m, raise missing_packet)
    | some r ↦ elim r.packet [
      | none ↦ (m, raise missing_packet)
      | some packet ↦ (
        record m {
          digests =
              filter (λ d. not (d.task_id == task_id)) m.digests
              ++ record { task_id = task_id; text = render_digest packet } ∷ [];
        },
        ok tt,
      )
    ]
  ]

  -- The loop of `MemoryService.tick`; the number is what is left of `max_tasks`.
  unfoldable pub tick_loop : ℕ → List String → MemoryRoot → Call (List String)
  unfolding has_digest digest
  tick_loop left [] m = (m, ok [])
  tick_loop zero (id ∷ ids) m = (m, ok [])
  tick_loop (suc left) (id ∷ ids) m =
      let made = digest id m in
      let next = tick_loop left ids made.0 in
      let skipped = tick_loop (suc left) ids m in
      if has_digest id m.digests then skipped else elim made.1 [
        | raise e ↦ (made.0, raise e)
        | ok u ↦ (next.0, elim next.1 [ raise e ↦ raise e | ok done ↦ ok (id ∷ done) ])
      ]

  -- `MemoryService.tick`
  unfoldable pub tick : ℕ → MemoryRoot → Call (List String)
  unfolding tick_loop sort_by str_le
  tick max_tasks m = tick_loop max_tasks (sort_by str_le (map (λ r. r.task_id) m.raw)) m

-- `MemoryService.maintain`; the arguments are the task, the identifier of its proposal, and the patch
-- that the maintainer's answer makes, where the backend answers. The proposal is written anew.
unfoldable pub maintain : String → String → Option String → MemoryRoot → Call (Unit {0})
unfolding has_digest
maintain task_id proposal_id answer m =
    if has_digest task_id m.digests
    then elim answer [
      | none ↦ (m, raise backend_failed)
      | some text ↦ (
        record m {
          proposals =
              filter (λ p. not (p.proposal_id == proposal_id)) m.proposals
              ++ record {
                proposal_id = proposal_id;
                task_id = task_id;
                status = pending;
                patch = some text;
              }
                ∷ [];
        },
        ok tt,
      )
    ]
    else (m, raise missing_digest)

-- `MemoryStore.approve`: whatever the status of the proposal.
unfoldable pub approve : String → String → MemoryRoot → Call (Unit {0})
unfolding find_proposal
approve id note m = elim (find_proposal id m.proposals) [
  | none ↦ (m, raise unknown_proposal)
  | some p ↦ (
    record m {
      active = m.active ++ record { proposal_id = id; note = note; text = p.patch } ∷ [];
      proposals =
          map (λ q. if q.proposal_id == id then record q { status = approved } else q) m.proposals;
    },
    ok tt,
  )
]

-- `MemoryStore.reject`
unfoldable pub reject : String → MemoryRoot → Call (Unit {0})
unfolding find_proposal
reject id m = elim (find_proposal id m.proposals) [
  | none ↦ (m, raise unknown_proposal)
  | some p ↦ elim (find_proposal id m.rejected) [
    | some q ↦ (m, raise already_rejected)
    | none ↦ (
      record m {
        proposals = filter (λ q. not (q.proposal_id == id)) m.proposals;
        rejected = m.rejected ++ record p { status = rejected } ∷ [];
      },
      ok tt,
    )
  ]
]
