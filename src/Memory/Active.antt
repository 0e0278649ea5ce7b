-- ===== src/Memory/Active.antt =====
-- The approved memory over any history of calls.
use autobugfix_loop.Prelude.{
  ◌≡◌, ◌==◌, eq_true, refl, sym, String, Bool, true, false, not, ◌&&◌, ◌||◌, Option, none, some,
  List, [], ◌∷◌, ◌++◌, map, arith, any, all, filter, find?, any-append, and_split, eq_refl,
  if◌then◌else◌, inl, inr, Bool-cases, Option-cases, Result, ok, raise,
}
use autobugfix_loop.Task.Model.{TaskRecord}
use autobugfix_loop.Memory.Service.{
  MemoryRoot, MemoryError, Proposal, Section, Status, pending, approved, collect, digest, maintain,
  approve, reject, find_proposal, has_digest, is_collectable, put_packet, not_accepted,
}

-- The calls that change the memory, with what lies outside of them.
pub data MemoryCall : Type 0 where
  collects : TaskRecord → String → MemoryCall
  digests_task : String → MemoryCall
  maintains : String → String → Option String → MemoryCall
  approves : String → String → MemoryCall
  rejects : String → MemoryCall

abbrev is_approved_status : Status → Bool
is_approved_status approved = true
is_approved_status _ = false

-- The proposal has a section of its own in the active memory, where it is approved.
abbrev is_backed : List Section → Proposal → Bool
is_backed active p =
    not (is_approved_status p.status) || any (λ s. s.proposal_id == p.proposal_id) active

abbrev pub approved_is_active : MemoryRoot → Bool
approved_is_active m = all (is_backed m.active) m.proposals

module _ (render_digest : String → String) where
  abbrev pub perform : MemoryCall → MemoryRoot → MemoryRoot
  perform (collects task packet) m = (collect task packet m).0
  perform (digests_task id) m = (digest render_digest id m).0
  perform (maintains task id answer) m = (maintain task id answer m).0
  perform (approves id note) m = (approve id note m).0
  perform (rejects id) m = (reject id m).0

  abbrev pub history : List MemoryCall → MemoryRoot → MemoryRoot
  history [] m = m
  history (c ∷ cs) m = history cs (perform c m)

all-append :
    (p : Proposal → Bool) (xs ys : List Proposal) → all p (xs ++ ys) ≡ (all p xs && all p ys)
all-append p [] ys = refl
all-append p (x ∷ xs) ys = ground (arith, all-append p xs ys)

all-filter :
    (p q : Proposal → Bool) (xs : List Proposal) → all p xs ≡ true → all p (filter q xs) ≡ true
all-filter p q [] h = refl
all-filter p q (x ∷ xs) h = ground (arith, all-filter p q xs)

abbrev names : String → Section → Bool
names id s = s.proposal_id == id

backed-more :
    (active : List Section) (s : Section) (q : Proposal)
    → is_backed active q ≡ true
    → is_backed (active ++ s ∷ []) q ≡ true
backed-more active s q h = ground (arith, h, any-append (names q.proposal_id) active (s ∷ []))

backed-new :
    (active : List Section) (s : Section) (id : String)
    → s.proposal_id ≡ id
    → any (names id) (active ++ s ∷ []) ≡ true
backed-new [] s id e = rw e (rw (eq_refl id) refl)
backed-new (t ∷ active) s id e = ground (arith, backed-new active s id e)

-- One more section keeps what has one, and gives one to the proposal of its identifier.
all-approved :
    (active : List Section) (s : Section) (ps : List Proposal)
    → all (is_backed active) ps ≡ true
    → all
        (is_backed (active ++ s ∷ []))
        (map (λ q. if q.proposal_id == s.proposal_id then record q { status = approved } else q) ps)
      ≡ true
all-approved active s [] h = refl
all-approved active s (q ∷ ps) h =
    let (b, rest) = and_split (is_backed active q) (all (is_backed active) ps) h in
    let ih = all-approved active s ps rest in
    elim (Bool-cases (q.proposal_id == s.proposal_id)) [
      | inl t ↦
          let n = backed-new active s q.proposal_id (sym (eq_true q.proposal_id s.proposal_id t)) in
          rw (t, n, ih) refl
      | inr t ↦ rw (t, backed-more active s q b, ih) refl
    ]

digest-proposals :
    (render_digest : String → String) (id : String) (m : MemoryRoot)
    → ((digest render_digest id m).0.proposals ≡ m.proposals)
      × ((digest render_digest id m).0.active ≡ m.active)
unfolding digest
digest-proposals render_digest id m = elim (Option-cases (find? (λ r. r.task_id == id) m.raw)) [
  | inl n ↦ rw (n, digest) (refl, refl)
  | inr (r, e) ↦ elim (Option-cases r.packet) [
    | inl n ↦ rw (e, n, digest) (refl, refl)
    | inr (t, f) ↦ rw (e, f, digest) (refl, refl)
  ]
]

branch-keeps :
    (b : Bool) (x y : MemoryRoot × Result MemoryError (Unit {0}))
    → approved_is_active x.0 ≡ true
    → approved_is_active y.0 ≡ true
    → approved_is_active (if b then x else y).0 ≡ true
branch-keeps true x y h k = h
branch-keeps false x y h k = k

maintained :
    (task id text : String) (m : MemoryRoot)
    → approved_is_active m ≡ true
    → approved_is_active (maintain task id (some text) m).0 ≡ true
unfolding maintain
maintained task id text m h =
    let new : Proposal = record {
      proposal_id = id;
      task_id = task;
      status = pending;
      patch = some text;
    } in
    let old = filter (λ p. not (p.proposal_id == id)) m.proposals in
    let k = all-filter (is_backed m.active) (λ p. not (p.proposal_id == id)) m.proposals h in
    let e : all (is_backed m.active) (old ++ new ∷ []) ≡ true =
      ground (arith, k, all-append (is_backed m.active) old (new ∷ [])) in
    branch-keeps (has_digest task m.digests) _ _ e h

unanswered :
    (task id : String) (m : MemoryRoot)
    → approved_is_active m ≡ true
    → approved_is_active (maintain task id none m).0 ≡ true
unfolding maintain
unanswered task id m h = branch-keeps (has_digest task m.digests) _ _ h h

module _ (render_digest : String → String) where
  perform-keeps :
      (c : MemoryCall) (m : MemoryRoot)
      → approved_is_active m ≡ true
      → approved_is_active (perform render_digest c m) ≡ true
  unfolding collect maintain approve reject
  perform-keeps (collects task packet) m h =
      branch-keeps (is_collectable task) (put_packet task.task_id packet m, ok tt)
        (m, raise not_accepted) h h
  perform-keeps (digests_task id) m h =
      let (e, f) = digest-proposals render_digest id m in rw (e, f, perform) h
  perform-keeps (maintains task id none) m h = unanswered task id m h
  perform-keeps (maintains task id (some text)) m h = maintained task id text m h
  perform-keeps (approves id note) m h = elim (Option-cases (find_proposal id m.proposals)) [
    | inl n ↦ rw (n, perform, approve) h
    | inr (p, e) ↦
        rw (e, perform, approve)
          (all-approved m.active (record { proposal_id = id; note = note; text = p.patch })
            m.proposals h)
  ]
  perform-keeps (rejects id) m h = elim (Option-cases (find_proposal id m.proposals)) [
    | inl n ↦ rw (n, perform, reject) h
    | inr (p, e) ↦ elim (Option-cases (find_proposal id m.rejected)) [
      | inl n ↦
          rw (e, n, perform, reject)
            (all-filter (is_backed m.active) (λ q. not (q.proposal_id == id)) m.proposals h)
      | inr (q, f) ↦ rw (e, f, perform, reject) h
    ]
  ]

  -- From a memory in which it holds, after any history of calls that collect, digest, maintain, approve
  -- and reject, every proposal that is marked approved has a section of its own in the active memory.
  pub approved_stays_active :
      (cs : List MemoryCall) (m : MemoryRoot)
      → approved_is_active m ≡ true
      → approved_is_active (history render_digest cs m) ≡ true
  approved_stays_active [] m h = h
  approved_stays_active (c ∷ cs) m h =
      approved_stays_active cs (perform render_digest c m) (perform-keeps c m h)
