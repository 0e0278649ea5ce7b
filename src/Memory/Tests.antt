-- ===== src/Memory/Tests.antt =====
-- The theorems on the memory at a concrete memory.
use autobugfix_loop.Prelude.{◌≡◌, refl, true, some, List, [], ◌∷◌, ok, sort_by, str_le, map}
use autobugfix_loop.Memory.Service.{MemoryRoot, tick}
use autobugfix_loop.Memory.Active.{
  MemoryCall, digests_task, maintains, approves, rejects, approved_is_active, history,
  approved_stays_active,
}
use autobugfix_loop.Memory.Ticks.{IsCaughtUp, tick-IsCaughtUp}

abbrev collected : MemoryRoot
collected = record {
  raw =
      record { task_id = "b"; packet = some "pb" }
      ∷ record { task_id = "a"; packet = some "pa" }
      ∷ record { task_id = "c"; packet = some "pc" }
      ∷ [];
  digests = record { task_id = "a"; text = "old" } ∷ [];
  proposals = [];
  rejected = [];
  active = [];
}

ticked : (tick (λ p. p) 1 collected).1 ≡ ok ("b" ∷ [])
unfolding tick
ticked = refl

tick-IsCaughtUp_example :
    IsCaughtUp
      (λ p. p)
      1
      (sort_by str_le (map (λ r. r.task_id) collected.raw))
      (tick (λ p. p) 1 collected).0
      ("b" ∷ [])
tick-IsCaughtUp_example = tick-IsCaughtUp (λ p. p) 1 collected ("b" ∷ []) ticked

-- A proposal is approved, made anew on the same day, and approved again; another is rejected.
abbrev calls : List MemoryCall
calls =
    digests_task "b"
    ∷ maintains "a" "1-a" (some "x")
    ∷ approves "1-a" "fine"
    ∷ maintains "a" "1-a" (some "y")
    ∷ approves "1-a" "again"
    ∷ maintains "b" "1-b" (some "z")
    ∷ rejects "1-b"
    ∷ []

approved_stays_active_example : approved_is_active (history (λ p. p) calls collected) ≡ true
approved_stays_active_example = approved_stays_active (λ p. p) calls collected refl
