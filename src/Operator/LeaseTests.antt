-- ===== src/Operator/LeaseTests.antt =====
-- The theorems on leases at concrete tables.
use autobugfix_loop.Prelude.{
  arith, is_safe_id, ◌==◌, if◌then◌else◌, ◌≡◌, refl, String, none, false, some, List, [], ◌∷◌, ok,
  raise,
}
use autobugfix_loop.Operator.Lease.{
  outer, Lease, locked, Holder, find_lease, take_lease, enter_lease, leave_lease,
}
use autobugfix_loop.Operator.Lease.Exclusion.{Event, takes, drops, after, lease_excludes}
use autobugfix_loop.Operator.Lease.Nesting.{enter_and_leave, lease_nests}

abbrev held_by_a : List Lease
held_by_a = record { key = "r"; owner = "a"; acquired_at = 5 } ∷ []

taken_by_a : take_lease 100 "a" "r" 5 [] ≡ ok held_by_a
unfolding take_lease
taken_by_a = refl

abbrev traffic : List Event
traffic = takes "b" "r" 50 ∷ takes "b" "q" 60 ∷ drops "b" "r" ∷ []

lease_excludes_example :
    (find_lease "r" (after 100 traffic held_by_a)
      ≡ some (record { key = "r"; owner = "a"; acquired_at = 5 }))
    × (take_lease 100 "b" "r" 105 (after 100 traffic held_by_a) ≡ raise locked)
lease_excludes_example =
    lease_excludes 100 5 105 "a" "b" "r" traffic [] held_by_a taken_by_a refl (omega arith)

abbrev thread : Holder
thread = record { owner = "a"; held = λ k. 0 }

abbrev inside : Holder
inside = record { owner = "a"; held = λ k. if k == "r" then 1 else 0 }

entered : enter_lease 100 5 "r" thread [] ≡ ok (outer, inside, held_by_a)
unfolding enter_lease is_safe_id take_lease
entered = refl

lease_nests_example :
    (within : Holder) × (enter_and_leave 2 100 400 "r" inside held_by_a ≡ ok (within, held_by_a))
    × (within.held "r" ≡ 1)
    × (find_lease "r" (leave_lease outer "r" within held_by_a).1 ≡ none)
    × ((other : String)
        → ("r" == other) ≡ false
        → find_lease other (leave_lease outer "r" within held_by_a).1 ≡ find_lease other held_by_a)
    × ((leave_lease outer "r" within held_by_a).0.held "r" ≡ 0)
lease_nests_example = lease_nests 100 5 400 2 "r" thread inside outer [] held_by_a entered refl
