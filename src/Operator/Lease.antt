-- ===== src/Operator/Lease.antt =====
-- operator/store.py: the context managers `request_lease` and `experiment_line_lease`, which are the
-- same code at two tables. Times are natural numbers, in any unit; a clock that goes back makes an
-- age of 0 here and a negative one there, which the timeout treats alike.
pub mod Exclusion
pub mod Nesting
use autobugfix_loop.Prelude.{
  ℕ, ◌+◌, ◌-◌, String, Bool, true, false, not, ◌&&◌, Option, none, some, List, [], ◌∷◌, ◌++◌, leb,
  nat_eq, ◌==◌, find?, filter, if◌then◌else◌, Result, ok, raise, ◌>>=◌, ◌>>◌, is_safe_id,
}

pub data LeaseError : Type 0 where
  unsafe_id locked : LeaseError

pub record Lease : Type 0 where
  pub key : String
  pub owner : String
  pub acquired_at : ℕ

-- A thread that uses the store: the store's owner name, and the thread's own `held` counts, 0 where
-- the dictionary has no key.
pub record Holder : Type 0 where
  pub owner : String
  pub held : String → ℕ

unfoldable pub find_lease : String → List Lease → Option Lease
find_lease key = find? (λ l. l.key == key)

-- The transaction on entry, where the thread does not hold the lease yet.
unfoldable pub take_lease : ℕ → String → String → ℕ → List Lease → Result LeaseError (List Lease)
unfolding find_lease
take_lease timeout owner key now leases =
    let taken = ok (
      filter (λ l. not (l.key == key)) leases
      ++ record { key = key; owner = owner; acquired_at = now } ∷ []) in
    elim (find_lease key leases) [
      | none ↦ taken
      | some l ↦ if leb (now - l.acquired_at) timeout then raise locked else taken
    ]

-- The transaction on exit.
unfoldable pub drop_lease : String → String → List Lease → List Lease
drop_lease owner key leases = filter (λ l. not (l.key == key && l.owner == owner)) leases

abbrev set_held : String → ℕ → Holder → Holder
set_held key n h = record h { held = λ k. if k == key then n else h.held k }

-- Which of the two `finally` blocks the context manager is left by: the one of an entry that found
-- the lease held by the thread, or the one of an entry that took it.
pub data Exit : Type 0 where
  nested outer : Exit

unfoldable pub enter_lease :
    ℕ → ℕ → String → Holder → List Lease → Result LeaseError (Exit × Holder × List Lease)
enter_lease timeout now key h leases =
    if not (is_safe_id key)
    then raise unsafe_id
    else if nat_eq (h.held key) 0
    then (do taken ← take_lease timeout h.owner key now leases; ok (outer, set_held key 1 h, taken))
    else ok (nested, set_held key (h.held key + 1) h, leases)

unfoldable pub leave_lease : Exit → String → Holder → List Lease → Holder × List Lease
leave_lease nested key h leases = (set_held key (h.held key - 1) h, leases)
leave_lease outer key h leases =
    let n = h.held key - 1 in
    (set_held key n h, if nat_eq n 0 then drop_lease h.owner key leases else leases)
