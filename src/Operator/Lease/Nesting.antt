-- ===== src/Operator/Lease/Nesting.antt =====
-- A thread that holds a lease enters it again freely, and the exit of its first entry gives it up.
use autobugfix_loop.Prelude.{
  ℕ, zero, suc, ◌+◌, ◌-◌, ◌≡◌, refl, String, true, false, not, none, List, [], ◌∷◌, ◌++◌, ◌==◌,
  eq_iff, eq_refl, filter, arith, ok, inl, inr, Bool-cases, Option-cases, Result-cases,
  if◌then◌else◌, is_safe_id, Result, ◌>>=◌, nat_eq,
}
use autobugfix_loop.Operator.Lease.{
  Lease, LeaseError, Exit, nested, outer, Holder, find_lease, take_lease, drop_lease, enter_lease,
  leave_lease,
}

-- So many entries of one thread, each inside the one before it, with their exits.
abbrev pub enter_and_leave :
    ℕ → ℕ → ℕ → String → Holder → List Lease → Result LeaseError (Holder × List Lease)
enter_and_leave zero timeout now key h ls = ok (h, ls)
enter_and_leave (suc n) timeout now key h ls = do
  entered ← enter_lease timeout now key h ls
  body ← enter_and_leave n timeout now key entered.1 entered.2
  ok (leave_lease entered.0 key body.0 body.1)

taken_table :
    (timeout now : ℕ) (owner key : String) (ls taken : List Lease)
    → take_lease timeout owner key now ls ≡ ok taken
    → filter (λ l. not (l.key == key)) ls
        ++ record { key = key; owner = owner; acquired_at = now } ∷ []
      ≡ taken
unfolding take_lease
taken_table timeout now owner key ls taken h = elim (Option-cases (find_lease key ls)) [
  | inl p ↦ ground arith
  | inr (q, p) ↦ ground arith
]

-- The table has no lease of the key once the one that was taken is dropped.
dropped_none :
    (owner key : String) (now : ℕ) (ls : List Lease)
    → find_lease key (
        drop_lease owner key (
          filter (λ l. not (l.key == key)) ls
          ++ record { key = key; owner = owner; acquired_at = now } ∷ []))
      ≡ none
unfolding find_lease drop_lease
dropped_none owner key now [] = rw (eq_refl key, eq_refl owner) refl
dropped_none owner key now (l ∷ ls) = elim (Bool-cases (l.key == key)) [
  | inl t ↦ rw t (dropped_none owner key now ls)
  | inr t ↦ ground (arith, t, dropped_none owner key now ls)
]

dropped_others :
    (owner key other : String) (ls : List Lease)
    → (key == other) ≡ false
    → find_lease other (drop_lease owner key ls) ≡ find_lease other ls
unfolding find_lease drop_lease
dropped_others owner key other [] n = refl
dropped_others owner key other (l ∷ ls) n = elim (Bool-cases (l.key == key)) [
  | inr t ↦ ground (arith, t, dropped_others owner key other ls n)
  | inl t ↦
      let s : (l.key == other) ≡ false = rw ((eq_iff l.key key).0 t) n in
      ground (arith, t, s, dropped_others owner key other ls n)
]

-- A thread's count, by so much for one key.
abbrev counted : String → ℕ → Holder → Holder
counted key n h = record { owner = h.owner; held = λ k. if k == key then n else h.held k }

enter_again :
    (m timeout now : ℕ) (key : String) (h : Holder) (ls : List Lease)
    → is_safe_id key ≡ true
    → h.held key ≡ suc m
    → enter_lease timeout now key h ls ≡ ok (nested, counted key (h.held key + 1) h, ls)
unfolding enter_lease
enter_again m timeout now key h ls s e =
    let z : nat_eq (h.held key) 0 ≡ false = ground (arith, e) in rw (s, z) refl

-- Entries of a thread that holds the lease leave the table and the thread's count as they are.
nested-keeps :
    (n m timeout now : ℕ) (key : String) (h : Holder) (ls : List Lease)
    → is_safe_id key ≡ true
    → h.held key ≡ suc m
    → (h' : Holder) × (enter_and_leave n timeout now key h ls ≡ ok (h', ls))
      × (h'.owner ≡ h.owner)
      × (h'.held key ≡ suc m)
unfolding leave_lease
nested-keeps zero m timeout now key h ls s e = (h, refl, refl, e)
nested-keeps (suc n) m timeout now key h ls s e =
    let inner = counted key (h.held key + 1) h in
    let (h', r, o, k) =
      nested-keeps n (suc m) timeout now key inner ls s (rw (eq_refl key, e) (omega arith)) in
    (
      counted key (h'.held key - 1) h',
      rw (enter_again m timeout now key h ls s e, r) refl,
      o,
      rw (eq_refl key, k) (omega arith),
    )

enter-facts :
    (timeout now : ℕ) (key : String) (h h' : Holder) (x : Exit) (ls ls' : List Lease)
    → enter_lease timeout now key h ls ≡ ok (x, h', ls')
    → h.held key ≡ 0
    → (is_safe_id key ≡ true)
      × (x ≡ outer)
      × (h'.owner ≡ h.owner)
      × (h'.held key ≡ 1)
      × (take_lease timeout h.owner key now ls ≡ ok ls')
unfolding enter_lease
enter-facts timeout now key h h' x ls ls' e z =
    elim (Result-cases (take_lease timeout h.owner key now ls)) [
      | inr (y, p) ↦ absurd (ground arith)
      | inl (taken, p) ↦
          let m : record { owner = h.owner; held = λ k. if k == key then 1 else h.held k } ≡ h' =
            ground arith in
          (
            ground arith,
            ground arith,
            rw (← m) refl,
            rw (← m) (rw (eq_refl key) refl),
            ground arith,
          )
    ]

-- A thread that has taken a lease enters it again at any time, also after its timeout, and to any
-- depth: none of these entries raises, and with their exits they leave the table of leases and the
-- thread's count as they are. The exit of the first entry then leaves no lease of the key in the
-- table, the leases of other keys as they are, and the thread's count at 0.
pub lease_nests :
    (timeout now later depth : ℕ) (key : String) (h h' : Holder) (x : Exit) (ls ls' : List Lease)
    → enter_lease timeout now key h ls ≡ ok (x, h', ls')
    → h.held key ≡ 0
    → (inside : Holder) × (enter_and_leave depth timeout later key h' ls' ≡ ok (inside, ls'))
      × (inside.held key ≡ 1)
      × (find_lease key (leave_lease x key inside ls').1 ≡ none)
      × ((other : String)
          → (key == other) ≡ false
          → find_lease other (leave_lease x key inside ls').1 ≡ find_lease other ls')
      × ((leave_lease x key inside ls').0.held key ≡ 0)
unfolding leave_lease
lease_nests timeout now later depth key h h' x ls ls' e z =
    let (s, out, o, n, t) = enter-facts timeout now key h h' x ls ls' e z in
    let (inside, r, o', n') = nested-keeps depth 0 timeout later key h' ls' s n in
    let gone : find_lease key (drop_lease h.owner key ls') ≡ none =
      rw (← taken_table timeout now h.owner key ls ls' t) (dropped_none h.owner key now ls) in
    (
      inside,
      r,
      n',
      rw (out, n', o', o) gone,
      (λ other d. rw (out, n', o', o) (dropped_others h.owner key other ls' d)),
      rw (out, n') (rw (eq_refl key) refl),
    )
