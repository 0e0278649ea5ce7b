-- ===== src/Operator/Lease/Exclusion.antt =====
-- A lease keeps the others out until it is given up or times out.
use autobugfix_loop.Prelude.{
  ◌∙◌, ℕ, ◌+◌, ◌-◌, ◌≤◌, ◌≡◌, refl, sym, String, Bool, true, false, not, ◌&&◌, some, List, [], ◌∷◌,
  ◌++◌, leb, ◌==◌, eq_iff, eq_refl, filter, arith, ok, raise, inl, inr, Bool-cases, Option-cases,
  Result-cases,
}
use autobugfix_loop.Operator.Lease.{Lease, locked, find_lease, take_lease, drop_lease}

-- What the other clients of the store do, at their times.
pub data Event : Type 0 where
  takes : String → String → ℕ → Event
  drops : String → String → Event

-- A transaction that raises changes nothing.
unfoldable pub after : ℕ → List Event → List Lease → List Lease
after timeout [] leases = leases
after timeout (takes owner key now ∷ es) leases = elim (take_lease timeout owner key now leases) [
  | ok taken ↦ after timeout es taken
  | raise e ↦ after timeout es leases
]
after timeout (drops owner key ∷ es) leases = after timeout es (drop_lease owner key leases)

-- Events up to a time, none of which gives up the lease for its owner.
abbrev pub foreign : String → String → ℕ → List Event → Bool
foreign owner key end [] = true
foreign owner key end (takes o k now ∷ es) = leb now end && foreign owner key end es
foreign owner key end (drops o k ∷ es) = not (k == key && o == owner) && foreign owner key end es

find-filter :
    (key : String) (p : Lease → Bool) (ls : List Lease) (l : Lease)
    → find_lease key ls ≡ some l
    → p l ≡ true
    → find_lease key (filter p ls) ≡ some l
unfolding find_lease
find-filter key p [] l f h = cc
find-filter key p (x ∷ ls) l f h = elim (Bool-cases (x.key == key)) [
  | inl y ↦ let same : x ≡ l = ground arith in rw same (rw h (ground arith))
  | inr n ↦ ground (arith, find-filter key p ls l)
]

find-append :
    (key : String) (ls : List Lease) (m l : Lease)
    → find_lease key ls ≡ some l
    → find_lease key (ls ++ m ∷ []) ≡ some l
unfolding find_lease
find-append key [] m l f = cc
find-append key (x ∷ ls) m l f = ground (arith, find-append key ls m l)

find-key :
    (key : String) (ls : List Lease) (l : Lease)
    → find_lease key ls ≡ some l
    → (l.key == key) ≡ true
unfolding find_lease
find-key key [] l f = cc
find-key key (x ∷ ls) l f = elim (Bool-cases (x.key == key)) [
  | inl y ↦ let same : x ≡ l = ground arith in rw (← same) y
  | inr n ↦ find-key key ls l (ground arith)
]

find-none-append :
    (key : String) (ls : List Lease) (m : Lease)
    → (m.key == key) ≡ true
    → find_lease key (filter (λ l. not (l.key == key)) ls ++ m ∷ []) ≡ some m
unfolding find_lease
find-none-append key [] m h = ground arith
find-none-append key (x ∷ ls) m h = ground (arith, find-none-append key ls m h)

-- A lease that stands refuses the key until it times out.
take-locked :
    (timeout now : ℕ) (owner key : String) (ls : List Lease) (l : Lease)
    → find_lease key ls ≡ some l
    → now ≤ l.acquired_at + timeout
    → take_lease timeout owner key now ls ≡ raise locked
unfolding take_lease
take-locked timeout now owner key ls l f h =
    let d : now - l.acquired_at ≤ timeout = omega (arith, h) in ground arith

-- Taking another key keeps it.
take-other :
    (timeout now : ℕ) (owner k key : String) (ls taken : List Lease) (l : Lease)
    → (k == key) ≡ false
    → find_lease key ls ≡ some l
    → take_lease timeout owner k now ls ≡ ok taken
    → find_lease key taken ≡ some l
unfolding take_lease
take-other timeout now owner k key ls taken l n f h =
    let e : l.key ≡ key = (eq_iff l.key key).0 (find-key key ls l f) in
    let sep : (l.key == k) ≡ false = elim (Bool-cases (l.key == k)) [
      | inr x ↦ x
      | inl x ↦
          let s : k ≡ key = sym ((eq_iff l.key k).0 x) ∙ e in
          absurd (ground (arith, (eq_iff k key).1 s))
    ] in
    let kept : not (l.key == k) ≡ true = rw sep refl in
    let m =
      find-append key (filter (λ x. not (x.key == k)) ls)
        (record { key = k; owner = owner; acquired_at = now }) l
        (find-filter key (λ x. not (x.key == k)) ls l f kept) in
    elim (Option-cases (find_lease k ls)) [ inl p ↦ ground arith | inr (q, p) ↦ ground arith ]

stands :
    (timeout : ℕ) (owner key : String) (es : List Event) (ls : List Lease) (l : Lease)
    → find_lease key ls ≡ some l
    → l.owner ≡ owner
    → foreign owner key (l.acquired_at + timeout) es ≡ true
    → find_lease key (after timeout es ls) ≡ some l
unfolding after drop_lease
stands timeout owner key [] ls l f o h = f
stands timeout owner key (takes x k now ∷ es) ls l f o h = elim (Bool-cases (k == key)) [
  | inl y ↦
      let s : k ≡ key = (eq_iff k key).0 y in
      let r : take_lease timeout x k now ls ≡ raise locked =
        rw s (take-locked timeout now x key ls l f (ground arith)) in
      rw (r, after) (stands timeout owner key es ls l f o (ground arith))
  | inr n ↦ elim (Result-cases (take_lease timeout x k now ls)) [
    | inl (taken, p) ↦
        rw (p, after)
          (stands timeout owner key es taken l (take-other timeout now x k key ls taken l n f p) o
            (ground arith))
    | inr (e, p) ↦ rw (p, after) (stands timeout owner key es ls l f o (ground arith))
  ]
]
stands timeout owner key (drops x k ∷ es) ls l f o h =
    let keyed : l.key ≡ key = (eq_iff l.key key).0 (find-key key ls l f) in
    let kept : not (l.key == k && l.owner == x) ≡ true =
      rw (keyed, o) (ground (arith, eq_iff key k, eq_iff k key, eq_iff owner x, eq_iff x owner)) in
    stands timeout owner key es (drop_lease x k ls) l (find-filter key _ ls l f kept) o
      (ground arith)

take-found :
    (timeout now : ℕ) (owner key : String) (ls taken : List Lease)
    → take_lease timeout owner key now ls ≡ ok taken
    → find_lease key taken ≡ some (record { key = key; owner = owner; acquired_at = now })
unfolding take_lease
take-found timeout now owner key ls taken h =
    let m =
      find-none-append key ls (record { key = key; owner = owner; acquired_at = now })
        (eq_refl key) in
    elim (Option-cases (find_lease key ls)) [ inl p ↦ ground arith | inr (q, p) ↦ ground arith ]

-- Once a lease is taken, whatever other clients take or give up before it times out, as long as none
-- gives it up in the owner's name: it is still the owner's, and any attempt to take it raises.
pub lease_excludes :
    (timeout start now : ℕ) (owner other key : String) (es : List Event) (leases taken : List Lease)
    → take_lease timeout owner key start leases ≡ ok taken
    → foreign owner key (start + timeout) es ≡ true
    → now ≤ start + timeout
    → (find_lease key (after timeout es taken)
        ≡ some (record { key = key; owner = owner; acquired_at = start }))
      × (take_lease timeout other key now (after timeout es taken) ≡ raise locked)
lease_excludes timeout start now owner other key es leases taken t f n =
    let l : Lease = record { key = key; owner = owner; acquired_at = start } in
    let s =
      stands timeout owner key es taken l (take-found timeout start owner key leases taken t) refl
        f in
    (s, take-locked timeout now other key (after timeout es taken) l s n)
