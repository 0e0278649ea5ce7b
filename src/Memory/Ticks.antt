-- ===== src/Memory/Ticks.antt =====
-- What a tick of the memory gets done.
use autobugfix_loop.Prelude.{
  ℕ, zero, suc, ◌≤◌, ◌≡◌, refl, sym, subst, ap, ◌∙◌, ◌⊎◌, inl, inr, String, Bool, true, not, List,
  [], ◌∷◌, ◌++◌, map, arith, ◌==◌, eq_refl, eq_true, any, filter, find?, length, All, sort_by,
  str_le, Result, ok, raise, ok-injective, Bool-cases, Option-cases, Result-cases,
}
use autobugfix_loop.Memory.Service.{
  MemoryRoot, MemoryError, Digest, has_digest, digest, tick_loop, tick,
}

abbrev is_of : String → Digest → Bool
is_of id d = d.task_id == id

any-new :
    (id : String) (ds : List Digest) (new : Digest)
    → new.task_id ≡ id
    → any (is_of id) (ds ++ new ∷ []) ≡ true
any-new id [] new e = rw e (rw (eq_refl id) refl)
any-new id (d ∷ ds) new e = ground (arith, any-new id ds new e)

-- Replacing the digest of one task keeps those of the others.
any-replaced :
    (x id : String) (ds : List Digest) (new : Digest)
    → new.task_id ≡ id
    → any (is_of x) ds ≡ true
    → any (is_of x) (filter (λ d. not (d.task_id == id)) ds ++ new ∷ []) ≡ true
any-replaced x id [] new e h = ground (arith, h)
any-replaced x id (d ∷ ds) new e h = elim (Bool-cases (d.task_id == id)) [
  | inl t ↦ elim (Bool-cases (d.task_id == x)) [
    | inl u ↦
        let k : new.task_id ≡ x = e ∙ (sym (eq_true d.task_id id t) ∙ eq_true d.task_id x u) in
        rw t (any-new x (filter (λ d. not (d.task_id == id)) ds) new k)
    | inr u ↦ ground (arith, t, any-replaced x id ds new e (ground (arith, h, u)))
  ]
  | inr t ↦ elim (Bool-cases (d.task_id == x)) [
    | inl u ↦ ground (arith, t, u)
    | inr u ↦ ground (arith, t, u, any-replaced x id ds new e (ground (arith, h, u)))
  ]
]

abbrev Answer : Type 0
Answer = MemoryRoot × Result MemoryError (List String)

map_both : {A B C D : Type 0} → (A → C) → (B → D) → A ⊎ B → C ⊎ D
map_both f g (inl a) = inl (f a)
map_both f g (inr b) = inr (g b)

module _ (render_digest : String → String) where
  digest-keeps :
      (x id : String) (m : MemoryRoot)
      → has_digest x m.digests ≡ true
      → has_digest x (digest render_digest id m).0.digests ≡ true
  unfolding has_digest digest
  digest-keeps x id m h = elim (Option-cases (find? (λ r. r.task_id == id) m.raw)) [
    | inl n ↦ rw (n, digest) h
    | inr (r, e) ↦ elim (Option-cases r.packet) [
      | inl n ↦ rw (e, n, digest) h
      | inr (t, f) ↦
          rw (e, f, digest)
            (any-replaced x id m.digests (record { task_id = id; text = render_digest t }) refl h)
    ]
  ]

  digest-makes :
      (id : String) (m : MemoryRoot) (u : Unit {0})
      → (digest render_digest id m).1 ≡ ok u
      → has_digest id (digest render_digest id m).0.digests ≡ true
  unfolding has_digest digest
  digest-makes id m u h = elim (Option-cases (find? (λ r. r.task_id == id) m.raw)) [
    | inl n ↦ ground (arith, h, n)
    | inr (r, e) ↦ elim (Option-cases r.packet) [
      | inl n ↦ ground (arith, h, e, n)
      | inr (t, f) ↦
          rw (e, f, digest)
            (any-new id (filter (λ d. not (d.task_id == id)) m.digests)
              (record { task_id = id; text = render_digest t }) refl)
    ]
  ]

  tick_loop-keeps :
      (x : String) (left : ℕ) (ids : List String) (m : MemoryRoot)
      → has_digest x m.digests ≡ true
      → has_digest x (tick_loop render_digest left ids m).0.digests ≡ true
  unfolding tick_loop
  tick_loop-keeps x left [] m h = h
  tick_loop-keeps x zero (id ∷ ids) m h = h
  tick_loop-keeps x (suc left) (id ∷ ids) m h = elim (Bool-cases (has_digest id m.digests)) [
    | inl t ↦ rw (t, tick_loop) (tick_loop-keeps x (suc left) ids m h)
    | inr t ↦ elim (Result-cases (digest render_digest id m).1) [
      | inl (u, k) ↦
          rw (t, k, tick_loop)
            (tick_loop-keeps x left ids (digest render_digest id m).0 (digest-keeps x id m h))
      | inr (e, k) ↦ rw (t, k, tick_loop) (digest-keeps x id m h)
    ]
  ]

  -- All that are listed have a digest, or the number that is left was used up.
  abbrev pub IsCaughtUp : ℕ → List String → MemoryRoot → List String → Type 0
  IsCaughtUp left ids m done =
      (length done ≤ left) × ((length done ≡ left) ⊎ All (λ id. has_digest id m.digests ≡ true) ids)

  tick_loop-IsCaughtUp :
      (left : ℕ) (ids : List String) (m : MemoryRoot) (done : List String)
      → (tick_loop render_digest left ids m).1 ≡ ok done
      → IsCaughtUp left ids (tick_loop render_digest left ids m).0 done
  unfolding tick_loop
  tick_loop-IsCaughtUp left [] m done h = rw (← ok-injective [] done h) (omega arith, inr tt)
  tick_loop-IsCaughtUp zero (id ∷ ids) m done h =
      rw (← ok-injective [] done h) (omega arith, inl refl)
  tick_loop-IsCaughtUp (suc left) (id ∷ ids) m done h =
      elim (Bool-cases (has_digest id m.digests)) [
        | inl t ↦
            let e : tick_loop render_digest (suc left) ids m
                ≡ tick_loop render_digest (suc left) (id ∷ ids) m =
              rw (t, tick_loop) refl in
            let (a, b) =
              tick_loop-IsCaughtUp (suc left) ids m done (ap (λ (c : Answer). c.1) e ∙ h) in
            let all = map_both (λ n. n) (λ l. (tick_loop-keeps id (suc left) ids m t, l)) b in
            subst (λ (c : Answer). IsCaughtUp (suc left) (id ∷ ids) c.0 done) e (a, all)
        | inr t ↦ elim (Result-cases (digest render_digest id m).1) [
          | inr (x, k) ↦
              let made = (digest render_digest id m).0 in
              let e : tick_loop render_digest (suc left) (id ∷ ids) m ≡ (made, raise x) =
                rw (t, k, tick_loop) refl in
              ground (arith, ap (λ (c : Answer). c.1) (sym e) ∙ h)
          | inl (u, k) ↦
              let made = (digest render_digest id m).0 in
              let next = tick_loop render_digest left ids made in
              elim (Result-cases next.1) [
                | inr (x, q) ↦
                    let e : tick_loop render_digest (suc left) (id ∷ ids) m ≡ (next.0, raise x) =
                      rw (t, k, q, tick_loop) refl in
                    ground (arith, ap (λ (c : Answer). c.1) (sym e) ∙ h)
                | inl (rest, q) ↦
                    let e : (next.0, ok (id ∷ rest))
                        ≡ tick_loop render_digest (suc left) (id ∷ ids) m =
                      rw (t, k, q, tick_loop) refl in
                    let f = ok-injective (id ∷ rest) done (ap (λ (c : Answer). c.1) e ∙ h) in
                    let (a, b) = tick_loop-IsCaughtUp left ids made rest q in
                    let first = tick_loop-keeps id left ids made (digest-makes id m u k) in
                    let both : IsCaughtUp (suc left) (id ∷ ids) next.0 (id ∷ rest) =
                      (omega (arith, a), map_both (λ n. omega (arith, n)) (λ l. (first, l)) b) in
                    subst (λ (c : Answer). IsCaughtUp (suc left) (id ∷ ids) c.0 done) e
                      (subst (λ d. IsCaughtUp (suc left) (id ∷ ids) next.0 d) f both)
              ]
        ]
      ]

  -- A tick that returns has made at most as many digests as it may; and unless it made exactly so
  -- many, every task that has a raw directory has a digest afterwards.
  pub tick-IsCaughtUp :
      (max_tasks : ℕ) (m : MemoryRoot) (done : List String)
      → (tick render_digest max_tasks m).1 ≡ ok done
      → IsCaughtUp max_tasks
          (sort_by str_le (map (λ r. r.task_id) m.raw))
          (tick render_digest max_tasks m).0
          done
  unfolding tick
  tick-IsCaughtUp max_tasks m done h =
      tick_loop-IsCaughtUp max_tasks (sort_by str_le (map (λ r. r.task_id) m.raw)) m done h
