-- ===== src/Operator/Events/Head.antt =====
-- The event log: the last hash of a log that is read fixes the whole of it.
use autobugfix_loop.Prelude.{
  ◌≡◌, refl, sym, ap, ◌∙◌, String, Option, none, some, List, [], ◌∷◌, arith, opt_eq, opt_eq→eq, All,
  ok, ◌>>=◌, ◌>>◌, bind-ok, ok-injective, inl, inr, Bool-cases,
}
use autobugfix_loop.Operator.Store.{safe_id}
use autobugfix_loop.Operator.Events.{
  LoggedEvent, EventRow, rows_of, load_events, check_chain, read_events,
}

-- A list onto another, from the back.
abbrev onto : List LoggedEvent → List LoggedEvent → List LoggedEvent
onto [] acc = acc
onto (e ∷ es) acc = onto es (e ∷ acc)

onto-onto : (es acc : List LoggedEvent) → onto (onto es acc) [] ≡ onto acc es
onto-onto [] acc = refl
onto-onto (e ∷ es) acc = onto-onto es (e ∷ acc)

onto-injective : (es fs : List LoggedEvent) → onto es [] ≡ onto fs [] → es ≡ fs
onto-injective es fs h = sym (onto-onto es []) ∙ (ap (λ l. onto l []) h ∙ onto-onto fs [])

All-onto :
    (P : LoggedEvent → Type 0) (es acc : List LoggedEvent)
    → All P es
    → All P acc
    → All P (onto es acc)
All-onto P [] acc all all' = all'
All-onto P (e ∷ es) acc all all' = All-onto P es (e ∷ acc) all.1 (all.0, all')

All-map :
    (P Q : LoggedEvent → Type 0) (es : List LoggedEvent)
    → ((e : LoggedEvent) → P e → Q e)
    → All P es
    → All Q es
All-map P Q [] f all = tt
All-map P Q (e ∷ es) f all = (f e all.0, All-map P Q es f all.1)

module _ (hash : LoggedEvent → String) where
  -- The hash that the next event follows, `previous` where there is no event.
  abbrev pub head_of : Option String → List LoggedEvent → Option String
  head_of previous [] = previous
  head_of previous (e ∷ es) = head_of (some (hash e)) es

  -- No two events of the two lists have the same hash.
  abbrev pub HasNoCollision : List LoggedEvent → List LoggedEvent → Type 0
  HasNoCollision es fs = All (λ e. All (λ f. hash e ≡ hash f → e ≡ f) fs) es

  -- The same, of a list from the back.
  abbrev top : List LoggedEvent → Option String
  top [] = none
  top (e ∷ es) = some (hash e)

  abbrev IsLinked : List LoggedEvent → Type 0
  IsLinked [] = Unit
  IsLinked (e ∷ es) = (e.previous_hash ≡ top es) × IsLinked es

  top-onto : (es acc : List LoggedEvent) → top (onto es acc) ≡ head_of (top acc) es
  top-onto [] acc = refl
  top-onto (e ∷ es) acc = top-onto es (e ∷ acc)

  chain-IsLinked :
      (es acc : List LoggedEvent)
      → check_chain hash (top acc) es ≡ ok tt
      → IsLinked acc
      → IsLinked (onto es acc)
  unfolding check_chain
  chain-IsLinked [] acc h l = l
  chain-IsLinked (e ∷ es) acc h l = elim (Bool-cases (opt_eq e.previous_hash (top acc))) [
    | inl t ↦
        chain-IsLinked es (e ∷ acc) (ground (arith, h, t))
          (opt_eq→eq e.previous_hash (top acc) t, l)
    | inr t ↦ ground (arith, h, t)
  ]

  linked-equal :
      (es fs : List LoggedEvent)
      → HasNoCollision es fs
      → IsLinked es
      → IsLinked fs
      → top es ≡ top fs
      → es ≡ fs
  linked-equal [] [] n l m h = refl
  linked-equal [] (f ∷ fs) n l m h = ground (arith, h)
  linked-equal (e ∷ es) [] n l m h = ground (arith, h)
  linked-equal (e ∷ es) (f ∷ fs) n l m h =
      let same : e ≡ f = n.0.0 (ground (arith, h)) in
      let before : top es ≡ top fs =
        sym l.0 ∙ (ap (λ (x : LoggedEvent). x.previous_hash) same ∙ m.0) in
      let less =
        All-map (λ x. All (λ y. hash x ≡ hash y → x ≡ y) (f ∷ fs))
          (λ x. All (λ y. hash x ≡ hash y → x ≡ y) fs) es (λ x a. a.1) n.1 in
      let rest = linked-equal es fs less l.1 m.1 before in
      ap (λ x. x ∷ es) same ∙ ap (λ l. f ∷ l) rest

  read-IsLinked :
      (request_id : String) (rows : List EventRow) (es : List LoggedEvent)
      → read_events hash request_id rows ≡ ok es
      → IsLinked (onto es [])
  unfolding read_events
  read-IsLinked request_id rows es h =
      let load = load_events hash (rows_of request_id rows) in
      let check = λ (l : List LoggedEvent). check_chain hash none l >> ok l in
      let (u, h0, h1) = bind-ok (safe_id request_id) (λ t. load >>= check) es h in
      let (loaded, h2, h3) = bind-ok load check es h1 in
      let (v, h4, h5) = bind-ok (check_chain hash none loaded) (λ t. ok loaded) es h3 in
      chain-IsLinked es [] (rw (← ok-injective loaded es h5) h4) tt

  -- Two logs that are both read without an error and whose last events have the same hash are the
  -- same, event by event, provided that no two of their events collide.
  pub head-fixes_log :
      (request_id : String) (rows other : List EventRow) (es fs : List LoggedEvent)
      → read_events hash request_id rows ≡ ok es
      → read_events hash request_id other ≡ ok fs
      → HasNoCollision es fs
      → head_of none es ≡ head_of none fs
      → es ≡ fs
  head-fixes_log request_id rows other es fs h k n e =
      let m =
        All-onto (λ x. All (λ y. hash x ≡ hash y → x ≡ y) (onto fs [])) es []
          (All-map (λ x. All (λ y. hash x ≡ hash y → x ≡ y) fs)
            (λ x. All (λ y. hash x ≡ hash y → x ≡ y) (onto fs [])) es
            (λ x a. All-onto (λ y. hash x ≡ hash y → x ≡ y) fs [] a tt) n)
          tt in
      onto-injective es fs (
        linked-equal (onto es []) (onto fs []) m (read-IsLinked request_id rows es h)
          (read-IsLinked request_id other fs k) (top-onto es [] ∙ (e ∙ sym (top-onto fs []))))
