-- ===== src/Operator/Events/Chain.antt =====
-- The event log: what is appended is read back.
use autobugfix_loop.Prelude.{
  all, any, any-append, not, false, opt_eq_refl, ◌≡◌, refl, sym, ap, ◌∙◌, String, Bool, true, ◌&&◌,
  Option, none, some, List, [], ◌∷◌, ◌++◌, map, opt_eq_refl, arith, eq_refl, eq_true, and_split,
  ◌==◌, truthy, filter, filter-append, get_last?, Result, ok, if◌then◌else◌, ◌>>=◌, bind-ok,
  ok-injective, inl, inr, Bool-cases, is_safe_id,
}
use mathlib.Core.Option.{map as map_option}
use mathlib.Core.List.{append-nil, append_assoc}
use autobugfix_loop.Operator.Records.{mem}
use autobugfix_loop.Operator.Store.{Error}
use autobugfix_loop.Operator.Events.{
  LoggedEvent, EventRow, NewEvent, rows_of, chained, row_of, append_event, load_event, load_events,
  check_chain, read_events,
}

module _ (hash : LoggedEvent → String) where
  -- The calls of `append_event`, in their order, where the requests are those given.
  abbrev pub append_all : List String → List NewEvent → List EventRow → Result Error (List EventRow)
  append_all requests [] rows = ok rows
  append_all requests (n ∷ ns) rows = do
    next ← append_event hash requests n rows
    append_all requests ns next

  -- Independent of the table: the events that a request's calls make, each after the one before it.
  abbrev pub chain : Option String → List NewEvent → List LoggedEvent
  chain previous [] = []
  chain previous (n ∷ ns) = let e = chained hash n previous in e ∷ chain (some (hash e)) ns

  pub load-row_of : (e : LoggedEvent) → load_event hash (row_of hash e) ≡ ok e
  unfolding load_event
  load-row_of e = elim (Bool-cases (truthy (hash e))) [
    | inl t ↦ rw (eq_refl (hash e), t) refl
    | inr t ↦ rw (eq_refl (hash e), t) refl
  ]

  load-rows : (es : List LoggedEvent) → load_events hash (map (row_of hash) es) ≡ ok es
  unfolding load_events
  load-rows [] = refl
  load-rows (e ∷ es) = rw (load-row_of e, load-rows es) refl

  check-chain : (p : Option String) (ns : List NewEvent) → check_chain hash p (chain p ns) ≡ ok tt
  unfolding check_chain
  check-chain p [] = refl
  check-chain p (n ∷ ns) = rw (opt_eq_refl p, check-chain (some (hash (chained hash n p))) ns) refl

  abbrev pub last_hash : List EventRow → Option String
  last_hash rows = map_option (λ (r : EventRow). r.event_hash) (get_last? rows)

  last_hash-append_one :
      (rows : List EventRow) (r : EventRow) → last_hash (rows ++ r ∷ []) ≡ some r.event_hash
  last_hash-append_one [] r = refl
  last_hash-append_one (x ∷ []) r = refl
  last_hash-append_one (x ∷ y ∷ rows) r = last_hash-append_one (y ∷ rows) r

  abbrev is_of : String → NewEvent → Bool
  is_of request_id n = n.request_id == request_id

  pub append-row :
      (requests : List String) (n : NewEvent) (rows next : List EventRow)
      → append_event hash requests n rows ≡ ok next
      → next ≡ rows ++ row_of hash (chained hash n (last_hash (rows_of n.request_id rows))) ∷ []
  unfolding append_event
  append-row requests n rows next h = elim (Bool-cases (is_safe_id n.request_id)) [
    | inr t ↦ ground (arith, h, t)
    | inl t ↦ elim (Bool-cases (any (λ r. r.event_id == n.event_id) rows)) [
      | inl u ↦ ground (arith, h, t, u)
      | inr u ↦ elim (Bool-cases (mem n.request_id requests)) [
        | inr v ↦ ground (arith, h, t, u, v)
        | inl v ↦
            let more = row_of hash (chained hash n (last_hash (rows_of n.request_id rows))) in
            let e : append_event hash requests n rows ≡ ok (rows ++ more ∷ []) =
              rw (t, u, v) refl in
            sym (ok-injective (rows ++ more ∷ []) next (sym e ∙ h))
      ]
    ]
  ]

  pub rows_of-append_one :
      (request_id : String) (rows : List EventRow) (r : EventRow)
      → rows_of request_id (rows ++ r ∷ [])
        ≡ rows_of request_id rows ++ (if r.request_id == request_id then r ∷ [] else [])
  unfolding rows_of
  rows_of-append_one request_id rows r =
      filter-append (λ r. r.request_id == request_id) rows (r ∷ [])

  rows-append_all :
      (requests : List String) (request_id : String) (ns : List NewEvent)
      (rows after : List EventRow)
      → append_all requests ns rows ≡ ok after
      → rows_of request_id after
        ≡ rows_of request_id rows
          ++ map
              (row_of hash)
              (chain (last_hash (rows_of request_id rows)) (filter (is_of request_id) ns))
  rows-append_all requests request_id [] rows after h =
      rw (append-nil (rows_of request_id rows))
        (ap (rows_of request_id) (sym (ok-injective rows after h)))
  rows-append_all requests request_id (n ∷ ns) rows after h =
      let (next, h1, h2) =
        bind-ok (append_event hash requests n rows) (λ t. append_all requests ns t) after h in
      let a = append-row requests n rows next h1 in
      let ih = rows-append_all requests request_id ns next after h2 in
      let r = row_of hash (chained hash n (last_hash (rows_of n.request_id rows))) in
      let b = ap (rows_of request_id) a ∙ rows_of-append_one request_id rows r in
      elim (Bool-cases (n.request_id == request_id)) [
        | inl t ↦
            let e = eq_true n.request_id request_id t in
            let q = chained hash n (last_hash (rows_of request_id rows)) in
            let more = rows_of request_id rows ++ row_of hash q ∷ [] in
            let c : rows_of request_id next ≡ more = b ∙ rw t (rw e refl) in
            let d : last_hash more ≡ some (hash q) =
              last_hash-append_one (rows_of request_id rows) (row_of hash q) in
            let f =
              append_assoc (rows_of request_id rows) (row_of hash q ∷ [])
                (map (row_of hash) (chain (some (hash q)) (filter (is_of request_id) ns))) in
            rw t (ih ∙ rw c (rw d f))
        | inr t ↦
            let c : rows_of request_id next ≡ rows_of request_id rows =
              b ∙ rw t (append-nil (rows_of request_id rows)) in
            rw t (ih ∙ rw c refl)
      ]

  -- What the table asks of the calls: safe identifiers of requests that are there, and event
  -- identifiers that are new.
  abbrev pub are_accepted : List String → List NewEvent → Bool
  are_accepted requests [] = true
  are_accepted requests (n ∷ ns) =
      is_safe_id n.request_id
      && (mem n.request_id requests
          && (all (λ m. not (n.event_id == m.event_id)) ns && are_accepted requests ns))

  abbrev are_new : List EventRow → List NewEvent → Bool
  are_new rows ns = all (λ m. not (any (λ r. r.event_id == m.event_id) rows)) ns

  are_new-append_one :
      (rows : List EventRow) (r : EventRow) (ns : List NewEvent)
      → are_new rows ns ≡ true
      → all (λ m. not (r.event_id == m.event_id)) ns ≡ true
      → are_new (rows ++ r ∷ []) ns ≡ true
  are_new-append_one rows r [] h k = refl
  are_new-append_one rows r (m ∷ ns) h k =
      let (a, b) = and_split (not (any (λ r. r.event_id == m.event_id) rows)) _ h in
      let (c, d) = and_split (not (r.event_id == m.event_id)) _ k in
      let e = any-append (λ (r : EventRow). r.event_id == m.event_id) rows (r ∷ []) in
      let f = are_new-append_one rows r ns b d in rw (e, f) (ground (arith, a, c))

  append_all-returns :
      (requests : List String) (ns : List NewEvent) (rows : List EventRow)
      → are_accepted requests ns ≡ true
      → are_new rows ns ≡ true
      → (after : List EventRow) × (append_all requests ns rows ≡ ok after)
  unfolding append_event
  append_all-returns requests [] rows h k = (rows, refl)
  append_all-returns requests (n ∷ ns) rows h k =
      let (s, t) = and_split (is_safe_id n.request_id) _ h in
      let (p, q) = and_split (mem n.request_id requests) _ t in
      let (d, t') = and_split (all (λ m. not (n.event_id == m.event_id)) ns) _ q in
      let (a, b) = and_split (not (any (λ r. r.event_id == n.event_id) rows)) _ k in
      let r = row_of hash (chained hash n (last_hash (rows_of n.request_id rows))) in
      let u : any (λ r. r.event_id == n.event_id) rows ≡ false = ground (arith, a) in
      let (after, e) =
        append_all-returns requests ns (rows ++ r ∷ []) t' (are_new-append_one rows r ns b d) in
      (after, rw (s, u, p) e)

  none-new : (ns : List NewEvent) → are_new [] ns ≡ true
  none-new [] = refl
  none-new (n ∷ ns) = none-new ns

  -- Starting from an empty table, appending events succeeds where their requests are stored under safe
  -- identifiers and no two of the events have the same identifier. Reading a request's events back
  -- then succeeds, with the events that were appended for it, in their order, each after the hash of
  -- the one before it.
  pub read_events-append_all :
      (requests : List String) (request_id : String) (ns : List NewEvent)
      → are_accepted requests ns ≡ true
      → is_safe_id request_id ≡ true
      → (rows : List EventRow) × (append_all requests ns [] ≡ ok rows)
        × (read_events hash request_id rows
            ≡ ok (chain none (filter (λ n. n.request_id == request_id) ns)))
  unfolding read_events
  read_events-append_all requests request_id ns h s =
      let (rows, e) = append_all-returns requests ns [] h (none-new ns) in
      let mine = filter (is_of request_id) ns in
      let f : rows_of request_id rows ≡ map (row_of hash) (chain none mine) =
        rows-append_all requests request_id ns [] rows e in
      (rows, e, rw (s, f, load-rows (chain none mine), check-chain none mine) refl)
