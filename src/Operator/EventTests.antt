-- ===== src/Operator/EventTests.antt =====
-- The theorems on the event log at concrete events.
use autobugfix_loop.Prelude.{
  ◌≡◌, refl, String, none, List, [], ◌∷◌, ok, ◌==◌, filter, map, arith, false, eq_iff, is_safe_id,
}
use autobugfix_loop.Operator.Projection.{request_created, request_closed}
use autobugfix_loop.Operator.Events.{LoggedEvent, NewEvent, EventRow, read_events, row_of}
use autobugfix_loop.Operator.Events.Chain.{append_all, chain, read_events-append_all}
use autobugfix_loop.Operator.Events.Head.{HasNoCollision, head-fixes_log}

-- Identifiers are unique here, so they serve as hashes.
abbrev hash : LoggedEvent → String
hash e = e.event_id

abbrev calls : List NewEvent
calls =
    record {
      event_id = "1";
      request_id = "a";
      kind = request_created;
      actor = "x";
      payload = "{}";
      created_at = "";
    }
    ∷ record {
      event_id = "2";
      request_id = "b";
      kind = request_created;
      actor = "x";
      payload = "{}";
      created_at = "";
    }
    ∷ record {
      event_id = "3";
      request_id = "a";
      kind = request_closed "done";
      actor = "x";
      payload = "{}";
      created_at = "";
    }
    ∷ []

read_events-append_all_example :
    (rows : List EventRow) × (append_all hash ("a" ∷ "b" ∷ []) calls [] ≡ ok rows)
    × (read_events hash "a" rows ≡ ok (chain hash none (filter (λ n. n.request_id == "a") calls)))
unfolding is_safe_id
read_events-append_all_example = read_events-append_all hash ("a" ∷ "b" ∷ []) "a" calls refl refl

abbrev events : List LoggedEvent
events = chain hash none (filter (λ n. n.request_id == "a") calls)

abbrev rows : List EventRow
rows = map (row_of hash) events

read_back : read_events hash "a" rows ≡ ok events
unfolding read_events is_safe_id
read_back = refl

apart : (e f : LoggedEvent) (a b : String) → (a == b) ≡ false → a ≡ b → e ≡ f
apart e f a b n h = ground (arith, eq_iff a b)

-- The two events have different hashes.
distinct : HasNoCollision hash events events
distinct = (
  ((λ h. refl), ((λ h. apart _ _ "1" "3" refl h), tt)),
  (((λ h. apart _ _ "3" "1" refl h), ((λ h. refl), tt)), tt),
)

-- Another table: an event of another request stands before them.
abbrev stray : LoggedEvent
stray = record {
  event_id = "9";
  request_id = "b";
  kind = request_created;
  actor = "x";
  payload = "{}";
  previous_hash = none;
  created_at = "";
}

read_other : read_events hash "a" (row_of hash stray ∷ rows) ≡ ok events
unfolding read_events is_safe_id
read_other = refl

head-fixes_log_example : events ≡ events
head-fixes_log_example =
    head-fixes_log hash "a" rows (row_of hash stray ∷ rows) events events read_back read_other
      distinct refl
