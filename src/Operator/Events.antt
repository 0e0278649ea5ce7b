-- ===== src/Operator/Events.antt =====
-- operator/store.py: the event log of the requests, a chain of hashes for each of them, and what of it
-- the projection reads. The table keeps the order of its sequence numbers. The hash of an event, the
-- SHA-256 of its canonical JSON, is a parameter. A `kind` comes with what the projection reads of the
-- payload; `payload` is the whole of it, in canonical JSON.
pub mod Chain
pub mod Head
use autobugfix_loop.Prelude.{
  String, Bool, true, false, not, ◌&&◌, Option, none, some, List, [], ◌∷◌, ◌++◌, map, ◌==◌, opt_eq,
  truthy, filter, get_last?, any, Result, ok, raise, raise_if, ◌>>=◌, ◌>>◌,
}
use mathlib.Core.Option.{map as map_option}
use autobugfix_loop.Operator.Store.{
  Error, integrity_error, safe_id, event_hash_mismatch, event_chain_mismatch,
}
use autobugfix_loop.Operator.Records.{mem}
use autobugfix_loop.Operator.Projection.{EventKind, OperatorEvent}

pub record LoggedEvent : Type 0 where
  pub event_id : String
  pub request_id : String
  pub kind : EventKind
  pub actor : String
  pub payload : String
  pub previous_hash : Option String
  pub created_at : String

pub record EventRow : Type 0 where
  -- the columns `event_id` and `request_id`
  pub event_id : String
  pub request_id : String
  pub event : LoggedEvent
  -- `event_hash` in the column `data`, "" where it is missing
  pub data_hash : String
  -- the column `event_hash`
  pub event_hash : String

-- What the caller of `append_event` gives, with the fresh identifier and the clock.
pub record NewEvent : Type 0 where
  pub event_id : String
  pub request_id : String
  pub kind : EventKind
  pub actor : String
  pub payload : String
  pub created_at : String

unfoldable pub rows_of : String → List EventRow → List EventRow
rows_of request_id rows = filter (λ r. r.request_id == request_id) rows

module _ (hash : LoggedEvent → String) where
  -- The event, after the hash of the one before it.
  abbrev pub chained : NewEvent → Option String → LoggedEvent
  chained n previous = record {
    event_id = n.event_id;
    request_id = n.request_id;
    kind = n.kind;
    actor = n.actor;
    payload = n.payload;
    previous_hash = previous;
    created_at = n.created_at;
  }

  abbrev pub row_of : LoggedEvent → EventRow
  row_of e = record {
    event_id = e.event_id;
    request_id = e.request_id;
    event = e;
    data_hash = hash e;
    event_hash = hash e;
  }

  -- An event identifier stands once, and the request has to be one of the table `requests`, whose
  -- identifiers are given.
  unfoldable pub append_event :
      List String → NewEvent → List EventRow → Result Error (List EventRow)
  unfolding rows_of
  append_event requests n rows = do
    safe_id n.request_id
    raise_if (any (λ r. r.event_id == n.event_id) rows) integrity_error
    raise_if (not (mem n.request_id requests)) integrity_error
    let previous = map_option (λ r. r.event_hash) (get_last? (rows_of n.request_id rows))
    ok (rows ++ row_of (chained n previous) ∷ [])

  -- The body of the first loop of `read_events`, with `OperatorEvent.from_dict`.
  unfoldable pub load_event : EventRow → Result Error LoggedEvent
  load_event r = do
    raise_if (truthy r.data_hash && not (r.data_hash == hash r.event)) event_hash_mismatch
    raise_if (not (r.event_hash == hash r.event)) event_hash_mismatch
    ok r.event

  unfoldable pub load_events : List EventRow → Result Error (List LoggedEvent)
  unfolding load_event
  load_events [] = ok []
  load_events (r ∷ rows) = do event ← load_event r; events ← load_events rows; ok (event ∷ events)

  -- The second loop.
  unfoldable pub check_chain : Option String → List LoggedEvent → Result Error (Unit {0})
  check_chain expected [] = ok tt
  check_chain expected (e ∷ events) = do
    raise_if (not (opt_eq e.previous_hash expected)) event_chain_mismatch
    check_chain (some (hash e)) events

  unfoldable pub read_events : String → List EventRow → Result Error (List LoggedEvent)
  unfolding rows_of load_events check_chain
  read_events request_id rows = do
    safe_id request_id
    events ← load_events (rows_of request_id rows)
    check_chain none events
    ok events

  -- What `project_request` reads of the events.
  unfoldable pub projected_events : List LoggedEvent → List OperatorEvent
  projected_events events = map (λ e. record { kind = e.kind; hash = hash e }) events
