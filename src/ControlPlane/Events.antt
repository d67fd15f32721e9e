-- ===== src/ControlPlane/Events.antt =====
-- packages/hermeskill-control-plane/src/control_plane/api/events.py: the ingest of events and their pages. The
-- table of the events is apart from the store, oldest row first; its ids grow.
pub mod Paging
pub mod Ordered
pub mod Ingest
use mathlib.Core.List.{reverse}
use hermeskill.Common.{
  ℕ, ◌+◌, String, Bool, true, false, not, ◌&&◌, Option, none, some, List, [], ◌∷◌, ◌++◌, length,
  take, last?, keep_if, ltb, leb, nat_beq, is_some, ◌==◌, string_eq, nat_eq, if◌then◌else◌,
}
use hermeskill.Watcher.{Event}
use hermeskill.ControlPlane.{Agent, Store, Failure, Reply, Principal, load_agent_owned_by}

pub record EventRow : Type 0 where
  pub id : ℕ
  pub agent_id : String
  pub event : Event
  pub created_at : ℕ

pub record EventLog : Type 0 where
  pub rows : List EventRow
  pub next_id : ℕ

pub record EventPage : Type 0 where
  pub events : List EventRow
  pub next_before_id : Option ℕ
  pub last_id : Option ℕ

-- The rows of a batch, numbered from `id`.
unfoldable pub new_rows : ℕ → ℕ → String → List Event → List EventRow
new_rows id now agent_id [] = []
new_rows id now agent_id (e ∷ batch) =
    record { id = id; agent_id = agent_id; event = e; created_at = now }
    ∷ new_rows (id + 1) now agent_id batch

unfoldable pub add_all : ℕ → String → List Event → EventLog → Option Agent → Reply ℕ × EventLog
unfolding new_rows
add_all now agent_id batch log none = (Reply.failed Failure.not_found, log)
add_all now agent_id batch log (some agent) = (
  Reply.replied (length batch),
  record {
    rows = log.rows ++ new_rows log.next_id now agent_id batch;
    next_id = log.next_id + length batch;
  },
)

-- `post_events`
unfoldable pub post_events :
    ℕ → List Event → Principal → String → Store → EventLog → Reply ℕ × EventLog
unfolding add_all
post_events now batch principal agent_id db log =
    if ltb 1000 (length batch)
    then (Reply.failed (Failure.unprocessable "events"), log)
    else add_all now agent_id batch log
        (load_agent_owned_by agent_id principal.customer_id db.agents)

abbrev pub of_agent : String → EventLog → List EventRow
of_agent agent_id log = keep_if (λ r. r.agent_id == agent_id) log.rows

abbrev pub id_of : Option EventRow → Option ℕ
id_of none = none
id_of (some r) = some r.id

-- The page after a cursor, in ascending order.
unfoldable pub tail_page : ℕ → ℕ → String → EventLog → EventPage
tail_page limit after_id agent_id log =
    let events = take limit (keep_if (λ r. ltb after_id r.id) (of_agent agent_id log)) in
    record {
      events = events;
      next_before_id = none;
      last_id = elim (last? events) [ none ↦ some after_id | some r ↦ some r.id ];
    }

abbrev pub older : Option ℕ → List EventRow → List EventRow
older none rows = rows
older (some before_id) rows = keep_if (λ r. ltb r.id before_id) rows

abbrev first? : List EventRow → Option EventRow
first? [] = none
first? (r ∷ rows) = some r

-- The page before a cursor, in descending order.
unfoldable pub head_page : ℕ → Option ℕ → String → EventLog → EventPage
head_page limit before_id agent_id log =
    let events = take limit (older before_id (reverse (of_agent agent_id log))) in
    record {
      events = events;
      next_before_id = if nat_beq (length events) limit then id_of (last? events) else none;
      last_id = id_of (first? events);
    }

page_of : ℕ → Option ℕ → Option ℕ → String → EventLog → Option Agent → Reply EventPage
unfolding tail_page head_page
page_of limit before_id after_id agent_id log none = Reply.failed Failure.not_found
page_of limit before_id (some after_id) agent_id log (some agent) =
    Reply.replied (tail_page limit after_id agent_id log)
page_of limit before_id none agent_id log (some agent) =
    Reply.replied (head_page limit before_id agent_id log)

-- `list_events`
unfoldable pub list_events :
    ℕ → Option ℕ → Option ℕ → Principal → String → Store → EventLog → Reply EventPage
unfolding page_of
list_events limit before_id after_id principal agent_id db log =
    if not (leb 1 limit && leb limit 1000)
    then Reply.failed (Failure.unprocessable "limit")
    else if is_some before_id && is_some after_id
    then Reply.failed (Failure.bad_request "specify at most one of before_id or after_id")
    else page_of limit before_id after_id agent_id log
        (load_agent_owned_by agent_id principal.customer_id db.agents)
