-- ===== src/ControlPlane/Events/Ingest.antt =====
-- events.py: the table that a series of ingests leaves, and what its pages give back.
use mathlib.Core.List.{reverse, append_assoc, append-nil, reverse-reverse, map-append}
use hermeskill.Common.{
  ℕ, ◌+◌, ◌≤◌, String, ◌≡◌, refl, sym, ap, ◌∙◌, inl, inr, Bool, true, false, ◌&&◌, Bool-cases,
  Option, none, some, List, [], ◌∷◌, ◌++◌, map, length, keep_if, ltb, leb, is_some, ◌==◌, string_eq,
  if◌then◌else◌, arith,
}
use hermeskill.Watcher.{Event}
use hermeskill.ControlPlane.{Agent, Store, Principal, load_agent_owned_by}
use hermeskill.ControlPlane.Events.{EventRow, EventLog, new_rows, add_all, post_events, of_agent}
use hermeskill.ControlPlane.Events.Paging.{Rises, history, history_from}
use hermeskill.ControlPlane.Events.Ordered.{
  IsOrdered, IsOrdered-add_all, Rises-keep_if, Falls-reverse,
}

-- A call of `post_events`.
pub record Post : Type 0 where
  pub now : ℕ
  pub batch : List Event
  pub principal : Principal
  pub agent_id : String

abbrev pub empty_log : EventLog
empty_log = record { rows = []; next_id = 1 }

unfoldable pub ingest : List Post → Store → EventLog → EventLog
ingest [] db log = log
ingest (p ∷ ps) db log = ingest ps db (post_events p.now p.batch p.principal p.agent_id db log).1

-- What the table should have of an agent: the batches for it that are small enough and come from its customer.
abbrev pub is_accepted : Store → Post → Bool
is_accepted db p =
    leb (length p.batch) 1000
    && is_some (load_agent_owned_by p.agent_id p.principal.customer_id db.agents)

unfoldable pub accepted : String → Store → List Post → List Event
accepted agent_id db [] = []
accepted agent_id db (p ∷ ps) =
    (if is_accepted db p && (p.agent_id == agent_id) then p.batch else [])
    ++ accepted agent_id db ps

keep_if-append :
    (f : EventRow → Bool) (xs ys : List EventRow)
    → keep_if f (xs ++ ys) ≡ keep_if f xs ++ keep_if f ys
keep_if-append f [] ys = refl
keep_if-append f (x ∷ xs) ys = elim (Bool-cases (f x)) [
  | inl e ↦ rw e (ap (◌∷◌ x) (keep_if-append f xs ys))
  | inr e ↦ rw e (keep_if-append f xs ys)
]

abbrev pub event_of : EventRow → Event
event_of r = r.event

-- The events of a batch for an agent, as the agent `a` sees them.
events-new_rows :
    (a : String) (id now : ℕ) (agent_id : String) (batch : List Event)
    → map event_of (keep_if (λ r. r.agent_id == a) (new_rows id now agent_id batch))
      ≡ (if agent_id == a then batch else [])
unfolding new_rows
events-new_rows a id now agent_id [] = elim (Bool-cases (agent_id == a)) [
  | inl e ↦ rw e refl
  | inr e ↦ rw e refl
]
events-new_rows a id now agent_id (e ∷ batch) = elim (Bool-cases (agent_id == a)) [
  | inl h ↦ rw h (ap (◌∷◌ e) (rw h at (events-new_rows a (id + 1) now agent_id batch)))
  | inr h ↦ rw h (rw h at (events-new_rows a (id + 1) now agent_id batch))
]

events-add_all :
    (a : String) (now : ℕ) (agent_id : String) (batch : List Event) (log : EventLog)
    (o : Option Agent)
    → map event_of (of_agent a (add_all now agent_id batch log o).1)
      ≡ map event_of (of_agent a log) ++ (if is_some o && (agent_id == a) then batch else [])
unfolding add_all
events-add_all a now agent_id batch log none = sym (append-nil _)
events-add_all a now agent_id batch log (some agent) =
    let new = new_rows log.next_id now agent_id batch in
    ap (map event_of) (keep_if-append (λ r. r.agent_id == a) log.rows new)
    ∙ map-append event_of (of_agent a log) (keep_if (λ r. r.agent_id == a) new)
    ∙ ap (◌++◌ (map event_of (of_agent a log))) (events-new_rows a log.next_id now agent_id batch)

too_long : (n : ℕ) → ltb 1000 n ≡ true → leb n 1000 ≡ false
too_long n h = ground arith

fits : (n : ℕ) → ltb 1000 n ≡ false → leb n 1000 ≡ true
fits n h = ground arith

events-post_events :
    (a : String) (db : Store) (p : Post) (log : EventLog)
    → map event_of (of_agent a (post_events p.now p.batch p.principal p.agent_id db log).1)
      ≡ map event_of (of_agent a log)
        ++ (if is_accepted db p && (p.agent_id == a) then p.batch else [])
unfolding post_events
events-post_events a db p log = elim (Bool-cases (ltb 1000 (length p.batch))) [
  | inl e ↦ rw (e, too_long (length p.batch) e) (sym (append-nil _))
  | inr e ↦
      rw (e, fits (length p.batch) e)
        (events-add_all a p.now p.agent_id p.batch log
          (load_agent_owned_by p.agent_id p.principal.customer_id db.agents))
]

events-ingest :
    (a : String) (db : Store) (ps : List Post) (log : EventLog)
    → map event_of (of_agent a (ingest ps db log))
      ≡ map event_of (of_agent a log) ++ accepted a db ps
unfolding ingest accepted
events-ingest a db [] log = sym (append-nil _)
events-ingest a db (p ∷ ps) log =
    events-ingest a db ps (post_events p.now p.batch p.principal p.agent_id db log).1
    ∙ ap (λ es. es ++ accepted a db ps) (events-post_events a db p log)
    ∙ append_assoc (map event_of (of_agent a log)) _ (accepted a db ps)

IsOrdered-post_events :
    (db : Store) (p : Post) (log : EventLog)
    → IsOrdered log
    → IsOrdered (post_events p.now p.batch p.principal p.agent_id db log).1
unfolding post_events
IsOrdered-post_events db p log w = elim (Bool-cases (ltb 1000 (length p.batch))) [
  | inl e ↦ rw e w
  | inr e ↦ rw e (IsOrdered-add_all p.now p.agent_id p.batch log _ w)
]

IsOrdered-ingest :
    (ps : List Post) (db : Store) (log : EventLog) → IsOrdered log → IsOrdered (ingest ps db log)
unfolding ingest
IsOrdered-ingest [] db log w = w
IsOrdered-ingest (p ∷ ps) db log w = IsOrdered-ingest ps db _ (IsOrdered-post_events db p log w)

-- Whatever batches are posted, in whatever order, for whatever agents: with a limit of at least one, the pages
-- that follow one another from the newest event give, oldest first, exactly the accepted events of the agent,
-- each once and in the order in which they were posted.
pub pages_give_accepted_events :
    (limit : ℕ) (agent_id : String) (db : Store) (ps : List Post)
    → 1 ≤ limit
    → map event_of (
        reverse (
          history
            (length (reverse (of_agent agent_id (ingest ps db empty_log))) + 1)
            limit
            none
            agent_id
            (ingest ps db empty_log)))
      ≡ accepted agent_id db ps
pages_give_accepted_events limit agent_id db ps pos =
    let log = ingest ps db empty_log in
    let w = IsOrdered-ingest ps db empty_log (record { rises = unfold Rises in tt; below = tt }) in
    let rows = reverse (of_agent agent_id log) in
    ap (λ es. map event_of (reverse es))
      (history_from limit agent_id log pos (length rows + 1) none [] rows
        (Falls-reverse (of_agent agent_id log)
          (Rises-keep_if (λ r. r.agent_id == agent_id) log.rows w.rises))
        refl refl (omega arith))
    ∙ ap (map event_of) (reverse-reverse (of_agent agent_id log))
    ∙ events-ingest agent_id db ps empty_log
