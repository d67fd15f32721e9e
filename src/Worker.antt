-- ===== src/Worker.antt =====
-- packages/hermeskill-sdk/src/hermeskill/watcher.py: the registry of the process's watchers, the
-- background worker (heartbeats and the drain of events) and the poller of manual kills. The control
-- plane is what its answers are: for each request `none` or a failure, or its content. The asyncio tasks
-- that call a tick again and again are not modelled.
pub mod Drain
pub mod Poll
use hermeskill.Common.{
  ℕ, zero, suc, ◌+◌, String, Bool, true, false, Option, none, some, List, [], ◌∷◌, ◌++◌, length,
  take, drop, ◌==◌, string_eq, if◌then◌else◌,
}
use hermeskill.Watcher.{
  WatcherState, Clock, Grant, ManualKill, Event, drain_events, requeue_events, request_termination,
}
use hermeskill.Watcher.Values.{Reason}

abbrev pub event_batch_max : ℕ
event_batch_max = 500

-- `_REGISTRY`, in the order of insertion.
abbrev pub Registry : Type 0
Registry = List (String × WatcherState)

-- `_REGISTRY[id] = state`
put_watcher : String → WatcherState → Registry → Registry
put_watcher id s [] = (id, s) ∷ []
put_watcher id s ((k, t) ∷ r) = if k == id then (k, s) ∷ r else (k, t) ∷ put_watcher id s r

unfoldable pub register_watcher : WatcherState → Registry → Registry
unfolding put_watcher
register_watcher s r = put_watcher s.agent_id s r

unfoldable pub unregister_watcher : String → Registry → Registry
unregister_watcher id [] = []
unregister_watcher id ((k, s) ∷ r) =
    let rest = unregister_watcher id r in if k == id then rest else (k, s) ∷ rest

unfoldable pub get_watcher : String → Registry → Option WatcherState
get_watcher id [] = none
get_watcher id ((k, s) ∷ r) = if k == id then some s else get_watcher id r

-- `_heartbeat_one`: `none` stands for a failed request.
unfoldable pub heartbeat_one : Option (List Grant) → WatcherState → WatcherState
heartbeat_one none s = s
heartbeat_one (some grants) s = record s { grants = grants }

-- One POST of events as the worker meets it: whether it succeeds, and what the agent's hooks enqueue
-- while it is awaited.
pub record Post : Type 0 where
  pub succeeds : Bool
  pub meanwhile : List Event

-- What a drain leaves: the events that were posted, those that were enqueued meanwhile, and the state.
pub record Drained : Type 0 where
  pub posted : List Event
  pub arrived : List Event
  pub state : WatcherState

enqueue_all : List Event → WatcherState → WatcherState
enqueue_all es s = record s { pending_events = s.pending_events ++ es }

posted_chunk : List Event → List Event → Drained → Drained
posted_chunk chunk meanwhile d = record {
  posted = chunk ++ d.posted;
  arrived = meanwhile ++ d.arrived;
  state = d.state;
}

-- The loop over the chunks; `posts i` is the i-th POST, and the fuel is the number of events.
drain_chunks : ℕ → (ℕ → Post) → ℕ → List Event → WatcherState → Drained
unfolding enqueue_all posted_chunk requeue_events
drain_chunks fuel posts i [] s = record { posted = []; arrived = []; state = s }
drain_chunks zero posts i (e ∷ es) s = record { posted = []; arrived = []; state = s }
drain_chunks (suc fuel) posts i (e ∷ es) s =
    let p = posts i in
    let events = e ∷ es in
    let next = enqueue_all p.meanwhile s in
    let rest = drain_chunks fuel posts (i + 1) (drop event_batch_max events) next in
    if p.succeeds
    then posted_chunk (take event_batch_max events) p.meanwhile rest
    else record { posted = []; arrived = p.meanwhile; state = requeue_events events next }

-- `_drain_one`
unfoldable pub drain_one : (ℕ → Post) → WatcherState → Drained
unfolding drain_chunks drain_events
drain_one posts s =
    let (events, taken) = drain_events s in drain_chunks (length events) posts 0 events taken

-- `PendingKillOut`, as the poller reads it.
pub record PendingKill : Type 0 where
  pub agent_id : String
  pub kill_event_id : ℕ
  pub trigger_reason : String
  pub operator_reason : Option String
  pub operator : Option String

-- `entry.operator_reason or entry.trigger_reason`: the empty text counts as missing.
unfoldable pub kill_text : PendingKill → String
kill_text k = elim k.operator_reason [
  | none ↦ k.trigger_reason
  | some r ↦ if r == "" then k.trigger_reason else r
]

unfoldable pub deliver : Clock → PendingKill → WatcherState → WatcherState
unfolding kill_text
deliver now k s =
    if s.terminate_requested
    then s
    else request_termination now (Reason.manual (kill_text k)) (some k.kill_event_id)
        (some (record {
          operator = k.operator;
          operator_reason = k.operator_reason;
          kill_event_id = k.kill_event_id;
        }))
        s

-- The state is shared by reference: what the poller changes, the registry holds.
unfoldable pub deliver_to : Clock → PendingKill → Registry → Registry
unfolding deliver
deliver_to now k [] = []
deliver_to now k ((id, s) ∷ r) =
    if id == k.agent_id then (id, deliver now k s) ∷ r else (id, s) ∷ deliver_to now k r

unfoldable pub deliver_all : Clock → List PendingKill → Registry → Registry
deliver_all now [] r = r
deliver_all now (k ∷ ks) r = deliver_all now ks (deliver_to now k r)

-- `KillPendingPoller._tick`: `none` stands for a failed request.
unfoldable pub poll_tick : Clock → Option (List PendingKill) → Registry → Registry
unfolding deliver_all
poll_tick now none r = r
poll_tick now (some ks) r = deliver_all now ks r
