-- ===== src/OperatorKill.antt =====
-- An operator's kill from the request to the agent: `terminate_agent` and `list_pending_kills` of
-- packages/hermeskill-control-plane/src/control_plane/api/manual_kill.py, and the poller of
-- packages/hermeskill-sdk/src/hermeskill/watcher.py.
use hermeskill.Common.{ℕ, String, ◌≡◌, inl, inr, true, some, List, [], ◌∷◌, map, last?}
use hermeskill.Watcher.{WatcherState, Clock}
use hermeskill.Worker.{Registry, PendingKill, get_watcher, poll_tick}
use hermeskill.Worker.Poll.{Names, poll_tick_flags}
use hermeskill.ControlPlane.{Agent, KillEvent, Store, Reply, Principal, load_agent_owned_by}
use hermeskill.ControlPlane.KillEvents.{terminate_agent, list_pending_kills}
use hermeskill.ControlPlane.KillEvents.Pending.{accepted_kill_is_pending, accepted_kill_agent}

-- The entry that `list_pending_kills` makes of a row, as the poller reads it.
abbrev pub pending_out : KillEvent → PendingKill
pending_out k = record {
  agent_id = k.agent_id;
  kill_event_id = k.id;
  trigger_reason = k.trigger_reason;
  operator_reason = k.operator_reason;
  operator = k.operator_id;
}

-- The answer to a poll of a customer's process.
abbrev pub pending_kills : Principal → Store → List PendingKill
pending_kills principal db = map pending_out (list_pending_kills principal db)

last_is_named :
    (rows : List KillEvent) (row : KillEvent) (id : String)
    → last? rows ≡ some row
    → row.agent_id ≡ id
    → Names id (map pending_out rows)
last_is_named [] row id h e = cc h
last_is_named (k ∷ []) row id h e = inl (cc (h, e))
last_is_named (k ∷ j ∷ rows) row id h e = inr (last_is_named (j ∷ rows) row id h e)

-- An operator's kill of an own agent that is accepted flags the agent at the next successful poll of a
-- process of that customer in which the agent is registered.
pub operator_kill_reaches_agent :
    (now : ℕ) (clock : Clock) (reason : String) (principal : Principal) (agent : Agent)
    (agent_id : String) (db : Store) (row : KillEvent) (r : Registry) (s : WatcherState)
    → load_agent_owned_by agent_id principal.customer_id db.agents ≡ some agent
    → (terminate_agent now reason principal agent_id db).0 ≡ Reply.replied row
    → get_watcher agent_id r ≡ some s
    → (t : WatcherState) × (get_watcher agent_id (
          poll_tick clock
            (some (pending_kills principal (terminate_agent now reason principal agent_id db).1))
            r)
        ≡ some t)
      × (t.terminate_requested ≡ true)
operator_kill_reaches_agent now clock reason principal agent agent_id db row r s owned accepted
      registered =
    let after = (terminate_agent now reason principal agent_id db).1 in
    poll_tick_flags clock (pending_kills principal after) agent_id r s registered (
      last_is_named (list_pending_kills principal after) row agent_id
        (accepted_kill_is_pending now reason principal agent agent_id db row owned accepted)
        (accepted_kill_agent now reason principal agent agent_id db row owned accepted))
