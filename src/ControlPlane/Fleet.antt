-- ===== src/ControlPlane/Fleet.antt =====
-- packages/hermeskill-control-plane/src/control_plane/api/agents.py: registration, the lists of agents, and their
-- deletion. That deletion needs the role of an operator is checked before a handler runs.
pub mod Spared
pub mod Kept
pub mod Sound
use mathlib.Core.List.{reverse}
use hermeskill.Common.{
  ℕ, String, Bool, true, false, not, ◌&&◌, Option, none, some, List, [], ◌∷◌, ◌++◌, map, length,
  keep_if, contains, ◌==◌, string_eq, nat_eq, if◌then◌else◌,
}
use hermeskill.ControlPlane.{
  Agent, AgentStatus, KillEvent, Store, Failure, Reply, Principal, load_agent_owned_by,
}
use hermeskill.ControlPlane.Events.{EventLog}

-- `register_agent`; the name and the metadata of an agent are in no column of the model.
unfoldable pub register_agent : String → String → Principal → Store → Reply String × Store
register_agent agent_id policy_name principal db = (
  Reply.replied agent_id,
  record db {
    agents =
        db.agents
        ++ record {
          id = agent_id;
          customer_id = principal.customer_id;
          policy_name = policy_name;
          status = AgentStatus.registered;
          last_heartbeat_at = none;
          terminated_at = none;
        }
          ∷ [];
  },
)

abbrev pub same_status : AgentStatus → AgentStatus → Bool
same_status AgentStatus.registered AgentStatus.registered = true
same_status AgentStatus.running AgentStatus.running = true
same_status AgentStatus.dying AgentStatus.dying = true
same_status AgentStatus.terminated AgentStatus.terminated = true
same_status AgentStatus.zombie AgentStatus.zombie = true
same_status _ _ = false

abbrev wanted : Option AgentStatus → Agent → Bool
wanted none a = true
wanted (some status) a = same_status a.status status

-- `list_agents`: the latest registration first.
unfoldable pub list_agents : Option AgentStatus → Principal → Store → List Agent
list_agents status_filter principal db =
    reverse
      (keep_if (λ a. a.customer_id == principal.customer_id && wanted status_filter a) db.agents)

get_loaded : Option Agent → Reply Agent
get_loaded none = Reply.failed Failure.not_found
get_loaded (some agent) = Reply.replied agent

unfoldable pub get_agent : Principal → String → Store → Reply Agent
unfolding get_loaded
get_agent principal agent_id db =
    get_loaded (load_agent_owned_by agent_id principal.customer_id db.agents)

-- The ids of the kill events of some agents.
abbrev pub kill_event_ids : List String → List KillEvent → List ℕ
kill_event_ids agent_ids rows = map (λ k. k.id) (keep_if (λ k. contains agent_ids k.agent_id) rows)

-- `_cascade_delete_agents` on the store. The requests for approvals go with their agents only where the database
-- enforces foreign keys.
unfoldable pub cascade_store : Bool → List String → Store → Store
cascade_store enforced agent_ids db = record db {
  tokens =
      keep_if (λ t. not (contains (kill_event_ids agent_ids db.kill_events) t.kill_event_id))
        db.tokens;
  kill_events = keep_if (λ k. not (contains agent_ids k.agent_id)) db.kill_events;
  grants = keep_if (λ g. not (contains agent_ids g.agent_id)) db.grants;
  agents = keep_if (λ a. not (contains agent_ids a.id)) db.agents;
  approvals =
      if enforced
      then keep_if (λ a. not (contains agent_ids a.agent_id)) db.approvals
      else db.approvals;
}

unfoldable pub cascade_log : List String → EventLog → EventLog
cascade_log agent_ids log = record log {
  rows = keep_if (λ r. not (contains agent_ids r.agent_id)) log.rows;
}

unfoldable pub cascade : Bool → List String → Store → EventLog → Store × EventLog
cascade enforced [] db log = (db, log)
cascade enforced agent_ids db log = (cascade_store enforced agent_ids db, cascade_log agent_ids log)

delete_loaded : Bool → String → Store → EventLog → Option Agent → Reply Bool × (Store × EventLog)
delete_loaded enforced agent_id db log none = (Reply.failed Failure.not_found, (db, log))
delete_loaded enforced agent_id db log (some agent) =
    (Reply.replied true, cascade enforced (agent_id ∷ []) db log)

-- `delete_agent`
unfoldable pub delete_agent :
    Bool → Principal → String → Store → EventLog → Reply Bool × (Store × EventLog)
unfolding delete_loaded
delete_agent enforced principal agent_id db log =
    delete_loaded enforced agent_id db log
      (load_agent_owned_by agent_id principal.customer_id db.agents)

-- The agents that `prune_agents` selects.
abbrev pub prunable : AgentStatus → Principal → List Agent → List String
prunable status principal agents =
    map (λ a. a.id)
      (keep_if (λ a. a.customer_id == principal.customer_id && same_status a.status status) agents)

-- `prune_agents`: how many agents are deleted.
unfoldable pub prune_agents :
    Bool → AgentStatus → Principal → Store → EventLog → Reply ℕ × (Store × EventLog)
prune_agents enforced status principal db log =
    let ids = prunable status principal db.agents in
    (Reply.replied (length ids), cascade enforced ids db log)
