-- ===== src/ControlPlane/Requests.antt =====
-- The control plane as a machine: any requests, one after another, on the store.
use hermeskill.Common.{ap, arith, ℕ, String, Bool, refl, ◌≡◌, List, [], ◌∷◌}
use hermeskill.ControlPlane.{Agent, AgentStatus, Store, Principal}
use hermeskill.ControlPlane.Events.{EventLog}
use hermeskill.ControlPlane.Fleet.{register_agent, delete_agent, prunable, prune_agents}
use hermeskill.ControlPlane.Fleet.Sound.{
  cascade-IsWellFormed, cascade-SparesManualKill, delete_agent-IsWellFormed,
  delete_agent-SparesManualKill,
}
use hermeskill.ControlPlane.KillEvents.{KillEventIn, Minted, create_kill_event, terminate_agent}
use hermeskill.ControlPlane.KillEvents.Lifecycle.{
  IsWellFormed, create_kill_event-IsWellFormed, terminate_agent-IsWellFormed,
}
use hermeskill.ControlPlane.Grants.{GrantIn, create_grant, revoke_grant, post_heartbeat}
use hermeskill.ControlPlane.Grants.Spared.{
  SparesManualKill, create_grant-SparesManualKill, revoke_grant-SparesManualKill,
}
use hermeskill.ControlPlane.Grants.Frame.{
  kills, kills-create_grant, kills-revoke_grant, heartbeat_writes_agents,
}
use hermeskill.ControlPlane.KillEvents.Frame.{grants-create_kill_event, grants-terminate_agent}
use hermeskill.ControlPlane.Approvals.{
  ApprovalRequestIn, create_approval_request, approve_approval_request, deny_approval_request,
}
use hermeskill.ControlPlane.Approvals.Issued.{kills-approve, kills-deny}
use hermeskill.ControlPlane.Approvals.Spared.{
  approve_approval_request-SparesManualKill, deny_approval_request-SparesManualKill,
  approval_request_writes_approvals,
}
use hermeskill.ControlPlane.Feedback.{submit_feedback}
use hermeskill.ControlPlane.Feedback.Once.{submit_feedback-IsWellFormed, grants-submit_feedback}

pub data Request : Type 0 where
  certificate : KillEventIn → Minted → Principal → String → Request
  kill : ℕ → String → Principal → String → Request
  grant : String → ℕ → GrantIn → Principal → String → Request
  revoke : ℕ → String → Principal → String → Request
  heartbeat : ℕ → Principal → String → Request
  feedback : ℕ → String → String → Request
  approval_request : String → ℕ → ℕ → ApprovalRequestIn → Principal → String → Request
  approval : String → ℕ → ℕ → String → Principal → String → Request
  denial : ℕ → String → Principal → String → Request
  registration : String → String → Principal → Request
  deletion : Bool → Principal → String → Request
  pruning : Bool → AgentStatus → Principal → Request

-- The events are in a table apart, which no other request reads.
abbrev no_events : EventLog
no_events = record { rows = []; next_id = 1 }

-- The store after a request.
unfoldable pub serve : Request → Store → Store
serve (Request.certificate payload minted principal agent_id) db =
    (create_kill_event payload minted principal agent_id db).1
serve (Request.kill now reason principal agent_id) db =
    (terminate_agent now reason principal agent_id db).1
serve (Request.grant id now payload principal agent_id) db =
    (create_grant id now payload principal agent_id db).1
serve (Request.revoke now reason principal id) db = (revoke_grant now reason principal id db).1
serve (Request.heartbeat now principal agent_id) db = (post_heartbeat now principal agent_id db).1
serve (Request.feedback now token_hash label) db = (submit_feedback now token_hash label db).1
serve (Request.approval_request id now ttl payload principal agent_id) db =
    (create_approval_request id now ttl payload principal agent_id db).1
serve (Request.approval id now duration reason principal request) db =
    (approve_approval_request id now duration reason principal request db).1
serve (Request.denial now reason principal request) db =
    (deny_approval_request now reason principal request db).1
serve (Request.registration agent_id policy_name principal) db =
    (register_agent agent_id policy_name principal db).1
serve (Request.deletion enforced principal agent_id) db =
    (delete_agent enforced principal agent_id db no_events).1.0
serve (Request.pruning enforced status principal) db =
    (prune_agents enforced status principal db no_events).1.0

unfoldable pub serve_all : List Request → Store → Store
unfolding serve
serve_all [] db = db
serve_all (r ∷ rs) db = serve_all rs (serve r db)

-- The agents that are registered, with no history.
abbrev pub new_store : List Agent → Store
new_store agents = record {
  agents = agents;
  kill_events = [];
  next_kill_event_id = 0;
  grants = [];
  tokens = [];
  approvals = [];
}

-- What every store that requests lead to keeps.
pub record IsSound (db : Store) : Type 0 where
  pub well_formed : IsWellFormed db
  pub spares_manual_kill : SparesManualKill db.grants

kept_kills :
    (before after : Store) → kills after ≡ kills before → IsWellFormed before → IsWellFormed after
kept_kills before after e w = record {
  one_active = rw (ap (λ k. k.0) e) w.one_active;
  ascending = rw (ap (λ k. k.0) e, ap (λ k. k.1) e) w.ascending;
}

pruned :
    (enforced : Bool) (status : AgentStatus) (principal : Principal) (db : Store)
    → IsSound db
    → IsSound (prune_agents enforced status principal db no_events).1.0
unfolding prune_agents
pruned enforced status principal db s =
    let ids = prunable status principal db.agents in
    record {
      well_formed = cascade-IsWellFormed enforced ids db no_events s.well_formed;
      spares_manual_kill = cascade-SparesManualKill enforced ids db no_events s.spares_manual_kill;
    }

serve-IsSound : (r : Request) (db : Store) → IsSound db → IsSound (serve r db)
unfolding serve
serve-IsSound (Request.certificate payload minted principal agent_id) db s = record {
  well_formed = create_kill_event-IsWellFormed payload minted principal agent_id db s.well_formed;
  spares_manual_kill =
      rw (grants-create_kill_event payload minted principal agent_id db) s.spares_manual_kill;
}
serve-IsSound (Request.kill now reason principal agent_id) db s = record {
  well_formed = terminate_agent-IsWellFormed now reason principal agent_id db s.well_formed;
  spares_manual_kill =
      rw (grants-terminate_agent now reason principal agent_id db) s.spares_manual_kill;
}
serve-IsSound (Request.grant id now payload principal agent_id) db s = record {
  well_formed =
      kept_kills db _ (kills-create_grant id now payload principal agent_id db) s.well_formed;
  spares_manual_kill =
      create_grant-SparesManualKill id now payload principal agent_id db s.spares_manual_kill;
}
serve-IsSound (Request.revoke now reason principal id) db s = record {
  well_formed = kept_kills db _ (kills-revoke_grant now reason principal id db) s.well_formed;
  spares_manual_kill =
      revoke_grant-SparesManualKill now reason principal id db s.spares_manual_kill;
}
serve-IsSound (Request.heartbeat now principal agent_id) db s =
    let (same, grants) = heartbeat_writes_agents now principal agent_id db in
    record {
      well_formed = kept_kills db _ same s.well_formed;
      spares_manual_kill = rw grants s.spares_manual_kill;
    }
serve-IsSound (Request.feedback now token_hash label) db s = record {
  well_formed = submit_feedback-IsWellFormed now token_hash label db s.well_formed;
  spares_manual_kill = rw (grants-submit_feedback now token_hash label db) s.spares_manual_kill;
}
serve-IsSound (Request.approval_request id now ttl payload principal agent_id) db s =
    let (same, grants) =
      approval_request_writes_approvals id now ttl payload principal agent_id db in
    record {
      well_formed = kept_kills db _ same s.well_formed;
      spares_manual_kill = rw grants s.spares_manual_kill;
    }
serve-IsSound (Request.approval id now duration reason principal request) db s = record {
  well_formed =
      kept_kills db _ (kills-approve id now duration reason principal request db) s.well_formed;
  spares_manual_kill =
      approve_approval_request-SparesManualKill id now duration reason principal request db
        s.spares_manual_kill;
}
serve-IsSound (Request.denial now reason principal request) db s = record {
  well_formed = kept_kills db _ (kills-deny now reason principal request db) s.well_formed;
  spares_manual_kill =
      deny_approval_request-SparesManualKill now reason principal request db s.spares_manual_kill;
}
serve-IsSound (Request.registration agent_id policy_name principal) db s =
    unfold register_agent in
    record {
      well_formed = kept_kills db _ refl s.well_formed;
      spares_manual_kill = s.spares_manual_kill;
    }
serve-IsSound (Request.deletion enforced principal agent_id) db s = record {
  well_formed = delete_agent-IsWellFormed enforced principal agent_id db no_events s.well_formed;
  spares_manual_kill =
      delete_agent-SparesManualKill enforced principal agent_id db no_events s.spares_manual_kill;
}
serve-IsSound (Request.pruning enforced status principal) db s =
    pruned enforced status principal db s

pub serve_all-IsSound : (rs : List Request) (db : Store) → IsSound db → IsSound (serve_all rs db)
unfolding serve_all
serve_all-IsSound [] db s = s
serve_all-IsSound (r ∷ rs) db s = serve_all-IsSound rs (serve r db) (serve-IsSound r db s)

-- Whatever requests are served on registered agents with no history: no agent has two active kill
-- events, the ids of the kill events grow along the table, and no grant names a manual kill.
pub requests_keep-IsSound :
    (rs : List Request) (agents : List Agent) → IsSound (serve_all rs (new_store agents))
requests_keep-IsSound rs agents = serve_all-IsSound rs (new_store agents) (record {
  well_formed = record { one_active = λ id. omega arith; ascending = omega arith };
  spares_manual_kill = tt;
})
