-- ===== src/Tests/Records.antt =====
-- Examples for the events and the fleet.
use mathlib.Core.List.{reverse}
use hermeskill.Common.{
  String, ◌+◌, ◌≡◌, refl, true, false, none, some, List, [], ◌∷◌, map, length, ◌==◌, string_eq,
  arith,
}
use hermeskill.Watcher.{Event}
use hermeskill.ControlPlane.{Agent, AgentStatus, Store, Principal, load_agent_owned_by}
use hermeskill.ControlPlane.Events.{of_agent}
use hermeskill.ControlPlane.Events.Paging.{history}
use hermeskill.ControlPlane.Events.Ingest.{
  Post, event_of, empty_log, ingest, accepted, pages_give_accepted_events,
}
use hermeskill.ControlPlane.Fleet.{delete_agent, prune_agents}
use hermeskill.ControlPlane.Fleet.Spared.{history_of, no_history, delete_agent_erases}
use hermeskill.ControlPlane.Fleet.Kept.{holdings_of, prune_agents_spares}
use hermeskill.ControlPlane.KillEvents.Lifecycle.{IsWellFormed}
use hermeskill.ControlPlane.Requests.{new_store}

abbrev agent_of : String → String → AgentStatus → Agent
agent_of id customer_id status = record {
  id = id;
  customer_id = customer_id;
  policy_name = "strict";
  status = status;
  last_heartbeat_at = none;
  terminated_at = none;
}

abbrev fleet : Store
fleet = new_store (
    agent_of "a1" "acme" AgentStatus.terminated
    ∷ agent_of "a2" "acme" AgentStatus.running
    ∷ agent_of "b1" "other" AgentStatus.terminated
    ∷ [])

abbrev acme : Principal
acme = record { customer_id = "acme"; api_key_id = "key-1" }

abbrev posts : List Post
posts =
    record {
      now = 10;
      batch = Event.tool_call "search" "r" ∷ Event.tool_call "run_bash" "w" ∷ [];
      principal = acme;
      agent_id = "a1";
    }
    ∷ record {
      now = 20;
      batch = Event.tool_call "search" "x" ∷ [];
      principal = acme;
      agent_id = "b1";
    }
    ∷ record {
      now = 30;
      batch = Event.tool_call "search" "r" ∷ [];
      principal = acme;
      agent_id = "a1";
    }
    ∷ []

-- Two events to a page.
pages_give_accepted_events_example :
    map event_of (
      reverse (
        history
          (length (reverse (of_agent "a1" (ingest posts fleet empty_log))) + 1)
          2
          none
          "a1"
          (ingest posts fleet empty_log)))
    ≡ accepted "a1" fleet posts
pages_give_accepted_events_example = pages_give_accepted_events 2 "a1" fleet posts (omega arith)

loads :
    load_agent_owned_by "a1" "acme" fleet.agents
    ≡ some (agent_of "a1" "acme" AgentStatus.terminated)
unfolding load_agent_owned_by
loads = refl

delete_agent_erases_example :
    (history_of "a1" (delete_agent true acme "a1" fleet (ingest posts fleet empty_log)).1
      ≡ no_history)
    × ((j : String)
        → (j == "a1") ≡ false
        → history_of j (delete_agent true acme "a1" fleet (ingest posts fleet empty_log)).1
          ≡ history_of j (fleet, ingest posts fleet empty_log))
delete_agent_erases_example =
    delete_agent_erases true acme "a1" fleet (ingest posts fleet empty_log)
      (agent_of "a1" "acme" AgentStatus.terminated) loads

foreign : load_agent_owned_by "b1" "acme" fleet.agents ≡ none
unfolding load_agent_owned_by
foreign = refl

fleet-IsWellFormed : IsWellFormed fleet
fleet-IsWellFormed = record { one_active = λ a. omega arith; ascending = omega arith }

prune_agents_spares_example :
    holdings_of "b1"
      (prune_agents false AgentStatus.terminated acme fleet (ingest posts fleet empty_log)).1
    ≡ holdings_of "b1" (fleet, ingest posts fleet empty_log)
prune_agents_spares_example =
    prune_agents_spares false AgentStatus.terminated acme fleet (ingest posts fleet empty_log) "b1"
      fleet-IsWellFormed foreign
