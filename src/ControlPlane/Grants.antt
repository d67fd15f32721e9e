-- ===== src/ControlPlane/Grants.antt =====
-- api/grants.py: an operator's permissions, and api/heartbeats.py, which sends the active ones to the
-- agent. A table keeps its rows oldest first, so that the latest come first in its reverse.
pub mod Rules
pub mod Spared
pub mod Revocation
pub mod Frame
use mathlib.Core.List.{reverse}
use hermeskill.Common.{
  ℕ, ◌+◌, ◌*◌, String, Bool, true, false, not, ◌&&◌, Option, none, some, List, [], ◌∷◌, ◌++◌, map,
  any, keep_if, contains, ltb, ◌==◌, string_eq, if◌then◌else◌,
}
use hermeskill.Policy.{SymptomType, Policy, value}
use hermeskill.Policy.Shipped.{resolve_policy}
use hermeskill.Watcher.{Grant}
use hermeskill.ControlPlane.{
  Agent, ApoptosisGrant, Store, Failure, Reply, Principal, load_agent_owned_by, with_agent,
  update_agent,
}

abbrev pub max_duration_seconds : ℕ
max_duration_seconds = 86400

-- A number of seconds, in microseconds.
abbrev pub seconds : ℕ → ℕ
seconds n = n * 1000000

-- `GrantIn`
pub record GrantIn : Type 0 where
  pub symptoms : List SymptomType
  pub duration_seconds : ℕ
  pub reason : String

abbrev pub is_allowed : Policy → SymptomType → Bool
is_allowed p s = contains (map value p.apoptosis_proofing.allowed_symptoms) (value s)

abbrev is_manual_kill : SymptomType → Bool
is_manual_kill SymptomType.manual_kill = true
is_manual_kill _ = false

abbrev pub issued : String → ℕ → GrantIn → Principal → String → ApoptosisGrant
issued id now payload principal agent_id = record {
  id = id;
  agent_id = agent_id;
  symptoms = map value payload.symptoms;
  reason = payload.reason;
  issued_by = some principal.api_key_id;
  expires_at = now + seconds payload.duration_seconds;
  revoked_at = none;
  revoked_by = none;
  revoke_reason = none;
}

-- `create_grant`, once the agent is loaded; `policy` is what its policy's name resolves to.
issue :
    String → ℕ → GrantIn → Principal → Option Policy → String → Store → Reply ApoptosisGrant × Store
issue id now payload principal policy agent_id db =
    if any is_manual_kill payload.symptoms
    then (Reply.failed (Failure.unprocessable "manual_kill is never grantable"), db)
    else elim policy [
      | none ↦ (Reply.failed (Failure.unprocessable "cannot validate grant: unknown policy"), db)
      | some p ↦
          if any (λ s. not (is_allowed p s)) payload.symptoms
          then (Reply.failed (Failure.unprocessable "policy does not allow grants for"), db)
          else if ltb max_duration_seconds payload.duration_seconds
          then (Reply.failed (Failure.unprocessable "duration_seconds exceeds the hard cap"), db)
          else (
            Reply.replied (issued id now payload principal agent_id),
            record db { grants = db.grants ++ issued id now payload principal agent_id ∷ [] },
          )
    ]

-- `id` is the uuid that is drawn for the grant.
unfoldable pub create_grant :
    String → ℕ → GrantIn → Principal → String → Store → Reply ApoptosisGrant × Store
unfolding issue
create_grant id now payload principal agent_id db =
    with_agent (load_agent_owned_by agent_id principal.customer_id db.agents) db
      (λ agent. issue id now payload principal (resolve_policy agent.policy_name) agent_id db)

-- `revoked_at is None and expires_at > now`
abbrev pub is_active : ℕ → ApoptosisGrant → Bool
is_active now g = elim g.revoked_at [ none ↦ ltb now g.expires_at | some t ↦ false ]

revoked : ℕ → String → Principal → ApoptosisGrant → ApoptosisGrant
revoked now reason principal g = elim g.revoked_at [
  | none ↦ record g {
    revoked_at = some now;
    revoked_by = some principal.api_key_id;
    revoke_reason = some reason;
  }
  | some t ↦ g
]

owned_agent : String → String → List Agent → Bool
owned_agent agent_id customer_id agents =
    any (λ a. a.id == agent_id && a.customer_id == customer_id) agents

-- The grant of an id, if its agent is the customer's, and the write of its row.
revoke_row :
    ℕ
    → String
    → Principal
    → String
    → List Agent
    → List ApoptosisGrant
    → Option ApoptosisGrant × List ApoptosisGrant
unfolding revoked owned_agent
revoke_row now reason principal id agents [] = (none, [])
revoke_row now reason principal id agents (g ∷ gs) =
    let (found, rest) = revoke_row now reason principal id agents gs in
    if g.id == id && owned_agent g.agent_id principal.customer_id agents
    then (some (revoked now reason principal g), revoked now reason principal g ∷ gs)
    else (found, g ∷ rest)

reply_revoked : Option ApoptosisGrant × List ApoptosisGrant → Store → Reply ApoptosisGrant × Store
reply_revoked (none, rows) db = (Reply.failed Failure.not_found, db)
reply_revoked (some g, rows) db = (Reply.replied g, record db { grants = rows })

unfoldable pub revoke_grant : ℕ → String → Principal → String → Store → Reply ApoptosisGrant × Store
unfolding revoke_row reply_revoked
revoke_grant now reason principal id db =
    reply_revoked (revoke_row now reason principal id db.agents db.grants) db

-- `list_grants_for_agent`, with the filter that it applies to what it serializes.
unfoldable pub list_grants_for_agent :
    ℕ → Bool → Principal → String → Store → Reply (List ApoptosisGrant)
list_grants_for_agent now active_only principal agent_id db =
    elim (load_agent_owned_by agent_id principal.customer_id db.agents) [
      | none ↦ Reply.failed Failure.not_found
      | some agent ↦
          let rows = reverse (keep_if (λ g. g.agent_id == agent_id) db.grants) in
          Reply.replied (if active_only then keep_if (is_active now) rows else rows)
    ]

abbrev pub wire : ApoptosisGrant → Grant
wire g = record {
  id = some g.id;
  symptoms = g.symptoms;
  expires_at = some g.expires_at;
  reason = some g.reason;
}

unfoldable pub load_active_grants : ℕ → String → Store → List Grant
load_active_grants now agent_id db =
    map wire (reverse (keep_if (λ g. g.agent_id == agent_id && is_active now g) db.grants))

-- `post_heartbeat`: the grants of its answer; the event that it adds is not modelled.
unfoldable pub post_heartbeat : ℕ → Principal → String → Store → Reply (List Grant) × Store
unfolding load_active_grants
post_heartbeat now principal agent_id db =
    with_agent (load_agent_owned_by agent_id principal.customer_id db.agents) db (λ agent. (
      Reply.replied (load_active_grants now agent_id db),
      record db {
        agents = update_agent agent_id (λ a. record a { last_heartbeat_at = some now }) db.agents;
      },
    ))
