-- ===== src/ControlPlane/Grants/Frame.antt =====
-- api/grants.py, api/heartbeats.py: what the handlers do not write.
use hermeskill.Common.{
  ℕ, String, ◌≡◌, refl, inl, inr, not, Bool-cases, Option, none, some, List, any, ltb,
}
use hermeskill.Policy.{Policy}
use hermeskill.Policy.Shipped.{resolve_policy}
use hermeskill.ControlPlane.{
  ApoptosisGrant, KillEvent, Store, Principal, load_agent_owned_by, with_agent-keeps,
}
use hermeskill.ControlPlane.Grants.{
  GrantIn, is_allowed, is_manual_kill, issue, create_grant, revoke_row, reply_revoked, revoke_grant,
  max_duration_seconds, post_heartbeat,
}

-- The kill events with the next id.
abbrev pub kills : Store → List KillEvent × ℕ
kills db = (db.kill_events, db.next_kill_event_id)

kills-issue :
    (id : String) (now : ℕ) (payload : GrantIn) (principal : Principal) (o : Option Policy)
    (agent_id : String) (db : Store)
    → kills (issue id now payload principal o agent_id db).1 ≡ kills db
unfolding issue
kills-issue id now payload principal none agent_id db =
    elim (Bool-cases (any is_manual_kill payload.symptoms)) [
      | inl e ↦ rw e refl
      | inr e ↦ rw e refl
    ]
kills-issue id now payload principal (some p) agent_id db =
    elim (Bool-cases (any is_manual_kill payload.symptoms)) [
      | inl e ↦ rw e refl
      | inr e ↦ elim (Bool-cases (any (λ s. not (is_allowed p s)) payload.symptoms)) [
        | inl f ↦ rw (e, f) refl
        | inr f ↦ elim (Bool-cases (ltb max_duration_seconds payload.duration_seconds)) [
          | inl i ↦ rw (e, f, i) refl
          | inr i ↦ rw (e, f, i) refl
        ]
      ]
    ]

pub kills-create_grant :
    (id : String) (now : ℕ) (payload : GrantIn) (principal : Principal) (agent_id : String)
    (db : Store)
    → kills (create_grant id now payload principal agent_id db).1 ≡ kills db
unfolding create_grant
kills-create_grant id now payload principal agent_id db =
    with_agent-keeps (λ d. kills d ≡ kills db)
      (load_agent_owned_by agent_id principal.customer_id db.agents) db _ refl
      (λ agent. kills-issue id now payload principal (resolve_policy agent.policy_name) agent_id db)

kills-reply_revoked :
    (found : Option ApoptosisGrant × List ApoptosisGrant) (db : Store)
    → kills (reply_revoked found db).1 ≡ kills db
unfolding reply_revoked
kills-reply_revoked (none, rows) db = refl
kills-reply_revoked (some g, rows) db = refl

pub kills-revoke_grant :
    (now : ℕ) (reason : String) (principal : Principal) (id : String) (db : Store)
    → kills (revoke_grant now reason principal id db).1 ≡ kills db
unfolding revoke_grant
kills-revoke_grant now reason principal id db =
    kills-reply_revoked (revoke_row now reason principal id db.agents db.grants) db

pub heartbeat_writes_agents :
    (now : ℕ) (principal : Principal) (agent_id : String) (db : Store)
    → (kills (post_heartbeat now principal agent_id db).1 ≡ kills db)
      × ((post_heartbeat now principal agent_id db).1.grants ≡ db.grants)
unfolding post_heartbeat
heartbeat_writes_agents now principal agent_id db =
    with_agent-keeps (λ d. (kills d ≡ kills db) × (d.grants ≡ db.grants))
      (load_agent_owned_by agent_id principal.customer_id db.agents) db _ (refl, refl)
      (λ agent. (refl, refl))
