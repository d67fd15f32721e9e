-- ===== src/ControlPlane/Grants/Rules.antt =====
-- api/grants.py: the rules that `create_grant` applies.
use hermeskill.Common.{
  ℕ, ◌+◌, ◌≤◌, String, ◌≡◌, refl, sym, ap, inl, inr, false, not, Bool-cases, Option, none, some,
  map, any, arith, ltb, string_eq,
}
use hermeskill.Policy.{Policy, value}
use hermeskill.Policy.Shipped.{resolve_policy}
use hermeskill.ControlPlane.{Agent, ApoptosisGrant, Store, Reply, Principal, load_agent_owned_by}
use hermeskill.ControlPlane.Grants.{
  GrantIn, is_allowed, is_manual_kill, issued, issue, create_grant, max_duration_seconds, seconds,
}

-- What a grant that was issued satisfies, under the policy of its agent.
pub record IsPermitted (now : ℕ) (p : Policy) (payload : GrantIn) (g : ApoptosisGrant)
    : Type 0 where
  pub allowed : any (λ s. not (is_allowed p s)) payload.symptoms ≡ false
  pub no_manual_kill : any is_manual_kill payload.symptoms ≡ false
  pub symptoms : g.symptoms ≡ map value payload.symptoms
  pub short : g.expires_at ≤ now + seconds max_duration_seconds

issue-IsPermitted :
    (id : String) (now : ℕ) (payload : GrantIn) (principal : Principal) (o : Option Policy)
    (agent_id : String) (db : Store) (g : ApoptosisGrant)
    → (issue id now payload principal o agent_id db).0 ≡ Reply.replied g
    → (p : Policy) × (o ≡ some p) × IsPermitted now p payload g
unfolding issue
issue-IsPermitted id now payload principal none agent_id db g h =
    elim (Bool-cases (any is_manual_kill payload.symptoms)) [
      | inl e ↦ cc (rw e at h)
      | inr e ↦ cc (rw e at h)
    ]
issue-IsPermitted id now payload principal (some p) agent_id db g h =
    elim (Bool-cases (any is_manual_kill payload.symptoms)) [
      | inl e ↦ cc (rw e at h)
      | inr e ↦ elim (Bool-cases (any (λ s. not (is_allowed p s)) payload.symptoms)) [
        | inl f ↦ cc (rw (e, f) at h)
        | inr f ↦ elim (Bool-cases (ltb max_duration_seconds payload.duration_seconds)) [
          | inl i ↦ cc (rw (e, f, i) at h)
          | inr i ↦
              let same : issued id now payload principal agent_id ≡ g = cc (rw (e, f, i) at h) in
              let room : payload.duration_seconds ≤ max_duration_seconds = ground arith in
              (
                p,
                refl,
                record {
                  allowed = f;
                  no_manual_kill = e;
                  symptoms = sym (ap (λ w. w.symptoms) same);
                  short = rw (← same) (omega arith);
                },
              )
        ]
      ]
    ]

-- A grant that is issued for an agent of the caller names only symptoms that the policy of its
-- agent allows, never a manual kill, and lasts a day at most.
pub create_grant-IsPermitted :
    (id : String) (now : ℕ) (payload : GrantIn) (principal : Principal) (agent_id : String)
    (agent : Agent) (db : Store) (g : ApoptosisGrant)
    → load_agent_owned_by agent_id principal.customer_id db.agents ≡ some agent
    → (create_grant id now payload principal agent_id db).0 ≡ Reply.replied g
    → (p : Policy) × (resolve_policy agent.policy_name ≡ some p) × IsPermitted now p payload g
unfolding create_grant
create_grant-IsPermitted id now payload principal agent_id agent db g owned h =
    issue-IsPermitted id now payload principal (resolve_policy agent.policy_name) agent_id db g
      (rw owned at h)
