-- ===== src/ControlPlane/Grants/Spared.antt =====
-- api/grants.py: the grants of the store and the symptom `manual_kill`.
use hermeskill.Common.{
  ℕ, String, ◌≡◌, refl, inl, inr, false, not, ◌&&◌, Bool-cases, Option-cases, Option, none, some,
  List, [], ◌∷◌, ◌++◌, map, any, contains, All, ltb, ◌==◌, string_eq,
}
use hermeskill.Policy.{SymptomType, Policy, value}
use hermeskill.Policy.Shipped.{resolve_policy}
use hermeskill.ControlPlane.{
  Agent, ApoptosisGrant, Store, Principal, load_agent_owned_by, with_agent-keeps,
}
use hermeskill.ControlPlane.Grants.{
  GrantIn, is_allowed, is_manual_kill, issued, issue, create_grant, revoked, revoke_row,
  reply_revoked, revoke_grant, max_duration_seconds, owned_agent,
}

-- No grant of the table names a manual kill.
abbrev pub SparesManualKill : List ApoptosisGrant → Type 0
SparesManualKill gs = All (λ g. contains g.symptoms "manual_kill" ≡ false) gs

named :
    (ss : List SymptomType)
    → any is_manual_kill ss ≡ false
    → contains (map value ss) "manual_kill" ≡ false
unfolding value
named [] h = refl
named (SymptomType.manual_kill ∷ ss) h = cc h
named (SymptomType.loop ∷ ss) h = named ss h
named (SymptomType.token_runaway ∷ ss) h = named ss h
named (SymptomType.wall_clock ∷ ss) h = named ss h
named (SymptomType.tool_scope_violation ∷ ss) h = named ss h
named (SymptomType.heartbeat_stale ∷ ss) h = named ss h

pub All-append {ℓ κ} :
    {A : Type ℓ} (P : A → Type κ) (xs : List A) (x : A) → All P xs → P x → All P (xs ++ x ∷ [])
All-append P [] x h p = (p, tt)
All-append P (y ∷ ys) x (h, t) p = (h, All-append P ys x t p)

issue-SparesManualKill :
    (id : String) (now : ℕ) (payload : GrantIn) (principal : Principal) (o : Option Policy)
    (agent_id : String) (db : Store)
    → SparesManualKill db.grants
    → SparesManualKill (issue id now payload principal o agent_id db).1.grants
unfolding issue
issue-SparesManualKill id now payload principal none agent_id db w =
    elim (Bool-cases (any is_manual_kill payload.symptoms)) [ inl e ↦ rw e w | inr e ↦ rw e w ]
issue-SparesManualKill id now payload principal (some p) agent_id db w =
    elim (Bool-cases (any is_manual_kill payload.symptoms)) [
      | inl e ↦ rw e w
      | inr e ↦ elim (Bool-cases (any (λ s. not (is_allowed p s)) payload.symptoms)) [
        | inl f ↦ rw (e, f) w
        | inr f ↦ elim (Bool-cases (ltb max_duration_seconds payload.duration_seconds)) [
          | inl i ↦ rw (e, f, i) w
          | inr i ↦
              rw (e, f, i)
                (All-append (λ g. contains g.symptoms "manual_kill" ≡ false) db.grants
                  (issued id now payload principal agent_id) w (named payload.symptoms e))
        ]
      ]
    ]

pub create_grant-SparesManualKill :
    (id : String) (now : ℕ) (payload : GrantIn) (principal : Principal) (agent_id : String)
    (db : Store)
    → SparesManualKill db.grants
    → SparesManualKill (create_grant id now payload principal agent_id db).1.grants
unfolding create_grant
create_grant-SparesManualKill id now payload principal agent_id db w =
    with_agent-keeps (λ d. SparesManualKill d.grants)
      (load_agent_owned_by agent_id principal.customer_id db.agents) db _ w
      (λ agent.
        issue-SparesManualKill id now payload principal (resolve_policy agent.policy_name) agent_id
          db w)

revoked_symptoms :
    (now : ℕ) (reason : String) (principal : Principal) (g : ApoptosisGrant)
    → (revoked now reason principal g).symptoms ≡ g.symptoms
unfolding revoked
revoked_symptoms now reason principal g = elim (Option-cases g.revoked_at) [
  | inl e ↦ rw e refl
  | inr (t, e) ↦ rw e refl
]

module _ (now : ℕ) (reason : String) (principal : Principal) (id : String)
    (agents : List Agent) where
  revoke_row-SparesManualKill :
      (gs : List ApoptosisGrant)
      → SparesManualKill gs
      → SparesManualKill (revoke_row now reason principal id agents gs).1
  unfolding revoke_row
  revoke_row-SparesManualKill [] w = w
  revoke_row-SparesManualKill (g ∷ gs) (h, t) =
      elim (Bool-cases (g.id == id && owned_agent g.agent_id principal.customer_id agents)) [
        | inl e ↦ rw (e, revoked_symptoms now reason principal g) (h, t)
        | inr e ↦ rw e (h, revoke_row-SparesManualKill gs t)
      ]

reply_revoked-SparesManualKill :
    (found : Option ApoptosisGrant × List ApoptosisGrant) (db : Store)
    → SparesManualKill db.grants
    → SparesManualKill found.1
    → SparesManualKill (reply_revoked found db).1.grants
unfolding reply_revoked
reply_revoked-SparesManualKill (none, rows) db w h = w
reply_revoked-SparesManualKill (some g, rows) db w h = h

pub revoke_grant-SparesManualKill :
    (now : ℕ) (reason : String) (principal : Principal) (id : String) (db : Store)
    → SparesManualKill db.grants
    → SparesManualKill (revoke_grant now reason principal id db).1.grants
unfolding revoke_grant
revoke_grant-SparesManualKill now reason principal id db w =
    reply_revoked-SparesManualKill (revoke_row now reason principal id db.agents db.grants) db w
      (revoke_row-SparesManualKill now reason principal id db.agents db.grants w)
