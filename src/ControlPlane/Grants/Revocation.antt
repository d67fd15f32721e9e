-- ===== src/ControlPlane/Grants/Revocation.antt =====
-- api/grants.py: two revocations of one grant.
use hermeskill.Common.{
  ℕ, String, ◌≡◌, refl, sym, ap, ◌∙◌, inl, inr, ◌&&◌, Bool-cases, Option-cases, Option, none, some,
  List, [], ◌∷◌, ◌==◌, string_eq,
}
use hermeskill.ControlPlane.{Agent, ApoptosisGrant, Store, Principal}
use hermeskill.ControlPlane.Grants.{revoked, revoke_row, reply_revoked, revoke_grant, owned_agent}

revoked_key :
    (now : ℕ) (reason : String) (principal : Principal) (g : ApoptosisGrant)
    → ((revoked now reason principal g).id ≡ g.id)
      × ((revoked now reason principal g).agent_id ≡ g.agent_id)
unfolding revoked
revoked_key now reason principal g = elim (Option-cases g.revoked_at) [
  | inl e ↦ rw e (refl, refl)
  | inr (t, e) ↦ rw e (refl, refl)
]

revoked_again :
    (now later : ℕ) (reason again : String) (principal : Principal) (g : ApoptosisGrant)
    → revoked later again principal (revoked now reason principal g)
      ≡ revoked now reason principal g
unfolding revoked
revoked_again now later reason again principal g = elim (Option-cases g.revoked_at) [
  | inl e ↦ rw e refl
  | inr (t, e) ↦ rw e refl
]

module _ (now : ℕ) (reason : String) (principal : Principal) (id : String)
    (agents : List Agent) where
  revoke_row_again :
      (later : ℕ) (again : String) (gs : List ApoptosisGrant)
      → revoke_row later again principal id agents (revoke_row now reason principal id agents gs).1
        ≡ revoke_row now reason principal id agents gs
  unfolding revoke_row
  revoke_row_again later again [] = refl
  revoke_row_again later again (g ∷ gs) =
      elim (Bool-cases (g.id == id && owned_agent g.agent_id principal.customer_id agents)) [
        | inl e ↦
            let key = revoked_key now reason principal g in
            rw (e, key.0, key.1, e, revoked_again now later reason again principal g) refl
        | inr e ↦ rw (e, e, revoke_row_again later again gs) refl
      ]

unrevoked :
    (now : ℕ) (reason : String) (principal : Principal) (id : String) (agents : List Agent)
    (gs : List ApoptosisGrant)
    → (revoke_row now reason principal id agents gs).0 ≡ none
    → (revoke_row now reason principal id agents gs).1 ≡ gs
unfolding revoke_row
unrevoked now reason principal id agents [] h = refl
unrevoked now reason principal id agents (g ∷ gs) h =
    elim (Bool-cases (g.id == id && owned_agent g.agent_id principal.customer_id agents)) [
      | inl e ↦ cc (rw e at h)
      | inr e ↦ rw e (ap (◌∷◌ g) (unrevoked now reason principal id agents gs (rw e at h)))
    ]

-- Revoking a grant again, at any time and for any reason, gives the same reply and changes nothing.
pub revoke_grant_again :
    (now later : ℕ) (reason again : String) (principal : Principal) (id : String) (db : Store)
    → revoke_grant later again principal id (revoke_grant now reason principal id db).1
      ≡ revoke_grant now reason principal id db
unfolding revoke_grant reply_revoked
revoke_grant_again now later reason again principal id db =
    same (revoke_row now reason principal id db.agents db.grants) refl
  where
    same :
        (found : Option ApoptosisGrant × List ApoptosisGrant)
        → revoke_row now reason principal id db.agents db.grants ≡ found
        → reply_revoked
            (revoke_row later again principal id
              (reply_revoked found db).1.agents
              (reply_revoked found db).1.grants)
            (reply_revoked found db).1
          ≡ reply_revoked found db
    same (none, rows) e =
        let kept : rows ≡ db.grants =
          sym (ap (λ r. r.1) e)
          ∙ unrevoked now reason principal id db.agents db.grants (ap (λ r. r.0) e) in
        let twice = revoke_row_again now reason principal id db.agents later again db.grants in
        let found_again : revoke_row later again principal id db.agents db.grants ≡ (none, rows) =
          rw (e, kept) at twice ∙ ap (λ gs. (none, gs)) (sym kept) in
        rw found_again refl
    same (some g, rows) e =
        rw (rw e at (revoke_row_again now reason principal id db.agents later again db.grants)) refl
