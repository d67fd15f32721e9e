-- ===== src/ControlPlane/KillEvents/Frame.antt =====
-- api/kill_events.py, api/manual_kill.py: what the handlers do not write.
use hermeskill.Common.{
  ℕ, String, ◌≡◌, refl, inl, inr, ◌||◌, ◌++◌, Bool-cases, Option, none, some, [], ◌∷◌,
}
use hermeskill.ControlPlane.{
  Agent, KillEvent, Store, Principal, Scalar, load_agent_owned_by, with_agent-keeps,
}
use hermeskill.ControlPlane.KillEvents.{
  KillEventIn, Minted, is_confirmed, existing_active, breaks_index, build_or_update, token_taken,
  post_certificate, certify, create_kill_event, is_terminated, manual_row, strike, terminate_agent,
}

module _ (payload : KillEventIn) (minted : Minted) (agent_id : String) (db : Store) where
  grants-build_or_update :
      (o : Option KillEvent) → (build_or_update payload minted agent_id o db).1.grants ≡ db.grants
  unfolding build_or_update
  grants-build_or_update none = refl
  grants-build_or_update (some k) = refl

  grants-post_certificate :
      (o : Option KillEvent) → (post_certificate payload minted agent_id o db).1.grants ≡ db.grants
  unfolding post_certificate
  grants-post_certificate o =
      let written = build_or_update payload minted agent_id o db in
      elim (Bool-cases
        (breaks_index written.1.kill_events || token_taken written.0.id minted db.tokens)) [
          | inl e ↦ rw e refl
          | inr e ↦ rw e (grants-build_or_update o)
        ]

  grants-certify :
      (o : Scalar KillEvent) → (certify payload minted agent_id o db).1.grants ≡ db.grants
  unfolding certify
  grants-certify Scalar.several = refl
  grants-certify Scalar.absent = grants-post_certificate none
  grants-certify (Scalar.single k) = elim (Bool-cases (is_confirmed k)) [
    | inl e ↦ rw e refl
    | inr e ↦ rw e (grants-post_certificate (some k))
  ]

pub grants-create_kill_event :
    (payload : KillEventIn) (minted : Minted) (principal : Principal) (agent_id : String)
    (db : Store)
    → (create_kill_event payload minted principal agent_id db).1.grants ≡ db.grants
unfolding create_kill_event
grants-create_kill_event payload minted principal agent_id db =
    with_agent-keeps (λ d. d.grants ≡ db.grants)
      (load_agent_owned_by agent_id principal.customer_id db.agents) db _ refl
      (λ agent. grants-certify payload minted agent_id db (existing_active agent_id db.kill_events))

grants-strike :
    (now : ℕ) (reason : String) (principal : Principal) (agent : Agent) (agent_id : String)
    (db : Store)
    → (strike now reason principal agent agent_id db).1.grants ≡ db.grants
unfolding strike
grants-strike now reason principal agent agent_id db =
    let row = manual_row db.next_kill_event_id now reason principal agent_id in
    elim (Bool-cases (is_terminated agent)) [
      | inl e ↦ rw e refl
      | inr e ↦ elim (Bool-cases (breaks_index (db.kill_events ++ row ∷ []))) [
        | inl f ↦ rw (e, f) refl
        | inr f ↦ rw (e, f) refl
      ]
    ]

pub grants-terminate_agent :
    (now : ℕ) (reason : String) (principal : Principal) (agent_id : String) (db : Store)
    → (terminate_agent now reason principal agent_id db).1.grants ≡ db.grants
unfolding terminate_agent
grants-terminate_agent now reason principal agent_id db =
    with_agent-keeps (λ d. d.grants ≡ db.grants)
      (load_agent_owned_by agent_id principal.customer_id db.agents) db _ refl
      (λ agent. grants-strike now reason principal agent agent_id db)
