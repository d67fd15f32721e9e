-- ===== src/ControlPlane/KillEvents/Pending.antt =====
-- api/manual_kill.py: from an operator's kill to the poller of the agent's owner.
use hermeskill.Common.{
  sym, ℕ, String, ◌≡◌, refl, ap, ◌∙◌, inl, inr, Bool, true, ◌&&◌, Bool-cases, some, List, [], ◌∷◌,
  ◌++◌, arith, keep_if, last?, last?-append, ◌==◌, string_eq,
}
use hermeskill.ControlPlane.{
  Agent, AgentStatus, KillEvent, Store, Reply, Principal, load_agent_owned_by, update_agent,
}
use hermeskill.ControlPlane.KillEvents.{
  breaks_index, is_terminated, owned_by, manual_row, strike, terminate_agent, list_pending_kills,
}
use hermeskill.ControlPlane.KillEvents.Final.{keep_if-append}

owned_by-update_agent :
    (agent_id customer_id : String) (agents : List Agent) (agent : Agent) (k : KillEvent)
    → k.agent_id ≡ agent_id
    → load_agent_owned_by agent_id customer_id agents ≡ some agent
    → owned_by customer_id
        (update_agent agent_id (λ a. record a { status = AgentStatus.dying }) agents)
        k
      ≡ true
unfolding load_agent_owned_by update_agent
owned_by-update_agent agent_id customer_id [] agent k at h = cc h
owned_by-update_agent agent_id customer_id (a ∷ agents) agent k e h =
    elim (Bool-cases (a.id == agent_id && a.customer_id == customer_id)) [
      | inl y ↦ elim (Bool-cases (a.id == agent_id)) [
        | inl same ↦ rw (same, e) (ground (arith, y))
        | inr other ↦ absurd (ground (arith, y, other))
      ]
      | inr n ↦
          let rest = owned_by-update_agent agent_id customer_id agents agent k e (rw n at h) in
          ground (arith, rest)
    ]

last?-keep_if :
    (p : KillEvent → Bool) (rows : List KillEvent) (k : KillEvent)
    → p k ≡ true
    → last? (keep_if p (rows ++ k ∷ [])) ≡ some k
last?-keep_if p rows k h =
    let one : keep_if p (k ∷ []) ≡ k ∷ [] = rw h refl in
    ap last? (keep_if-append p rows (k ∷ []))
    ∙ ap (λ xs. last? (keep_if p rows ++ xs)) one
    ∙ last?-append (keep_if p rows) k

strike_is_pending :
    (now : ℕ) (reason : String) (principal : Principal) (agent : Agent) (agent_id : String)
    (db : Store) (row : KillEvent)
    → load_agent_owned_by agent_id principal.customer_id db.agents ≡ some agent
    → (strike now reason principal agent agent_id db).0 ≡ Reply.replied row
    → last? (list_pending_kills principal (strike now reason principal agent agent_id db).1)
      ≡ some row
unfolding strike list_pending_kills
strike_is_pending now reason principal agent agent_id db row owned h =
    let new = manual_row db.next_kill_event_id now reason principal agent_id in
    let rows = db.kill_events ++ new ∷ [] in
    elim (Bool-cases (is_terminated agent)) [
      | inl e ↦ cc (rw e at h)
      | inr e ↦ elim (Bool-cases (breaks_index rows)) [
        | inl f ↦ cc (rw (e, f) at h)
        | inr f ↦
            let same : new ≡ row = cc (rw (e, f) at h) in
            let mine =
              owned_by-update_agent agent_id principal.customer_id db.agents agent new
                (unfold manual_row in refl) owned in
            rw (e, f, ← same)
              (last?-keep_if _ db.kill_events new (unfold manual_row in rw mine refl))
      ]
    ]

-- An operator's kill of an own agent that is accepted is the last of the kills that the poller of the
-- same customer gets.
pub accepted_kill_is_pending :
    (now : ℕ) (reason : String) (principal : Principal) (agent : Agent) (agent_id : String)
    (db : Store) (row : KillEvent)
    → load_agent_owned_by agent_id principal.customer_id db.agents ≡ some agent
    → (terminate_agent now reason principal agent_id db).0 ≡ Reply.replied row
    → last? (list_pending_kills principal (terminate_agent now reason principal agent_id db).1)
      ≡ some row
unfolding terminate_agent
accepted_kill_is_pending now reason principal agent agent_id db row owned h =
    rw owned (strike_is_pending now reason principal agent agent_id db row owned (rw owned at h))

strike_agent :
    (now : ℕ) (reason : String) (principal : Principal) (agent : Agent) (agent_id : String)
    (db : Store) (row : KillEvent)
    → (strike now reason principal agent agent_id db).0 ≡ Reply.replied row
    → row.agent_id ≡ agent_id
unfolding strike manual_row
strike_agent now reason principal agent agent_id db row h =
    let new = manual_row db.next_kill_event_id now reason principal agent_id in
    elim (Bool-cases (is_terminated agent)) [
      | inl e ↦ cc (rw e at h)
      | inr e ↦ elim (Bool-cases (breaks_index (db.kill_events ++ new ∷ []))) [
        | inl f ↦ cc (rw (e, f) at h)
        | inr f ↦ let same : new ≡ row = cc (rw (e, f) at h) in sym (ap (λ w. w.agent_id) same)
      ]
    ]

pub accepted_kill_agent :
    (now : ℕ) (reason : String) (principal : Principal) (agent : Agent) (agent_id : String)
    (db : Store) (row : KillEvent)
    → load_agent_owned_by agent_id principal.customer_id db.agents ≡ some agent
    → (terminate_agent now reason principal agent_id db).0 ≡ Reply.replied row
    → row.agent_id ≡ agent_id
unfolding terminate_agent
accepted_kill_agent now reason principal agent agent_id db row owned h =
    strike_agent now reason principal agent agent_id db row (rw owned at h)
