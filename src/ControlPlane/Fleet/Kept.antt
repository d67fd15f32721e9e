-- ===== src/ControlPlane/Fleet/Kept.antt =====
-- agents.py: what the deletion of agents leaves of another one, in all tables.
use hermeskill.Common.{
  ℕ, ◌+◌, ◌<◌, String, ◌≡◌, refl, ap, ◌∙◌, inl, inr, Bool, true, false, not, Bool-cases, none, List,
  [], ◌∷◌, map, keep_if, contains, ◌==◌, string_eq, nat_eq, if◌then◌else◌, arith,
}
use hermeskill.ControlPlane.{
  Agent, AgentStatus, KillEvent, FeedbackToken, ToolApprovalRequest, Store, Principal,
  load_agent_owned_by,
}
use hermeskill.ControlPlane.KillEvents.Index.{Ascending}
use hermeskill.ControlPlane.KillEvents.Lifecycle.{IsWellFormed}
use hermeskill.ControlPlane.Events.{EventLog}
use hermeskill.ControlPlane.Fleet.{kill_event_ids, cascade_store, cascade, prunable, prune_agents}
use hermeskill.ControlPlane.Fleet.Spared.{
  History, history_of, no_history, history-cascade, kept_where, kept_rows, not_prunable,
}

abbrev ids_where : (KillEvent → Bool) → List KillEvent → List ℕ
ids_where f rows = map (λ k. k.id) (keep_if f rows)

abbrev pub ids_of : String → List KillEvent → List ℕ
ids_of j = ids_where (λ k. k.agent_id == j)

-- What the tables have of an agent: its row, its history, the feedback tokens of its kill events, and its requests
-- for approvals.
pub record Holdings : Type 0 where
  pub agents : List Agent
  pub history : History
  pub tokens : List FeedbackToken
  pub approvals : List ToolApprovalRequest

abbrev pub holdings_of : String → Store × EventLog → Holdings
holdings_of j (db, log) = record {
  agents = keep_if (λ a. a.id == j) db.agents;
  history = history_of j (db, log);
  tokens = keep_if (λ t. contains (ids_of j db.kill_events) t.kill_event_id) db.tokens;
  approvals = keep_if (λ a. a.agent_id == j) db.approvals;
}

below_all :
    (f : KillEvent → Bool) (n low next : ℕ) (rows : List KillEvent)
    → n < low
    → Ascending low next rows
    → contains (ids_where f rows) n ≡ false
below_all f n low next [] h a = refl
below_all f n low next (r ∷ rows) h (now, later) =
    let rest = below_all f n (r.id + 1) next rows (omega (arith, h, now)) later in
    elim (Bool-cases (f r)) [
      | inr e ↦ rw e rest
      | inl e ↦ elim (Bool-cases (n == r.id)) [
        | inl same ↦ absurd (omega (arith, h, now, (nat_eq.same_iff n r.id).0 same))
        | inr other ↦ rw (e, other) rest
      ]
    ]

-- The ids of the kill events of different agents are different.
apart :
    (j : String) (dead : List String) (n low next : ℕ) (rows : List KillEvent)
    → contains dead j ≡ false
    → Ascending low next rows
    → contains (ids_of j rows) n ≡ true
    → contains (kill_event_ids dead rows) n ≡ false
apart j dead n low next [] alive a h = refl
apart j dead n low next (r ∷ rows) alive (now, later) h = elim (Bool-cases (r.agent_id == j)) [
  | inl mine ↦
      let out = ap (contains dead) ((string_eq.same_iff r.agent_id j).0 mine) ∙ alive in
      elim (Bool-cases (n == r.id)) [
        | inl same ↦ rw out (
            below_all (λ k. contains dead k.agent_id) n (r.id + 1) next rows
              (omega (arith, (nat_eq.same_iff n r.id).0 same)) later)
        | inr other ↦
            rw out (apart j dead n (r.id + 1) next rows alive later (rw (mine, other) at h))
      ]
  | inr foreign ↦
      let found : contains (ids_of j rows) n ≡ true = rw foreign at h in
      let rest = apart j dead n (r.id + 1) next rows alive later found in
      elim (Bool-cases (contains dead r.agent_id)) [
        | inr e ↦ rw e rest
        | inl e ↦ elim (Bool-cases (n == r.id)) [
          | inr other ↦ rw (e, other) rest
          | inl same ↦ cc (
            found,
            below_all (λ k. k.agent_id == j) n (r.id + 1) next rows
                (omega (arith, (nat_eq.same_iff n r.id).0 same)) later,
          )
        ]
      ]
]

approvals-cascade :
    (enforced : Bool) (ids : List String) (j : String) (rows : List ToolApprovalRequest)
    → contains ids j ≡ false
    → keep_if
        (λ a. a.agent_id == j)
        (if enforced then keep_if (λ a. not (contains ids a.agent_id)) rows else rows)
      ≡ keep_if (λ a. a.agent_id == j) rows
approvals-cascade true ids j rows alive = kept_rows (λ a. a.agent_id) ids j rows alive
approvals-cascade false ids j rows alive = refl

holdings-cascade :
    (enforced : Bool) (ids : List String) (db : Store) (log : EventLog) (j : String)
    → IsWellFormed db
    → contains ids j ≡ false
    → holdings_of j (cascade enforced ids db log) ≡ holdings_of j (db, log)
unfolding cascade cascade_store
holdings-cascade enforced [] db log j w alive = refl
holdings-cascade enforced (i ∷ ids) db log j w alive =
    let dead : List String = i ∷ ids in
    let events = kept_rows (λ k. k.agent_id) dead j db.kill_events alive in
    let tokens =
      kept_where (λ t. contains (ids_of j db.kill_events) t.kill_event_id)
        (λ t. not (contains (kill_event_ids dead db.kill_events) t.kill_event_id)) db.tokens
        (λ t h. ap not (
          apart j dead t.kill_event_id 0 db.next_kill_event_id db.kill_events alive w.ascending
            h)) in
    let left : List FeedbackToken =
      keep_if (λ t. not (contains (kill_event_ids dead db.kill_events) t.kill_event_id))
        db.tokens in
    let history =
      history-cascade enforced dead db log j
      ∙ ap (λ b. if b then no_history else history_of j (db, log)) alive in
    cc (
      kept_rows (λ a. a.id) dead j db.agents alive,
      history,
      ap (λ ids. keep_if (λ t. contains ids t.kill_event_id) left) (ap (map (λ k. k.id)) events)
          ∙ tokens,
      approvals-cascade enforced dead j db.approvals alive,
    )

-- In a well-formed store, pruning leaves all that the tables have of an agent that is not the caller's: its row, its
-- kill events with their feedback tokens, its grants, its events and its requests for approvals.
pub prune_agents_spares :
    (enforced : Bool) (status : AgentStatus) (principal : Principal) (db : Store) (log : EventLog)
    (j : String)
    → IsWellFormed db
    → load_agent_owned_by j principal.customer_id db.agents ≡ none
    → holdings_of j (prune_agents enforced status principal db log).1 ≡ holdings_of j (db, log)
unfolding prune_agents
prune_agents_spares enforced status principal db log j w foreign =
    holdings-cascade enforced (prunable status principal db.agents) db log j w
      (not_prunable status principal j db.agents foreign)
