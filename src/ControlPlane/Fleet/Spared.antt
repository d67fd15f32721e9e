-- ===== src/ControlPlane/Fleet/Spared.antt =====
-- agents.py: what the deletion of agents removes, and what it leaves.
use hermeskill.Common.{
  String, ◌≡◌, refl, sym, ap, ◌∙◌, inl, inr, Bool, true, false, not, ◌&&◌, Bool-cases, none, some,
  List, [], ◌∷◌, keep_if, contains, ◌==◌, string_eq, nat_eq, beq_refl, if◌then◌else◌, arith,
}
use hermeskill.ControlPlane.{
  Agent, AgentStatus, KillEvent, ApoptosisGrant, Store, Principal, load_agent_owned_by,
}
use hermeskill.ControlPlane.Events.{EventRow, EventLog, of_agent}
use hermeskill.ControlPlane.Fleet.{
  same_status, cascade_store, cascade_log, cascade, delete_loaded, delete_agent, prunable,
}

-- A second filter takes nothing from what passes the first.
pub kept_where :
    {A : Type 0} (f g : A → Bool) (xs : List A)
    → ((x : A) → f x ≡ true → g x ≡ true)
    → keep_if f (keep_if g xs) ≡ keep_if f xs
kept_where f g [] h = refl
kept_where f g (x ∷ xs) h = elim (Bool-cases (f x)) [
  | inl e ↦ rw (h x e, e) (ap (◌∷◌ x) (kept_where f g xs h))
  | inr e ↦ elim (Bool-cases (g x)) [
    | inl k ↦ rw (e, k) (rw e (kept_where f g xs h))
    | inr k ↦ rw (e, k) (kept_where f g xs h)
  ]
]

module _ {A : Type 0} (owner : A → String) (ids : List String) where
  -- The rows of an agent that is not deleted stay.
  pub kept_rows :
      (j : String) (rows : List A)
      → contains ids j ≡ false
      → keep_if (λ r. owner r == j) (keep_if (λ r. not (contains ids (owner r))) rows)
        ≡ keep_if (λ r. owner r == j) rows
  kept_rows j rows h =
      kept_where (λ r. owner r == j) (λ r. not (contains ids (owner r))) rows
        (λ r e. ap not (ap (contains ids) ((string_eq.same_iff (owner r) j).0 e) ∙ h))

  -- The rows of a deleted agent go.
  gone_rows :
      (j : String) (rows : List A)
      → contains ids j ≡ true
      → keep_if (λ r. owner r == j) (keep_if (λ r. not (contains ids (owner r))) rows) ≡ []
  gone_rows j [] h = refl
  gone_rows j (r ∷ rows) h = elim (Bool-cases (contains ids (owner r))) [
    | inl f ↦ rw f (gone_rows j rows h)
    | inr f ↦ elim (Bool-cases (owner r == j)) [
      | inl e ↦ cc (f, h, ap (contains ids) ((string_eq.same_iff (owner r) j).0 e))
      | inr e ↦ rw f (rw e (gone_rows j rows h))
    ]
  ]

-- What the tables have of an agent.
pub record History : Type 0 where
  pub kill_events : List KillEvent
  pub grants : List ApoptosisGrant
  pub events : List EventRow

abbrev pub history_of : String → Store × EventLog → History
history_of j (db, log) = record {
  kill_events = keep_if (λ k. k.agent_id == j) db.kill_events;
  grants = keep_if (λ g. g.agent_id == j) db.grants;
  events = of_agent j log;
}

abbrev pub no_history : History
no_history = record { kill_events = []; grants = []; events = [] }

pub history-cascade :
    (enforced : Bool) (ids : List String) (db : Store) (log : EventLog) (j : String)
    → history_of j (cascade enforced ids db log)
      ≡ (if contains ids j then no_history else history_of j (db, log))
unfolding cascade cascade_store cascade_log
history-cascade enforced [] db log j = refl
history-cascade enforced (i ∷ ids) db log j = elim (Bool-cases (contains (i ∷ ids) j)) [
  | inl e ↦ rw e (
      cc (
        gone_rows (λ k. k.agent_id) (i ∷ ids) j db.kill_events e,
        gone_rows (λ g. g.agent_id) (i ∷ ids) j db.grants e,
        gone_rows (λ r. r.agent_id) (i ∷ ids) j log.rows e,
      ))
  | inr e ↦ rw e (
      cc (
        kept_rows (λ k. k.agent_id) (i ∷ ids) j db.kill_events e,
        kept_rows (λ g. g.agent_id) (i ∷ ids) j db.grants e,
        kept_rows (λ r. r.agent_id) (i ∷ ids) j log.rows e,
      ))
]

-- The deletion of an agent of the caller leaves no kill event, grant or event of it, and all of those of any other
-- agent.
pub delete_agent_erases :
    (enforced : Bool) (principal : Principal) (agent_id : String) (db : Store) (log : EventLog)
    (agent : Agent)
    → load_agent_owned_by agent_id principal.customer_id db.agents ≡ some agent
    → (history_of agent_id (delete_agent enforced principal agent_id db log).1 ≡ no_history)
      × ((j : String)
          → (j == agent_id) ≡ false
          → history_of j (delete_agent enforced principal agent_id db log).1
            ≡ history_of j (db, log))
unfolding delete_agent delete_loaded
delete_agent_erases enforced principal agent_id db log agent owned = rw owned (
  history-cascade enforced (agent_id ∷ []) db log agent_id ∙ rw (beq_refl agent_id) refl,
  λ j other. history-cascade enforced (agent_id ∷ []) db log j ∙ rw other refl,
)

both_false : (x y z : Bool) → (x && y) ≡ false → (y && z) ≡ true → x ≡ false
both_false x y z h k = ground arith

pub not_prunable :
    (status : AgentStatus) (principal : Principal) (j : String) (agents : List Agent)
    → load_agent_owned_by j principal.customer_id agents ≡ none
    → contains (prunable status principal agents) j ≡ false
unfolding load_agent_owned_by
not_prunable status principal j [] h = refl
not_prunable status principal j (a ∷ agents) h =
    elim (Bool-cases (a.id == j && a.customer_id == principal.customer_id)) [
      | inl f ↦ cc (rw f at h)
      | inr f ↦
          let later = not_prunable status principal j agents (rw f at h) in
          elim (Bool-cases
            (a.customer_id == principal.customer_id && same_status a.status status)) [
              | inr e ↦ rw e later
              | inl e ↦ elim (Bool-cases (j == a.id)) [
                | inl g ↦
                    let back =
                      (string_eq.same_iff a.id j).1 (sym ((string_eq.same_iff j a.id).0 g)) in
                    cc (
                      both_false (a.id == j) (a.customer_id == principal.customer_id)
                          (same_status a.status status) f e,
                      back,
                    )
                | inr g ↦ rw (e, g) later
              ]
            ]
    ]
