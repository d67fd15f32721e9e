-- ===== src/ControlPlane/Approvals/Spared.antt =====
-- api/approvals.py: the grants of the store and the symptom `manual_kill`.
use hermeskill.Common.{
  ℕ, String, ◌≡◌, refl, inl, inr, Bool-cases, Option, none, some, List, [], ◌∷◌, ◌++◌, leb,
  string_eq, keep_if,
}
use hermeskill.Policy.{value}
use hermeskill.ControlPlane.{
  ApoptosisGrant, ToolApprovalRequest, Store, Principal, Scalar, scalar_one_or_none,
  load_agent_owned_by, with_agent-keeps,
}
use hermeskill.ControlPlane.Grants.Spared.{SparesManualKill}
use hermeskill.ControlPlane.Grants.Frame.{kills}
use hermeskill.ControlPlane.Approvals.{
  ApprovalRequestIn, Decision, is_undecided, refuse, approve, deny, decide, commit_decision,
  approval_grant, requested, request_row, same_request, create_approval_request,
  approve_approval_request, deny_approval_request,
}
use hermeskill.ControlPlane.Approvals.Issued.{decide_source}

SparesManualKill-append :
    (gs hs : List ApoptosisGrant)
    → SparesManualKill gs
    → SparesManualKill hs
    → SparesManualKill (gs ++ hs)
SparesManualKill-append [] hs w v = v
SparesManualKill-append (g ∷ gs) hs (h, t) v = (h, SparesManualKill-append gs hs t v)

approve-SparesManualKill :
    (id : String) (now duration : ℕ) (reason : String) (principal : Principal)
    (a : ToolApprovalRequest)
    → SparesManualKill (approve id now duration reason principal a).grants
unfolding approve refuse approval_grant value
approve-SparesManualKill id now duration reason principal a = elim (Bool-cases (is_undecided a)) [
  | inr e ↦ rw e tt
  | inl e ↦ elim (Bool-cases (leb a.expires_at now)) [
    | inl f ↦ rw (e, f) tt
    | inr f ↦ rw (e, f) (refl, tt)
  ]
]

deny-SparesManualKill :
    (now : ℕ) (reason : String) (principal : Principal) (a : ToolApprovalRequest)
    → SparesManualKill (deny now reason principal a).grants
unfolding deny refuse
deny-SparesManualKill now reason principal a = elim (Bool-cases (is_undecided a)) [
  | inr e ↦ rw e tt
  | inl e ↦ rw e tt
]

commit_decision-SparesManualKill :
    (found : Option Decision × List ToolApprovalRequest) (f : ToolApprovalRequest → Decision)
    (db : Store)
    → ((a : ToolApprovalRequest) → SparesManualKill (f a).grants)
    → ((d : Decision) → found.0 ≡ some d → (a : ToolApprovalRequest) × (f a ≡ d))
    → SparesManualKill db.grants
    → SparesManualKill (commit_decision found db).1.grants
unfolding commit_decision
commit_decision-SparesManualKill (none, rows) f db spares source w = w
commit_decision-SparesManualKill (some d, rows) f db spares source w =
    let (a, same) = source d refl in
    SparesManualKill-append db.grants d.grants w (rw (← same) (spares a))

pub approve_approval_request-SparesManualKill :
    (id : String) (now duration : ℕ) (reason : String) (principal : Principal) (approval : String)
    (db : Store)
    → SparesManualKill db.grants
    → SparesManualKill
        (approve_approval_request id now duration reason principal approval db).1.grants
unfolding approve_approval_request
approve_approval_request-SparesManualKill id now duration reason principal approval db w =
    let f = approve id now duration reason principal in
    commit_decision-SparesManualKill
      (decide approval principal.customer_id db.agents f db.approvals) f db
      (approve-SparesManualKill id now duration reason principal)
      (decide_source approval principal.customer_id db.agents f db.approvals) w

pub deny_approval_request-SparesManualKill :
    (now : ℕ) (reason : String) (principal : Principal) (approval : String) (db : Store)
    → SparesManualKill db.grants
    → SparesManualKill (deny_approval_request now reason principal approval db).1.grants
unfolding deny_approval_request
deny_approval_request-SparesManualKill now reason principal approval db w =
    let f = deny now reason principal in
    commit_decision-SparesManualKill
      (decide approval principal.customer_id db.agents f db.approvals) f db
      (deny-SparesManualKill now reason principal)
      (decide_source approval principal.customer_id db.agents f db.approvals) w

-- What a new request leaves alone.
abbrev Untouched : Store → Store → Type 0
Untouched db after = (kills after ≡ kills db) × (after.grants ≡ db.grants)

request_row-Untouched :
    (row : ToolApprovalRequest) (o : Scalar ToolApprovalRequest) (db : Store)
    → Untouched db (request_row row o db).1
unfolding request_row
request_row-Untouched row Scalar.absent db = (refl, refl)
request_row-Untouched row (Scalar.single a) db = (refl, refl)
request_row-Untouched row Scalar.several db = (refl, refl)

pub approval_request_writes_approvals :
    (id : String) (now ttl : ℕ) (payload : ApprovalRequestIn) (principal : Principal)
    (agent_id : String) (db : Store)
    → (kills (create_approval_request id now ttl payload principal agent_id db).1 ≡ kills db)
      × ((create_approval_request id now ttl payload principal agent_id db).1.grants ≡ db.grants)
unfolding create_approval_request
approval_request_writes_approvals id now ttl payload principal agent_id db =
    with_agent-keeps (Untouched db) (load_agent_owned_by agent_id principal.customer_id db.agents)
      db _ (refl, refl)
      (λ agent.
        request_row-Untouched (requested id now ttl payload agent_id)
          (scalar_one_or_none (keep_if (same_request agent_id payload) db.approvals)) db)
