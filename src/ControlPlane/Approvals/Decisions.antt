-- ===== src/ControlPlane/Approvals/Decisions.antt =====
-- api/approvals.py: two decisions on one request.
use mathlib.Core.List.{append-nil}
use hermeskill.Common.{
  ℕ, String, ◌≡◌, refl, inl, inr, true, false, Bool-cases, Option, none, some, List, [], ◌∷◌, ◌++◌,
  leb, string_eq,
}
use hermeskill.ControlPlane.{Agent, ToolApprovalRequest, Store, Failure, Reply, Principal}
use hermeskill.ControlPlane.Approvals.{
  Decision, is_undecided, is_owned, decided, refuse, approve, deny, decide, commit_decision,
  approve_approval_request, deny_approval_request,
}

-- A decision leaves the row decided, with its id and its agent.
record Settles (a : ToolApprovalRequest) (d : Decision) : Type 0 where
  pub undecided_no_more : is_undecided d.row ≡ false
  pub same_id : d.row.id ≡ a.id
  pub same_agent : d.row.agent_id ≡ a.agent_id

approve-Settles :
    (id : String) (now duration : ℕ) (reason : String) (principal : Principal)
    (a : ToolApprovalRequest)
    → Settles a (approve id now duration reason principal a)
unfolding approve refuse decided
approve-Settles id now duration reason principal a = elim (Bool-cases (is_undecided a)) [
  | inr e ↦ rw e (record { undecided_no_more = e; same_id = refl; same_agent = refl })
  | inl e ↦ elim (Bool-cases (leb a.expires_at now)) [
    | inl f ↦ rw (e, f) (record { undecided_no_more = refl; same_id = refl; same_agent = refl })
    | inr f ↦ rw (e, f) (record { undecided_no_more = refl; same_id = refl; same_agent = refl })
  ]
]

deny-Settles :
    (now : ℕ) (reason : String) (principal : Principal) (a : ToolApprovalRequest)
    → Settles a (deny now reason principal a)
unfolding deny refuse decided
deny-Settles now reason principal a = elim (Bool-cases (is_undecided a)) [
  | inr e ↦ rw e (record { undecided_no_more = e; same_id = refl; same_agent = refl })
  | inl e ↦ rw e (record { undecided_no_more = refl; same_id = refl; same_agent = refl })
]

-- A decision that refuses every row that is decided.
abbrev Respects : (ToolApprovalRequest → Decision) → Type 0
Respects f = (a : ToolApprovalRequest) → is_undecided a ≡ false → f a ≡ refuse a

approve-Respects :
    (id : String) (now duration : ℕ) (reason : String) (principal : Principal)
    → Respects (approve id now duration reason principal)
unfolding approve
approve-Respects id now duration reason principal a e = rw e refl

deny-Respects :
    (now : ℕ) (reason : String) (principal : Principal) → Respects (deny now reason principal)
unfolding deny
deny-Respects now reason principal a e = rw e refl

-- The second of two decisions on one request.
decide_twice :
    (id customer_id : String) (agents : List Agent) (f g : ToolApprovalRequest → Decision)
    (rows : List ToolApprovalRequest) (d : Decision)
    → ((a : ToolApprovalRequest) → Settles a (f a))
    → Respects g
    → (decide id customer_id agents f rows).0 ≡ some d
    → decide id customer_id agents g (decide id customer_id agents f rows).1
      ≡ (some (refuse d.row), (decide id customer_id agents f rows).1)
unfolding decide
decide_twice id customer_id agents f g [] d settles respects h = cc h
decide_twice id customer_id agents f g (a ∷ rows) d settles respects h =
    elim (Bool-cases (is_owned id customer_id agents a)) [
      | inl y ↦
          let same : f a ≡ d = cc (rw y at h) in
          let s = settles a in
          let still : is_owned id customer_id agents (f a).row ≡ true =
            rw (s.same_id, s.same_agent) y in
          let refused : g (f a).row ≡ refuse (f a).row = respects (f a).row s.undecided_no_more in
          rw (y, still, refused, ← same) (unfold refuse in refl)
      | inr n ↦
          let again = decide_twice id customer_id agents f g rows d settles respects (rw n at h) in
          rw (n, n, again) refl
    ]

replied_some :
    (found : Option Decision × List ToolApprovalRequest) (db : Store) (row : ToolApprovalRequest)
    → (commit_decision found db).0 ≡ Reply.replied row
    → (d : Decision) × (found.0 ≡ some d)
unfolding commit_decision
replied_some (none, rows) db row h = cc h
replied_some (some d, rows) db row h = (d, refl)

second_decision :
    (found : Option Decision × List ToolApprovalRequest)
    (again : List Agent → List ToolApprovalRequest → Option Decision × List ToolApprovalRequest)
    (db : Store) (d : Decision)
    → found.0 ≡ some d
    → again db.agents found.1 ≡ (some (refuse d.row), found.1)
    → commit_decision
        (again (commit_decision found db).1.agents (commit_decision found db).1.approvals)
        (commit_decision found db).1
      ≡ (Reply.failed (Failure.conflict none), (commit_decision found db).1)
unfolding commit_decision refuse
second_decision (none, rows) again db d h e = cc h
second_decision (some x, rows) again db d h e = rw (e, append-nil (db.grants ++ x.grants)) refl

-- Once an operator's approval is accepted, another approval or a denial of the same request, by the same or another
-- operator of that customer, is refused as a conflict, changes nothing and issues no grant.
pub approval_is_final :
    (id other : String) (now later duration lasting : ℕ) (reason again : String)
    (principal second : Principal) (approval : String) (db : Store) (row : ToolApprovalRequest)
    → second.customer_id ≡ principal.customer_id
    → (approve_approval_request id now duration reason principal approval db).0 ≡ Reply.replied row
    → (approve_approval_request other later lasting again second approval
          (approve_approval_request id now duration reason principal approval db).1
        ≡ (
          Reply.failed (Failure.conflict none),
          (approve_approval_request id now duration reason principal approval db).1,
        ))
      × (deny_approval_request later again second approval
            (approve_approval_request id now duration reason principal approval db).1
          ≡ (
            Reply.failed (Failure.conflict none),
            (approve_approval_request id now duration reason principal approval db).1,
          ))
unfolding approve_approval_request deny_approval_request
approval_is_final id other now later duration lasting reason again principal second approval db row
      same h =
    let f = approve id now duration reason principal in
    let customer = principal.customer_id in
    let first = decide approval customer db.agents f db.approvals in
    let (d, found) = replied_some first db row h in
    let settled = approve-Settles id now duration reason principal in
    rw same (
      second_decision first
          (λ agents rows.
            decide approval customer agents (approve other later lasting again second) rows)
          db d found
          (decide_twice approval customer db.agents f _ db.approvals d settled
            (approve-Respects other later lasting again second) found),
      second_decision first
          (λ agents rows. decide approval customer agents (deny later again second) rows) db d found
          (decide_twice approval customer db.agents f _ db.approvals d settled
            (deny-Respects later again second) found),
    )
