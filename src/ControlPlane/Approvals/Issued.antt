-- ===== src/ControlPlane/Approvals/Issued.antt =====
-- api/approvals.py: the grant that an approval issues.
use hermeskill.Common.{
  ℕ, ◌+◌, ◌≤◌, ◌<◌, String, ◌≡◌, refl, sym, ap, ◌∙◌, inl, inr, Bool-cases, Option, none, some, List,
  [], ◌∷◌, ◌++◌, arith, leb, string_eq, leb_false→lt,
}
use hermeskill.Policy.{value}
use hermeskill.ControlPlane.{
  Agent, ApoptosisGrant, ApprovalStatus, ToolApprovalRequest, Store, Reply, Principal,
}
use hermeskill.ControlPlane.Grants.{seconds}
use hermeskill.ControlPlane.Grants.Frame.{kills}
use hermeskill.ControlPlane.Approvals.{
  Decision, max_grant_duration_seconds, is_undecided, is_owned, decided, approval_grant, refuse,
  approve, decide, commit_decision, approve_approval_request, deny_approval_request,
}

-- What an accepted approval issues: one short grant for the agent, for calls out of its scope only, while
-- the request is in time.
pub record IsIssued (now : ℕ) (row : ToolApprovalRequest) (g : ApoptosisGrant) : Type 0 where
  pub symptoms : g.symptoms ≡ "tool_scope_violation" ∷ []
  pub agent_id : g.agent_id ≡ row.agent_id
  pub recorded : row.grant_id ≡ some g.id
  pub short : g.expires_at ≤ now + seconds max_grant_duration_seconds
  pub in_time : now < row.expires_at

pub decide_source :
    (id customer_id : String) (agents : List Agent) (f : ToolApprovalRequest → Decision)
    (rows : List ToolApprovalRequest) (d : Decision)
    → (decide id customer_id agents f rows).0 ≡ some d
    → (a : ToolApprovalRequest) × (f a ≡ d)
unfolding decide
decide_source id customer_id agents f [] d h = cc h
decide_source id customer_id agents f (a ∷ rows) d h =
    elim (Bool-cases (is_owned id customer_id agents a)) [
      | inl y ↦ (a, cc (rw y at h))
      | inr n ↦ decide_source id customer_id agents f rows d (rw n at h)
    ]

approve-IsIssued :
    (id : String) (now duration : ℕ) (reason : String) (principal : Principal)
    (a row : ToolApprovalRequest)
    → (approve id now duration reason principal a).reply ≡ Reply.replied row
    → (g : ApoptosisGrant) × ((approve id now duration reason principal a).grants ≡ g ∷ [])
      × IsIssued now row g
unfolding approve refuse decided approval_grant value
approve-IsIssued id now duration reason principal a row h = elim (Bool-cases (is_undecided a)) [
  | inr e ↦ cc (rw e at h)
  | inl e ↦ elim (Bool-cases (leb a.expires_at now)) [
    | inl f ↦ cc (rw (e, f) at h)
    | inr f ↦
        let same : decided ApprovalStatus.approved now reason principal (some id) a ≡ row =
          cc (rw (e, f) at h) in
        (
          approval_grant id now duration principal a,
          rw (e, f) refl,
          record {
            symptoms = refl;
            agent_id = ap (λ w. w.agent_id) same;
            recorded = sym (ap (λ w. w.grant_id) same);
            short = omega arith;
            in_time = omega (arith, leb_false→lt a.expires_at now f, ap (λ w. w.expires_at) same);
          },
        )
  ]
]

commit_reply :
    (found : Option Decision × List ToolApprovalRequest) (db : Store) (row : ToolApprovalRequest)
    → (commit_decision found db).0 ≡ Reply.replied row
    → (d : Decision) × (found.0 ≡ some d)
      × (d.reply ≡ Reply.replied row)
      × ((commit_decision found db).1.grants ≡ db.grants ++ d.grants)
unfolding commit_decision
commit_reply (none, rows) db row h = cc h
commit_reply (some d, rows) db row h = (d, refl, h, refl)

-- An approval that is accepted adds one grant to the table: for the agent of the request, for calls out
-- of its scope only, for five minutes at most, and only while the request has not expired.
pub approval_issues_one_grant :
    (id : String) (now duration : ℕ) (reason : String) (principal : Principal) (approval : String)
    (db : Store) (row : ToolApprovalRequest)
    → (approve_approval_request id now duration reason principal approval db).0 ≡ Reply.replied row
    → (g : ApoptosisGrant) × ((approve_approval_request id now duration reason principal approval
          db).1.grants
        ≡ db.grants ++ g ∷ [])
      × IsIssued now row g
unfolding approve_approval_request
approval_issues_one_grant id now duration reason principal approval db row h =
    let f = approve id now duration reason principal in
    let first = decide approval principal.customer_id db.agents f db.approvals in
    let (d, found, reply, grants) = commit_reply first db row h in
    let (a, same) = decide_source approval principal.customer_id db.agents f db.approvals d found in
    let (g, one, is_issued) =
      approve-IsIssued id now duration reason principal a row (ap (λ x. x.reply) same ∙ reply) in
    (g, grants ∙ ap (λ gs. db.grants ++ gs) (sym (ap (λ x. x.grants) same) ∙ one), is_issued)

module _ (found : Option Decision × List ToolApprovalRequest) (db : Store) where
  kills-commit_decision : kills (commit_decision found db).1 ≡ kills db
  unfolding commit_decision
  kills-commit_decision = committed found
    where
      committed :
          (o : Option Decision × List ToolApprovalRequest)
          → kills (commit_decision o db).1 ≡ kills db
      committed (none, rows) = refl
      committed (some d, rows) = refl

pub kills-approve :
    (id : String) (now duration : ℕ) (reason : String) (principal : Principal) (approval : String)
    (db : Store)
    → kills (approve_approval_request id now duration reason principal approval db).1 ≡ kills db
unfolding approve_approval_request
kills-approve id now duration reason principal approval db =
    kills-commit_decision (decide approval principal.customer_id db.agents _ db.approvals) db

pub kills-deny :
    (now : ℕ) (reason : String) (principal : Principal) (approval : String) (db : Store)
    → kills (deny_approval_request now reason principal approval db).1 ≡ kills db
unfolding deny_approval_request
kills-deny now reason principal approval db =
    kills-commit_decision (decide approval principal.customer_id db.agents _ db.approvals) db
