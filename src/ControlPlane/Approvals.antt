-- ===== src/ControlPlane/Approvals.antt =====
-- api/approvals.py: an operator's decision on one call of a tool. No unique index covers the requests,
-- so that an insertion of a fresh id is never refused; the settings are arguments.
pub mod Decisions
pub mod Issued
pub mod Spared
use Prim.Native.String.{◌++◌ as text_append}
use hermeskill.Common.{
  ℕ, ◌+◌, min, max, String, Bool, true, false, ◌&&◌, Option, none, some, List, [], ◌∷◌, ◌++◌, any,
  keep_if, leb, ◌==◌, string_eq, if◌then◌else◌,
}
use hermeskill.Policy.{SymptomType, value}
use hermeskill.Json.{Fields}
use hermeskill.ControlPlane.{
  Agent, ApoptosisGrant, ApprovalStatus, ToolApprovalRequest, Store, Failure, Reply, Principal,
  Scalar, scalar_one_or_none, load_agent_owned_by, with_agent,
}
use hermeskill.ControlPlane.Grants.{seconds}

abbrev pub max_grant_duration_seconds : ℕ
max_grant_duration_seconds = 300

-- `ApprovalRequestIn`
pub record ApprovalRequestIn : Type 0 where
  pub session_key : Option String
  pub tool_name : String
  pub capability : String
  pub risk : String
  pub arguments_hash : String
  pub arguments_preview : Fields
  pub reason : String

abbrev pub is_undecided : ToolApprovalRequest → Bool
is_undecided a = elim a.status [ ApprovalStatus.pending ↦ true | _ ↦ false ]

-- The pending requests for one call: the session is not compared.
abbrev same_request : String → ApprovalRequestIn → ToolApprovalRequest → Bool
same_request agent_id payload a =
    a.agent_id == agent_id
    && a.tool_name == payload.tool_name
    && a.capability == payload.capability
    && a.arguments_hash == payload.arguments_hash
    && is_undecided a

requested : String → ℕ → ℕ → ApprovalRequestIn → String → ToolApprovalRequest
requested id now ttl_seconds payload agent_id = record {
  id = id;
  agent_id = agent_id;
  session_key = payload.session_key;
  tool_name = payload.tool_name;
  capability = payload.capability;
  risk = payload.risk;
  arguments_hash = payload.arguments_hash;
  arguments_preview = payload.arguments_preview;
  reason = payload.reason;
  status = ApprovalStatus.pending;
  requested_at = now;
  expires_at = now + seconds (max 60 (min ttl_seconds 3600));
  decided_at = none;
  decided_by = none;
  decision_reason = none;
  grant_id = none;
}

request_row :
    ToolApprovalRequest → Scalar ToolApprovalRequest → Store → Reply ToolApprovalRequest × Store
request_row row Scalar.absent db =
    (Reply.replied row, record db { approvals = db.approvals ++ row ∷ [] })
request_row row (Scalar.single a) db = (Reply.replied a, db)
request_row row Scalar.several db = (Reply.failed Failure.internal, db)

unfoldable pub create_approval_request :
    String
    → ℕ
    → ℕ
    → ApprovalRequestIn
    → Principal
    → String
    → Store
    → Reply ToolApprovalRequest × Store
unfolding request_row requested
create_approval_request id now ttl_seconds payload principal agent_id db =
    with_agent (load_agent_owned_by agent_id principal.customer_id db.agents) db (λ agent.
      request_row (requested id now ttl_seconds payload agent_id)
        (scalar_one_or_none (keep_if (same_request agent_id payload) db.approvals)) db)

-- What a decision does: its reply, the row that it writes, and the grants that it issues.
pub record Decision : Type 0 where
  pub reply : Reply ToolApprovalRequest
  pub row : ToolApprovalRequest
  pub grants : List ApoptosisGrant

-- `payload.decision_reason or None`
abbrev or_none : String → Option String
or_none reason = if reason == "" then none else some reason

decided :
    ApprovalStatus
    → ℕ
    → String
    → Principal
    → Option String
    → ToolApprovalRequest
    → ToolApprovalRequest
decided status now reason principal grant_id a = record a {
  status = status;
  decided_at = some now;
  decided_by = some principal.api_key_id;
  decision_reason = or_none reason;
  grant_id = grant_id;
}

approval_grant : String → ℕ → ℕ → Principal → ToolApprovalRequest → ApoptosisGrant
approval_grant id now duration_seconds principal a = record {
  id = id;
  agent_id = a.agent_id;
  symptoms = value SymptomType.tool_scope_violation ∷ [];
  reason = text_append "approval:" a.id;
  issued_by = some principal.api_key_id;
  expires_at = now + seconds (min duration_seconds max_grant_duration_seconds);
  revoked_at = none;
  revoked_by = none;
  revoke_reason = none;
}

refuse : ToolApprovalRequest → Decision
refuse a = record { reply = Reply.failed (Failure.conflict none); row = a; grants = [] }

approve : String → ℕ → ℕ → String → Principal → ToolApprovalRequest → Decision
unfolding decided approval_grant refuse
approve id now duration_seconds reason principal a =
    if is_undecided a
    then (if leb a.expires_at now
        then record (refuse a) {
          row = record a {
            status = ApprovalStatus.expired;
            decided_at = some now;
            decision_reason = some "expired before decision";
          };
        }
        else record {
          reply = Reply.replied (decided ApprovalStatus.approved now reason principal (some id) a);
          row = decided ApprovalStatus.approved now reason principal (some id) a;
          grants = approval_grant id now duration_seconds principal a ∷ [];
        })
    else refuse a

deny : ℕ → String → Principal → ToolApprovalRequest → Decision
unfolding decided refuse
deny now reason principal a =
    if is_undecided a
    then record {
      reply = Reply.replied (decided ApprovalStatus.denied now reason principal a.grant_id a);
      row = decided ApprovalStatus.denied now reason principal a.grant_id a;
      grants = [];
    }
    else refuse a

abbrev pub is_owned : String → String → List Agent → ToolApprovalRequest → Bool
is_owned id customer_id agents a =
    a.id == id && any (λ b. b.id == a.agent_id && b.customer_id == customer_id) agents

-- `_load_approval_owned`, the decision on the row, and the write of the row.
pub decide :
    String
    → String
    → List Agent
    → (ToolApprovalRequest → Decision)
    → List ToolApprovalRequest
    → Option Decision × List ToolApprovalRequest
decide id customer_id agents f [] = (none, [])
decide id customer_id agents f (a ∷ rows) =
    let rest = decide id customer_id agents f rows in
    if is_owned id customer_id agents a
    then (some (f a), (f a).row ∷ rows)
    else (rest.0, a ∷ rest.1)

commit_decision :
    Option Decision × List ToolApprovalRequest → Store → Reply ToolApprovalRequest × Store
commit_decision (none, rows) db = (Reply.failed Failure.not_found, db)
commit_decision (some d, rows) db =
    (d.reply, record db { approvals = rows; grants = db.grants ++ d.grants })

-- `approval` is the id in the path, `id` the uuid that is drawn for the grant.
unfoldable pub approve_approval_request :
    String → ℕ → ℕ → String → Principal → String → Store → Reply ToolApprovalRequest × Store
unfolding approve decide commit_decision
approve_approval_request id now duration_seconds reason principal approval db =
    commit_decision
      (decide approval principal.customer_id db.agents
        (approve id now duration_seconds reason principal) db.approvals)
      db

unfoldable pub deny_approval_request :
    ℕ → String → Principal → String → Store → Reply ToolApprovalRequest × Store
unfolding deny decide commit_decision
deny_approval_request now reason principal approval db =
    commit_decision
      (decide approval principal.customer_id db.agents (deny now reason principal) db.approvals) db
