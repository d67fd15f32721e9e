-- ===== src/ControlPlane.antt =====
-- packages/hermeskill-control-plane/src/control_plane: the tables (db/models) and what the handlers share.
-- A table is the list of its rows, oldest first; a handler takes the store and returns its reply and the
-- store after its last commit. Agents and grants have primary keys, so that a lookup by id is of one row.
-- Ids, hashes and times that the source draws are arguments.
pub mod KillEvents
pub mod Grants
pub mod Feedback
pub mod Approvals
pub mod Requests
pub mod Events
pub mod Fleet
use hermeskill.Common.{
  ℕ, String, Bool, true, false, ◌&&◌, Option, none, some, List, [], ◌∷◌, keep_if, ◌==◌, string_eq,
  nat_eq, if◌then◌else◌,
}
use hermeskill.Watcher.Values.{Detail}
use hermeskill.Json.{Fields}

pub data AgentStatus : Type 0 where
  registered running dying terminated zombie : AgentStatus

pub data KillEventStatus : Type 0 where
  initiated confirmed zombie : KillEventStatus

pub data TriggerType : Type 0 where
  auto manual : TriggerType

pub record Agent : Type 0 where
  pub id : String
  pub customer_id : String
  pub policy_name : String
  pub status : AgentStatus
  pub last_heartbeat_at : Option ℕ
  pub terminated_at : Option ℕ

pub record KillEvent : Type 0 where
  pub id : ℕ
  pub agent_id : String
  pub trigger_type : TriggerType
  pub trigger_reason : String
  pub triggered_at : ℕ
  pub terminated_at : Option ℕ
  pub status : KillEventStatus
  pub operator_id : Option String
  pub operator_reason : Option String
  pub death_certificate : Option Detail
  pub shutdown_log : List Detail
  pub feedback_label : Option String
  pub feedback_at : Option ℕ

pub record ApoptosisGrant : Type 0 where
  pub id : String
  pub agent_id : String
  pub symptoms : List String
  pub reason : String
  pub issued_by : Option String
  pub expires_at : ℕ
  pub revoked_at : Option ℕ
  pub revoked_by : Option String
  pub revoke_reason : Option String

pub record FeedbackToken : Type 0 where
  pub token_hash : String
  pub kill_event_id : ℕ
  pub expires_at : ℕ
  pub used_at : Option ℕ

pub data ApprovalStatus : Type 0 where
  pending approved denied expired : ApprovalStatus

pub record ToolApprovalRequest : Type 0 where
  pub id : String
  pub agent_id : String
  pub session_key : Option String
  pub tool_name : String
  pub capability : String
  pub risk : String
  pub arguments_hash : String
  pub arguments_preview : Fields
  pub reason : String
  pub status : ApprovalStatus
  pub requested_at : ℕ
  pub expires_at : ℕ
  pub decided_at : Option ℕ
  pub decided_by : Option String
  pub decision_reason : Option String
  pub grant_id : Option String

pub record Store : Type 0 where
  pub agents : List Agent
  pub kill_events : List KillEvent
  pub next_kill_event_id : ℕ
  pub grants : List ApoptosisGrant
  pub tokens : List FeedbackToken
  pub approvals : List ToolApprovalRequest

-- The HTTPExceptions that the handlers raise; `internal` is the status of an exception that none catches.
pub data Failure : Type 0 where
  not_found gone internal : Failure
  conflict : Option ℕ → Failure
  unprocessable bad_request : String → Failure

pub data Reply (A : Type 0) : Type 0 where
  failed : Failure → Reply A
  replied : A → Reply A

pub record Principal : Type 0 where
  pub customer_id : String
  pub api_key_id : String

-- `scalar_one_or_none`: it raises when there are several rows.
pub data Scalar (A : Type 0) : Type 0 where
  absent several : Scalar A
  single : A → Scalar A

abbrev pub scalar_one_or_none : {A : Type 0} → List A → Scalar A
scalar_one_or_none [] = Scalar.absent
scalar_one_or_none (a ∷ []) = Scalar.single a
scalar_one_or_none (a ∷ b ∷ xs) = Scalar.several

-- `_load_agent_owned_by`; `none` stands for its 404.
unfoldable pub load_agent_owned_by : String → String → List Agent → Option Agent
load_agent_owned_by agent_id customer_id [] = none
load_agent_owned_by agent_id customer_id (a ∷ agents) =
    if a.id == agent_id && a.customer_id == customer_id
    then some a
    else load_agent_owned_by agent_id customer_id agents

-- The rest of a handler, once its agent is loaded.
abbrev pub with_agent :
    {A : Type 0} → Option Agent → Store → (Agent → Reply A × Store) → Reply A × Store
with_agent none db handle = (Reply.failed Failure.not_found, db)
with_agent (some agent) db handle = handle agent

pub with_agent-keeps :
    {A : Type 0} (P : Store → Type 0) (o : Option Agent) (db : Store)
    (handle : Agent → Reply A × Store)
    → P db
    → ((agent : Agent) → P (handle agent).1)
    → P (with_agent o db handle).1
with_agent-keeps P none db handle kept rest = kept
with_agent-keeps P (some agent) db handle kept rest = rest agent

-- Writes to the fields of the agent of an id.
unfoldable pub update_agent : String → (Agent → Agent) → List Agent → List Agent
update_agent agent_id f [] = []
update_agent agent_id f (a ∷ agents) =
    (if a.id == agent_id then f a else a) ∷ update_agent agent_id f agents
