-- ===== src/Tests/Handlers.antt =====
-- Examples for the control plane's handlers, on a small store.
use hermeskill.Common.{◌≡◌, refl, ◌⊎◌, true, none, some, List, [], ◌∷◌, arith}
use hermeskill.Json.{done}
use hermeskill.Policy.{SymptomType, Policy, value}
use hermeskill.Policy.Shipped.{resolve_policy}
use hermeskill.ControlPlane.{
  Agent, AgentStatus, KillEvent, KillEventStatus, TriggerType, FeedbackToken, Store, Failure, Reply,
  Principal, Scalar, load_agent_owned_by, update_agent,
}
use hermeskill.ControlPlane.KillEvents.{
  KillEventIn, Minted, breaks_index, existing_active, is_confirmed, token_taken, create_kill_event,
  terminate_agent,
}
use hermeskill.ControlPlane.KillEvents.Lifecycle.{IsWellFormed}
use hermeskill.ControlPlane.KillEvents.Certificates.{initiated_kill_is_confirmed}
use hermeskill.ControlPlane.KillEvents.Final.{accepted_certificate_is_final}
use hermeskill.ControlPlane.Grants.{GrantIn, issued, create_grant}
use hermeskill.ControlPlane.Grants.Rules.{IsPermitted, create_grant-IsPermitted}
use hermeskill.ControlPlane.{ApoptosisGrant, ToolApprovalRequest, ApprovalStatus}
use hermeskill.ControlPlane.Approvals.{approve_approval_request, deny_approval_request}
use hermeskill.ControlPlane.Approvals.Decisions.{approval_is_final}
use hermeskill.ControlPlane.Approvals.Issued.{IsIssued, approval_issues_one_grant}
use hermeskill.Watcher.{WatcherState}
use hermeskill.Worker.{get_watcher, poll_tick}
use hermeskill.OperatorKill.{pending_kills, operator_kill_reaches_agent}
use hermeskill.Tests.Samples.{noon, fresh, registry}
use hermeskill.ControlPlane.Feedback.{submit_feedback}
use hermeskill.ControlPlane.Feedback.Once.{submit_feedback_once}
use hermeskill.ControlPlane.Requests.{Request, serve_all, new_store, IsSound, requests_keep-IsSound}

abbrev builder : Agent
builder = record {
  id = "a1";
  customer_id = "acme";
  policy_name = "coding-default";
  status = AgentStatus.running;
  last_heartbeat_at = none;
  terminated_at = none;
}

abbrev ada : Principal
ada = record { customer_id = "acme"; api_key_id = "key-1" }

abbrev struck_row : KillEvent
struck_row = record {
  id = 4;
  agent_id = "a1";
  trigger_type = TriggerType.manual;
  trigger_reason = "manual kill";
  triggered_at = 10;
  terminated_at = none;
  status = KillEventStatus.initiated;
  operator_id = some "key-1";
  operator_reason = some "stop it";
  death_certificate = none;
  shutdown_log = [];
  feedback_label = none;
  feedback_at = none;
}

abbrev lapsed_row : KillEvent
lapsed_row = record struck_row { id = 2; status = KillEventStatus.zombie }

abbrev link : FeedbackToken
link = record { token_hash = "h1"; kill_event_id = 2; expires_at = 1000; used_at = none }

abbrev db : Store
db = record {
  agents = builder ∷ [];
  kill_events = lapsed_row ∷ struck_row ∷ [];
  next_kill_event_id = 5;
  grants = [];
  tokens = link ∷ [];
  approvals = [];
}

abbrev quiet : Store
quiet = record db { kill_events = lapsed_row ∷ [] }

abbrev certificate : KillEventIn
certificate = record {
  trigger_type = TriggerType.manual;
  trigger_reason = "manual kill";
  triggered_at = 10;
  terminated_at = 20;
  death_certificate = [];
  shutdown_log = [];
}

abbrev token : Minted
token = record { token_hash = "h2"; feedback_url = "https://cp/feedback/t2"; expires_at = 2000 }

db-IsWellFormed : IsWellFormed db
db-IsWellFormed = record {
  one_active = λ id. ground arith;
  ascending = (omega arith, (omega arith, omega arith));
}

initiated_kill_is_confirmed_example :
    (row : KillEvent) × ((create_kill_event certificate token ada "a1" db).0 ≡ Reply.replied row)
    × (row.id ≡ 4)
    × (is_confirmed row ≡ true)
    × (row.operator_reason ≡ some "stop it")
    × (row.terminated_at ≡ some 20)
unfolding token_taken
initiated_kill_is_confirmed_example =
    initiated_kill_is_confirmed certificate token ada "a1" builder struck_row db db-IsWellFormed
      (unfold load_agent_owned_by in refl) refl refl refl

-- The row of a reply.
abbrev row_of_reply : Reply KillEvent → KillEvent
row_of_reply (Reply.replied k) = k
row_of_reply (Reply.failed f) = struck_row

abbrev dead : Agent
dead = record builder { status = AgentStatus.terminated; terminated_at = some 20 }

abbrev confirmed_row : KillEvent
confirmed_row = row_of_reply (create_kill_event certificate token ada "a1" db).0

accepted_certificate_is_final_example :
    (existing_active "a1" (create_kill_event certificate token ada "a1" db).1.kill_events
      ≡ Scalar.single confirmed_row)
    × (create_kill_event certificate token ada "a1"
          (create_kill_event certificate token ada "a1" db).1
        ≡ (
          Reply.failed (Failure.conflict (some confirmed_row.id)),
          (create_kill_event certificate token ada "a1" db).1,
        ))
unfolding create_kill_event load_agent_owned_by breaks_index update_agent
accepted_certificate_is_final_example =
    accepted_certificate_is_final certificate certificate token token ada ada "a1" builder dead
      confirmed_row db db-IsWellFormed refl refl refl

abbrev new_row : KillEvent
new_row = row_of_reply (terminate_agent 30 "again" ada "a1" quiet).0

abbrev scope_request : GrantIn
scope_request = record {
  symptoms = SymptomType.tool_scope_violation ∷ [];
  duration_seconds = 3600;
  reason = "migration";
}

create_grant-IsPermitted_example :
    (p : Policy) × (resolve_policy "coding-default" ≡ some p)
    × IsPermitted 100 p scope_request (issued "g1" 100 scope_request ada "a1")
unfolding create_grant load_agent_owned_by resolve_policy value
create_grant-IsPermitted_example =
    create_grant-IsPermitted "g1" 100 scope_request ada "a1" builder db
      (issued "g1" 100 scope_request ada "a1") refl refl

abbrev granted : Store
granted = record db { grants = issued "g1" 100 scope_request ada "a1" ∷ [] }

submit_feedback_once_example :
    (submit_feedback 600 "h1" "correct" (submit_feedback 500 "h1" "false_positive" db).1
      ≡ (Reply.failed Failure.not_found, (submit_feedback 500 "h1" "false_positive" db).1))
    ⊎ (submit_feedback 600 "h1" "correct" (submit_feedback 500 "h1" "false_positive" db).1
        ≡ (Reply.failed Failure.gone, (submit_feedback 500 "h1" "false_positive" db).1))
submit_feedback_once_example =
    submit_feedback_once 500 600 "h1" "false_positive" "correct" 2 db
      (unfold submit_feedback in refl)

abbrev requests : List Request
requests =
    Request.kill 10 "stop it" ada "a1"
    ∷ Request.grant "g1" 11 scope_request ada "a1"
    ∷ Request.certificate certificate token ada "a1"
    ∷ Request.kill 12 "stop it" ada "a1"
    ∷ Request.feedback 13 "h2" "correct"
    ∷ []

requests_keep-IsSound_example : IsSound (serve_all requests (new_store (builder ∷ [])))
requests_keep-IsSound_example = requests_keep-IsSound requests (builder ∷ [])

abbrev asked : ToolApprovalRequest
asked = record {
  id = "r1";
  agent_id = "a1";
  session_key = none;
  tool_name = "run_bash";
  capability = "host.shell";
  risk = "high";
  arguments_hash = "hash";
  arguments_preview = done;
  reason = "deploy";
  status = ApprovalStatus.pending;
  requested_at = 100;
  expires_at = 900;
  decided_at = none;
  decided_by = none;
  decision_reason = none;
  grant_id = none;
}

abbrev asking : Store
asking = record db { approvals = asked ∷ [] }

abbrev request_of_reply : Reply ToolApprovalRequest → ToolApprovalRequest
request_of_reply (Reply.replied a) = a
request_of_reply (Reply.failed f) = asked

abbrev approved_request : ToolApprovalRequest
approved_request = request_of_reply (approve_approval_request "g2" 200 60 "" ada "r1" asking).0

-- Another operator of the customer.
abbrev bob : Principal
bob = record ada { api_key_id = "key-2" }

approval_is_final_example :
    (approve_approval_request "g3" 300 60 "" bob "r1"
        (approve_approval_request "g2" 200 60 "" ada "r1" asking).1
      ≡ (
        Reply.failed (Failure.conflict none),
        (approve_approval_request "g2" 200 60 "" ada "r1" asking).1,
      ))
    × (deny_approval_request 300 "" bob "r1"
          (approve_approval_request "g2" 200 60 "" ada "r1" asking).1
        ≡ (
          Reply.failed (Failure.conflict none),
          (approve_approval_request "g2" 200 60 "" ada "r1" asking).1,
        ))
unfolding approve_approval_request
approval_is_final_example =
    approval_is_final "g2" "g3" 200 300 60 60 "" "" ada bob "r1" asking approved_request refl refl

approval_issues_one_grant_example :
    (g : ApoptosisGrant) × ((approve_approval_request "g2" 200 60 "" ada "r1" asking).1.grants
      ≡ g ∷ [])
    × IsIssued 200 approved_request g
unfolding approve_approval_request
approval_issues_one_grant_example =
    approval_issues_one_grant "g2" 200 60 "" ada "r1" asking approved_request refl

operator_kill_reaches_agent_example :
    (t : WatcherState) × (get_watcher "a1" (
        poll_tick noon
          (some (pending_kills ada (terminate_agent 30 "again" ada "a1" quiet).1))
          registry)
      ≡ some t)
    × (t.terminate_requested ≡ true)
unfolding terminate_agent load_agent_owned_by breaks_index get_watcher
operator_kill_reaches_agent_example =
    operator_kill_reaches_agent 30 noon "again" ada builder "a1" quiet new_row registry fresh refl
      refl refl
