-- ===== src/ToolApproval.antt =====
-- The wait for an operator before a risky call: `evaluate_tool_approval` of
-- packages/hermeskill-hermes/src/hermeskill_hermes/bridge.py, with the answers of the approval service of
-- packages/hermeskill-sdk/src/hermeskill/approval.py as an argument. A message is kept as its template with
-- its arguments; `json.dumps`, `repr`, `sha256` and the patterns of `re` are parameters.
pub mod Gated
pub mod Frame
pub mod Failed
use Prim.Native.String.{◌++◌ as text_append}
use mathlib.Core.Option
use hermeskill.Common.{
  ℕ, ◌+◌, String, Bool, true, false, not, ◌&&◌, Option, none, some, List, [], ◌∷◌, length, keep_if,
  leb, nat_beq, codes, ◌==◌, string_eq, if◌then◌else◌,
}
use hermeskill.Policy.{SymptomType, value}
use hermeskill.Watcher.{WatcherState, Clock, Grant}
use hermeskill.Watcher.Values.{Reason}
use hermeskill.Checks.{Finding, Verdict, apply_grants}
use hermeskill.Bridge.{on_pre_tool_call}
use hermeskill.Json.{Json, Fields, dict}
use hermeskill.Redaction.{Pattern, redact_arguments}
use hermeskill.Capability.{
  PermissionDecision, Capability, CapabilityResolver, check, registered, capability_for_tool,
}
use hermeskill.ControlPlane.{ApprovalStatus, ToolApprovalRequest}
use hermeskill.ControlPlane.Approvals.{ApprovalRequestIn}
use hermeskill.ControlPlane.Grants.{seconds}

-- What the standard library gives; `none` stands for an exception.
pub record Library : Type 0 where
  pub dumps : Json → Option String
  pub sha256_hex : String → String
  pub repr : String → String
  pub sub : Pattern → String → String

-- The answer of the service: a request, `ApprovalUnavailable`, or another exception.
pub data Answer : Type 0 where
  answered : ToolApprovalRequest → Answer
  unavailable : String → Answer
  raised : Answer

pub record ApprovalService : Type 0 where
  pub request_approval : String → ApprovalRequestIn → Answer
  pub get_approval : String → Answer
  pub grant_duration_seconds : ℕ

pub record Setup : Type 0 where
  pub interactive_approvals_enabled : Bool
  pub capability_resolver : Option CapabilityResolver
  pub tool_map : Option Fields
  pub approval_service : Option ApprovalService

-- A call of a tool: its arguments, and its signature if that does not raise.
pub record ToolCall : Type 0 where
  pub tool_name : String
  pub args : Json
  pub signature : Option String

pub data Message : Type 0 where
  -- why the service cannot be reached
  unreachable : String → Message
  -- tool, approval
  denied : String → String → Message
  -- approval
  waiting : String → Message

-- `ApprovalDirective`; a block has its message, the approval and whether that is pending.
pub data Directive : Type 0 where
  pass : Directive
  block : Message → Option String → Bool → Directive

-- What `evaluate_tool_approval` gives: a directive with the verdicts, or an exception.
pub data Evaluated : Type 0 where
  returned : Directive → List Verdict → Evaluated
  crashed : Evaluated

-- `_drop_tool_scope_terminals`
abbrev stays : Verdict → Bool
stays (Verdict.terminal f) = elim f.symptom [ SymptomType.tool_scope_violation ↦ false | _ ↦ true ]
stays _ = true

unfoldable pub drop_tool_scope_terminals : List Verdict → List Verdict
drop_tool_scope_terminals = keep_if stays

-- `canonical_arguments_hash`
unfoldable pub canonical_arguments_hash : Library → Json → Option String
canonical_arguments_hash lib args = Option.map lib.sha256_hex (lib.dumps args)

abbrev size : String → ℕ
size s = length (codes s)

abbrev between : ℕ → ℕ → String → Bool
between low high s = leb low (size s) && leb (size s) high

abbrev at_most : ℕ → Option String → Bool
at_most n none = true
at_most n (some s) = leb (size s) n

-- The constraints of the fields of `ApprovalRequestIn`.
unfoldable pub is_valid_request : ApprovalRequestIn → Bool
is_valid_request p =
    between 1 120 p.tool_name
    && between 1 120 p.capability
    && between 1 20 p.risk
    && between 64 64 p.arguments_hash
    && at_most 200 p.session_key
    && between 1 2000 p.reason

-- `state.policy.name or "default"`
abbrev pub profile_of : String → String
profile_of name = if name == "" then "default" else name

item_if : PermissionDecision → Option Capability → Option Capability
item_if PermissionDecision.approval_required item = item
item_if _ item = none

-- The registered capability of the tool, if the profile needs an approval for it.
unfoldable pub capability_to_approve :
    CapabilityResolver → Fields → String → String → Option (String × Capability)
unfolding item_if
capability_to_approve resolver tools profile tool_name =
    elim (capability_for_tool tools tool_name) [
      | none ↦ none
      | some capability ↦
          Option.map (λ item. (capability, item))
            (item_if (check resolver profile capability).decision
              (registered resolver.registry capability))
    ]

-- `ApprovalRequestIn(...)`; `none` stands for an exception, also of the hash.
unfoldable pub request_for :
    Library → ToolCall → String → Option String → String × Capability → Option ApprovalRequestIn
unfolding canonical_arguments_hash is_valid_request
request_for lib call profile session_key (capability, item) =
    elim (canonical_arguments_hash lib call.args) [
      | none ↦ none
      | some arguments_hash ↦ elim (redact_arguments lib.sub call.args) [
        | dict preview ↦
            let payload : ApprovalRequestIn = record {
              session_key = session_key;
              tool_name = call.tool_name;
              capability = capability;
              risk = item.risk;
              arguments_hash = arguments_hash;
              arguments_preview = preview;
              reason = text_append "capability " (
                  text_append (lib.repr capability) (
                    text_append " requires operator approval (profile=" (text_append profile ")")));
            } in
            if is_valid_request payload then some payload else none
        | _ ↦ none
      ]
    ]

-- The fetch of a tracked approval; any exception of it leads to a fresh request.
pub ask : ApprovalService → String → Option String → ApprovalRequestIn → Answer
ask service agent_id none payload = service.request_approval agent_id payload
ask service agent_id (some id) payload =
    if id == "" then service.request_approval agent_id payload else elim (service.get_approval id) [
      | Answer.answered a ↦ Answer.answered a
      | _ ↦ service.request_approval agent_id payload
    ]

-- `grant_dict_from_approval`
unfoldable pub grant_from_approval : Clock → ℕ → ToolApprovalRequest → Grant
grant_from_approval now duration_seconds a = record {
  id = some (elim a.grant_id [ none ↦ "" | some g ↦ g ]);
  symptoms = "tool_scope_violation" ∷ [];
  expires_at = some (now.utc + seconds duration_seconds);
  reason = some (text_append "approval:" a.id);
}

abbrev has_id : Option String → Option String → Bool
has_id none none = true
has_id (some a) (some b) = a == b
has_id _ _ = false

-- The grant goes before the others, in place of those with its id.
unfoldable pub splice : Grant → WatcherState → WatcherState
splice g s = record s { grants = g ∷ keep_if (λ h. not (has_id h.id g.id)) s.grants }

-- What the status of the approval leads to.
settle :
    Clock
    → ℕ
    → String
    → List Verdict
    → ToolApprovalRequest
    → ApprovalStatus
    → WatcherState
    → Evaluated × WatcherState
unfolding grant_from_approval splice drop_tool_scope_terminals
settle now duration tool_name verdicts a ApprovalStatus.approved s =
    let spliced = splice (grant_from_approval now duration a) s in
    (Evaluated.returned Directive.pass (apply_grants verdicts spliced.grants), spliced)
settle now duration tool_name verdicts a ApprovalStatus.denied s = (
  Evaluated.returned (Directive.block (Message.denied tool_name a.id) (some a.id) false)
      (drop_tool_scope_terminals verdicts),
  s,
)
settle now duration tool_name verdicts a _ s = (
  Evaluated.returned (Directive.block (Message.waiting a.id) (some a.id) true)
      (drop_tool_scope_terminals verdicts),
  s,
)

respond :
    Clock
    → ApprovalService
    → String
    → List Verdict
    → Answer
    → WatcherState
    → Evaluated × WatcherState
unfolding settle drop_tool_scope_terminals
respond now service tool_name verdicts (Answer.answered a) s =
    settle now service.grant_duration_seconds tool_name verdicts a a.status s
respond now service tool_name verdicts (Answer.unavailable why) s = (
  Evaluated.returned (Directive.block (Message.unreachable why) none false)
      (drop_tool_scope_terminals verdicts),
  s,
)
respond now service tool_name verdicts Answer.raised s = (Evaluated.crashed, s)

ask_and_respond :
    Clock
    → ApprovalService
    → ToolCall
    → Option String
    → List Verdict
    → Option ApprovalRequestIn
    → WatcherState
    → Evaluated × WatcherState
unfolding ask respond
ask_and_respond now service call pending verdicts none s = (Evaluated.crashed, s)
ask_and_respond now service call pending verdicts (some payload) s =
    respond now service call.tool_name verdicts (ask service s.agent_id pending payload) s

consult :
    Library
    → Clock
    → ApprovalService
    → ToolCall
    → String
    → Option String
    → Option String
    → List Verdict
    → Option (String × Capability)
    → WatcherState
    → Evaluated × WatcherState
unfolding ask_and_respond
consult lib now service call profile session_key pending verdicts none s =
    (Evaluated.returned Directive.pass verdicts, s)
consult lib now service call profile session_key pending verdicts (some c) s =
    ask_and_respond now service call pending verdicts (request_for lib call profile session_key c) s

-- The phase after the checks, for an agent that is not flagged.
approval_phase :
    Library
    → Setup
    → Clock
    → ToolCall
    → Option String
    → Option String
    → List Verdict
    → WatcherState
    → Evaluated × WatcherState
unfolding consult
approval_phase lib setup now call session_key pending verdicts s = elim setup.capability_resolver [
  | none ↦ (Evaluated.returned Directive.pass verdicts, s)
  | some resolver ↦ elim setup.tool_map [
    | none ↦ (Evaluated.returned Directive.pass verdicts, s)
    | some tools ↦ elim setup.approval_service [
      | none ↦ (Evaluated.returned Directive.pass verdicts, s)
      | some service ↦
          let profile = profile_of s.policy.name in
          consult lib now service call profile session_key pending verdicts
            (capability_to_approve resolver tools profile call.tool_name) s
    ]
  ]
]

unfoldable pub evaluate_tool_approval :
    Library
    → Setup
    → Clock
    → ToolCall
    → Option String
    → Option String
    → WatcherState
    → Evaluated × WatcherState
unfolding approval_phase
evaluate_tool_approval lib setup now call session_key pending s =
    let (verdicts, checked) = on_pre_tool_call now call.tool_name call.signature s in
    if not setup.interactive_approvals_enabled
    then (Evaluated.returned Directive.pass verdicts, checked)
    else if checked.terminate_requested
    then (Evaluated.returned Directive.pass verdicts, checked)
    else approval_phase lib setup now call session_key pending verdicts checked
