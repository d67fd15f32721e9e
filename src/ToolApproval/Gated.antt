-- ===== src/ToolApproval/Gated.antt =====
-- bridge.py: which calls the approval phase lets pass, and what it does to the flag.
use hermeskill.Common.{
  ℕ, String, ◌≡◌, ◌⊎◌, inl, inr, refl, ◌∙◌, true, false, Bool-cases, ◌==◌, string_eq, Option, none,
  some, List,
}
use hermeskill.Policy.{Policy}
use hermeskill.Watcher.{WatcherState, Clock}
use hermeskill.Checks.{Verdict}
use hermeskill.Bridge.{on_pre_tool_call}
use hermeskill.Json.{Fields}
use hermeskill.Capability.{Capability, CapabilityResolver}
use hermeskill.ControlPlane.{ApprovalStatus, ToolApprovalRequest}
use hermeskill.ControlPlane.Approvals.{ApprovalRequestIn}
use hermeskill.ToolApproval.{
  Library, Answer, ApprovalService, Setup, ToolCall, Directive, Evaluated, profile_of,
  capability_to_approve, request_for, ask, settle, respond, ask_and_respond, consult,
  approval_phase, evaluate_tool_approval,
}

-- The calls of an agent that need an approval: the phase is switched on and complete, and the resolver
-- says so for the profile of the agent's policy.
pub record NeedsApproval (setup : Setup) (policy : Policy) (tool_name : String) : Type 0 where
  pub resolver : CapabilityResolver
  pub tools : Fields
  pub service : ApprovalService
  pub item : String × Capability
  pub enabled : setup.interactive_approvals_enabled ≡ true
  pub has_resolver : setup.capability_resolver ≡ some resolver
  pub has_tools : setup.tool_map ≡ some tools
  pub has_service : setup.approval_service ≡ some service
  pub risky : capability_to_approve resolver tools (profile_of policy.name) tool_name ≡ some item

-- An approved request of the service: its answer to the valid request for the call, or the approval that is tracked,
-- whatever call that was for.
pub record IsApproved (lib : Library) (service : ApprovalService) (call : ToolCall)
    (profile : String) (session_key pending : Option String) (item : String × Capability)
    (agent_id : String) : Type 0 where
  pub payload : ApprovalRequestIn
  pub approval : ToolApprovalRequest
  pub requested : request_for lib call profile session_key item ≡ some payload
  pub approved : approval.status ≡ ApprovalStatus.approved
  pub answer :
      (service.request_approval agent_id payload ≡ Answer.answered approval)
      ⊎ ((id : String) × (pending ≡ some id) × (service.get_approval id ≡ Answer.answered approval))

tracked :
    (service : ApprovalService) (agent_id id : String) (payload : ApprovalRequestIn)
    (a : ToolApprovalRequest) (answer : Answer)
    → service.get_approval id ≡ answer
    → (elim answer [
      | Answer.answered b ↦ Answer.answered b
      | _ ↦ service.request_approval agent_id payload
    ])
      ≡ Answer.answered a
    → (service.request_approval agent_id payload ≡ Answer.answered a)
      ⊎ ((i : String) × (some id ≡ some i) × (service.get_approval i ≡ Answer.answered a))
tracked service agent_id id payload a (Answer.answered b) e h = inr (id, refl, e ∙ h)
tracked service agent_id id payload a (Answer.unavailable why) e h = inl h
tracked service agent_id id payload a Answer.raised e h = inl h

ask_answers :
    (service : ApprovalService) (agent_id : String) (pending : Option String)
    (payload : ApprovalRequestIn) (a : ToolApprovalRequest)
    → ask service agent_id pending payload ≡ Answer.answered a
    → (service.request_approval agent_id payload ≡ Answer.answered a)
      ⊎ ((id : String) × (pending ≡ some id) × (service.get_approval id ≡ Answer.answered a))
unfolding ask
ask_answers service agent_id none payload a h = inl h
ask_answers service agent_id (some id) payload a h = elim (Bool-cases (id == "")) [
  | inl e ↦ inl (rw e at h)
  | inr e ↦ tracked service agent_id id payload a (service.get_approval id) refl (rw e at h)
]

settle_passes :
    (now : Clock) (duration : ℕ) (tool_name : String) (verdicts vs : List Verdict)
    (a : ToolApprovalRequest) (status : ApprovalStatus) (s : WatcherState)
    → (settle now duration tool_name verdicts a status s).0 ≡ Evaluated.returned Directive.pass vs
    → status ≡ ApprovalStatus.approved
unfolding settle
settle_passes now duration tool_name verdicts vs a ApprovalStatus.approved s h = refl
settle_passes now duration tool_name verdicts vs a ApprovalStatus.denied s h = cc h
settle_passes now duration tool_name verdicts vs a ApprovalStatus.pending s h = cc h
settle_passes now duration tool_name verdicts vs a ApprovalStatus.expired s h = cc h

respond_passes :
    (now : Clock) (service : ApprovalService) (tool_name : String) (verdicts vs : List Verdict)
    (answer : Answer) (s : WatcherState)
    → (respond now service tool_name verdicts answer s).0 ≡ Evaluated.returned Directive.pass vs
    → (a : ToolApprovalRequest) × (answer ≡ Answer.answered a)
      × (a.status ≡ ApprovalStatus.approved)
unfolding respond
respond_passes now service tool_name verdicts vs (Answer.answered a) s h =
    (a, refl, settle_passes now service.grant_duration_seconds tool_name verdicts vs a a.status s h)
respond_passes now service tool_name verdicts vs (Answer.unavailable why) s h = cc h
respond_passes now service tool_name verdicts vs Answer.raised s h = cc h

ask_passes :
    (lib : Library) (now : Clock) (service : ApprovalService) (call : ToolCall) (profile : String)
    (session_key pending : Option String) (item : String × Capability) (verdicts vs : List Verdict)
    (o : Option ApprovalRequestIn) (s : WatcherState)
    → request_for lib call profile session_key item ≡ o
    → (ask_and_respond now service call pending verdicts o s).0
      ≡ Evaluated.returned Directive.pass vs
    → IsApproved lib service call profile session_key pending item s.agent_id
unfolding ask_and_respond
ask_passes lib now service call profile session_key pending item verdicts vs none s e h = cc h
ask_passes lib now service call profile session_key pending item verdicts vs (some payload) s e h =
    let (a, answer, approved) =
      respond_passes now service call.tool_name verdicts vs (ask service s.agent_id pending payload)
        s h in
    record {
      payload = payload;
      approval = a;
      requested = e;
      approved = approved;
      answer = ask_answers service s.agent_id pending payload a answer;
    }

module _ (lib : Library) (setup : Setup) (now : Clock) (call : ToolCall)
    (session_key pending : Option String) (s : WatcherState) where
  abbrev pub checked : WatcherState
  checked = (on_pre_tool_call now call.tool_name call.signature s).1

  -- While the checks have not flagged the agent, a call that needs an approval passes only if there is a valid request
  -- for it, and the service has answered that one with an approved one, or has approved the tracked approval.
  pub evaluate_tool_approval-IsApproved :
      (need : NeedsApproval setup checked.policy call.tool_name) (vs : List Verdict)
      → checked.terminate_requested ≡ false
      → (evaluate_tool_approval lib setup now call session_key pending s).0
        ≡ Evaluated.returned Directive.pass vs
      → IsApproved lib need.service call
          (profile_of checked.policy.name)
          session_key
          pending
          need.item
          checked.agent_id
  unfolding evaluate_tool_approval approval_phase consult
  evaluate_tool_approval-IsApproved need vs live h =
      ask_passes lib now need.service call (profile_of checked.policy.name) session_key pending
        need.item (on_pre_tool_call now call.tool_name call.signature s).0 vs _ checked refl
        (rw (need.enabled, live, need.has_resolver, need.has_tools, need.has_service, need.risky) at
          h)
