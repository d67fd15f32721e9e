-- ===== src/ToolApproval/Failed.antt =====
-- bridge.py: `evaluate_tool_approval` with a service whose request raises.
use hermeskill.Common.{String, ◌≡◌, refl, ap, false, Option, none, some, List}
use hermeskill.Watcher.{WatcherState, Clock}
use hermeskill.Checks.{Verdict}
use hermeskill.Bridge.{on_pre_tool_call}
use hermeskill.ControlPlane.Approvals.{ApprovalRequestIn}
use hermeskill.ToolApproval.{
  Library, Answer, ApprovalService, Setup, ToolCall, Evaluated, ask, respond, ask_and_respond,
  consult, approval_phase, evaluate_tool_approval,
}
use hermeskill.ToolApproval.Gated.{NeedsApproval}

crashed_asking :
    (lib : Library) (now : Clock) (service : ApprovalService) (call : ToolCall)
    (verdicts : List Verdict) (o : Option ApprovalRequestIn) (s : WatcherState)
    → ((id : String) (payload : ApprovalRequestIn)
        → service.request_approval id payload ≡ Answer.raised)
    → (ask_and_respond now service call none verdicts o s).0 ≡ Evaluated.crashed
unfolding ask_and_respond ask respond
crashed_asking lib now service call verdicts none s raises = refl
crashed_asking lib now service call verdicts (some payload) s raises =
    ap (λ a. (respond now service call.tool_name verdicts a s).0) (raises s.agent_id payload)

pub crashed_evaluation :
    (lib : Library) (setup : Setup) (now : Clock) (call : ToolCall) (session_key : Option String)
    (s : WatcherState)
    (need : NeedsApproval setup
      (on_pre_tool_call now call.tool_name call.signature s).1.policy
      call.tool_name)
    → ((id : String) (payload : ApprovalRequestIn)
        → need.service.request_approval id payload ≡ Answer.raised)
    → (on_pre_tool_call now call.tool_name call.signature s).1.terminate_requested ≡ false
    → (evaluate_tool_approval lib setup now call session_key none s).0 ≡ Evaluated.crashed
unfolding evaluate_tool_approval approval_phase consult
crashed_evaluation lib setup now call session_key s need raises live =
    let hook = on_pre_tool_call now call.tool_name call.signature s in
    rw (need.enabled, live, need.has_resolver, need.has_tools, need.has_service, need.risky)
      (crashed_asking lib now need.service call hook.0 _ hook.1 raises)
