-- ===== src/Tests/Tools.antt =====
-- Examples for the tool checkpoints: redaction, the capability gateway, the wait for an approval, the plugin.
use hermeskill.Common.{
  ℕ, String, ◌≡◌, ◌≢◌, refl, ap, ◌∙◌, ◌⊎◌, inl, inr, ◌↔◌, true, false, none, some, List, [], ◌∷◌,
  All, arith,
}
use hermeskill.Watcher.{record_tool_call, uptime}
use hermeskill.Bridge.{on_pre_tool_call, act_on_all, run_checks}
use hermeskill.Checks.{
  apply_grants, check_tool_scope, run_all, check_loop, check_cost_runaway, check_wall_clock,
}
use hermeskill.Checks.Counter.{most_common, counter, count_of}
use hermeskill.Watcher.Values.{Reason}
use hermeskill.Bridge.Machine.{Call}
use hermeskill.Json.{Key, Json, Fields, str, dict, done, field, lookup}
use hermeskill.Redaction.{Pattern, redact_arguments, redact_at}
use hermeskill.Capability.{
  CapabilityResolver, Executed, registered, check, execute, capability_for_tool, capabilities_of,
  evaluate_risk,
}
use hermeskill.Capability.Gate.{IsGranted, execute-IsGranted}
use hermeskill.ControlPlane.{ApprovalStatus, ToolApprovalRequest}
use hermeskill.ToolApproval.{
  Library, Answer, ApprovalService, Setup, ToolCall, Directive, Evaluated, profile_of,
  capability_to_approve, evaluate_tool_approval, request_for, canonical_arguments_hash, splice,
  is_valid_request,
}
use hermeskill.ToolApproval.Gated.{NeedsApproval, IsApproved, evaluate_tool_approval-IsApproved}
use hermeskill.Plugin.{
  evaluated, passed, conclude, first_steer, Session, Block, Outcome, SessionStep, pre_tool_call,
  outcomes,
}
use hermeskill.Plugin.Gate.{
  outcome, after_hook, rogue_call_is_blocked, running_call-IsApproved, pre_tool_call_returns,
  failed_request_lets_call_run,
}
use hermeskill.Plugin.Killed.{flagged_session_runs_nothing}
use hermeskill.Tests.Samples.{noon, later, fresh, broke, struck, loop_grant}

abbrev keep_text : Pattern → String → String
keep_text p s = s

-- The arguments of a shell call, with a password.
abbrev shell_args : Json
shell_args =
    dict (field (Key.name "cmd") (str "deploy") (field (Key.name "Password") (str "hunter2") done))

abbrev resolver : CapabilityResolver
resolver = record {
  registry =
      record { name = "fs.read"; risk = "low"; domain = "fs"; description = "read files" }
      ∷ record { name = "shell.run"; risk = "high"; domain = "os"; description = "run commands" }
      ∷ [];
  policies = ("coding-default", "fs.read" ∷ "shell.run" ∷ []) ∷ [];
}

abbrev tools : Fields
tools =
    field (Key.name "run_bash")
      (dict (
        field (Key.name "tool") (dict (field (Key.name "capability") (str "shell.run") done)) done))
      done

abbrev size_of : String → ℕ
size_of s = 3

execute-IsGranted_example :
    (execute resolver "coding-default" "fs.read" size_of "abc" ≡ Executed.called 3)
    ↔ (IsGranted resolver "coding-default" "fs.read" × (size_of "abc" ≡ 3))
execute-IsGranted_example = execute-IsGranted resolver "coding-default" "fs.read" size_of "abc" 3

abbrev hash : String
hash = "0123456789abcdef0123456789abcdef0123456789abcdef0123456789abcdef"

abbrev library : Library
library = record { dumps = λ v. some "{}"; sha256_hex = λ s. hash; repr = λ s. s; sub = keep_text }

abbrev approval : ToolApprovalRequest
approval = record {
  id = "req-1";
  agent_id = "a1";
  session_key = some "s1";
  tool_name = "run_bash";
  capability = "shell.run";
  risk = "high";
  arguments_hash = hash;
  arguments_preview = done;
  reason = "needed";
  status = ApprovalStatus.approved;
  requested_at = 10;
  expires_at = 90;
  decided_at = some 20;
  decided_by = some "ada";
  decision_reason = none;
  grant_id = some "g9";
}

-- A service that answers each request in one way, and one that raises.
abbrev service : Answer → ApprovalService
service a = record {
  request_approval = λ id payload. a;
  get_approval = λ id. a;
  grant_duration_seconds = 300;
}

abbrev setup : Answer → Setup
setup a = record {
  interactive_approvals_enabled = true;
  capability_resolver = some resolver;
  tool_map = some tools;
  approval_service = some (service a);
}

abbrev bash : ToolCall
bash = record { tool_name = "run_bash"; args = shell_args; signature = some "w" }

abbrev session : Session
session = record { watcher = fresh; pending = none }

-- No check has anything to say of this call.
quiet :
    on_pre_tool_call noon "run_bash" (some "w") fresh
    ≡ ([], record_tool_call "run_bash" (some "w") fresh)
unfolding on_pre_tool_call act_on_all run_checks apply_grants record_tool_call check_tool_scope
    run_all check_loop most_common counter count_of check_cost_runaway check_wall_clock uptime
quiet = refl

risky :
    capability_to_approve resolver tools (profile_of "coding-default") "run_bash"
    ≡ some (
      "shell.run",
      record { name = "shell.run"; risk = "high"; domain = "os"; description = "run commands" },
    )
unfolding capability_to_approve capability_for_tool lookup check registered capabilities_of
    evaluate_risk
risky = refl

policy_kept : (after_hook noon bash session).policy.name ≡ "coding-default"
unfolding record_tool_call
policy_kept = ap (λ r. r.1.policy.name) quiet

abbrev needs :
    (a : Answer) → NeedsApproval (setup a) (after_hook noon bash session).policy "run_bash"
needs a = record {
  resolver = resolver;
  tools = tools;
  service = service a;
  item = (
    "shell.run",
    record { name = "shell.run"; risk = "high"; domain = "os"; description = "run commands" },
  );
  enabled = refl;
  has_resolver = refl;
  has_tools = refl;
  has_service = refl;
  risky =
      ap (λ name. capability_to_approve resolver tools (profile_of name) "run_bash") policy_kept
      ∙ risky;
}

live : (after_hook noon bash session).terminate_requested ≡ false
unfolding record_tool_call
live = ap (λ r. r.1.terminate_requested) quiet

approves :
    (evaluate_tool_approval library
      (setup (Answer.answered approval))
      noon
      bash
      (some "s1")
      none
      fresh).0
    ≡ Evaluated.returned Directive.pass []
unfolding evaluate_tool_approval capability_to_approve capability_for_tool lookup check registered
    capabilities_of evaluate_risk record_tool_call apply_grants request_for canonical_arguments_hash
    redact_arguments redact_at is_valid_request
approves = rw quiet refl

evaluate_tool_approval-IsApproved_example :
    IsApproved library
      (service (Answer.answered approval))
      bash
      (profile_of (after_hook noon bash session).policy.name)
      (some "s1")
      none
      (needs (Answer.answered approval)).item
      (after_hook noon bash session).agent_id
evaluate_tool_approval-IsApproved_example =
    evaluate_tool_approval-IsApproved library (setup (Answer.answered approval)) noon bash
      (some "s1") none fresh (needs (Answer.answered approval)) [] live approves

let_run :
    outcome library (setup (Answer.answered approval)) true noon bash "s1" session ≡ Outcome.runs
unfolding pre_tool_call evaluated conclude passed first_steer evaluate_tool_approval
    capability_to_approve capability_for_tool lookup check registered capabilities_of evaluate_risk
    record_tool_call apply_grants request_for canonical_arguments_hash redact_arguments redact_at
    is_valid_request splice
let_run = rw (quiet, outcome, pre_tool_call) refl

running_call-IsApproved_example :
    ((evaluated library (setup (Answer.answered approval)) true noon bash "s1" session).0
      ≡ Evaluated.crashed)
    ⊎ IsApproved library
        (service (Answer.answered approval))
        bash
        (profile_of (after_hook noon bash session).policy.name)
        (some "s1")
        none
        (needs (Answer.answered approval)).item
        (after_hook noon bash session).agent_id
running_call-IsApproved_example =
    running_call-IsApproved library (setup (Answer.answered approval)) true noon bash "s1" session
      (needs (Answer.answered approval)) refl let_run

-- The session of an agent that has spent its money.
abbrev broke_session : Session
broke_session = record { watcher = broke; pending = none }

rogue_call_is_blocked_example :
    outcome library (setup (Answer.answered approval)) true later bash "s1" broke_session
    ≢ Outcome.runs
rogue_call_is_blocked_example =
    rogue_call_is_blocked library (setup (Answer.answered approval)) true later bash "s1"
      broke_session "w" refl refl (omega arith)
      (unfold record_tool_call in inr (inl (inl (omega arith))))

pre_tool_call_returns_example :
    (pre_tool_call library (setup Answer.raised) true noon bash "s1" session).0 ≢ Outcome.raised
pre_tool_call_returns_example =
    pre_tool_call_returns library (setup Answer.raised) true noon bash "s1" session

failed_request_lets_call_run_example :
    (pre_tool_call library (setup Answer.raised) true noon bash "s1" session).0 ≡ Outcome.runs
failed_request_lets_call_run_example =
    failed_request_lets_call_run library (setup Answer.raised) true noon bash "s1" session
      (needs Answer.raised) refl refl (λ id payload. refl) refl live

-- Two checkpoints of a flagged session, with new grants between them.
abbrev steps : List SessionStep
steps =
    SessionStep.checkpoint library (setup (Answer.answered approval)) true noon bash "s1"
    ∷ SessionStep.other (Call.new_grants (loop_grant ∷ []))
    ∷ SessionStep.checkpoint library (setup Answer.raised) true later bash "s1"
    ∷ []

flagged_session_runs_nothing_example :
    All
      (λ o. o ≡ Outcome.blocked (Block.kill (some (Reason.manual "stop it"))))
      (outcomes steps (record { watcher = struck; pending = none }))
flagged_session_runs_nothing_example =
    flagged_session_runs_nothing steps (record { watcher = struck; pending = none }) refl
