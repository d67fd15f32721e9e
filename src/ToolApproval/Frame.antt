-- ===== src/ToolApproval/Frame.antt =====
-- bridge.py: what `evaluate_tool_approval` does to the agent's flag, and what a block that waits relies on.
use hermeskill.Common.{
  ℕ, String, ◌≡◌, refl, true, Bool-cases, Option-cases, is_some, inl, inr, ◌∙◌, Option, none, some,
  List,
}
use hermeskill.Watcher.{WatcherState, Clock}
use hermeskill.Checks.{Verdict}
use hermeskill.Bridge.{on_pre_tool_call}
use hermeskill.Json.{Json}
use hermeskill.Capability.{Capability}
use hermeskill.ControlPlane.{ApprovalStatus, ToolApprovalRequest}
use hermeskill.ControlPlane.Approvals.{ApprovalRequestIn}
use hermeskill.ToolApproval.{
  Library, Answer, ApprovalService, Setup, ToolCall, Directive, Evaluated, canonical_arguments_hash,
  request_for, ask, splice, settle, respond, ask_and_respond, consult, approval_phase,
  evaluate_tool_approval,
}

flag-settle :
    (now : Clock) (duration : ℕ) (tool_name : String) (verdicts : List Verdict)
    (a : ToolApprovalRequest) (status : ApprovalStatus) (s : WatcherState)
    → (settle now duration tool_name verdicts a status s).1.terminate_requested
      ≡ s.terminate_requested
unfolding settle splice
flag-settle now duration tool_name verdicts a ApprovalStatus.approved s = refl
flag-settle now duration tool_name verdicts a ApprovalStatus.denied s = refl
flag-settle now duration tool_name verdicts a ApprovalStatus.pending s = refl
flag-settle now duration tool_name verdicts a ApprovalStatus.expired s = refl

flag-respond :
    (now : Clock) (service : ApprovalService) (tool_name : String) (verdicts : List Verdict)
    (answer : Answer) (s : WatcherState)
    → (respond now service tool_name verdicts answer s).1.terminate_requested
      ≡ s.terminate_requested
unfolding respond
flag-respond now service tool_name verdicts (Answer.answered a) s =
    flag-settle now service.grant_duration_seconds tool_name verdicts a a.status s
flag-respond now service tool_name verdicts (Answer.unavailable why) s = refl
flag-respond now service tool_name verdicts Answer.raised s = refl

flag-ask_and_respond :
    (now : Clock) (service : ApprovalService) (call : ToolCall) (pending : Option String)
    (verdicts : List Verdict) (o : Option ApprovalRequestIn) (s : WatcherState)
    → (ask_and_respond now service call pending verdicts o s).1.terminate_requested
      ≡ s.terminate_requested
unfolding ask_and_respond
flag-ask_and_respond now service call pending verdicts none s = refl
flag-ask_and_respond now service call pending verdicts (some payload) s =
    flag-respond now service call.tool_name verdicts (ask service s.agent_id pending payload) s

module _ (lib : Library) (now : Clock) (call : ToolCall) (session_key pending : Option String)
    (verdicts : List Verdict) where
  flag-consult :
      (service : ApprovalService) (profile : String) (o : Option (String × Capability))
      (s : WatcherState)
      → (consult lib now service call profile session_key pending verdicts o
          s).1.terminate_requested
        ≡ s.terminate_requested
  unfolding consult
  flag-consult service profile none s = refl
  flag-consult service profile (some c) s =
      flag-ask_and_respond now service call pending verdicts
        (request_for lib call profile session_key c) s

  flag-approval_phase :
      (setup : Setup) (s : WatcherState)
      → (approval_phase lib setup now call session_key pending verdicts s).1.terminate_requested
        ≡ s.terminate_requested
  unfolding approval_phase
  flag-approval_phase setup s = elim (Option-cases setup.capability_resolver) [
    | inl e ↦ rw e
    | inr (resolver, e1) ↦ elim (Option-cases setup.tool_map) [
      | inl e ↦ rw (e1, e)
      | inr (tools, e2) ↦ elim (Option-cases setup.approval_service) [
        | inl e ↦ rw (e1, e2, e)
        | inr (service, e3) ↦ rw (e1, e2, e3) (flag-consult service _ _ s)
      ]
    ]
  ]

-- The wait for an approval neither flags the agent nor takes a flag away.
pub flag-evaluate_tool_approval :
    (lib : Library) (setup : Setup) (now : Clock) (call : ToolCall)
    (session_key pending : Option String) (s : WatcherState)
    → (evaluate_tool_approval lib setup now call session_key pending s).1.terminate_requested
      ≡ (on_pre_tool_call now call.tool_name call.signature s).1.terminate_requested
unfolding evaluate_tool_approval
flag-evaluate_tool_approval lib setup now call session_key pending s =
    let checked = on_pre_tool_call now call.tool_name call.signature s in
    elim (Bool-cases setup.interactive_approvals_enabled) [
      | inr e ↦ rw e
      | inl e ↦ elim (Bool-cases checked.1.terminate_requested) [
        | inl f ↦ rw (e, f) f
        | inr f ↦
            rw (e, f)
              (flag-approval_phase lib now call session_key pending checked.0 setup checked.1 ∙ f)
      ]
    ]

-- A block that waits has a call whose arguments have a hash.
unfoldable pub HashedIfPending : Library → Json → Evaluated → Type 0
HashedIfPending lib args (Evaluated.returned (Directive.block m id true) vs) =
    is_some (canonical_arguments_hash lib args) ≡ true
HashedIfPending lib args _ = Unit

hashed-request_for :
    (lib : Library) (call : ToolCall) (profile : String) (session_key : Option String)
    (item : String × Capability) (payload : ApprovalRequestIn)
    → request_for lib call profile session_key item ≡ some payload
    → is_some (canonical_arguments_hash lib call.args) ≡ true
unfolding request_for
hashed-request_for lib call profile session_key item payload h =
    elim (Option-cases (canonical_arguments_hash lib call.args)) [
      | inl e ↦ cc (rw (e, request_for) at h)
      | inr (x, e) ↦ rw e refl
    ]

module _ (lib : Library) (args : Json)
    (hashed : is_some (canonical_arguments_hash lib args) ≡ true) where
  hashed-settle :
      (now : Clock) (duration : ℕ) (tool_name : String) (verdicts : List Verdict)
      (a : ToolApprovalRequest) (status : ApprovalStatus) (s : WatcherState)
      → HashedIfPending lib args (settle now duration tool_name verdicts a status s).0
  unfolding settle HashedIfPending
  hashed-settle now duration tool_name verdicts a ApprovalStatus.approved s = tt
  hashed-settle now duration tool_name verdicts a ApprovalStatus.denied s = tt
  hashed-settle now duration tool_name verdicts a ApprovalStatus.pending s = hashed
  hashed-settle now duration tool_name verdicts a ApprovalStatus.expired s = hashed

  hashed-respond :
      (now : Clock) (service : ApprovalService) (tool_name : String) (verdicts : List Verdict)
      (answer : Answer) (s : WatcherState)
      → HashedIfPending lib args (respond now service tool_name verdicts answer s).0
  unfolding respond HashedIfPending
  hashed-respond now service tool_name verdicts (Answer.answered a) s =
      hashed-settle now service.grant_duration_seconds tool_name verdicts a a.status s
  hashed-respond now service tool_name verdicts (Answer.unavailable why) s = tt
  hashed-respond now service tool_name verdicts Answer.raised s = tt

module _ (lib : Library) (now : Clock) (call : ToolCall) (session_key pending : Option String)
    (verdicts : List Verdict) where
  hashed-ask_and_respond :
      (service : ApprovalService) (profile : String) (item : String × Capability)
      (o : Option ApprovalRequestIn) (s : WatcherState)
      → request_for lib call profile session_key item ≡ o
      → HashedIfPending lib call.args (ask_and_respond now service call pending verdicts o s).0
  unfolding ask_and_respond HashedIfPending
  hashed-ask_and_respond service profile item none s e = tt
  hashed-ask_and_respond service profile item (some payload) s e =
      hashed-respond lib call.args (hashed-request_for lib call profile session_key item payload e)
        now service call.tool_name verdicts (ask service s.agent_id pending payload) s

  hashed-consult :
      (service : ApprovalService) (profile : String) (o : Option (String × Capability))
      (s : WatcherState)
      → HashedIfPending lib call.args
          (consult lib now service call profile session_key pending verdicts o s).0
  unfolding consult HashedIfPending
  hashed-consult service profile none s = tt
  hashed-consult service profile (some c) s =
      hashed-ask_and_respond service profile c (request_for lib call profile session_key c) s refl

  hashed-approval_phase :
      (setup : Setup) (s : WatcherState)
      → HashedIfPending lib call.args
          (approval_phase lib setup now call session_key pending verdicts s).0
  unfolding approval_phase HashedIfPending
  hashed-approval_phase setup s = elim (Option-cases setup.capability_resolver) [
    | inl e ↦ rw e tt
    | inr (resolver, e1) ↦ elim (Option-cases setup.tool_map) [
      | inl e ↦ rw (e1, e) tt
      | inr (tools, e2) ↦ elim (Option-cases setup.approval_service) [
        | inl e ↦ rw (e1, e2, e) tt
        | inr (service, e3) ↦ rw (e1, e2, e3) (hashed-consult service _ _ s)
      ]
    ]
  ]

pub hashed-evaluate_tool_approval :
    (lib : Library) (setup : Setup) (now : Clock) (call : ToolCall)
    (session_key pending : Option String) (s : WatcherState)
    → HashedIfPending lib call.args
        (evaluate_tool_approval lib setup now call session_key pending s).0
unfolding evaluate_tool_approval HashedIfPending
hashed-evaluate_tool_approval lib setup now call session_key pending s =
    let checked = on_pre_tool_call now call.tool_name call.signature s in
    elim (Bool-cases setup.interactive_approvals_enabled) [
      | inr e ↦ rw e tt
      | inl e ↦ elim (Bool-cases checked.1.terminate_requested) [
        | inl f ↦ rw (e, f) tt
        | inr f ↦
            rw (e, f)
              (hashed-approval_phase lib now call session_key pending checked.0 setup checked.1)
      ]
    ]
