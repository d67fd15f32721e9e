-- ===== src/Plugin/Gate.antt =====
-- plugin.py: which calls of a session `pre_tool_call` lets run.
use mathlib.Core.Option
use hermeskill.Common.{
  ◌≤◌, String, ◌≡◌, ◌≢◌, ◌⊎◌, refl, sym, ap, ◌∙◌, Bool, true, false, ◌&&◌, Bool-cases, if-cases,
  Option-cases, is_some, inl, inr, Option, none, some, List, [], ◌∷◌, ◌==◌, string_eq,
  if◌then◌else◌, arith,
}
use hermeskill.Watcher.{WatcherState, Clock, record_tool_call}
use hermeskill.Checks.{Verdict}
use hermeskill.Checks.Burn.{IsRogue}
use hermeskill.Bridge.{on_pre_tool_call}
use hermeskill.Bridge.Kill.{rogue_call_is_flagged}
use hermeskill.ToolApproval.{
  Library, Setup, ToolCall, Message, Directive, Evaluated, canonical_arguments_hash, profile_of,
  evaluate_tool_approval, Answer,
}
use hermeskill.ToolApproval.Failed.{crashed_evaluation}
use hermeskill.ControlPlane.Approvals.{ApprovalRequestIn}
use hermeskill.ToolApproval.Gated.{NeedsApproval, IsApproved, evaluate_tool_approval-IsApproved}
use hermeskill.ToolApproval.Frame.{
  flag-evaluate_tool_approval, HashedIfPending, hashed-evaluate_tool_approval,
}
use hermeskill.Plugin.{
  Session, Block, Outcome, evaluated, first_steer, passed, wait_for, forget, conclude,
  pre_tool_call,
}

-- What the hook alone makes of the watcher.
abbrev pub after_hook : Clock → ToolCall → Session → WatcherState
after_hook now call s = (on_pre_tool_call now call.tool_name call.signature s.watcher).1

flag-evaluated :
    (lib : Library) (setup : Setup) (has_loop : Bool) (now : Clock) (call : ToolCall) (id : String)
    (s : Session)
    → (evaluated lib setup has_loop now call id s).1.terminate_requested
      ≡ (after_hook now call s).terminate_requested
unfolding evaluated
flag-evaluated lib setup has_loop now call id s =
    elim (Bool-cases
      (has_loop && setup.interactive_approvals_enabled && is_some setup.approval_service)) [
        | inl e ↦ rw e (flag-evaluate_tool_approval lib setup now call _ _ s.watcher)
        | inr e ↦ rw e refl
      ]

abbrev asking : Setup → Bool → Bool
asking setup has_loop =
    has_loop && setup.interactive_approvals_enabled && is_some setup.approval_service

asks :
    (setup : Setup) (has_loop : Bool)
    → has_loop ≡ true
    → setup.interactive_approvals_enabled ≡ true
    → is_some setup.approval_service ≡ true
    → asking setup has_loop ≡ true
asks setup has_loop a b c = ground arith

evaluated_asks :
    (lib : Library) (setup : Setup) (has_loop : Bool) (now : Clock) (call : ToolCall) (id : String)
    (s : Session)
    → asking setup has_loop ≡ true
    → evaluated lib setup has_loop now call id s
      ≡ evaluate_tool_approval lib setup now call
          (some id)
          (Option.map (λ p. p.0) s.pending)
          s.watcher
unfolding evaluated
evaluated_asks lib setup has_loop now call id s e = rw e refl

passed_runs :
    (vs : List Verdict) (w : WatcherState)
    → (passed vs w).0 ≡ Outcome.runs
    → w.terminate_requested ≡ false
unfolding passed
passed_runs vs w h = elim (Bool-cases w.terminate_requested) [ inl e ↦ cc (rw e at h) | inr e ↦ e ]

-- A call runs only if the evaluation passes it or crashes, and leaves the agent without a flag.
conclude_runs :
    (lib : Library) (call : ToolCall) (before : Option (String × String)) (e : Evaluated)
    (w : WatcherState)
    → (conclude lib call before (e, w)).0 ≡ Outcome.runs
    → (w.terminate_requested ≡ false)
      × ((e ≡ Evaluated.crashed)
          ⊎ ((vs : List Verdict) × (e ≡ Evaluated.returned Directive.pass vs)))
unfolding conclude wait_for forget
conclude_runs lib call before Evaluated.crashed w h = (passed_runs [] w h, inl refl)
conclude_runs lib call before (Evaluated.returned Directive.pass vs) w h =
    (passed_runs vs w h, inr (vs, refl))
conclude_runs lib call before (Evaluated.returned (Directive.block m none p) vs) w h = cc h
conclude_runs lib call before (Evaluated.returned (Directive.block m (some id) false) vs) w h = cc h
conclude_runs lib call before (Evaluated.returned (Directive.block m (some id) true) vs) w h =
    elim (Bool-cases (id == "")) [
      | inl e ↦ cc (rw e at h)
      | inr e ↦ elim (Option-cases (canonical_arguments_hash lib call.args)) [
        | inl f ↦ cc (rw (e, f) at h)
        | inr (x, f) ↦ cc (rw (e, f) at h)
      ]
    ]

module _ (lib : Library) (setup : Setup) (has_loop : Bool) (now : Clock) (call : ToolCall)
    (session_id : String) (s : Session) where
  abbrev pub outcome : Outcome
  outcome = (pre_tool_call lib setup has_loop now call session_id s).0

  abbrev result : Evaluated × WatcherState
  result = evaluated lib setup has_loop now call session_id s

  -- What a call that runs says of the two steps before the end of `pre_tool_call`.
  pre_tool_call_runs :
      outcome ≡ Outcome.runs
      → ((after_hook now call s).terminate_requested ≡ false)
        × ((result.0 ≡ Evaluated.crashed)
            ⊎ ((vs : List Verdict) × (result.0 ≡ Evaluated.returned Directive.pass vs)))
  unfolding pre_tool_call
  pre_tool_call_runs h =
      elim (if-cases (λ r. r.0 ≡ Outcome.runs) s.watcher.terminate_requested
        (Outcome.blocked (Block.kill s.watcher.terminate_reason), s)
        (conclude lib call s.pending result) h) [
          | inl (e, f) ↦ cc f
          | inr (e, f) ↦
              let (live, why) = conclude_runs lib call s.pending result.0 result.1 f in
              (sym (flag-evaluated lib setup has_loop now call session_id s) ∙ live, why)
        ]

  -- With no cached grant and a cap of at least one repeat, a call that makes the agent loop, or that comes
  -- when its money, its tokens or its time are used up, does not run, whatever the approval service answers.
  pub rogue_call_is_blocked :
      (sig : String)
      → call.signature ≡ some sig
      → s.watcher.grants ≡ []
      → 1 ≤ s.watcher.policy.thresholds.max_loop_repeats
      → IsRogue now (record_tool_call call.tool_name (some sig) s.watcher) s.watcher.policy
      → outcome ≢ Outcome.runs
  rogue_call_is_blocked sig signed bare pos rogue h =
      let flagged = rogue_call_is_flagged now call.tool_name sig s.watcher bare pos rogue in
      cc (flagged, rw signed at (pre_tool_call_runs h).0)

  -- With the loop thread at work, a call that needs an approval runs only if the evaluation has crashed, or if there
  -- is a valid request for the call and the service has either answered that request with an approved one, or given
  -- an approved one for the id that the session tracks, which the code does not compare with the call.
  pub running_call-IsApproved :
      (need : NeedsApproval setup (after_hook now call s).policy call.tool_name)
      → has_loop ≡ true
      → outcome ≡ Outcome.runs
      → (result.0 ≡ Evaluated.crashed)
        ⊎ IsApproved lib need.service call
            (profile_of (after_hook now call s).policy.name)
            (some session_id)
            (Option.map (λ p. p.0) s.pending)
            need.item
            (after_hook now call s).agent_id
  running_call-IsApproved need looped h =
      let (live, why) = pre_tool_call_runs h in
      elim why [
        | inl e ↦ inl e
        | inr (vs, e) ↦ inr (
            evaluate_tool_approval-IsApproved lib setup now call (some session_id) _ s.watcher need
              vs live
              (sym (
                  ap (λ r. r.0)
                    (evaluated_asks lib setup has_loop now call session_id s
                      (asks setup has_loop looped need.enabled (rw need.has_service refl))))
                ∙ e))
      ]

hashed-evaluated :
    (lib : Library) (setup : Setup) (has_loop : Bool) (now : Clock) (call : ToolCall) (id : String)
    (s : Session)
    → HashedIfPending lib call.args (evaluated lib setup has_loop now call id s).0
unfolding evaluated HashedIfPending
hashed-evaluated lib setup has_loop now call id s = elim (Bool-cases (asking setup has_loop)) [
  | inl e ↦ rw e (hashed-evaluate_tool_approval lib setup now call _ _ s.watcher)
  | inr e ↦ rw e tt
]

first_steer_returns : (vs : List Verdict) → first_steer vs ≢ Outcome.raised
unfolding first_steer
first_steer_returns [] h = cc h
first_steer_returns (Verdict.steer f ∷ vs) h = cc h
first_steer_returns (Verdict.terminal f ∷ vs) h = first_steer_returns vs h
first_steer_returns (Verdict.warning f ∷ vs) h = first_steer_returns vs h

passed_returns : (vs : List Verdict) (w : WatcherState) → (passed vs w).0 ≢ Outcome.raised
unfolding passed
passed_returns vs w h =
    elim (if-cases (λ o. o ≡ Outcome.raised) w.terminate_requested
      (Outcome.blocked (Block.kill w.terminate_reason)) (first_steer vs) h) [
        | inl (e, f) ↦ cc f
        | inr (e, f) ↦ first_steer_returns vs f
      ]

wait_for_returns :
    (m : Message) (id : String) (o : Option String) (before : Option (String × String))
    (w : WatcherState)
    → is_some o ≡ true
    → (wait_for m id o before w).0 ≢ Outcome.raised
unfolding wait_for
wait_for_returns m id none before w e h = cc e
wait_for_returns m id (some x) before w e h = cc h

conclude_returns :
    (lib : Library) (call : ToolCall) (before : Option (String × String)) (e : Evaluated)
    (w : WatcherState)
    → HashedIfPending lib call.args e
    → (conclude lib call before (e, w)).0 ≢ Outcome.raised
unfolding conclude forget HashedIfPending
conclude_returns lib call before Evaluated.crashed w k h = passed_returns [] w h
conclude_returns lib call before (Evaluated.returned Directive.pass vs) w k h =
    passed_returns vs w h
conclude_returns lib call before (Evaluated.returned (Directive.block m none p) vs) w k h = cc h
conclude_returns lib call before (Evaluated.returned (Directive.block m (some id) false) vs) w k h =
    cc h
conclude_returns lib call before (Evaluated.returned (Directive.block m (some id) true) vs) w k h =
    elim (if-cases (λ r. r.0 ≡ Outcome.raised) (id == "") (forget m w)
      (wait_for m id (canonical_arguments_hash lib call.args) before w) h) [
        | inl (e, f) ↦ cc f
        | inr (e, f) ↦ wait_for_returns m id (canonical_arguments_hash lib call.args) before w k f
      ]

-- No call makes `pre_tool_call` raise, whatever the approval service, the serializer and the resolver do.
pub pre_tool_call_returns :
    (lib : Library) (setup : Setup) (has_loop : Bool) (now : Clock) (call : ToolCall)
    (session_id : String) (s : Session)
    → (pre_tool_call lib setup has_loop now call session_id s).0 ≢ Outcome.raised
unfolding pre_tool_call
pre_tool_call_returns lib setup has_loop now call session_id s h =
    let (e, w) = evaluated lib setup has_loop now call session_id s in
    elim (if-cases (λ r. r.0 ≡ Outcome.raised) s.watcher.terminate_requested
      (Outcome.blocked (Block.kill s.watcher.terminate_reason), s)
      (conclude lib call s.pending (e, w)) h) [
        | inl (e, f) ↦ cc f
        | inr (_, f) ↦
            conclude_returns lib call s.pending e w
              (hashed-evaluated lib setup has_loop now call session_id s) f
      ]

conclude_crashed :
    (lib : Library) (call : ToolCall) (before : Option (String × String)) (e : Evaluated)
    (w : WatcherState)
    → e ≡ Evaluated.crashed
    → w.terminate_requested ≡ false
    → (conclude lib call before (e, w)).0 ≡ Outcome.runs
unfolding conclude passed first_steer
conclude_crashed lib call before Evaluated.crashed w h live = rw live refl
conclude_crashed lib call before (Evaluated.returned d vs) w h live = cc h

-- With the loop thread at work and no tracked approval, a call that needs an approval runs when the request to
-- the service raises another exception than ApprovalUnavailable, if neither the session nor the hook's checks
-- have flagged the agent.
pub failed_request_lets_call_run :
    (lib : Library) (setup : Setup) (has_loop : Bool) (now : Clock) (call : ToolCall)
    (session_id : String) (s : Session)
    (need : NeedsApproval setup (after_hook now call s).policy call.tool_name)
    → has_loop ≡ true
    → s.pending ≡ none
    → ((id : String) (payload : ApprovalRequestIn)
        → need.service.request_approval id payload ≡ Answer.raised)
    → s.watcher.terminate_requested ≡ false
    → (after_hook now call s).terminate_requested ≡ false
    → (pre_tool_call lib setup has_loop now call session_id s).0 ≡ Outcome.runs
unfolding pre_tool_call
failed_request_lets_call_run lib setup has_loop now call session_id s need looped free raises
      unflagged live =
    let asked =
      evaluated_asks lib setup has_loop now call session_id s
        (asks setup has_loop looped need.enabled (rw need.has_service refl)) in
    let crash =
      crashed_evaluation lib setup now call (some session_id) s.watcher need raises live in
    let flag = flag-evaluated lib setup has_loop now call session_id s ∙ live in
    ap
      (λ b.
        (if b
          then (Outcome.blocked (Block.kill s.watcher.terminate_reason), s)
          else conclude lib call s.pending (evaluated lib setup has_loop now call session_id s)).0)
      unflagged
    ∙ conclude_crashed lib call s.pending _ _
        (ap (λ r. r.0) asked
          ∙ ap
              (λ p.
                (evaluate_tool_approval lib setup now call (some session_id)
                  (Option.map (λ q. q.0) p) s.watcher).0)
              free
          ∙ crash)
        flag
