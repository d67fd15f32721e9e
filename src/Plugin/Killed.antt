-- ===== src/Plugin/Killed.antt =====
-- plugin.py: the tool checkpoints of a session whose agent has been flagged.
use hermeskill.Common.{String, ◌≡◌, refl, ap, ◌∙◌, Bool, true, Option, List, [], ◌∷◌, All}
use hermeskill.Watcher.{Clock}
use hermeskill.Watcher.Values.{Reason}
use hermeskill.Bridge.Frozen.{flag-step}
use hermeskill.ToolApproval.{Library, Setup, ToolCall}
use hermeskill.Plugin.{Session, Block, Outcome, SessionStep, outcomes, pre_tool_call}

pre_tool_call-killed :
    (lib : Library) (setup : Setup) (has_loop : Bool) (now : Clock) (call : ToolCall)
    (session_id : String) (s : Session)
    → s.watcher.terminate_requested ≡ true
    → pre_tool_call lib setup has_loop now call session_id s
      ≡ (Outcome.blocked (Block.kill s.watcher.terminate_reason), s)
unfolding pre_tool_call
pre_tool_call-killed lib setup has_loop now call session_id s h = simp h

killed_for :
    (steps : List SessionStep) (s : Session) (r : Option Reason)
    → s.watcher.terminate_requested ≡ true
    → s.watcher.terminate_reason ≡ r
    → All (λ o. o ≡ Outcome.blocked (Block.kill r)) (outcomes steps s)
unfolding outcomes
killed_for [] s r h e = tt
killed_for (SessionStep.checkpoint lib setup has_loop now call session_id ∷ steps) s r h e =
    let same = pre_tool_call-killed lib setup has_loop now call session_id s h in
    (
      ap (λ p. p.0) same ∙ ap (λ x. Outcome.blocked (Block.kill x)) e,
      rw (ap (λ p. p.1) same) (killed_for steps s r h e),
    )
killed_for (SessionStep.other c ∷ steps) s r h e =
    let same = flag-step c s.watcher h in
    killed_for steps _ r (ap (λ f. f.0) same ∙ h) (ap (λ f. f.1.reason) same ∙ e)

-- Once the agent of a session is flagged, each further tool checkpoint is blocked with the reason of the first
-- cause, whatever hooks, grants, approvals, drains and kills come between.
pub flagged_session_runs_nothing :
    (steps : List SessionStep) (s : Session)
    → s.watcher.terminate_requested ≡ true
    → All (λ o. o ≡ Outcome.blocked (Block.kill s.watcher.terminate_reason)) (outcomes steps s)
flagged_session_runs_nothing steps s h = killed_for steps s s.watcher.terminate_reason h refl
