-- ===== src/Plugin.antt =====
-- packages/hermeskill-hermes/src/hermeskill_hermes/plugin.py: one tool checkpoint of a session. The approval
-- evaluation is the one of the module ToolApproval; the call through the loop thread that ends it after ten
-- seconds counts as an exception of the service. The snapshot of the vitals is not part of the state.
pub mod Gate
pub mod Killed
pub mod Sessions
use mathlib.Core.Option
use hermeskill.Common.{
  String, Bool, true, false, ◌&&◌, Option, none, some, List, [], ◌∷◌, ◌==◌, string_eq, is_some,
  if◌then◌else◌,
}
use hermeskill.Watcher.{WatcherState, Clock}
use hermeskill.Watcher.Values.{Reason}
use hermeskill.Checks.{Finding, Verdict}
use hermeskill.Bridge.{on_pre_tool_call}
use hermeskill.Bridge.Machine.{Call, step}
use hermeskill.ToolApproval.{
  Library, Setup, ToolCall, Message, Directive, Evaluated, canonical_arguments_hash,
  evaluate_tool_approval,
}

-- What the plugin keeps for a session: its watcher, and the approval it waits for with the hash of the
-- arguments.
pub record Session : Type 0 where
  pub watcher : WatcherState
  pub pending : Option (String × String)

-- The message of a directive with the action "block".
pub data Block : Type 0 where
  approval : Message → Block
  -- `_block_directive`; none for the text that stands in for a missing reason
  kill : Option Reason → Block
  -- `_steer_directive`
  steer : Finding → Block

pub data Outcome : Type 0 where
  -- None: Hermes runs the tool
  runs : Outcome
  blocked : Block → Outcome
  raised : Outcome

-- The evaluation of the call; without a loop thread, an approval service or the switch it is the hook alone.
unfoldable pub evaluated :
    Library → Setup → Bool → Clock → ToolCall → String → Session → Evaluated × WatcherState
evaluated lib setup has_loop now call session_id s =
    if has_loop && setup.interactive_approvals_enabled && is_some setup.approval_service
    then evaluate_tool_approval lib setup now call (some session_id)
        (Option.map (λ p. p.0) s.pending) s.watcher
    else let (verdicts, checked) = on_pre_tool_call now call.tool_name call.signature s.watcher in
      (Evaluated.returned Directive.pass verdicts, checked)

-- `next((v for v in verdicts if isinstance(v, Steer)), None)`
unfoldable pub first_steer : List Verdict → Outcome
first_steer [] = Outcome.runs
first_steer (Verdict.steer f ∷ vs) = Outcome.blocked (Block.steer f)
first_steer (v ∷ vs) = first_steer vs

-- The end of a call that the approval lets pass.
unfoldable pub passed : List Verdict → WatcherState → Outcome × Session
passed verdicts w = (
  if w.terminate_requested
      then Outcome.blocked (Block.kill w.terminate_reason)
      else first_steer verdicts,
  record { watcher = w; pending = none },
)

-- A block that waits for an approval remembers it with the hash of the arguments.
unfoldable pub wait_for :
    Message → String → Option String → Option (String × String) → WatcherState → Outcome × Session
wait_for m id none before w = (Outcome.raised, record { watcher = w; pending = before })
wait_for m id (some h) before w =
    (Outcome.blocked (Block.approval m), record { watcher = w; pending = some (id, h) })

unfoldable pub forget : Message → WatcherState → Outcome × Session
forget m w = (Outcome.blocked (Block.approval m), record { watcher = w; pending = none })

unfoldable pub conclude :
    Library → ToolCall → Option (String × String) → Evaluated × WatcherState → Outcome × Session
conclude lib call before (Evaluated.crashed, w) = passed [] w
conclude lib call before (Evaluated.returned Directive.pass verdicts, w) = passed verdicts w
conclude lib call before (Evaluated.returned (Directive.block m (some id) true) verdicts, w) =
    if id == "" then forget m w else wait_for m id (canonical_arguments_hash lib call.args) before w
conclude lib call before (Evaluated.returned (Directive.block m _ _) verdicts, w) = forget m w

-- `pre_tool_call` of the session with the id `session_id`.
unfoldable pub pre_tool_call :
    Library → Setup → Bool → Clock → ToolCall → String → Session → Outcome × Session
pre_tool_call lib setup has_loop now call session_id s =
    if s.watcher.terminate_requested
    then (Outcome.blocked (Block.kill s.watcher.terminate_reason), s)
    else conclude lib call s.pending (evaluated lib setup has_loop now call session_id s)

-- What reaches a session: a tool checkpoint with its surroundings, or another call of the watcher's life,
-- which `post_tool_call`, `pre_llm_call`, `post_api_request`, `session_end` and the background worker make.
pub data SessionStep : Type 0 where
  checkpoint : Library → Setup → Bool → Clock → ToolCall → String → SessionStep
  other : Call → SessionStep

-- The outcomes of the tool checkpoints, in order.
unfoldable pub outcomes : List SessionStep → Session → List Outcome
outcomes [] s = []
outcomes (SessionStep.checkpoint lib setup has_loop now call session_id ∷ steps) s =
    let (o, t) = pre_tool_call lib setup has_loop now call session_id s in o ∷ outcomes steps t
outcomes (SessionStep.other c ∷ steps) s = outcomes steps (record s { watcher = step c s.watcher })
