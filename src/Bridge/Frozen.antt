-- ===== src/Bridge/Frozen.antt =====
-- bridge.py, watcher.py: the flag of an agent over the calls that reach its state.
use hermeskill.Common.{ℕ, ◌≡◌, refl, ap, ◌∙◌, true, false, Option, none, some, List, [], ◌∷◌, arith}
use hermeskill.Watcher.{
  WatcherState, Clock, ManualKill, record_llm_call, record_lifecycle, record_shutdown_step,
  request_termination, drain_events, requeue_events,
}
use hermeskill.Watcher.Values.{Reason}
use hermeskill.Bridge.{on_post_tool_call, on_pre_llm_call, on_post_api_request, on_session_end}
use hermeskill.Bridge.Verdicts.{Flag, flag, flagged_by, flag-terminate_on_all}
use hermeskill.Bridge.Kill.{flag-on_pre_tool_call}
use hermeskill.Bridge.Machine.{Call, step, run}

flagged_by_set : (now : Clock) (o : Option Reason) (b : Flag) → b.0 ≡ true → flagged_by now o b ≡ b
flagged_by_set now none b h = refl
flagged_by_set now (some r) (true, c) h = refl
flagged_by_set now (some r) (false, c) h = cc

flag-request_termination :
    (now : Clock) (r : Reason) (id : Option ℕ) (m : Option ManualKill) (s : WatcherState)
    → s.terminate_requested ≡ true
    → flag (request_termination now r id m s) ≡ flag s
unfolding request_termination
flag-request_termination now r id m s h = ground arith

pub flag-step :
    (c : Call) (s : WatcherState) → s.terminate_requested ≡ true → flag (step c s) ≡ flag s
unfolding step on_post_tool_call on_pre_llm_call on_post_api_request on_session_end record_lifecycle
    record_llm_call record_shutdown_step drain_events requeue_events
flag-step (Call.pre_tool now tool sig) s h =
    flag-on_pre_tool_call now tool sig s ∙ flagged_by_set now _ (flag s) h
flag-step (Call.post_tool now tool) s h =
    flag-terminate_on_all now _ _ ∙ flagged_by_set now _ (flag s) h
flag-step (Call.post_api now model input output) s h =
    flag-terminate_on_all now _ _ ∙ flagged_by_set now _ (flag s) h
flag-step (Call.killed now reason id manual) s h = flag-request_termination now reason id manual s h
flag-step _ s h = refl

-- A flagged agent stays flagged, with the reason, the kill event, the time and the operator of its first
-- cause, whatever hooks, grants, drains and kills follow.
pub flag-run :
    (cs : List Call) (s : WatcherState) → s.terminate_requested ≡ true → flag (run cs s) ≡ flag s
unfolding run
flag-run [] s h = refl
flag-run (c ∷ cs) s h =
    let one = flag-step c s h in flag-run cs (step c s) (ap (λ b. b.0) one ∙ h) ∙ one

request_flags :
    (now : Clock) (r : Reason) (id : Option ℕ) (m : Option ManualKill) (s : WatcherState)
    → (request_termination now r id m s).terminate_requested ≡ true
unfolding request_termination
request_flags now r id m s = ground arith

-- An operator's kill flags the agent in any state, and the agent is flagged after any further
-- calls, new grants included.
pub manual_kill_is_final :
    (now : Clock) (r : Reason) (id : Option ℕ) (m : Option ManualKill) (cs : List Call)
    (s : WatcherState)
    → (run (Call.killed now r id m ∷ cs) s).terminate_requested ≡ true
unfolding run step
manual_kill_is_final now r id m cs s =
    let struck = request_termination now r id m s in
    ap (λ b. b.0) (flag-run cs struck (request_flags now r id m s)) ∙ request_flags now r id m s
