-- ===== src/Bridge.antt =====
-- packages/hermeskill-hermes/src/hermeskill_hermes/bridge.py: a Hermes hook as a step of the watcher's
-- state. The checks of the model are total, so that the `except` branches round them have no case;
-- recording a call can fail, and then the hook goes on.
pub mod Verdicts
pub mod Kill
pub mod Machine
pub mod Frozen
pub mod Window
pub mod Loops
use hermeskill.Common.{
  ℕ, ◌+◌, String, Bool, true, false, not, ◌&&◌, Option, none, some, List, [], ◌∷◌, ◌++◌,
  if◌then◌else◌,
}
use hermeskill.Policy.{Policy}
use hermeskill.Watcher.{
  WatcherState, Clock, record_tool_call, record_llm_call, record_lifecycle, record_shutdown_step,
  record_symptom, request_termination,
}
use hermeskill.Watcher.Values.{Value, Severity}
use hermeskill.Checks.{
  Verdict, Finding, finding_of, is_terminal, fired_only, check_tool_scope, run_all, apply_grants,
}

-- `_run_checks_failopen`
unfoldable pub run_checks : Clock → WatcherState → List Verdict → List Verdict
run_checks now s seed = apply_grants (seed ++ run_all now s s.policy) s.grants

abbrev pub severity_of : Verdict → Severity
severity_of (Verdict.terminal f) = Severity.terminal
severity_of (Verdict.steer f) = Severity.steer
severity_of (Verdict.warning f) = Severity.warning

-- `state.request_termination(v.reason)`, for a Terminal while the agent is not flagged yet.
unfoldable pub terminate_on : Clock → Verdict → WatcherState → WatcherState
terminate_on now (Verdict.terminal f) s =
    if s.terminate_requested then s else request_termination now f.reason none none s
terminate_on now _ s = s

unfoldable pub count_steer : Verdict → WatcherState → WatcherState
count_steer (Verdict.steer f) s = record s { steer_count = s.steer_count + 1 }
count_steer _ s = s

-- The body of the loop of `on_pre_tool_call`.
unfoldable pub act_on : Clock → Verdict → WatcherState → WatcherState
act_on now v s =
    let f = finding_of v in
    count_steer v
      (terminate_on now v (record_symptom now f.symptom (severity_of v) f.reason f.detail s))

unfoldable pub act_on_all : Clock → List Verdict → WatcherState → WatcherState
act_on_all now [] s = s
act_on_all now (v ∷ vs) s = act_on_all now vs (act_on now v s)

-- The loop of the hooks that only terminate.
unfoldable pub terminate_on_all : Clock → List Verdict → WatcherState → WatcherState
terminate_on_all now [] s = s
terminate_on_all now (v ∷ vs) s = terminate_on_all now vs (terminate_on now v s)

-- The verdicts of `on_pre_tool_call` and the state that it leaves. `sig` is the call's signature.
unfoldable pub on_pre_tool_call :
    Clock → String → Option String → WatcherState → List Verdict × WatcherState
on_pre_tool_call now tool sig s =
    let scope = fired_only (check_tool_scope tool s.policy) in
    let recorded = record_tool_call tool sig s in
    let verdicts = run_checks now recorded scope in (verdicts, act_on_all now verdicts recorded)

unfoldable pub on_post_tool_call : Clock → String → WatcherState → WatcherState
on_post_tool_call now tool s =
    let ended = record_lifecycle "tool_end" (("tool", Value.str tool) ∷ []) s in
    terminate_on_all now (run_checks now ended []) ended

unfoldable pub on_pre_llm_call : String → WatcherState → WatcherState
on_pre_llm_call model = record_lifecycle "llm_start" (("model", Value.str model) ∷ [])

unfoldable pub on_post_api_request : Clock → String → ℕ → ℕ → WatcherState → WatcherState
on_post_api_request now model input output s =
    let counted = record_llm_call model input output s in
    terminate_on_all now (run_checks now counted []) counted

unfoldable pub on_session_end : Clock → WatcherState → WatcherState
on_session_end now s =
    record_shutdown_step now "hermes_session_ended" none [] (record_lifecycle "session_end" [] s)
