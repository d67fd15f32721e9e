-- ===== src/Bridge/Machine.antt =====
-- The life of a watched agent as a list of the calls that reach its state: the hooks, the heartbeat's
-- new grants, the drain of its events, and the kill that the poller delivers.
use hermeskill.Common.{ℕ, String, ◌≡◌, refl, Option, List, [], ◌∷◌, ◌++◌}
use hermeskill.Watcher.{
  WatcherState, Clock, Grant, ManualKill, Event, request_termination, drain_events, requeue_events,
}
use hermeskill.Watcher.Values.{Reason}
use hermeskill.Bridge.{
  on_pre_tool_call, on_post_tool_call, on_pre_llm_call, on_post_api_request, on_session_end,
}

pub data Call : Type 0 where
  pre_tool : Clock → String → Option String → Call
  post_tool : Clock → String → Call
  pre_llm : String → Call
  post_api : Clock → String → ℕ → ℕ → Call
  session_end : Clock → Call
  new_grants : List Grant → Call
  drained : Call
  requeued : List Event → Call
  killed : Clock → Reason → Option ℕ → Option ManualKill → Call

unfoldable pub step : Call → WatcherState → WatcherState
step (Call.pre_tool now tool sig) s = (on_pre_tool_call now tool sig s).1
step (Call.post_tool now tool) s = on_post_tool_call now tool s
step (Call.pre_llm model) s = on_pre_llm_call model s
step (Call.post_api now model input output) s = on_post_api_request now model input output s
step (Call.session_end now) s = on_session_end now s
step (Call.new_grants gs) s = record s { grants = gs }
step Call.drained s = (drain_events s).1
step (Call.requeued events) s = requeue_events events s
step (Call.killed now reason id manual) s = request_termination now reason id manual s

unfoldable pub run : List Call → WatcherState → WatcherState
run [] s = s
run (c ∷ cs) s = run cs (step c s)

pub run-append : (cs ds : List Call) (s : WatcherState) → run (cs ++ ds) s ≡ run ds (run cs s)
unfolding run
run-append [] ds s = refl
run-append (c ∷ cs) ds s = run-append cs ds (step c s)
