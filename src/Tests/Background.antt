-- ===== src/Tests/Background.antt =====
-- Examples for the background worker and the poller.
use hermeskill.Common.{◌≡◌, refl, some, ◌++◌}
use hermeskill.Watcher.{request_termination}
use hermeskill.Watcher.Values.{Reason}
use hermeskill.Worker.{drain_one, deliver}
use hermeskill.Worker.Drain.{drain_one_conserves}
use hermeskill.Tests.Samples.{noon, fresh, queued, kill, outage}

drain_one_conserves_example :
    (drain_one outage queued).posted ++ (drain_one outage queued).state.pending_events
    ≡ queued.pending_events ++ (drain_one outage queued).arrived
drain_one_conserves_example = drain_one_conserves outage queued

-- An empty reason of the operator falls back to the trigger's.
empty_reason : (deliver noon kill fresh).terminate_reason ≡ some (Reason.manual "manual")
unfolding deliver request_termination
empty_reason = refl
