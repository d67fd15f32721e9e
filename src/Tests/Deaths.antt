-- ===== src/Tests/Deaths.antt =====
-- Examples for the certificate, the watchdog and the supervisor.
use hermeskill.Common.{◌≡◌, refl, true, false, none, some, List, [], ◌∷◌, arith}
use hermeskill.Watcher.{request_termination}
use hermeskill.Watcher.Values.{Reason}
use hermeskill.Bridge.Machine.{Call, run}
use hermeskill.ControlPlane.{TriggerType}
use hermeskill.Certificate.{build_kill_event_payload}
use hermeskill.Certificate.Cause.{reported_cause, report_names_first_cause}
use hermeskill.Watchdog.{Observation, Ending, Phase, turn, watch, escalate}
use hermeskill.Watchdog.Escalation.{IsOverdue, unresponsive_task_is_cancelled, cancelled-IsOverdue}
use hermeskill.Supervisor.{
  Settings, Look, Trigger, SupervisorStep, SupervisorResult, triggers, supervise,
}
use hermeskill.Supervisor as Supervisor
use hermeskill.Supervisor.Hard.{IsKilled, supervise-IsKilled}
use hermeskill.Supervisor.Justified.{IsJustified, supervise-IsJustified}
use hermeskill.Tests.Samples.{noon, later, fresh}

-- A second kill by an operator, and the end of the session.
abbrev aftermath : List Call
aftermath = Call.killed later (Reason.manual "again") (some 9) none ∷ Call.session_end later ∷ []

report_names_first_cause_example :
    reported_cause (
      build_kill_event_payload 43300000000
        (run aftermath (request_termination noon (Reason.manual "stop it") (some 7) none fresh)))
    ≡ record {
      trigger_type = TriggerType.auto;
      trigger_reason = some (Reason.manual "stop it");
      triggered_at = 43200000000;
      operator = none;
      operator_reason = none;
    }
report_names_first_cause_example =
    report_names_first_cause 43300000000 noon (Reason.manual "stop it") (some 7) none aftermath
      fresh refl

abbrev idle : Observation
idle = record {
  monotonic = 5;
  stop = false;
  triggered = false;
  terminate_requested = false;
  done = some false;
}

abbrev struck : Observation
struck = record idle { monotonic = 6; triggered = true }

abbrev overdue : Observation
overdue = record idle { monotonic = 20; triggered = true }

abbrev seen : List Observation
seen = idle ∷ struck ∷ record idle { monotonic = 9 } ∷ overdue ∷ []

unresponsive_task_is_cancelled_example : watch 10 seen Phase.waiting ≡ Phase.ended Ending.cancelled
unresponsive_task_is_cancelled_example =
    unresponsive_task_is_cancelled 10 (idle ∷ []) struck (record idle { monotonic = 9 } ∷ [])
      overdue [] ((refl, refl), tt) refl refl ((refl, refl), tt) (omega arith) refl

cancels : watch 10 seen Phase.waiting ≡ Phase.ended Ending.cancelled
unfolding watch turn escalate
cancels = refl

cancelled-IsOverdue_example : IsOverdue 10 seen
cancelled-IsOverdue_example = cancelled-IsOverdue 10 seen cancels

abbrev limits : Settings
limits = record { grace = 5; wall_clock = some 60; heartbeat_timeout = some 30 }

abbrev healthy : Look
healthy = record {
  raises = false;
  alive = true;
  monotonic = 110;
  signalled = 110;
  time = 1010;
  last_beat = 1005;
}

abbrev spent : Look
spent = record healthy { monotonic = 160; signalled = 161; time = 1060; last_beat = 1050 }

abbrev deaf : Look
deaf = record healthy { monotonic = 166; signalled = 166; time = 1066; last_beat = 1050 }

abbrev looks : List Look
looks = healthy ∷ spent ∷ record spent { monotonic = 162 } ∷ deaf ∷ []

supervise-IsKilled_example : IsKilled looks (supervise limits 100 looks)
supervise-IsKilled_example =
    supervise-IsKilled limits 100 60 refl (healthy ∷ []) spent
      (record spent { monotonic = 162 } ∷ []) deaf [] ((refl, omega arith), tt) refl (omega arith)
      (refl, tt) refl (omega arith)

abbrev outcome : SupervisorResult
outcome = record {
  trigger = Trigger.wall_clock;
  killed = true;
  sigkilled = true;
  shutdown_steps =
      SupervisorStep.supervisor_trigger Trigger.wall_clock
      ∷ SupervisorStep.supervisor_sigterm 5
      ∷ SupervisorStep.supervisor_sigkill
      ∷ [];
}

kills : supervise limits 100 looks ≡ some (Supervisor.Ending.returned outcome)
unfolding supervise triggers Supervisor.escalate
kills = refl

supervise-IsJustified_example : IsJustified limits 100 looks
supervise-IsJustified_example =
    supervise-IsJustified limits 100 looks (Supervisor.Ending.returned outcome) kills refl
