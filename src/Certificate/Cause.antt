-- ===== src/Certificate/Cause.antt =====
-- apoptosis.py: the cause that a certificate names.
use hermeskill.Common.{ℕ, String, arith, ◌≡◌, refl, ap, ◌∙◌, true, false, Option, some, List}
use hermeskill.Watcher.{WatcherState, Clock, ManualKill, request_termination}
use hermeskill.Watcher.Values.{Reason}
use hermeskill.Bridge.Verdicts.{Flag, flag}
use hermeskill.Bridge.Frozen.{flag-run}
use hermeskill.Bridge.Machine.{Call, run}
use hermeskill.ControlPlane.{TriggerType}
use hermeskill.Certificate.{
  build_death_certificate, build_kill_event_payload, KillReport, trigger_of, operator_of,
  operator_reason_of, or_now,
}

-- What a report says of the cause.
pub record ReportedCause : Type 0 where
  pub trigger_type : TriggerType
  pub trigger_reason : Option Reason
  pub triggered_at : ℕ
  pub operator : Option String
  pub operator_reason : Option String

abbrev pub reported_cause : KillReport → ReportedCause
reported_cause k = record {
  trigger_type = k.trigger_type;
  trigger_reason = k.trigger_reason;
  triggered_at = k.triggered_at;
  operator = k.death_certificate.operator;
  operator_reason = k.death_certificate.operator_reason;
}

cause_reported : ℕ → Flag → ReportedCause
cause_reported now (b, c) = record {
  trigger_type = trigger_of c.manual;
  trigger_reason = c.reason;
  triggered_at = or_now now c.requested_at;
  operator = operator_of c.manual;
  operator_reason = operator_reason_of c.manual;
}

reported-build :
    (now : ℕ) (s : WatcherState)
    → reported_cause (build_kill_event_payload now s) ≡ cause_reported now (flag s)
unfolding build_kill_event_payload build_death_certificate cause_reported
reported-build now s = refl

-- The flag of an agent that one kill flags, whoever asks for it.
flag-first :
    (clock : Clock) (r : Reason) (id : Option ℕ) (m : Option ManualKill) (s : WatcherState)
    → s.terminate_requested ≡ false
    → flag (request_termination clock r id m s) ≡ (
      true,
      record { reason = some r; kill_event_id = id; requested_at = some clock.utc; manual = m },
    )
unfolding request_termination
flag-first clock r id m s h = ground arith

-- Once a kill has flagged an agent that was not flagged, the report on it names that kill, whatever hooks, grants,
-- drains and other kills follow: its reason, its time, and its operator if it has one.
pub report_names_first_cause :
    (now : ℕ) (clock : Clock) (r : Reason) (id : Option ℕ) (m : Option ManualKill) (cs : List Call)
    (s : WatcherState)
    → s.terminate_requested ≡ false
    → reported_cause (build_kill_event_payload now (run cs (request_termination clock r id m s)))
      ≡ record {
        trigger_type = trigger_of m;
        trigger_reason = some r;
        triggered_at = clock.utc;
        operator = operator_of m;
        operator_reason = operator_reason_of m;
      }
unfolding cause_reported
report_names_first_cause now clock r id m cs s h =
    let struck = request_termination clock r id m s in
    let first = flag-first clock r id m s h in
    reported-build now (run cs struck)
    ∙ ap (cause_reported now) (flag-run cs struck (ap (λ f. f.0) first) ∙ first)
