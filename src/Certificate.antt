-- ===== src/Certificate.antt =====
-- packages/hermeskill-sdk/src/hermeskill/apoptosis.py: the death certificate of an agent, and the body of the
-- request that reports it. The steps of the shutdown have their types in the state already.
pub mod Cause
use hermeskill.Common.{ℕ, String, Option, none, some, List}
use hermeskill.Watcher.{WatcherState, ManualKill, ShutdownStep, SymptomRecord}
use hermeskill.Watcher.Values.{Reason}
use hermeskill.ControlPlane.{TriggerType}

-- `trigger_reason` is none for "unknown".
pub record DeathCertificate : Type 0 where
  pub agent_id : String
  pub triggered_at : ℕ
  pub terminated_at : ℕ
  pub trigger_type : TriggerType
  pub trigger_reason : Option Reason
  pub symptoms_log : List SymptomRecord
  pub shutdown_log : List ShutdownStep
  pub operator : Option String
  pub operator_reason : Option String

abbrev pub or_now : ℕ → Option ℕ → ℕ
or_now now none = now
or_now now (some t) = t

abbrev pub trigger_of : Option ManualKill → TriggerType
trigger_of none = TriggerType.auto
trigger_of (some m) = TriggerType.manual

abbrev pub operator_of : Option ManualKill → Option String
operator_of none = none
operator_of (some m) = m.operator

abbrev pub operator_reason_of : Option ManualKill → Option String
operator_reason_of none = none
operator_reason_of (some m) = m.operator_reason

-- `build_death_certificate`; `now` is the time of the build.
unfoldable pub build_death_certificate : ℕ → WatcherState → DeathCertificate
build_death_certificate now s = record {
  agent_id = s.agent_id;
  triggered_at = or_now now s.terminate_requested_at;
  terminated_at = now;
  trigger_type = trigger_of s.manual_kill;
  trigger_reason = s.terminate_reason;
  symptoms_log = s.symptoms_log;
  shutdown_log = s.shutdown_log;
  operator = operator_of s.manual_kill;
  operator_reason = operator_reason_of s.manual_kill;
}

-- The `KillEventIn` that the SDK posts.
pub record KillReport : Type 0 where
  pub trigger_type : TriggerType
  pub trigger_reason : Option Reason
  pub triggered_at : ℕ
  pub terminated_at : ℕ
  pub death_certificate : DeathCertificate
  pub shutdown_log : List ShutdownStep

unfoldable pub build_kill_event_payload : ℕ → WatcherState → KillReport
build_kill_event_payload now s =
    let cert = build_death_certificate now s in
    record {
      trigger_type = cert.trigger_type;
      trigger_reason = cert.trigger_reason;
      triggered_at = cert.triggered_at;
      terminated_at = cert.terminated_at;
      death_certificate = cert;
      shutdown_log = cert.shutdown_log;
    }
