-- ===== src/Bridge/Verdicts.antt =====
-- bridge.py: the loops over the verdicts.
use hermeskill.Common.{
  ℕ, String, ◌≡◌, refl, sym, ap, ◌∙◌, Bool, true, false, ◌||◌, Option, none, some, List, [], ◌∷◌,
  ◌++◌, map, arith, any,
}
use mathlib.Core.List.{append_assoc, append-nil}
use hermeskill.Policy.{Policy}
use hermeskill.Watcher.{
  Grant, WatcherState, Clock, ManualKill, SymptomRecord, request_termination, record_symptom,
}
use hermeskill.Watcher.Values.{Reason}
use hermeskill.Checks.{Verdict, finding_of, is_terminal}
use hermeskill.Bridge.{severity_of, terminate_on, count_steer, act_on, act_on_all, terminate_on_all}

-- Why, when and by whom an agent was flagged.
pub record Cause : Type 0 where
  pub reason : Option Reason
  pub kill_event_id : Option ℕ
  pub requested_at : Option ℕ
  pub manual : Option ManualKill

abbrev pub cause : WatcherState → Cause
cause s = record {
  reason = s.terminate_reason;
  kill_event_id = s.terminate_kill_event_id;
  requested_at = s.terminate_requested_at;
  manual = s.manual_kill;
}

-- The reason of the first Terminal.
abbrev pub first_terminal : List Verdict → Option Reason
first_terminal [] = none
first_terminal (Verdict.terminal f ∷ vs) = some f.reason
first_terminal (Verdict.warning f ∷ vs) = first_terminal vs
first_terminal (Verdict.steer f ∷ vs) = first_terminal vs

-- The cause that a check gives, which no operator has a part in.
abbrev pub auto_cause : Clock → Reason → Cause
auto_cause now r = record {
  reason = some r;
  kill_event_id = none;
  requested_at = some now.utc;
  manual = none;
}

abbrev pub Flag : Type 0
Flag = Bool × Cause

abbrev pub flag : WatcherState → Flag
flag s = (s.terminate_requested, cause s)

-- The specification of the flag: the first cause wins.
abbrev pub flagged_by : Clock → Option Reason → Flag → Flag
flagged_by now none b = b
flagged_by now (some r) (true, c) = (true, c)
flagged_by now (some r) (false, c) = (true, auto_cause now r)

abbrev reason_of : Verdict → Option Reason
reason_of (Verdict.terminal f) = some f.reason
reason_of _ = none

flag-terminate_on :
    (now : Clock) (v : Verdict) (s : WatcherState)
    → flag (terminate_on now v s) ≡ flagged_by now (reason_of v) (flag s)
unfolding terminate_on request_termination
flag-terminate_on now (Verdict.terminal f) s = ground arith
flag-terminate_on now _ s = refl

flag-act_on :
    (now : Clock) (v : Verdict) (s : WatcherState)
    → flag (act_on now v s) ≡ flagged_by now (reason_of v) (flag s)
unfolding act_on count_steer record_symptom terminate_on request_termination
flag-act_on now (Verdict.terminal f) s = ground arith
flag-act_on now (Verdict.steer f) s = refl
flag-act_on now _ s = refl

-- The first Terminal decides for a list of verdicts.
flagged_by-cons :
    (now : Clock) (v : Verdict) (vs : List Verdict) (b : Flag)
    → flagged_by now (first_terminal vs) (flagged_by now (reason_of v) b)
      ≡ flagged_by now (first_terminal (v ∷ vs)) b
flagged_by-cons now (Verdict.terminal f) vs (true, c) = already (first_terminal vs)
  where
    already : (o : Option Reason) → flagged_by now o (true, c) ≡ (true, c)
    already none = refl
    already (some r) = refl
flagged_by-cons now (Verdict.terminal f) vs (false, c) = already (first_terminal vs)
  where
    already :
        (o : Option Reason)
        → flagged_by now o (true, auto_cause now f.reason) ≡ (true, auto_cause now f.reason)
    already none = refl
    already (some r) = refl
flagged_by-cons now (Verdict.warning f) vs b = refl
flagged_by-cons now (Verdict.steer f) vs b = refl

pub flag-terminate_on_all :
    (now : Clock) (vs : List Verdict) (s : WatcherState)
    → flag (terminate_on_all now vs s) ≡ flagged_by now (first_terminal vs) (flag s)
unfolding terminate_on_all
flag-terminate_on_all now [] s = refl
flag-terminate_on_all now (v ∷ vs) s =
    flag-terminate_on_all now vs (terminate_on now v s)
    ∙ ap (flagged_by now (first_terminal vs)) (flag-terminate_on now v s)
    ∙ flagged_by-cons now v vs (flag s)

pub flag-act_on_all :
    (now : Clock) (vs : List Verdict) (s : WatcherState)
    → flag (act_on_all now vs s) ≡ flagged_by now (first_terminal vs) (flag s)
unfolding act_on_all
flag-act_on_all now [] s = refl
flag-act_on_all now (v ∷ vs) s =
    flag-act_on_all now vs (act_on now v s)
    ∙ ap (flagged_by now (first_terminal vs)) (flag-act_on now v s)
    ∙ flagged_by-cons now v vs (flag s)

-- A list has a Terminal exactly when it has a first one.
pub flagged_by-any :
    (now : Clock) (vs : List Verdict) (b : Flag)
    → (flagged_by now (first_terminal vs) b).0 ≡ (b.0 || any is_terminal vs)
flagged_by-any now [] (true, c) = refl
flagged_by-any now [] (false, c) = refl
flagged_by-any now (Verdict.terminal f ∷ vs) (true, c) = refl
flagged_by-any now (Verdict.terminal f ∷ vs) (false, c) = refl
flagged_by-any now (Verdict.warning f ∷ vs) b = flagged_by-any now vs b
flagged_by-any now (Verdict.steer f ∷ vs) b = flagged_by-any now vs b

abbrev pub symptom_record : Clock → Verdict → SymptomRecord
symptom_record now v = record {
  symptom = (finding_of v).symptom;
  severity = severity_of v;
  reason = (finding_of v).reason;
  detail = (finding_of v).detail;
  at = now.utc;
}

symptoms_log-act_on :
    (now : Clock) (v : Verdict) (s : WatcherState)
    → (act_on now v s).symptoms_log ≡ s.symptoms_log ++ symptom_record now v ∷ []
unfolding act_on count_steer record_symptom terminate_on request_termination
symptoms_log-act_on now (Verdict.terminal f) s = ground arith
symptoms_log-act_on now (Verdict.steer f) s = refl
symptoms_log-act_on now _ s = refl

-- Every verdict is logged, in its order.
pub symptoms_log-act_on_all :
    (now : Clock) (vs : List Verdict) (s : WatcherState)
    → (act_on_all now vs s).symptoms_log ≡ s.symptoms_log ++ map (symptom_record now) vs
unfolding act_on_all
symptoms_log-act_on_all now [] s = sym (append-nil s.symptoms_log)
symptoms_log-act_on_all now (v ∷ vs) s =
    symptoms_log-act_on_all now vs (act_on now v s)
    ∙ ap (λ log. log ++ map (symptom_record now) vs) (symptoms_log-act_on now v s)
    ∙ append_assoc s.symptoms_log (symptom_record now v ∷ []) (map (symptom_record now) vs)

pub symptoms_log-terminate_on_all :
    (now : Clock) (vs : List Verdict) (s : WatcherState)
    → (terminate_on_all now vs s).symptoms_log ≡ s.symptoms_log
unfolding terminate_on_all terminate_on request_termination
symptoms_log-terminate_on_all now [] s = refl
symptoms_log-terminate_on_all now (Verdict.terminal f ∷ vs) s =
    symptoms_log-terminate_on_all now vs (terminate_on now (Verdict.terminal f) s) ∙ ground arith
symptoms_log-terminate_on_all now (Verdict.warning f ∷ vs) s =
    symptoms_log-terminate_on_all now vs s
symptoms_log-terminate_on_all now (Verdict.steer f ∷ vs) s = symptoms_log-terminate_on_all now vs s

-- What the loops over the verdicts leave alone.
pub record Core : Type 0 where
  pub agent_id : String
  pub policy : Policy
  pub started_monotonic : ℕ
  pub loop_signatures : List String
  pub total_input_tokens : ℕ
  pub total_output_tokens : ℕ
  pub total_cost_usd : ℕ
  pub tool_call_count : ℕ
  pub grants : List Grant

abbrev pub core : WatcherState → Core
core s = record {
  agent_id = s.agent_id;
  policy = s.policy;
  started_monotonic = s.started_monotonic;
  loop_signatures = s.loop_signatures;
  total_input_tokens = s.total_input_tokens;
  total_output_tokens = s.total_output_tokens;
  total_cost_usd = s.total_cost_usd;
  tool_call_count = s.tool_call_count;
  grants = s.grants;
}

core-terminate_on :
    (now : Clock) (v : Verdict) (s : WatcherState) → core (terminate_on now v s) ≡ core s
unfolding terminate_on request_termination
core-terminate_on now (Verdict.terminal f) s = ground arith
core-terminate_on now _ s = refl

core-act_on : (now : Clock) (v : Verdict) (s : WatcherState) → core (act_on now v s) ≡ core s
unfolding act_on count_steer record_symptom terminate_on request_termination
core-act_on now (Verdict.terminal f) s = ground arith
core-act_on now (Verdict.steer f) s = refl
core-act_on now _ s = refl

pub core-terminate_on_all :
    (now : Clock) (vs : List Verdict) (s : WatcherState) → core (terminate_on_all now vs s) ≡ core s
unfolding terminate_on_all
core-terminate_on_all now [] s = refl
core-terminate_on_all now (v ∷ vs) s =
    core-terminate_on_all now vs (terminate_on now v s) ∙ core-terminate_on now v s

pub core-act_on_all :
    (now : Clock) (vs : List Verdict) (s : WatcherState) → core (act_on_all now vs s) ≡ core s
unfolding act_on_all
core-act_on_all now [] s = refl
core-act_on_all now (v ∷ vs) s = core-act_on_all now vs (act_on now v s) ∙ core-act_on now v s
