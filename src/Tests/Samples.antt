-- ===== src/Tests/Samples.antt =====
-- The data of the examples.
use hermeskill.Common.{ℕ, String, none, some, List, [], ◌∷◌, true, false}
use hermeskill.Policy.{SymptomType}
use hermeskill.Policy.Shipped.{strict, coding_default}
use hermeskill.Watcher.{WatcherState, Clock, Grant, Event, new_watcher}
use hermeskill.Watcher.Values.{Reason}
use hermeskill.Checks.{Finding, Verdict}
use hermeskill.Worker.{Registry, PendingKill, Post}

abbrev pub noon : Clock
noon = record { utc = 43200000000; monotonic = 1000000 }

abbrev pub later : Clock
later = record { utc = 43260000000; monotonic = 61000000 }

abbrev pub fresh : WatcherState
fresh = new_watcher "a1" "builder" coding_default noon

-- The agent after some calls of one kind.
abbrev pub repeating : List String → WatcherState
repeating sigs = record fresh { loop_signatures = sigs; tool_call_count = 5 }

abbrev pub looping : WatcherState
looping = repeating ("r" ∷ "w" ∷ "w" ∷ "w" ∷ "w" ∷ "w" ∷ [])

abbrev pub steering : WatcherState
steering = repeating ("r" ∷ "w" ∷ "w" ∷ "w" ∷ [])

abbrev pub broke : WatcherState
broke = record fresh { total_cost_usd = 2500000000 }

abbrev pub struck : WatcherState
struck = record fresh {
  terminate_requested = true;
  terminate_reason = some (Reason.manual "stop it");
  terminate_kill_event_id = some 7;
}

abbrev pub loop_finding : Finding
loop_finding = record {
  symptom = SymptomType.loop;
  reason = Reason.loop_repeated "w" 5 6 5;
  detail = [];
}

abbrev pub scope_finding : Finding
scope_finding = record {
  symptom = SymptomType.tool_scope_violation;
  reason = Reason.tool_not_allowed "rm";
  detail = [];
}

abbrev pub verdicts : List Verdict
verdicts = Verdict.terminal scope_finding ∷ Verdict.terminal loop_finding ∷ []

abbrev pub loop_grant : Grant
loop_grant = record {
  id = some "g1";
  symptoms = "loop" ∷ [];
  expires_at = some 43300000000;
  reason = none;
}

abbrev pub kill : PendingKill
kill = record {
  agent_id = "a1";
  kill_event_id = 9;
  trigger_reason = "manual";
  operator_reason = some "";
  operator = some "ada";
}

abbrev pub registry : Registry
registry = ("a0", new_watcher "a0" "reader" strict noon) ∷ ("a1", fresh) ∷ []

abbrev pub queued : WatcherState
queued = record fresh {
  pending_events = Event.tool_call "run_bash" "w" ∷ Event.tool_call "search" "r" ∷ [];
}

-- Every request succeeds, and each lets one event through.
abbrev pub posts : ℕ → Post
posts i = record { succeeds = true; meanwhile = Event.tool_call "late" "l" ∷ [] }

abbrev pub outage : ℕ → Post
outage i = record { succeeds = false; meanwhile = Event.tool_call "late" "l" ∷ [] }
