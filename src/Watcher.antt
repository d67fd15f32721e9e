-- ===== src/Watcher.antt =====
-- packages/hermeskill-sdk/src/hermeskill/watcher.py: the state of one watched agent and its mutators.
-- A hook runs in one thread and reads each clock once; the locks are the atomicity of each mutator. A
-- reason is kept as its template with the arguments of the f-string. `watchdog` is the module
-- Watchdog's, and `cleanup_hooks`, which no code reads, is left out.
pub mod Values
pub mod Signature
pub mod Buffer
use hermeskill.Common.{
  ℕ, suc, ◌+◌, ◌-◌, String, Bool, true, false, not, Option, none, some, List, [], ◌∷◌, ◌++◌, length,
  drop, if◌then◌else◌,
}
use hermeskill.Policy.{SymptomType, Policy}
use hermeskill.Pricing.{cost_for_usage}
use Values.{Reason, Value, Detail, Severity}

-- One reading of `datetime.now(UTC)` and of `time.monotonic()`, in microseconds.
pub record Clock : Type 0 where
  pub utc : ℕ
  pub monotonic : ℕ

-- The dict of a grant; `none` stands for a missing key or for None.
pub record Grant : Type 0 where
  pub id : Option String
  pub symptoms : List String
  pub expires_at : Option ℕ
  pub reason : Option String

pub record ManualKill : Type 0 where
  pub operator : Option String
  pub operator_reason : Option String
  pub kill_event_id : ℕ

pub record ShutdownStep : Type 0 where
  pub step : String
  pub at : ℕ
  pub duration : Option ℕ
  pub detail : Detail

pub record SymptomRecord : Type 0 where
  pub symptom : SymptomType
  pub severity : Severity
  pub reason : Reason
  pub detail : Detail
  pub at : ℕ

-- `EventIn`: a constructor for each `EventType` that is queued, over its payload.
pub data Event : Type 0 where
  tool_call : String → String → Event
  llm_call : String → ℕ → ℕ → ℕ → ℕ → Event
  lifecycle : String → Detail → Event
  symptom : SymptomType → Severity → Reason → Detail → Event

pub record WatcherState : Type 0 where
  pub agent_id : String
  pub name : String
  pub policy : Policy
  pub started_at : ℕ
  pub started_monotonic : ℕ
  pub terminate_requested : Bool
  pub terminate_reason : Option Reason
  pub terminate_kill_event_id : Option ℕ
  pub terminate_requested_at : Option ℕ
  pub manual_kill : Option ManualKill
  pub offline : Bool
  pub shutdown_log : List ShutdownStep
  pub symptoms_log : List SymptomRecord
  pub terminate_event : Bool
  pub loop_signatures : List String
  pub total_input_tokens : ℕ
  pub total_output_tokens : ℕ
  pub total_cost_usd : ℕ
  pub tool_call_count : ℕ
  pub steer_count : ℕ
  pub grants : List Grant
  pub pending_events : List Event

-- `WatcherState(agent_id=…, name=…, policy=…)`
abbrev pub new_watcher : String → String → Policy → Clock → WatcherState
new_watcher agent_id name policy now = record {
  agent_id = agent_id;
  name = name;
  policy = policy;
  started_at = now.utc;
  started_monotonic = now.monotonic;
  terminate_requested = false;
  terminate_reason = none;
  terminate_kill_event_id = none;
  terminate_requested_at = none;
  manual_kill = none;
  offline = false;
  shutdown_log = [];
  symptoms_log = [];
  terminate_event = false;
  loop_signatures = [];
  total_input_tokens = 0;
  total_output_tokens = 0;
  total_cost_usd = 0;
  tool_call_count = 0;
  steer_count = 0;
  grants = [];
  pending_events = [];
}

-- `deque(maxlen=n).append(x)`: the oldest entries make room.
unfoldable pub append_bounded {ℓ} : {A : Type ℓ} → ℕ → List A → A → List A
append_bounded n xs x = let ys = xs ++ x ∷ [] in drop (length ys - n) ys

unfoldable pub enqueue : Event → WatcherState → WatcherState
enqueue e s = record s { pending_events = s.pending_events ++ e ∷ [] }

unfoldable pub drain_events : WatcherState → List Event × WatcherState
drain_events s = (s.pending_events, record s { pending_events = [] })

unfoldable pub requeue_events : List Event → WatcherState → WatcherState
requeue_events events s = record s { pending_events = events ++ s.pending_events }

unfoldable pub uptime : Clock → WatcherState → ℕ
uptime now s = now.monotonic - s.started_monotonic

-- `sig` is `_signature(tool_name, params)`; if that raises, nothing is recorded.
unfoldable pub record_tool_call : String → Option String → WatcherState → WatcherState
unfolding enqueue append_bounded
record_tool_call tool_name none s = s
record_tool_call tool_name (some sig) s = enqueue (Event.tool_call tool_name sig) (record s {
  tool_call_count = s.tool_call_count + 1;
  loop_signatures = append_bounded s.policy.thresholds.loop_window_actions s.loop_signatures sig;
})

unfoldable pub record_llm_call : String → ℕ → ℕ → WatcherState → WatcherState
unfolding enqueue
record_llm_call model input output s =
    let cost = cost_for_usage model input output in
    enqueue (Event.llm_call model input output cost (s.total_cost_usd + cost)) (record s {
      total_input_tokens = s.total_input_tokens + input;
      total_output_tokens = s.total_output_tokens + output;
      total_cost_usd = s.total_cost_usd + cost;
    })

unfoldable pub record_lifecycle : String → Detail → WatcherState → WatcherState
unfolding enqueue
record_lifecycle phase extra = enqueue (Event.lifecycle phase extra)

unfoldable pub record_shutdown_step :
    Clock → String → Option ℕ → Detail → WatcherState → WatcherState
record_shutdown_step now step duration detail s = record s {
  shutdown_log =
      s.shutdown_log
      ++ record { step = step; at = now.utc; duration = duration; detail = detail } ∷ [];
}

abbrev pub kill_id : Option ℕ → Value
kill_id none = Value.null
kill_id (some n) = Value.num n

-- The first cause wins; the event is set in any case.
unfoldable pub request_termination :
    Clock → Reason → Option ℕ → Option ManualKill → WatcherState → WatcherState
unfolding record_shutdown_step
request_termination now reason kill_event_id manual_kill s =
    record (if s.terminate_requested then s else flagged) { terminate_event = true }
  where
    flagged : WatcherState
    flagged =
        record_shutdown_step now "apoptosis_requested" none
          (("reason", Value.reason reason) ∷ ("kill_event_id", kill_id kill_event_id) ∷ [])
          (record s {
            terminate_requested = true;
            terminate_reason = some reason;
            terminate_kill_event_id = kill_event_id;
            terminate_requested_at = some now.utc;
            manual_kill = manual_kill;
          })

unfoldable pub record_symptom :
    Clock → SymptomType → Severity → Reason → Detail → WatcherState → WatcherState
unfolding enqueue
record_symptom now s severity reason detail st =
    enqueue (Event.symptom s severity reason detail) (record st {
      symptoms_log =
          st.symptoms_log
          ++ record {
            symptom = s;
            severity = severity;
            reason = reason;
            detail = detail;
            at = now.utc;
          }
            ∷ [];
    })
