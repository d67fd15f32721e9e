-- ===== src/Watchdog.antt =====
-- packages/hermeskill-sdk/src/hermeskill/apoptosis.py, `Watchdog`: the thread that cancels the task of an agent
-- that does not stop by itself. The thread wakes up again and again; what it sees on waking is an observation, and
-- the list of them is the run of the thread. Its two loops are one function of the phase.
pub mod Escalation
use hermeskill.Common.{
  ℕ, ◌+◌, Bool, true, false, ◌||◌, Option, none, some, List, [], ◌∷◌, leb, if◌then◌else◌,
}
use hermeskill.Watcher.{WatcherState, Clock, record_lifecycle, record_shutdown_step}
use hermeskill.Watcher.Values.{Value}

-- What the thread sees: the clock, `_stop`, the event, `terminate_requested`, and `task.done()` of the captured
-- task, if one is captured.
pub record Observation : Type 0 where
  pub monotonic : ℕ
  pub stop : Bool
  pub triggered : Bool
  pub terminate_requested : Bool
  pub done : Option Bool

pub data Ending : Type 0 where
  -- the stop was asked for, the task has ended in the grace period, or just after it
  stopped cooperated raced : Ending
  -- no task has been captured
  nothing_to_cancel : Ending
  -- `loop.call_soon_threadsafe(task.cancel)`
  cancelled : Ending

-- Step 1, step 2 with its deadline, and the end of the thread.
pub data Phase : Type 0 where
  waiting : Phase
  grace : ℕ → Phase
  ended : Ending → Phase

-- `_escalate` of a thread, which runs once.
unfoldable pub escalate : Option Bool → Ending
escalate none = Ending.nothing_to_cancel
escalate (some true) = Ending.raced
escalate (some false) = Ending.cancelled

cooperates : Option Bool → ℕ → Phase
cooperates (some true) deadline = Phase.ended Ending.cooperated
cooperates _ deadline = Phase.grace deadline

-- A turn of one of the two loops of `_run`.
unfoldable pub turn : ℕ → Observation → Phase → Phase
unfolding cooperates escalate
turn grace_seconds o Phase.waiting =
    if o.stop
    then Phase.ended Ending.stopped
    else if o.triggered || o.terminate_requested
    then Phase.grace (o.monotonic + grace_seconds)
    else Phase.waiting
turn grace_seconds o (Phase.grace deadline) =
    if leb deadline o.monotonic
    then Phase.ended (escalate o.done)
    else if o.stop
    then Phase.ended Ending.stopped
    else cooperates o.done deadline
turn grace_seconds o (Phase.ended e) = Phase.ended e

unfoldable pub watch : ℕ → List Observation → Phase → Phase
watch grace_seconds [] phase = phase
watch grace_seconds (o ∷ os) phase = watch grace_seconds os (turn grace_seconds o phase)

-- What an escalation leaves in the state.
unfoldable pub record_escalation : Clock → ℕ → Ending → WatcherState → WatcherState
record_escalation now grace_seconds Ending.cancelled s =
    let detail = ("grace_seconds", Value.num grace_seconds) ∷ [] in
    record_shutdown_step now "watchdog_escalated" none detail
      (record_lifecycle "watchdog_escalated" detail s)
record_escalation now grace_seconds _ s = s
