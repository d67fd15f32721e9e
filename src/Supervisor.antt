-- ===== src/Supervisor.antt =====
-- packages/hermeskill-sdk/src/hermeskill/supervisor.py, `ProcessSupervisor`: a child process that is watched, asked
-- to end, and killed. The loops poll; what a turn reads is a look, with each clock read once, and the list of looks
-- is the run. none stands for a run that has not ended within the list. An exception in a loop stands as the look at
-- which it is raised, and leads to the `finally` of `run`.
pub mod Hard
pub mod Justified
use hermeskill.Common.{
  ℕ, ◌+◌, String, Bool, true, false, ◌&&◌, Option, none, some, List, [], ◌∷◌, ◌++◌, leb, is_some,
  ◌||◌, if◌then◌else◌,
}

pub record Settings : Type 0 where
  pub grace : ℕ
  pub wall_clock : Option ℕ
  pub heartbeat_timeout : Option ℕ

-- Whether an exception is raised, `process.is_alive()`, the clocks, and the last beat; signalled is the clock after SIGTERM, if the look leads there.
pub record Look : Type 0 where
  pub raises : Bool
  pub alive : Bool
  pub monotonic : ℕ
  pub signalled : ℕ
  pub time : ℕ
  pub last_beat : ℕ

-- The `TRIGGER_*` constants.
pub data Trigger : Type 0 where
  completed wall_clock heartbeat_loss : Trigger

abbrev pub reaches : Option ℕ → ℕ → ℕ → Bool
reaches none since now = false
reaches (some limit) since now = leb (since + limit) now

-- A turn of `_monitor`; a supervisor with a timeout has a heartbeat.
unfoldable pub triggers : Settings → ℕ → Look → Option Trigger
triggers c start l =
    if l.alive
    then if reaches c.wall_clock start l.monotonic
      then some Trigger.wall_clock
      else if reaches c.heartbeat_timeout l.last_beat l.time
      then some Trigger.heartbeat_loss
      else none
    else some Trigger.completed

-- The end of `_escalate`: its result, or an exception, with `is_alive()` at it.
pub data Escalated : Type 0 where
  exited forced : Escalated
  interrupted : Bool → Escalated

-- `_escalate`, from the deadline on.
unfoldable pub escalate : ℕ → List Look → Option Escalated
escalate deadline [] = none
escalate deadline (l ∷ looks) =
    let rest = escalate deadline looks in
    if l.raises
    then some (Escalated.interrupted l.alive)
    else if l.alive
    then if leb deadline l.monotonic then some Escalated.forced else rest
    else some Escalated.exited

pub data SupervisorStep : Type 0 where
  supervisor_trigger : Trigger → SupervisorStep
  supervisor_sigterm : ℕ → SupervisorStep
  supervisor_exited_after_sigterm supervisor_sigkill : SupervisorStep

pub record SupervisorResult : Type 0 where
  pub trigger : Trigger
  pub killed : Bool
  pub sigkilled : Bool
  pub shutdown_steps : List SupervisorStep

-- How a run ends: with its result, or with an exception, where the `finally` kills a child that is alive.
pub data Ending : Type 0 where
  returned : SupervisorResult → Ending
  raised : Bool → Ending

-- The result of a run with a trigger, once the escalation has ended.
abbrev killed_by : Settings → Trigger → Bool → SupervisorStep → Ending
killed_by c t hard last = Ending.returned (record {
  trigger = t;
  killed = true;
  sigkilled = hard;
  shutdown_steps =
      SupervisorStep.supervisor_trigger t ∷ SupervisorStep.supervisor_sigterm c.grace ∷ last ∷ [];
})

ended : Settings → Trigger → Option Escalated → Option Ending
ended c t none = none
ended c t (some Escalated.exited) =
    some (killed_by c t false SupervisorStep.supervisor_exited_after_sigterm)
ended c t (some Escalated.forced) = some (killed_by c t true SupervisorStep.supervisor_sigkill)
ended c t (some (Escalated.interrupted alive)) = some (Ending.raised alive)

struck : Settings → Look → Trigger → List Look → Option Ending
unfolding ended escalate
struck c l Trigger.completed looks = some (
    Ending.returned (record {
      trigger = Trigger.completed;
      killed = false;
      sigkilled = false;
      shutdown_steps = [];
    }))
struck c l t looks = ended c t (escalate (l.signalled + c.grace) looks)

after_turn : Settings → Look → List Look → Option Ending → Option Trigger → Option Ending
unfolding struck
after_turn c l looks rest none = rest
after_turn c l looks rest (some t) = struck c l t looks

-- `run`, from the start of the process, as the supervisor's first: `_steps` is empty.
unfoldable pub supervise : Settings → ℕ → List Look → Option Ending
unfolding after_turn
supervise c start [] = none
supervise c start (l ∷ looks) =
    let rest = supervise c start looks in
    if l.raises
    then some (Ending.raised l.alive)
    else after_turn c l looks rest (triggers c start l)
