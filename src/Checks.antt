-- ===== src/Checks.antt =====
-- packages/hermeskill-sdk/src/hermeskill/checks.py: the symptom checks and the application of grants.
pub mod Counter
pub mod Loop
pub mod Steer
pub mod Burn
pub mod Grants
use hermeskill.Common.{
  ℕ, ◌+◌, ◌-◌, ◌*◌, String, Bool, true, false, Option, none, some, List, [], ◌∷◌, ◌++◌, length,
  last?, leb, ltb, contains, string_eq, if◌then◌else◌,
}
use hermeskill.Policy.{SymptomType, Policy, value}
use hermeskill.Watcher.{WatcherState, Clock, Grant, uptime}
use hermeskill.Watcher.Values.{Reason, Value, Detail, put, or_null}
use Counter.{counter, most_common, count_of}

pub record Finding : Type 0 where
  pub symptom : SymptomType
  pub reason : Reason
  pub detail : Detail

-- `Warning`, `Terminal` and `Steer`.
pub data Verdict : Type 0 where
  warning terminal steer : Finding → Verdict

pub data CheckResult : Type 0 where
  healthy : CheckResult
  fired : Verdict → CheckResult

abbrev pub finding_of : Verdict → Finding
finding_of (Verdict.warning f) = f
finding_of (Verdict.terminal f) = f
finding_of (Verdict.steer f) = f

abbrev pub is_terminal : Verdict → Bool
is_terminal (Verdict.terminal f) = true
is_terminal _ = false

-- The most frequent signature of the window with its count.
unfoldable pub loop_peak : WatcherState → Option (String × ℕ)
loop_peak s = most_common (counter s.loop_signatures)

loop_killed : String → ℕ → ℕ → ℕ → Verdict
loop_killed sig peak window limit = Verdict.terminal (record {
  symptom = SymptomType.loop;
  reason = Reason.loop_repeated sig peak window limit;
  detail =
      ("signature", Value.str sig)
      ∷ ("count", Value.num peak)
      ∷ ("window_size", Value.num window)
      ∷ ("max_loop_repeats", Value.num limit)
      ∷ [];
})

loop_nudged : String → ℕ → ℕ → ℕ → ℕ → Verdict
loop_nudged sig count window nudge limit = Verdict.steer (record {
  symptom = SymptomType.loop;
  reason = Reason.loop_steered sig count window nudge limit (limit - count);
  detail =
      ("signature", Value.str sig)
      ∷ ("count", Value.num count)
      ∷ ("window_size", Value.num window)
      ∷ ("loop_steer_repeats", Value.num nudge)
      ∷ ("max_loop_repeats", Value.num limit)
      ∷ ("remaining_before_kill", Value.num (limit - count))
      ∷ [];
})

-- The second half of `check_loop`: the current call's own signature.
steer_check : List String → Option String → Option ℕ → ℕ → CheckResult
unfolding loop_nudged
steer_check sigs current none limit = CheckResult.healthy
steer_check sigs none (some nudge) limit = CheckResult.healthy
steer_check sigs (some current) (some nudge) limit =
    if leb nudge (count_of current (counter sigs))
    then CheckResult.fired
        (loop_nudged current (count_of current (counter sigs)) (length sigs) nudge limit)
    else CheckResult.healthy

peak_check : Option (String × ℕ) → List String → Option ℕ → ℕ → CheckResult
unfolding loop_killed
peak_check none sigs nudge limit = CheckResult.healthy
peak_check (some (sig, peak)) sigs nudge limit =
    if leb limit peak
    then CheckResult.fired (loop_killed sig peak (length sigs) limit)
    else steer_check sigs (last? sigs) nudge limit

unfoldable pub check_loop : WatcherState → Policy → CheckResult
unfolding loop_peak peak_check steer_check
check_loop s p =
    peak_check (loop_peak s) s.loop_signatures p.thresholds.loop_steer_repeats
      p.thresholds.max_loop_repeats

cost_killed : WatcherState → ℕ → Verdict
cost_killed s limit = Verdict.terminal (record {
  symptom = SymptomType.token_runaway;
  reason = Reason.cost_over s.total_cost_usd limit;
  detail =
      ("trigger", Value.str "cost")
      ∷ ("cost_usd", Value.num s.total_cost_usd)
      ∷ ("cap_usd", Value.num limit)
      ∷ ("total_input_tokens", Value.num s.total_input_tokens)
      ∷ ("total_output_tokens", Value.num s.total_output_tokens)
      ∷ [];
})

tokens_killed : WatcherState → ℕ → Verdict
tokens_killed s limit = Verdict.terminal (record {
  symptom = SymptomType.token_runaway;
  reason = Reason.tokens_over (s.total_input_tokens + s.total_output_tokens) limit;
  detail =
      ("trigger", Value.str "tokens")
      ∷ ("total_tokens", Value.num (s.total_input_tokens + s.total_output_tokens))
      ∷ ("total_input_tokens", Value.num s.total_input_tokens)
      ∷ ("total_output_tokens", Value.num s.total_output_tokens)
      ∷ ("cap_tokens", Value.num limit)
      ∷ [];
})

unfoldable pub check_cost_runaway : WatcherState → Policy → CheckResult
unfolding cost_killed tokens_killed
check_cost_runaway s p =
    let t = p.thresholds in
    if leb t.max_cost_usd s.total_cost_usd
    then CheckResult.fired (cost_killed s t.max_cost_usd)
    else if leb t.max_tokens_per_run (s.total_input_tokens + s.total_output_tokens)
    then CheckResult.fired (tokens_killed s t.max_tokens_per_run)
    else CheckResult.healthy

abbrev pub second : ℕ → ℕ
second n = n * 1000000

unfoldable pub check_wall_clock : Clock → WatcherState → Policy → CheckResult
check_wall_clock now s p =
    let limit = p.thresholds.max_runtime_seconds in
    if ltb (second limit) (uptime now s)
    then CheckResult.fired (
        Verdict.terminal (record {
          symptom = SymptomType.wall_clock;
          reason = Reason.runtime_over (uptime now s) limit;
          detail =
              ("runtime_seconds", Value.num (uptime now s)) ∷ ("cap_seconds", Value.num limit) ∷ [];
        }))
    else CheckResult.healthy

scope_check : String → List String → CheckResult
scope_check tool [] = CheckResult.healthy
scope_check tool (t ∷ ts) =
    if contains (t ∷ ts) tool
    then CheckResult.healthy
    else CheckResult.fired (
        Verdict.terminal (record {
          symptom = SymptomType.tool_scope_violation;
          reason = Reason.tool_not_allowed tool;
          detail = ("tool", Value.str tool) ∷ ("allowlist", Value.strs (t ∷ ts)) ∷ [];
        }))

unfoldable pub check_tool_scope : String → Policy → CheckResult
unfolding scope_check
check_tool_scope tool p = scope_check tool p.tool_allowlist

abbrev pub fired_only : CheckResult → List Verdict
fired_only CheckResult.healthy = []
fired_only (CheckResult.fired v) = v ∷ []

unfoldable pub run_all : Clock → WatcherState → Policy → List Verdict
run_all now s p =
    fired_only (check_loop s p)
    ++ (fired_only (check_cost_runaway s p) ++ fired_only (check_wall_clock now s p))

-- The first grant that lists the symptom: what `by_symptom` holds at its name.
unfoldable pub by_symptom : List Grant → String → Option Grant
by_symptom [] name = none
by_symptom (g ∷ gs) name = if contains g.symptoms name then some g else by_symptom gs name

suppressed_by : Grant → Finding → Verdict
suppressed_by g f = Verdict.warning (record {
  symptom = f.symptom;
  reason = Reason.suppressed f.reason;
  detail = put "grant_reason" (or_null g.reason) (put "grant_id" (or_null g.id) f.detail);
})

demote : Option Grant → Verdict → Verdict
unfolding suppressed_by
demote (some g) (Verdict.terminal f) = suppressed_by g f
demote (some g) (Verdict.steer f) = suppressed_by g f
demote _ v = v

demote_all : List Verdict → List Grant → List Verdict
unfolding demote by_symptom
demote_all [] gs = []
demote_all (v ∷ vs) gs = demote (by_symptom gs (value (finding_of v).symptom)) v ∷ demote_all vs gs

unfoldable pub apply_grants : List Verdict → List Grant → List Verdict
unfolding demote_all
apply_grants results [] = results
apply_grants results (g ∷ gs) = demote_all results (g ∷ gs)
