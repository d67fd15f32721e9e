-- ===== src/Tests/Verdicts.antt =====
-- Examples for the checks.
use hermeskill.Common.{◌<◌, String, ◌≡◌, refl, ◌↔◌, true, false, [], ◌∷◌, map, arith, any}
use hermeskill.Policy.{value}
use hermeskill.Policy.Shipped.{coding_default}
use hermeskill.Watcher.{uptime}
use hermeskill.Checks.{
  Finding, Verdict, CheckResult, is_terminal, check_loop, run_all, apply_grants, check_cost_runaway,
  check_wall_clock,
}
use hermeskill.Checks.Counter.{count_of, counter, most_common, occurrences}
use hermeskill.Checks.Loop.{IsLooping, Kills, check_loop-Kills}
use hermeskill.Checks.Burn.{IsRogue, run_all-IsRogue}
use hermeskill.Tests.Samples.{
  noon, fresh, looping, steering, broke, verdicts, loop_grant, loop_finding,
}

one_terminal : any is_terminal (run_all noon looping coding_default) ≡ true
unfolding run_all check_loop most_common counter
one_terminal = refl

spared : any is_terminal (run_all noon fresh coding_default) ≡ false
unfolding run_all check_loop most_common counter check_cost_runaway check_wall_clock uptime
spared = refl

one_suppressed : map is_terminal (apply_grants verdicts (loop_grant ∷ [])) ≡ true ∷ false ∷ []
unfolding apply_grants value
one_suppressed = refl

run_all-IsRogue_example :
    (any is_terminal (run_all noon broke coding_default) ≡ true) ↔ IsRogue noon broke coding_default
run_all-IsRogue_example = run_all-IsRogue noon broke coding_default (omega arith)

check_loop-Kills_example :
    Kills (check_loop looping coding_default) ↔ IsLooping 5 looping.loop_signatures
check_loop-Kills_example = check_loop-Kills looping coding_default (omega arith)

-- The finding of a result, or a fixed one.
abbrev found : CheckResult → Finding
found (CheckResult.fired (Verdict.terminal f)) = f
found (CheckResult.fired (Verdict.steer f)) = f
found _ = loop_finding

looping_is_killed :
    check_loop looping coding_default
    ≡ CheckResult.fired (Verdict.terminal (found (check_loop looping coding_default)))
unfolding check_loop most_common counter count_of
looping_is_killed = refl

steering_is_steered :
    check_loop steering coding_default
    ≡ CheckResult.fired (Verdict.steer (found (check_loop steering coding_default)))
unfolding check_loop most_common counter count_of
steering_is_steered = refl

few_of_each : (sig : String) → occurrences sig steering.loop_signatures < 5
unfolding occurrences
few_of_each sig = ground arith
