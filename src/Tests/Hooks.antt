-- ===== src/Tests/Hooks.antt =====
-- Examples for the hooks.
use hermeskill.Common.{
  ◌≡◌, refl, ◌||◌, true, not, ◌&&◌, some, List, [], ◌∷◌, ◌++◌, arith, any, keep_if,
}
use hermeskill.Policy.Shipped.{coding_default}
use hermeskill.Watcher.{WatcherState, new_watcher}
use hermeskill.Checks.{is_terminal}
use hermeskill.Checks.Grants.{is_granted}
use hermeskill.Bridge.{on_pre_tool_call}
use hermeskill.Bridge.Verdicts.{flag, flagged_by, first_terminal}
use hermeskill.Bridge.Kill.{
  flag-on_pre_tool_call, on_pre_tool_call_flags, raw_verdicts, terminals-on_pre_tool_call,
}
use hermeskill.Bridge.Machine.{Call, run}
use hermeskill.Bridge.Frozen.{flag-run}
use hermeskill.Bridge.Window.{Ledger, recorded, spent, run-new_watcher-Ledger}
use hermeskill.Bridge.Loops.{same_call, same_call_is_flagged}
use hermeskill.Tests.Samples.{noon, later, fresh, looping, struck, loop_grant}

-- A rogue call, new grants, and the end of the session.
abbrev calls : List Call
calls =
    Call.pre_tool noon "rm" (some "d")
    ∷ Call.new_grants (loop_grant ∷ [])
    ∷ Call.post_api later "gpt-5" 1000000 1000000
    ∷ Call.drained
    ∷ Call.session_end later
    ∷ []

flag-run_example : flag (run calls struck) ≡ flag struck
flag-run_example = flag-run calls struck refl

same_call_is_flagged_example :
    (run
      (same_call "run_bash" "w" ((noon ∷ noon ∷ noon ∷ noon ∷ []) ++ later ∷ []))
      (new_watcher "a1" "builder" coding_default noon)).terminate_requested
    ≡ true
same_call_is_flagged_example =
    same_call_is_flagged "a1" "builder" coding_default noon "run_bash" "w"
      (noon ∷ noon ∷ noon ∷ noon ∷ []) later (omega arith) (omega arith) (omega arith)

run-new_watcher-Ledger_example :
    Ledger coding_default
      (recorded calls)
      (spent calls)
      (run calls (new_watcher "a1" "builder" coding_default noon))
run-new_watcher-Ledger_example = run-new_watcher-Ledger "a1" "builder" coding_default noon calls

flag-on_pre_tool_call_example :
    flag (on_pre_tool_call noon "rm" (some "d") fresh).1
    ≡ flagged_by noon (first_terminal (on_pre_tool_call noon "rm" (some "d") fresh).0) (flag fresh)
flag-on_pre_tool_call_example = flag-on_pre_tool_call noon "rm" (some "d") fresh

on_pre_tool_call_flags_example :
    (on_pre_tool_call noon "rm" (some "d") fresh).1.terminate_requested
    ≡ (fresh.terminate_requested || any is_terminal (on_pre_tool_call noon "rm" (some "d") fresh).0)
on_pre_tool_call_flags_example = on_pre_tool_call_flags noon "rm" (some "d") fresh

abbrev granted : WatcherState
granted = record looping { grants = loop_grant ∷ [] }

terminals-on_pre_tool_call_example :
    keep_if is_terminal (on_pre_tool_call noon "rm" (some "w") granted).0
    ≡ keep_if
        (λ v. is_terminal v && not (is_granted (loop_grant ∷ []) v))
        (raw_verdicts noon "rm" (some "w") granted)
terminals-on_pre_tool_call_example = terminals-on_pre_tool_call noon "rm" (some "w") granted
