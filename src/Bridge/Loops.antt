-- ===== src/Bridge/Loops.antt =====
-- bridge.py: an agent that repeats one call.
use hermeskill.Common.{
  ℕ, zero, suc, ◌+◌, ◌-◌, ◌≤◌, String, ◌≡◌, refl, sym, ap, ◌∙◌, inl, true, some, List, [], ◌∷◌,
  ◌++◌, map, arith, length, drop, length-append, beq_refl, string_eq,
}
use mathlib.Core.Path.{subst₂}
use mathlib.Core.List.{map-append}
use hermeskill.Policy.{Policy}
use hermeskill.Watcher.{WatcherState, Clock, new_watcher, record_tool_call}
use hermeskill.Watcher.Buffer.{latest}
use hermeskill.Checks.Counter.{occurrences}
use hermeskill.Bridge.{on_pre_tool_call}
use hermeskill.Bridge.Verdicts.{core-act_on_all}
use hermeskill.Bridge.Kill.{rogue_call_is_flagged}
use hermeskill.Bridge.Machine.{Call, step, run, run-append}
use hermeskill.Bridge.Window.{
  Ledger, recorded, spent, run-new_watcher-Ledger, Ledger-record_tool_call,
}

-- The same call at each of some times.
abbrev pub same_call : String → String → List Clock → List Call
same_call tool sig = map (λ now. Call.pre_tool now tool (some sig))

abbrev copies : String → List Clock → List String
copies sig = map (λ _. sig)

recorded-same_call :
    (tool sig : String) (nows : List Clock) → recorded (same_call tool sig nows) ≡ copies sig nows
unfolding recorded
recorded-same_call tool sig [] = refl
recorded-same_call tool sig (now ∷ nows) = ap (◌∷◌ sig) (recorded-same_call tool sig nows)

spent-same_call : (tool sig : String) (nows : List Clock) → spent (same_call tool sig nows) ≡ 0
unfolding spent
spent-same_call tool sig [] = refl
spent-same_call tool sig (now ∷ nows) = spent-same_call tool sig nows

occurrences-copies :
    (k : ℕ) (sig : String) (nows : List Clock)
    → occurrences sig (drop k (copies sig nows)) ≡ length nows - k
unfolding occurrences
occurrences-copies zero sig [] = refl
occurrences-copies (suc k) sig [] = omega arith
occurrences-copies zero sig (now ∷ nows) =
    ground (arith, beq_refl sig, occurrences-copies zero sig nows)
occurrences-copies (suc k) sig (now ∷ nows) = omega (arith, occurrences-copies k sig nows)

length-copies : (sig : String) (nows : List Clock) → length (copies sig nows) ≡ length nows
length-copies sig [] = refl
length-copies sig (now ∷ nows) = ap suc (length-copies sig nows)

grants-same_call :
    (tool sig : String) (nows : List Clock) (s : WatcherState)
    → (run (same_call tool sig nows) s).grants ≡ s.grants
unfolding run step on_pre_tool_call record_tool_call
grants-same_call tool sig [] s = refl
grants-same_call tool sig (now ∷ nows) s =
    grants-same_call tool sig nows _ ∙ ap (λ c. c.grants) (core-act_on_all now _ _)

-- The next call sees a window with the cap's number of copies of its signature.
next_call_is_flagged :
    (p : Policy) (tool sig : String) (nows : List Clock) (now : Clock) (s : WatcherState)
    → Ledger p (copies sig nows) 0 s
    → s.grants ≡ []
    → 1 ≤ p.thresholds.max_loop_repeats
    → p.thresholds.max_loop_repeats ≤ p.thresholds.loop_window_actions
    → p.thresholds.max_loop_repeats ≤ length nows + 1
    → (on_pre_tool_call now tool (some sig) s).1.terminate_requested ≡ true
next_call_is_flagged p tool sig nows now s l bare pos room often =
    let cap_at : s.policy.thresholds.max_loop_repeats ≡ p.thresholds.max_loop_repeats =
      ap (λ q. q.thresholds.max_loop_repeats) l.policy in
    let sigs = copies sig (nows ++ now ∷ []) in
    let window = p.thresholds.loop_window_actions in
    let seen : occurrences sig (record_tool_call tool (some sig) s).loop_signatures
        ≡ length (nows ++ now ∷ []) - (length sigs - window) =
      ap (occurrences sig) (Ledger-record_tool_call tool sig l).window
      ∙ ap (λ xs. occurrences sig (latest window xs)) (sym (map-append (λ _. sig) nows (now ∷ [])))
      ∙ occurrences-copies (length sigs - window) sig (nows ++ now ∷ []) in
    rogue_call_is_flagged now tool sig s bare (omega arith) (
      inl (
        sig,
        omega (arith, length-copies sig (nows ++ now ∷ []), length-append {0} nows (now ∷ [])),
      ))

-- Under a policy with a cap of at least one repeat and a window with room for the cap, a new agent
-- without grants that makes one call the cap's number of times, or more often, is flagged.
pub same_call_is_flagged :
    (id name : String) (p : Policy) (start : Clock) (tool sig : String) (nows : List Clock)
    (now : Clock)
    → 1 ≤ p.thresholds.max_loop_repeats
    → p.thresholds.max_loop_repeats ≤ p.thresholds.loop_window_actions
    → p.thresholds.max_loop_repeats ≤ length nows + 1
    → (run
        (same_call tool sig (nows ++ now ∷ []))
        (new_watcher id name p start)).terminate_requested
      ≡ true
same_call_is_flagged id name p start tool sig nows now pos room often =
    ap (λ cs. (run cs fresh).terminate_requested)
      (map-append (λ t. Call.pre_tool t tool (some sig)) nows (now ∷ []))
    ∙ ap (λ s. s.terminate_requested) (run-append before (same_call tool sig (now ∷ [])) fresh)
    ∙ (unfold run step in
        next_call_is_flagged p tool sig nows now (run before fresh) ledger
          (grants-same_call tool sig nows fresh) pos room often)
  where
    fresh : WatcherState
    fresh = new_watcher id name p start

    before : List Call
    before = same_call tool sig nows

    ledger : Ledger p (copies sig nows) 0 (run before fresh)
    ledger =
        subst₂ (λ sigs money. Ledger p sigs money (run before fresh))
          (recorded-same_call tool sig nows) (spent-same_call tool sig nows)
          (run-new_watcher-Ledger id name p start before)
