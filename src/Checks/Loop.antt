-- ===== src/Checks/Loop.antt =====
-- The kill half of `check_loop`, against the number of times that a signature stands in the window.
use hermeskill.Common.{
  ℕ, ◌≤◌, String, ◌≡◌, refl, ◌↔◌, inl, inr, Bool-cases, Option, none, some, List, arith, length,
  last?, leb→le, le→leb, leb,
}
use hermeskill.Policy.{SymptomType, Policy}
use hermeskill.Watcher.{WatcherState}
use hermeskill.Watcher.Values.{Reason}
use hermeskill.Checks.{CheckResult, Verdict, Finding, check_loop, peak_check, steer_check}
use hermeskill.Checks.Counter.{
  counter, most_common, occurrences, IsPeak, most_common-IsPeak, most_common-counter,
}

-- Some signature stands in the window at least `limit` times.
abbrev pub IsLooping : ℕ → List String → Type 0
IsLooping limit sigs = (sig : String) × (limit ≤ occurrences sig sigs)

abbrev pub Kills : CheckResult → Type 0
Kills r = (f : Finding) × (r ≡ CheckResult.fired (Verdict.terminal f))

-- `steer_check` never kills.
steer_check-ne-terminal :
    (sigs : List String) (current : Option String) (nudge : Option ℕ) (limit : ℕ) (f : Finding)
    → steer_check sigs current nudge limit ≡ CheckResult.fired (Verdict.terminal f)
    → ⊥
unfolding steer_check
steer_check-ne-terminal sigs current none limit f h = cc
steer_check-ne-terminal sigs none (some nudge) limit f h = cc
steer_check-ne-terminal sigs (some current) (some nudge) limit f h = ground arith

kill_reached :
    (o : Option (String × ℕ)) (sigs : List String) (nudge : Option ℕ) (limit : ℕ) (f : Finding)
    → most_common (counter sigs) ≡ o
    → peak_check o sigs nudge limit ≡ CheckResult.fired (Verdict.terminal f)
    → IsLooping limit sigs
unfolding peak_check
kill_reached none sigs nudge limit f e h = cc
kill_reached (some (top, n)) sigs nudge limit f e h = elim (Bool-cases (leb limit n)) [
  | inl over ↦ (top, omega (arith, leb→le limit n over, (most_common-IsPeak sigs top n e).attained))
  | inr under ↦ absurd (steer_check-ne-terminal sigs (last? sigs) nudge limit f (rw under at h))
]

reported :
    (o : Option (String × ℕ)) (sigs : List String) (nudge : Option ℕ) (limit : ℕ) (f : Finding)
    → most_common (counter sigs) ≡ o
    → peak_check o sigs nudge limit ≡ CheckResult.fired (Verdict.terminal f)
    → (top : String) × (n : ℕ) × IsPeak sigs top n
      × (limit ≤ n)
      × (f.reason ≡ Reason.loop_repeated top n (length sigs) limit)
      × (f.symptom ≡ SymptomType.loop)
unfolding peak_check
reported none sigs nudge limit f e h = cc
reported (some (top, n)) sigs nudge limit f e h = elim (Bool-cases (leb limit n)) [
  | inl over ↦
      (top, n, most_common-IsPeak sigs top n e, leb→le limit n over, ground arith, ground arith)
  | inr under ↦ absurd (steer_check-ne-terminal sigs (last? sigs) nudge limit f (rw under at h))
]

-- A kill reports a most frequent signature of the window with its count, which has reached the cap.
pub check_loop_reports-IsPeak :
    (s : WatcherState) (p : Policy) (f : Finding)
    → check_loop s p ≡ CheckResult.fired (Verdict.terminal f)
    → (top : String) × (n : ℕ) × IsPeak s.loop_signatures top n
      × (p.thresholds.max_loop_repeats ≤ n)
      × (f.reason
          ≡ Reason.loop_repeated top n (length s.loop_signatures) p.thresholds.max_loop_repeats)
      × (f.symptom ≡ SymptomType.loop)
unfolding check_loop
check_loop_reports-IsPeak s p f h =
    reported _ s.loop_signatures _ p.thresholds.max_loop_repeats f refl h

reached_kill :
    (o : Option (String × ℕ)) (sigs : List String) (nudge : Option ℕ) (limit : ℕ)
    → most_common (counter sigs) ≡ o
    → 1 ≤ limit
    → IsLooping limit sigs
    → Kills (peak_check o sigs nudge limit)
unfolding peak_check
reached_kill none sigs nudge limit e pos (sig, h) =
    let (top, n, e') = most_common-counter sig sigs (omega arith) in absurd (cc (e, e'))
reached_kill (some (top, n)) sigs nudge limit e pos (sig, h) =
    rw (le→leb limit n (omega (arith, (most_common-IsPeak sigs top n e).greatest sig))) (_, refl)

-- With a cap of at least one, the check kills exactly when some signature of the window has reached
-- the cap.
pub check_loop-Kills :
    (s : WatcherState) (p : Policy)
    → 1 ≤ p.thresholds.max_loop_repeats
    → Kills (check_loop s p) ↔ IsLooping p.thresholds.max_loop_repeats s.loop_signatures
unfolding check_loop
check_loop-Kills s p pos = (
  λ (f, h). kill_reached _ s.loop_signatures _ p.thresholds.max_loop_repeats f refl h,
  reached_kill _ s.loop_signatures _ p.thresholds.max_loop_repeats refl pos,
)
