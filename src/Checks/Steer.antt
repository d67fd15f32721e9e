-- ===== src/Checks/Steer.antt =====
-- checks.py: the soft half of `check_loop`.
use hermeskill.Common.{
  ℕ, ◌≢◌, ◌≤◌, ◌<◌, String, ◌≡◌, refl, Bool-cases, inl, inr, Option, none, some, List, [], ◌∷◌,
  ◌++◌, arith, length, last?, leb→le, le→leb, lt→leb_false, leb_false→lt, leb, ◌-◌,
}
use hermeskill.Policy.{Policy}
use hermeskill.Watcher.{WatcherState, record_tool_call, append_bounded}
use hermeskill.Watcher.Buffer.{last?-append_bounded}
use hermeskill.Watcher.Values.{Reason}
use hermeskill.Checks.{CheckResult, Verdict, Finding, check_loop, peak_check, steer_check}
use hermeskill.Checks.Counter.{
  counter, most_common, count_of, occurrences, most_common-IsPeak, most_common-counter,
  count_of-counter, occurrences-append, occurrences-drop-le, occurrences-le-length,
}

-- What a steer verdict says: the window ends in the signature `current`, which stands in it at least
-- `nudge` times, and no signature has reached the cap.
pub record IsSteered (sigs : List String) (nudge : Option ℕ) (limit : ℕ) (f : Finding)
    : Type 0 where
  pub current : String
  pub steer_at : ℕ
  pub enabled : nudge ≡ some steer_at
  pub is_current : last? sigs ≡ some current
  pub reached : steer_at ≤ occurrences current sigs
  pub below : (sig : String) → occurrences sig sigs < limit
  pub reason :
      f.reason
      ≡ Reason.loop_steered current
          (occurrences current sigs)
          (length sigs)
          steer_at
          limit
          (limit - occurrences current sigs)

steered :
    (o : Option String) (sigs : List String) (nudge : Option ℕ) (limit : ℕ) (f : Finding)
    → last? sigs ≡ o
    → ((sig : String) → occurrences sig sigs < limit)
    → steer_check sigs o nudge limit ≡ CheckResult.fired (Verdict.steer f)
    → IsSteered sigs nudge limit f
unfolding steer_check
steered o sigs none limit f e low h = cc
steered none sigs (some nudge) limit f e low h = cc
steered (some current) sigs (some nudge) limit f e low h =
    elim (Bool-cases (leb nudge (count_of current (counter sigs)))) [
      | inl over ↦ record {
        current = current;
        steer_at = nudge;
        enabled = refl;
        is_current = e;
        reached = omega (arith, leb→le _ _ over, count_of-counter current sigs);
        below = low;
        reason = rw (← count_of-counter current sigs) (ground arith);
      }
      | inr under ↦ ground arith
    ]

peak-IsSteered :
    (o : Option (String × ℕ)) (sigs : List String) (nudge : Option ℕ) (limit : ℕ) (f : Finding)
    → most_common (counter sigs) ≡ o
    → peak_check o sigs nudge limit ≡ CheckResult.fired (Verdict.steer f)
    → IsSteered sigs nudge limit f
unfolding peak_check
peak-IsSteered none sigs nudge limit f e h = cc
peak-IsSteered (some (top, n)) sigs nudge limit f e h = elim (Bool-cases (leb limit n)) [
  | inl over ↦ ground arith
  | inr under ↦
      steered (last? sigs) sigs nudge limit f refl
        (λ sig.
          omega (arith, leb_false→lt limit n under, (most_common-IsPeak sigs top n e).greatest sig))
        (rw under at h)
]

-- A steer verdict is about the current call, at or above the steer line and below the kill line.
pub check_loop-IsSteered :
    (s : WatcherState) (p : Policy) (f : Finding)
    → check_loop s p ≡ CheckResult.fired (Verdict.steer f)
    → IsSteered s.loop_signatures p.thresholds.loop_steer_repeats p.thresholds.max_loop_repeats f
unfolding check_loop
check_loop-IsSteered s p f h = peak-IsSteered _ s.loop_signatures _ _ f refl h

steers :
    (current : String) (sigs : List String) (nudge limit : ℕ)
    → nudge ≤ occurrences current sigs
    → (f : Finding) × (steer_check sigs (some current) (some nudge) limit
        ≡ CheckResult.fired (Verdict.steer f))
unfolding steer_check
steers current sigs nudge limit h =
    rw
      (le→leb nudge (count_of current (counter sigs))
        (omega (arith, count_of-counter current sigs)))
      (_, refl)

peak_steers :
    (o : Option (String × ℕ)) (current : String) (sigs : List String) (nudge limit : ℕ)
    → most_common (counter sigs) ≡ o
    → last? sigs ≡ some current
    → 1 ≤ nudge
    → nudge ≤ occurrences current sigs
    → ((sig : String) → occurrences sig sigs < limit)
    → (f : Finding) × (peak_check o sigs (some nudge) limit ≡ CheckResult.fired (Verdict.steer f))
unfolding peak_check
peak_steers none current sigs nudge limit e last pos h low =
    let (top, n, e') = most_common-counter current sigs (omega arith) in absurd (cc (e, e'))
peak_steers (some (top, n)) current sigs nudge limit e last pos h low =
    rw
      (
        lt→leb_false limit n (omega (arith, low top, (most_common-IsPeak sigs top n e).attained)),
        last,
      )
      (steers current sigs nudge limit h)

-- With a steer line of at least one, and while no signature has reached the cap, a current call
-- whose signature stands in the window as often as the steer line says, or more often, is steered.
pub check_loop_steers :
    (s : WatcherState) (p : Policy) (current : String) (nudge : ℕ)
    → p.thresholds.loop_steer_repeats ≡ some nudge
    → 1 ≤ nudge
    → last? s.loop_signatures ≡ some current
    → nudge ≤ occurrences current s.loop_signatures
    → ((sig : String) → occurrences sig s.loop_signatures < p.thresholds.max_loop_repeats)
    → (f : Finding) × (check_loop s p ≡ CheckResult.fired (Verdict.steer f))
unfolding check_loop
check_loop_steers s p current nudge enabled pos last h low = rw enabled (
    peak_steers _ current s.loop_signatures nudge p.thresholds.max_loop_repeats refl last pos h low)

-- A steered call stands in the window twice at least, if the steer line is at two or more.
steered_twice :
    (sigs : List String) (o : Option ℕ) (sig : String) (nudge limit : ℕ) (f : Finding)
    → IsSteered sigs o limit f
    → o ≡ some nudge
    → 2 ≤ nudge
    → last? sigs ≡ some sig
    → 2 ≤ occurrences sig sigs
steered_twice sigs o sig nudge limit f steer enabled two last =
    let same : steer.current ≡ sig = cc (steer.is_current) in
    let line : steer.steer_at ≡ nudge = cc (steer.enabled) in
    rw (← same) (omega (arith, steer.reached))

new_call_once :
    (n : ℕ) (sigs : List String) (sig : String)
    → occurrences sig sigs ≡ 0
    → occurrences sig (append_bounded n sigs sig) ≤ 1
unfolding append_bounded
new_call_once n sigs sig h = omega (
  arith,
  occurrences-drop-le sig (length (sigs ++ sig ∷ []) - n) (sigs ++ sig ∷ []),
  occurrences-append sig sigs (sig ∷ []),
  occurrences-le-length sig (sig ∷ []),
)

-- With a window of at least one call and a steer line of at least two, a call whose signature does not
-- stand in the window is not steered: an agent that obeys a steer gets through.
pub check_loop_spares_new_call :
    (s : WatcherState) (tool sig : String) (nudge : ℕ) (f : Finding)
    → 1 ≤ s.policy.thresholds.loop_window_actions
    → s.policy.thresholds.loop_steer_repeats ≡ some nudge
    → 2 ≤ nudge
    → occurrences sig s.loop_signatures ≡ 0
    → check_loop (record_tool_call tool (some sig) s) s.policy ≢ CheckResult.fired (Verdict.steer f)
check_loop_spares_new_call s tool sig nudge f window enabled two fresh h =
    let n = s.policy.thresholds.loop_window_actions in
    let sigs = append_bounded n s.loop_signatures sig in
    let steer : IsSteered sigs s.policy.thresholds.loop_steer_repeats
        s.policy.thresholds.max_loop_repeats f =
      unfold record_tool_call in
      check_loop-IsSteered (record_tool_call tool (some sig) s) s.policy f h in
    absurd (
      omega (
        arith,
        steered_twice sigs _ sig nudge _ f steer enabled two
            (last?-append_bounded n s.loop_signatures sig window),
        new_call_once n s.loop_signatures sig fresh,
      ))
