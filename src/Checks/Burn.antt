-- ===== src/Checks/Burn.antt =====
-- checks.py: `run_all`, against what the policy calls terminal.
use hermeskill.Common.{
  any-append, ◌+◌, ◌≤◌, ◌<◌, ◌≡◌, refl, sym, ap, ◌∙◌, ◌↔◌, ◌⊎◌, inl, inr, Bool, true, false, ◌||◌,
  List, ◌++◌, arith, any,
}
use hermeskill.Policy.{Policy}
use hermeskill.Watcher.{WatcherState, Clock, uptime}
use hermeskill.Checks.{
  CheckResult, Verdict, is_terminal, fired_only, second, check_loop, check_cost_runaway,
  check_wall_clock, run_all,
}
use hermeskill.Checks.Loop.{IsLooping, Kills, check_loop-Kills}

-- What the policy calls terminal in the state of an agent.
abbrev pub IsRogue : Clock → WatcherState → Policy → Type 0
IsRogue now s p =
    IsLooping p.thresholds.max_loop_repeats s.loop_signatures
    ⊎ (((p.thresholds.max_cost_usd ≤ s.total_cost_usd)
          ⊎ (p.thresholds.max_tokens_per_run ≤ s.total_input_tokens + s.total_output_tokens))
        ⊎ (second p.thresholds.max_runtime_seconds < uptime now s))

abbrev pub kills : CheckResult → Bool
kills r = any is_terminal (fired_only r)

-- A test that some of three results is a Terminal, read as a sum.
any_of_three :
    {A B C : Type 0} (a b c : Bool)
    → (a ≡ true) ↔ A
    → (b ≡ true) ↔ B
    → (c ≡ true) ↔ C
    → ((a || (b || c)) ≡ true) ↔ (A ⊎ (B ⊎ C))
any_of_three true b c f g h = (λ _. inl (f.0 refl), λ _. refl)
any_of_three false true c f g h = (λ _. inr (inl (g.0 refl)), λ _. refl)
any_of_three false false c f g h = (
  λ e. inr (inr (h.0 e)),
  elim [ inl a ↦ absurd (cc (f.1 a)) | inr (inl b) ↦ absurd (cc (g.1 b)) | inr (inr d) ↦ h.1 d ],
)

kills-Kills : (r : CheckResult) → (kills r ≡ true) ↔ Kills r
kills-Kills CheckResult.healthy = (λ h. cc, λ (f, h). cc)
kills-Kills (CheckResult.fired (Verdict.terminal f)) = (λ h. (f, refl), λ h. refl)
kills-Kills (CheckResult.fired (Verdict.warning f)) = (λ h. cc, λ (g, h). cc)
kills-Kills (CheckResult.fired (Verdict.steer f)) = (λ h. cc, λ (g, h). cc)

cost_kills :
    (s : WatcherState) (p : Policy)
    → (kills (check_cost_runaway s p) ≡ true) ↔ (
        (p.thresholds.max_cost_usd ≤ s.total_cost_usd)
        ⊎ (p.thresholds.max_tokens_per_run ≤ s.total_input_tokens + s.total_output_tokens))
unfolding check_cost_runaway
cost_kills s p = (λ h. ground arith, λ h. ground arith)

clock_kills :
    (now : Clock) (s : WatcherState) (p : Policy)
    → (kills (check_wall_clock now s p) ≡ true)
      ↔ (second p.thresholds.max_runtime_seconds < uptime now s)
unfolding check_wall_clock
clock_kills now s p = (λ h. ground arith, λ h. ground arith)

-- With a cap of at least one repeat, `run_all` has a Terminal exactly when the agent loops, has spent its
-- money or its tokens, or has run longer than it may.
pub run_all-IsRogue :
    (now : Clock) (s : WatcherState) (p : Policy)
    → 1 ≤ p.thresholds.max_loop_repeats
    → (any is_terminal (run_all now s p) ≡ true) ↔ IsRogue now s p
unfolding run_all
run_all-IsRogue now s p pos = (λ h. kills_iff.0 (sym joined ∙ h), λ h. joined ∙ kills_iff.1 h)
  where
    rest : List Verdict
    rest = fired_only (check_cost_runaway s p) ++ fired_only (check_wall_clock now s p)

    joined : any is_terminal (fired_only (check_loop s p) ++ rest) ≡ (
        kills (check_loop s p)
        || (kills (check_cost_runaway s p) || kills (check_wall_clock now s p)))
    joined =
        any-append is_terminal (fired_only (check_loop s p)) rest
        ∙ ap (◌||◌ (kills (check_loop s p))) (
            any-append is_terminal (fired_only (check_cost_runaway s p))
              (fired_only (check_wall_clock now s p)))

    loop_iff :
        (kills (check_loop s p) ≡ true) ↔ IsLooping p.thresholds.max_loop_repeats s.loop_signatures
    loop_iff =
        let a = kills-Kills (check_loop s p) in
        let b = check_loop-Kills s p pos in (λ h. b.0 (a.0 h), λ h. a.1 (b.1 h))

    kills_iff :
        ((kills (check_loop s p)
            || (kills (check_cost_runaway s p) || kills (check_wall_clock now s p)))
          ≡ true)
        ↔ IsRogue now s p
    kills_iff = any_of_three _ _ _ loop_iff (cost_kills s p) (clock_kills now s p)
