-- ===== src/Bridge/Kill.antt =====
-- bridge.py: the kill decision of each hook, and what is logged of it.
use hermeskill.Common.{
  any-append, ℕ, ◌≤◌, String, ◌≡◌, refl, ap, ◌∙◌, inl, inr, Bool, true, false, not, ◌||◌, ◌&&◌,
  Option, none, some, List, [], ◌∷◌, ◌++◌, map, arith, any, keep_if, ◌+◌,
}
use hermeskill.Pricing.{cost_for_usage}
use hermeskill.Checks.Burn.{IsRogue, run_all-IsRogue}
use hermeskill.Watcher.{WatcherState, Clock, Grant, record_tool_call, record_llm_call}
use hermeskill.Checks.{Verdict, is_terminal, apply_grants, run_all, fired_only, check_tool_scope}
use hermeskill.Checks.Grants.{is_granted, terminals-apply_grants}
use hermeskill.Bridge.{run_checks, on_pre_tool_call, on_post_api_request, terminate_on_all}
use hermeskill.Bridge.Verdicts.{
  flag, flagged_by, first_terminal, flag-act_on_all, flag-terminate_on_all, flagged_by-any,
  symptom_record, symptoms_log-act_on_all, symptoms_log-terminate_on_all,
}

flag-record_tool_call :
    (tool : String) (sig : Option String) (s : WatcherState)
    → flag (record_tool_call tool sig s) ≡ flag s
unfolding record_tool_call
flag-record_tool_call tool none s = refl
flag-record_tool_call tool (some sig) s = refl

symptoms_log-record_tool_call :
    (tool : String) (sig : Option String) (s : WatcherState)
    → (record_tool_call tool sig s).symptoms_log ≡ s.symptoms_log
unfolding record_tool_call
symptoms_log-record_tool_call tool none s = refl
symptoms_log-record_tool_call tool (some sig) s = refl

module _ (now : Clock) (tool : String) (sig : Option String) (s : WatcherState) where
  -- The flag after the hook: it was set before, or the hook returns a Terminal; the first cause stays,
  -- and otherwise the first Terminal is the cause.
  pub flag-on_pre_tool_call :
      flag (on_pre_tool_call now tool sig s).1
      ≡ flagged_by now (first_terminal (on_pre_tool_call now tool sig s).0) (flag s)
  unfolding on_pre_tool_call
  flag-on_pre_tool_call =
      flag-act_on_all now _ (record_tool_call tool sig s)
      ∙ ap (flagged_by now _) (flag-record_tool_call tool sig s)

  -- An agent is flagged after the hook exactly when it was flagged before or a Terminal is returned.
  pub on_pre_tool_call_flags :
      (on_pre_tool_call now tool sig s).1.terminate_requested
      ≡ (s.terminate_requested || any is_terminal (on_pre_tool_call now tool sig s).0)
  on_pre_tool_call_flags =
      ap (λ b. b.0) flag-on_pre_tool_call
      ∙ flagged_by-any now (on_pre_tool_call now tool sig s).0 (flag s)

  -- The hook logs each verdict that it returns, once and in order.
  pub symptoms_log-on_pre_tool_call :
      (on_pre_tool_call now tool sig s).1.symptoms_log
      ≡ s.symptoms_log ++ map (symptom_record now) (on_pre_tool_call now tool sig s).0
  unfolding on_pre_tool_call
  symptoms_log-on_pre_tool_call =
      symptoms_log-act_on_all now _ (record_tool_call tool sig s)
      ∙ ap (λ log. log ++ map (symptom_record now) (on_pre_tool_call now tool sig s).0)
          (symptoms_log-record_tool_call tool sig s)

-- The verdicts before the grants: the scope check, then the checks of the state with the call recorded.
abbrev pub raw_verdicts : Clock → String → Option String → WatcherState → List Verdict
raw_verdicts now tool sig s =
    fired_only (check_tool_scope tool s.policy)
    ++ run_all now (record_tool_call tool sig s) s.policy

-- The returned Terminals are the raw ones whose symptom no cached grant names.
pub terminals-on_pre_tool_call :
    (now : Clock) (tool : String) (sig : Option String) (s : WatcherState)
    → keep_if is_terminal (on_pre_tool_call now tool sig s).0
      ≡ keep_if (λ v. is_terminal v && not (is_granted s.grants v)) (raw_verdicts now tool sig s)
unfolding on_pre_tool_call run_checks record_tool_call
terminals-on_pre_tool_call now tool none s =
    terminals-apply_grants (raw_verdicts now tool none s) s.grants
terminals-on_pre_tool_call now tool (some sig) s =
    terminals-apply_grants (raw_verdicts now tool (some sig) s) s.grants

apply_grants-nil : (vs : List Verdict) (gs : List Grant) → gs ≡ [] → apply_grants vs gs ≡ vs
unfolding apply_grants
apply_grants-nil vs [] e = refl
apply_grants-nil vs (g ∷ gs) e = cc

verdicts_bare :
    (now : Clock) (tool sig : String) (s : WatcherState)
    → s.grants ≡ []
    → (on_pre_tool_call now tool (some sig) s).0 ≡ raw_verdicts now tool (some sig) s
unfolding on_pre_tool_call run_checks record_tool_call
verdicts_bare now tool sig s = apply_grants-nil (raw_verdicts now tool (some sig) s) s.grants

or_true : (a b c : Bool) → c ≡ true → (a || (b || c)) ≡ true
or_true a b c h = ground arith

-- With no cached grant and a cap of at least one repeat, an agent that loops, has spent its money
-- or its tokens, or has run too long once the call is recorded is flagged by the hook.
pub rogue_call_is_flagged :
    (now : Clock) (tool sig : String) (s : WatcherState)
    → s.grants ≡ []
    → 1 ≤ s.policy.thresholds.max_loop_repeats
    → IsRogue now (record_tool_call tool (some sig) s) s.policy
    → (on_pre_tool_call now tool (some sig) s).1.terminate_requested ≡ true
rogue_call_is_flagged now tool sig s bare pos rogue =
    let scope = fired_only (check_tool_scope tool s.policy) in
    let recorded = record_tool_call tool (some sig) s in
    let found = run_all now recorded s.policy in
    on_pre_tool_call_flags now tool (some sig) s
    ∙ ap (λ vs. s.terminate_requested || any is_terminal vs) (verdicts_bare now tool sig s bare)
    ∙ ap (◌||◌ s.terminate_requested) (any-append is_terminal scope found)
    ∙ or_true s.terminate_requested (any is_terminal scope) (any is_terminal found)
        ((run_all-IsRogue now recorded s.policy pos).1 rogue)

-- What a hook that only terminates does to the flag, once its event is recorded.
post_flags :
    (now : Clock) (s : WatcherState)
    → s.grants ≡ []
    → 1 ≤ s.policy.thresholds.max_loop_repeats
    → IsRogue now s s.policy
    → (terminate_on_all now (run_checks now s []) s).terminate_requested ≡ true
unfolding run_checks
post_flags now s bare pos rogue =
    let found = run_all now s s.policy in
    ap (λ b. b.0) (flag-terminate_on_all now (apply_grants found s.grants) s)
    ∙ flagged_by-any now (apply_grants found s.grants) (flag s)
    ∙ ap (λ vs. s.terminate_requested || any is_terminal vs) (apply_grants-nil found s.grants bare)
    ∙ or_true s.terminate_requested false (any is_terminal found)
        ((run_all-IsRogue now s s.policy pos).1 rogue)

-- With no cached grant and a cap of at least one repeat, a model call that brings the cost to the
-- policy's limit flags the agent, and the log of symptoms is as before.
pub cost_kill_is_not_logged :
    (now : Clock) (model : String) (input output : ℕ) (s : WatcherState)
    → s.grants ≡ []
    → 1 ≤ s.policy.thresholds.max_loop_repeats
    → s.policy.thresholds.max_cost_usd ≤ s.total_cost_usd + cost_for_usage model input output
    → ((on_post_api_request now model input output s).terminate_requested ≡ true)
      × ((on_post_api_request now model input output s).symptoms_log ≡ s.symptoms_log)
unfolding on_post_api_request record_llm_call
cost_kill_is_not_logged now model input output s bare pos spent =
    let counted = record_llm_call model input output s in
    (
      post_flags now counted bare pos (inr (inl (inl spent))),
      symptoms_log-terminate_on_all now (run_checks now counted []) counted,
    )
