-- ===== src/Bridge/Window.antt =====
-- watcher.py: the counters of an agent, against the calls that reached it.
use native.Mathlib.Nat.{add_assoc, add-zero, zero-add}
use mathlib.Core.List.{append_assoc, append-nil}
use hermeskill.Common.{
  ℕ, ◌+◌, String, ◌≡◌, refl, sym, ap, ◌∙◌, Option, none, some, List, [], ◌∷◌, ◌++◌, arith, length,
  length-append,
}
use hermeskill.Policy.{Policy}
use hermeskill.Pricing.{cost_for_usage}
use hermeskill.Watcher.{
  ManualKill, WatcherState, Clock, new_watcher, append_bounded, record_tool_call, record_llm_call,
  record_lifecycle, record_shutdown_step, request_termination, drain_events, requeue_events,
}
use hermeskill.Watcher.Buffer.{latest, latest-nil, append_bounded-latest}
use hermeskill.Checks.{fired_only, check_tool_scope}
use hermeskill.Watcher.Values.{Reason}
use hermeskill.Bridge.{
  act_on_all, run_checks, on_pre_tool_call, on_post_tool_call, on_pre_llm_call, on_post_api_request,
  on_session_end,
}
use hermeskill.Bridge.Verdicts.{core, core-act_on_all, core-terminate_on_all}
use hermeskill.Bridge.Machine.{Call, step, run}

-- The signatures of the calls that were recorded, in order.
unfoldable pub recorded : List Call → List String
recorded [] = []
recorded (Call.pre_tool now tool (some sig) ∷ cs) = sig ∷ recorded cs
recorded (_ ∷ cs) = recorded cs

-- The money that the model calls cost.
unfoldable pub spent : List Call → ℕ
spent [] = 0
spent (Call.post_api now model input output ∷ cs) = cost_for_usage model input output + spent cs
spent (_ ∷ cs) = spent cs

-- What a history of calls has left in the state: the policy, the window, the count of calls, the cost.
pub record Ledger (p : Policy) (sigs : List String) (money : ℕ) (s : WatcherState) : Type 0 where
  pub policy : s.policy ≡ p
  pub window : s.loop_signatures ≡ latest p.thresholds.loop_window_actions sigs
  pub calls : s.tool_call_count ≡ length sigs
  pub cost : s.total_cost_usd ≡ money

module _ {p : Policy} {sigs : List String} {money : ℕ} where
  Ledger-core :
      {s t : WatcherState} → core t ≡ core s → Ledger p sigs money s → Ledger p sigs money t
  Ledger-core e l = record {
    policy = ap (λ c. c.policy) e ∙ l.policy;
    window = ap (λ c. c.loop_signatures) e ∙ l.window;
    calls = ap (λ c. c.tool_call_count) e ∙ l.calls;
    cost = ap (λ c. c.total_cost_usd) e ∙ l.cost;
  }

  pub Ledger-record_tool_call :
      (tool sig : String) {s : WatcherState}
      → Ledger p sigs money s
      → Ledger p (sigs ++ sig ∷ []) money (record_tool_call tool (some sig) s)
  unfolding record_tool_call
  Ledger-record_tool_call tool sig {s} l = record {
    policy = l.policy;
    window =
        ap (λ q. append_bounded q.thresholds.loop_window_actions s.loop_signatures sig) l.policy
        ∙ ap (λ w. append_bounded p.thresholds.loop_window_actions w sig) l.window
        ∙ append_bounded-latest p.thresholds.loop_window_actions sigs sig;
    calls = omega (arith, l.calls, length-append {0} sigs (sig ∷ []));
    cost = l.cost;
  }

  Ledger-pre_tool :
      (now : Clock) (tool sig : String) {s : WatcherState}
      → Ledger p sigs money s
      → Ledger p (sigs ++ sig ∷ []) money (on_pre_tool_call now tool (some sig) s).1
  unfolding on_pre_tool_call
  Ledger-pre_tool now tool sig {s} l =
      let r = record_tool_call tool (some sig) s in
      let l' = Ledger-record_tool_call tool sig l in
      record {
        policy = ap (λ c. c.policy) (kept r) ∙ l'.policy;
        window = ap (λ c. c.loop_signatures) (kept r) ∙ l'.window;
        calls = ap (λ c. c.tool_call_count) (kept r) ∙ l'.calls;
        cost = ap (λ c. c.total_cost_usd) (kept r) ∙ l'.cost;
      }
    where
      kept :
          (r : WatcherState)
          → core (act_on_all now (run_checks now r (fired_only (check_tool_scope tool s.policy))) r)
            ≡ core r
      kept r =
          core-act_on_all now (run_checks now r (fired_only (check_tool_scope tool s.policy))) r

-- A hook that records nothing here leaves the ledger as it is.
module _ {p : Policy} {sigs : List String} {money : ℕ} {s : WatcherState}
    (l : Ledger p sigs money s) where
  Ledger-unrecorded :
      (now : Clock) (tool : String) → Ledger p sigs money (on_pre_tool_call now tool none s).1
  unfolding on_pre_tool_call record_tool_call
  Ledger-unrecorded now tool = Ledger-core (core-act_on_all now _ s) l

  Ledger-post_tool :
      (now : Clock) (tool : String) → Ledger p sigs money (on_post_tool_call now tool s)
  unfolding on_post_tool_call record_lifecycle
  Ledger-post_tool now tool = Ledger-core (core-terminate_on_all now _ _) l

  Ledger-post_api :
      (now : Clock) (model : String) (input output : ℕ)
      → Ledger p sigs
          (money + cost_for_usage model input output)
          (on_post_api_request now model input output s)
  unfolding on_post_api_request record_llm_call
  Ledger-post_api now model input output =
      let c = record_llm_call model input output s in
      let e = core-terminate_on_all now (run_checks now c []) c in
      record {
        policy = ap (λ c. c.policy) e ∙ l.policy;
        window = ap (λ c. c.loop_signatures) e ∙ l.window;
        calls = ap (λ c. c.tool_call_count) e ∙ l.calls;
        cost =
            ap (λ c. c.total_cost_usd) e ∙ ap (λ m. m + cost_for_usage model input output) l.cost;
      }

  Ledger-other :
      (t : WatcherState)
      → t.policy ≡ s.policy
      → t.loop_signatures ≡ s.loop_signatures
      → t.tool_call_count ≡ s.tool_call_count
      → t.total_cost_usd ≡ s.total_cost_usd
      → Ledger p sigs money t
  Ledger-other t a b c d = record {
    policy = a ∙ l.policy;
    window = b ∙ l.window;
    calls = c ∙ l.calls;
    cost = d ∙ l.cost;
  }

  Ledger-killed :
      (now : Clock) (r : Reason) (id : Option ℕ) (m : Option ManualKill)
      → Ledger p sigs money (request_termination now r id m s)
  unfolding request_termination
  Ledger-killed now r id m =
      Ledger-other _ (ground arith) (ground arith) (ground arith) (ground arith)

run-Ledger :
    (p : Policy) (cs : List Call) (sigs : List String) (money : ℕ) (s : WatcherState)
    → Ledger p sigs money s
    → Ledger p (sigs ++ recorded cs) (money + spent cs) (run cs s)
unfolding run step recorded spent on_pre_llm_call on_session_end record_lifecycle
    record_shutdown_step drain_events requeue_events
run-Ledger p [] sigs money s l = rw (append-nil sigs, add-zero money) l
run-Ledger p (Call.pre_tool now tool none ∷ cs) sigs money s l =
    run-Ledger p cs sigs money _ (Ledger-unrecorded l now tool)
run-Ledger p (Call.pre_tool now tool (some sig) ∷ cs) sigs money s l =
    rw (append_assoc sigs (sig ∷ []) (recorded cs)) at
      (run-Ledger p cs (sigs ++ sig ∷ []) money _ (Ledger-pre_tool now tool sig l))
run-Ledger p (Call.post_tool now tool ∷ cs) sigs money s l =
    run-Ledger p cs sigs money _ (Ledger-post_tool l now tool)
run-Ledger p (Call.pre_llm model ∷ cs) sigs money s l =
    run-Ledger p cs sigs money _ (Ledger-other l _ refl refl refl refl)
run-Ledger p (Call.post_api now model input output ∷ cs) sigs money s l =
    rw (add_assoc money (cost_for_usage model input output) (spent cs)) at (
      run-Ledger p cs sigs (money + cost_for_usage model input output) _
        (Ledger-post_api l now model input output))
run-Ledger p (Call.session_end now ∷ cs) sigs money s l =
    run-Ledger p cs sigs money _ (Ledger-other l _ refl refl refl refl)
run-Ledger p (Call.new_grants gs ∷ cs) sigs money s l =
    run-Ledger p cs sigs money _ (Ledger-other l _ refl refl refl refl)
run-Ledger p (Call.drained ∷ cs) sigs money s l =
    run-Ledger p cs sigs money _ (Ledger-other l _ refl refl refl refl)
run-Ledger p (Call.requeued events ∷ cs) sigs money s l =
    run-Ledger p cs sigs money _ (Ledger-other l _ refl refl refl refl)
run-Ledger p (Call.killed now r id m ∷ cs) sigs money s l =
    run-Ledger p cs sigs money _ (Ledger-killed l now r id m)

-- After any calls, the window of a new watcher holds the latest recorded signatures, as many as the
-- policy says; the call count is the number of recorded calls, and the cost the sum of the model calls'.
pub run-new_watcher-Ledger :
    (id name : String) (p : Policy) (now : Clock) (cs : List Call)
    → Ledger p (recorded cs) (spent cs) (run cs (new_watcher id name p now))
run-new_watcher-Ledger id name p now cs = rw (zero-add (spent cs)) at (
    run-Ledger p cs [] 0 (new_watcher id name p now) (record {
      policy = refl;
      window = sym (latest-nil p.thresholds.loop_window_actions);
      calls = refl;
      cost = refl;
    }))
