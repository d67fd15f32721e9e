-- ===== src/Monitor/Alarm.antt =====
-- cli.py: the gauges of the monitor against the checks.
use hermeskill.Common.{
  ℕ, zero, suc, ◌+◌, ◌-◌, ◌*◌, ◌≤◌, ◌≡◌, refl, ◌⊎◌, inl, inr, true, Option, none, some, String,
  List, any, le→leb, arith,
}
use hermeskill.Watcher.{WatcherState, Clock, uptime}
use hermeskill.Checks.{is_terminal, run_all, loop_peak, second}
use hermeskill.Checks.Counter.{counter, most_common, most_common-IsPeak, most_common-counter}
use hermeskill.Checks.Loop.{IsLooping}
use hermeskill.Checks.Burn.{run_all-IsRogue}
use hermeskill.Vitals.{VitalsSnapshot, Status, peak, snapshot_from_state}
use hermeskill.Monitor.{
  ratio, Color, Bar, bar, Gauges, render_running, Panel, default_max_age, render_vitals,
}

abbrev pub full : Bar
full = record { filled = 24; color = Color.red }

-- The bar of a value that has reached its cap.
full-bar : (part cap : ℕ) → 1 ≤ cap → cap ≤ part → bar (ratio part cap) ≡ full
unfolding bar
full-bar part zero pos h = absurd (omega (arith, pos))
full-bar part (suc n) pos h =
    rw (le→leb (suc n) part h, le→leb (suc n * 17) (part * 20) (omega (arith, h))) refl

peak_reached :
    (o : Option (String × ℕ)) (limit : ℕ) (sigs : List String)
    → most_common (counter sigs) ≡ o
    → 1 ≤ limit
    → IsLooping limit sigs
    → limit ≤ peak o
peak_reached none limit sigs e pos (sig, h) =
    let (top, n, e') = most_common-counter sig sigs (omega arith) in absurd (cc (e, e'))
peak_reached (some (top, n)) limit sigs e pos (sig, h) =
    omega (arith, h, (most_common-IsPeak sigs top n e).greatest sig)

-- What the panel of a live agent shows of a kill.
pub record ShowsKill (s : WatcherState) (panel : Panel) : Type 0 where
  pub gauges : Gauges
  pub alive : panel ≡ Panel.alive gauges
  pub shown :
      (gauges.loop ≡ full)
      ⊎ ((gauges.cost ≡ full)
          ⊎ ((s.policy.thresholds.max_tokens_per_run ≤ s.total_input_tokens + s.total_output_tokens)
              ⊎ (gauges.time ≡ full)))

running_panel :
    (now : ℕ) (v : VitalsSnapshot)
    → v.status ≡ Status.running
    → now - v.written_at ≤ default_max_age
    → render_vitals now (some v) ≡ Panel.alive (render_running v (now - v.written_at))
unfolding render_vitals
running_panel now v live recent = ground (arith, live, recent)

-- With caps of at least one, an agent that the checks would kill at the time of its snapshot is shown, for as long as
-- the monitor takes the snapshot for live, with a full red bar of its loops, of its cost or of its time, unless it
-- is the number of its tokens, which has no gauge, that has reached its cap.
pub kill_shows :
    (now : Clock) (later : ℕ) (text session : Option String) (s : WatcherState)
    → 1 ≤ s.policy.thresholds.max_loop_repeats
    → 1 ≤ s.policy.thresholds.max_cost_usd
    → 1 ≤ s.policy.thresholds.max_runtime_seconds
    → later - now.utc ≤ default_max_age
    → any is_terminal (run_all now s s.policy) ≡ true
    → ShowsKill s
        (render_vitals later (some (snapshot_from_state now Status.running text session s)))
unfolding snapshot_from_state render_running loop_peak
kill_shows now later text session s loops costs runtime recent h =
    let v = snapshot_from_state now Status.running text session s in
    let age = later - now.utc in
    let t = s.policy.thresholds in
    record {
      gauges = render_running v age;
      alive = running_panel later v refl recent;
      shown = elim ((run_all-IsRogue now s s.policy loops).0 h) [
        | inl l ↦ inl (
            full-bar v.loop_peak t.max_loop_repeats loops
              (peak_reached _ t.max_loop_repeats s.loop_signatures refl loops l))
        | inr (inl (inl c)) ↦ inr (inl (full-bar s.total_cost_usd t.max_cost_usd costs c))
        | inr (inl (inr k)) ↦ inr (inr (inl k))
        | inr (inr over) ↦ inr (
            inr (
              inr (
                full-bar (uptime now s + age) (second t.max_runtime_seconds)
                  (omega (arith, runtime)) (omega (arith, over)))))
      ];
    }
