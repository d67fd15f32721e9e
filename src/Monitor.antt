-- ===== src/Monitor.antt =====
-- packages/hermeskill-sdk/src/hermeskill/cli.py, `hermeskill monitor`: the panel for a snapshot, with the bars of its
-- gauges. A ratio is compared as a fraction, without the rounding of floats; titles and texts are left out.
pub mod Alarm
use hermeskill.Common.{ℕ, zero, suc, ◌+◌, ◌-◌, ◌*◌, Option, none, some, leb, ltb, if◌then◌else◌}
use hermeskill.Checks.{second}
use hermeskill.Calibration.{round}
use hermeskill.Vitals.{VitalsSnapshot, Status}

-- A ratio of the monitor, as a fraction.
pub record Ratio : Type 0 where
  pub part : ℕ
  pub whole : ℕ

-- `part / cap if cap > 0 else 0.0`
abbrev pub ratio : ℕ → ℕ → Ratio
ratio part zero = record { part = 0; whole = 1 }
ratio part (suc n) = record { part = part; whole = suc n }

pub data Color : Type 0 where
  red yellow green : Color

pub record Bar : Type 0 where
  pub filled : ℕ
  pub color : Color

abbrev pub width : ℕ
width = 24

-- `_bar`: red from 0.85 on, yellow from 0.6 on.
unfoldable pub bar : Ratio → Bar
bar r = record {
  filled = if leb r.whole r.part then width else round (r.part * width) r.whole;
  color =
      if leb (r.whole * 17) (r.part * 20)
      then Color.red
      else if leb (r.whole * 3) (r.part * 5)
      then Color.yellow
      else Color.green;
}

-- The three gauges of `_render_running`.
pub record Gauges : Type 0 where
  pub cost : Bar
  pub loop : Bar
  pub time : Bar

unfoldable pub render_running : VitalsSnapshot → ℕ → Gauges
unfolding bar
render_running snap age = record {
  cost = bar (ratio snap.total_cost_usd snap.max_cost_usd);
  loop = bar (ratio snap.loop_peak snap.max_loop_repeats);
  time = bar (ratio (snap.uptime_seconds + age) (second snap.max_runtime_seconds));
}

pub data Panel : Type 0 where
  waiting flatline ended no_signal : Panel
  alive : Gauges → Panel

abbrev pub default_max_age : ℕ
default_max_age = second 30

-- `_render_vitals`
unfoldable pub render_vitals : ℕ → Option VitalsSnapshot → Panel
unfolding render_running
render_vitals now none = Panel.waiting
render_vitals now (some snap) = elim snap.status [
  | Status.terminated ↦ Panel.flatline
  | Status.ended_clean ↦ Panel.ended
  | Status.running ↦
      let age = now - snap.written_at in
      if ltb default_max_age age then Panel.no_signal else Panel.alive (render_running snap age)
]
