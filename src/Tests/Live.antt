-- ===== src/Tests/Live.antt =====
-- Examples for the snapshots of live agents and their monitor.
use mathlib.Core.List.{Perm}
use hermeskill.Common.{◌≡◌, refl, true, none, some, List, [], ◌∷◌, any, map, length, arith}
use hermeskill.Checks.{is_terminal, run_all, check_loop, loop_peak}
use hermeskill.Checks.Counter.{counter, most_common}
use hermeskill.Vitals.{
  VitalsSnapshot, LiveFile, Status, snapshot_from_state, write_snapshot, delete_snapshot,
  sweep_live_dir, insert, iter_live_snapshots,
}
use hermeskill.Monitor.{render_vitals, bar, ratio, Color}
use hermeskill.Monitor.Alarm.{ShowsKill, kill_shows}
use hermeskill.Vitals.Listing.{IsFreshestFirst, shown, iter_live_snapshots-Perm}
use hermeskill.Tests.Samples.{noon, later, fresh, looping}

looping_is_killed : any is_terminal (run_all noon looping looping.policy) ≡ true
unfolding run_all check_loop most_common counter
looping_is_killed = refl

yellow : bar (ratio 3 4) ≡ record { filled = 18; color = Color.yellow }
unfolding bar
yellow = refl

kill_shows_example : ShowsKill looping (
    render_vitals 43201000000
      (some (snapshot_from_state noon Status.running none (some "s1") looping)))
kill_shows_example =
    kill_shows noon 43201000000 none (some "s1") looping (omega arith) (omega arith) (omega arith)
      (omega arith) looping_is_killed

gauge : (snapshot_from_state noon Status.running none none looping).loop_peak ≡ 5
unfolding snapshot_from_state loop_peak most_common counter
gauge = refl

abbrev live : VitalsSnapshot
live = snapshot_from_state later Status.running none (some "s1") fresh

abbrev over : VitalsSnapshot
over = snapshot_from_state noon Status.terminated (some "dead") (some "s2") looping

abbrev files : List LiveFile
files =
    record { stem = "a1"; mtime = 10; content = some over }
    ∷ record { stem = "a2"; mtime = 95; content = some live }
    ∷ record { stem = "a3"; mtime = 10; content = some live }
    ∷ record { stem = "a4"; mtime = 99; content = none }
    ∷ []

listing : iter_live_snapshots 100 (some 30) files ≡ live ∷ over ∷ []
unfolding iter_live_snapshots insert snapshot_from_state
listing = refl

after_sweep : length (sweep_live_dir 100 50 files) ≡ 2
unfolding sweep_live_dir
after_sweep = refl

stems : map (λ f. f.stem) (write_snapshot 100 over files) ≡ "a1" ∷ "a2" ∷ "a3" ∷ "a4" ∷ []
unfolding write_snapshot delete_snapshot snapshot_from_state
stems = refl

iter_live_snapshots-Perm_example :
    IsFreshestFirst (iter_live_snapshots 100 (some 30) files)
    × Perm (iter_live_snapshots 100 (some 30) files) (shown 100 (some 30) files)
iter_live_snapshots-Perm_example = iter_live_snapshots-Perm 100 (some 30) files
