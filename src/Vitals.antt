-- ===== src/Vitals.antt =====
-- packages/hermeskill-sdk/src/hermeskill/vitals.py: the snapshot of a live agent, and the directory of the
-- snapshots. A file that cannot be read or parsed has no content, and the order of the files is that of `glob`.
pub mod Listing
use hermeskill.Common.{
  ℕ, ◌+◌, ◌-◌, String, Bool, true, false, not, ◌&&◌, Option, none, some, List, [], ◌∷◌, length, leb,
  ltb, string_eq, ◌==◌, keep_if, drop, if◌then◌else◌,
}
use hermeskill.Watcher.{WatcherState, Clock, SymptomRecord, uptime}
use hermeskill.Watcher.Values.{Reason}
use hermeskill.Checks.{loop_peak}

pub data Status : Type 0 where
  running terminated ended_clean : Status

pub record VitalsSnapshot : Type 0 where
  pub agent_id : String
  pub session_id : Option String
  pub name : String
  pub policy_name : String
  pub offline : Bool
  pub status : Status
  pub uptime_seconds : ℕ
  pub written_at : ℕ
  pub tool_calls : ℕ
  pub steer_count : ℕ
  pub total_input_tokens : ℕ
  pub total_output_tokens : ℕ
  pub total_cost_usd : ℕ
  pub loop_peak : ℕ
  pub loop_window : ℕ
  pub max_loop_repeats : ℕ
  pub max_cost_usd : ℕ
  pub max_tokens_per_run : ℕ
  pub max_runtime_seconds : ℕ
  pub terminate_reason : Option Reason
  pub recent_symptoms : List SymptomRecord
  pub certificate_text : Option String

abbrev recent : ℕ
recent = 8

abbrev pub peak : Option (String × ℕ) → ℕ
peak none = 0
peak (some (sig, n)) = n

unfoldable pub snapshot_from_state :
    Clock → Status → Option String → Option String → WatcherState → VitalsSnapshot
snapshot_from_state now status certificate_text session_id s =
    let t = s.policy.thresholds in
    record {
      agent_id = s.agent_id;
      session_id = session_id;
      name = s.name;
      policy_name = s.policy.name;
      offline = s.offline;
      status = status;
      uptime_seconds = uptime now s;
      written_at = now.utc;
      tool_calls = s.tool_call_count;
      steer_count = s.steer_count;
      total_input_tokens = s.total_input_tokens;
      total_output_tokens = s.total_output_tokens;
      total_cost_usd = s.total_cost_usd;
      loop_peak = peak (loop_peak s);
      loop_window = length s.loop_signatures;
      max_loop_repeats = t.max_loop_repeats;
      max_cost_usd = t.max_cost_usd;
      max_tokens_per_run = t.max_tokens_per_run;
      max_runtime_seconds = t.max_runtime_seconds;
      terminate_reason = s.terminate_reason;
      recent_symptoms = drop (length s.symptoms_log - recent) s.symptoms_log;
      certificate_text = certificate_text;
    }

-- A file of the directory: the agent's id that names it, its time, and what `read_snapshot` gives.
pub record LiveFile : Type 0 where
  pub stem : String
  pub mtime : ℕ
  pub content : Option VitalsSnapshot

unfoldable pub delete_snapshot : String → List LiveFile → List LiveFile
delete_snapshot agent_id files = keep_if (λ f. not (f.stem == agent_id)) files

-- `write_snapshot`, when no call of it raises.
unfoldable pub write_snapshot : ℕ → VitalsSnapshot → List LiveFile → List LiveFile
unfolding delete_snapshot
write_snapshot now snapshot files =
    record { stem = snapshot.agent_id; mtime = now; content = some snapshot }
    ∷ delete_snapshot snapshot.agent_id files

-- `sweep_live_dir`, when each deletion succeeds.
unfoldable pub sweep_live_dir : ℕ → ℕ → List LiveFile → List LiveFile
sweep_live_dir now max_age files = keep_if (λ f. not (ltb (f.mtime + max_age) now)) files

abbrev pub is_running : Status → Bool
is_running Status.running = true
is_running _ = false

abbrev pub too_old : ℕ → ℕ → Option ℕ → Bool
too_old now mtime none = false
too_old now mtime (some max_age) = ltb (mtime + max_age) now

-- A step of `out.sort`, which is stable, freshest first.
unfoldable pub insert : VitalsSnapshot → List VitalsSnapshot → List VitalsSnapshot
insert s [] = s ∷ []
insert s (t ∷ ts) =
    let rest = insert s ts in if leb t.written_at s.written_at then s ∷ t ∷ ts else t ∷ rest

unfoldable listed :
    ℕ → Option ℕ → ℕ → Option VitalsSnapshot → List VitalsSnapshot → List VitalsSnapshot
unfolding insert
listed now max_age mtime none out = out
listed now max_age mtime (some s) out =
    if is_running s.status && too_old now mtime max_age then out else insert s out

unfoldable pub iter_live_snapshots : ℕ → Option ℕ → List LiveFile → List VitalsSnapshot
unfolding listed
iter_live_snapshots now max_age [] = []
iter_live_snapshots now max_age (f ∷ files) =
    let rest = iter_live_snapshots now max_age files in listed now max_age f.mtime f.content rest
