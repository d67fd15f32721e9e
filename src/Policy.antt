-- ===== src/Policy.antt =====
-- packages/hermeskill-sdk/src/hermeskill/types/enums.py (the symptoms) and types/policy.py (thresholds
-- and policies with their validators). A sum of money is a number of 10⁻⁸ dollars: every price of the
-- source is a whole number of cents for 10⁶ tokens, so that costs are whole numbers of that unit.
pub mod Shipped
pub mod Validation
use hermeskill.Common.{
  ℕ, String, Bool, true, ◌&&◌, Option, none, some, List, leb, ◌==◌, string_eq, if◌then◌else◌,
}

pub data SymptomType : Type 0 where
  loop token_runaway wall_clock tool_scope_violation heartbeat_stale manual_kill : SymptomType

-- `symptom.value`
unfoldable pub value : SymptomType → String
value SymptomType.loop = "loop"
value SymptomType.token_runaway = "token_runaway"
value SymptomType.wall_clock = "wall_clock"
value SymptomType.tool_scope_violation = "tool_scope_violation"
value SymptomType.heartbeat_stale = "heartbeat_stale"
value SymptomType.manual_kill = "manual_kill"

-- `SymptomType(raw)`; `none` stands for the ValueError.
unfoldable pub symptom_of : String → Option SymptomType
symptom_of raw =
    if raw == "loop"
    then some SymptomType.loop
    else if raw == "token_runaway"
    then some SymptomType.token_runaway
    else if raw == "wall_clock"
    then some SymptomType.wall_clock
    else if raw == "tool_scope_violation"
    then some SymptomType.tool_scope_violation
    else if raw == "heartbeat_stale"
    then some SymptomType.heartbeat_stale
    else if raw == "manual_kill"
    then some SymptomType.manual_kill
    else none

pub record PolicyThresholds : Type 0 where
  pub max_loop_repeats : ℕ
  pub loop_window_actions : ℕ
  pub loop_steer_repeats : Option ℕ
  pub max_tokens_per_run : ℕ
  pub max_cost_usd : ℕ
  pub max_runtime_seconds : ℕ
  pub heartbeat_interval_seconds : ℕ
  pub cooperative_grace_seconds : ℕ
  pub verification_timeout_seconds : ℕ

abbrev pub at_least_one : Option ℕ → Bool
at_least_one none = true
at_least_one (some n) = leb 1 n

-- The `ge=` constraints of the fields.
unfoldable pub fields_valid : PolicyThresholds → Bool
fields_valid t =
    leb 1 t.max_loop_repeats
    && leb 1 t.loop_window_actions
    && at_least_one t.loop_steer_repeats
    && leb 1 t.max_tokens_per_run
    && leb 1 t.max_runtime_seconds
    && leb 1 t.heartbeat_interval_seconds
    && leb 1 t.cooperative_grace_seconds
    && leb 1 t.verification_timeout_seconds

-- `_steer_below_kill`; `none` stands for the ValueError.
unfoldable pub steer_below_kill : PolicyThresholds → Option PolicyThresholds
steer_below_kill t = elim t.loop_steer_repeats [
  | none ↦ some t
  | some steer ↦ if leb t.max_loop_repeats steer then none else some t
]

-- `PolicyThresholds(...)`: the fields' constraints, then the validator that runs after them.
unfoldable pub make_thresholds : PolicyThresholds → Option PolicyThresholds
unfolding fields_valid steer_below_kill
make_thresholds t = if fields_valid t then steer_below_kill t else none

pub record ApoptosisProofingDefaults : Type 0 where
  pub allowed_symptoms : List SymptomType
  pub max_duration_hours : ℕ

pub record Policy : Type 0 where
  pub name : String
  pub thresholds : PolicyThresholds
  pub tool_allowlist : List String
  pub apoptosis_proofing : ApoptosisProofingDefaults
