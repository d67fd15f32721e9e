-- ===== src/Policy/Validation.antt =====
-- types/policy.py, policies.py: what the validators let through.
use hermeskill.Common.{ℕ, ◌≤◌, ◌<◌, String, ◌≡◌, refl, ◌↔◌, Option, none, some, arith, eq_iff}
use hermeskill.Policy.{SymptomType, PolicyThresholds, Policy, value, symptom_of, make_thresholds}
use hermeskill.Policy.Shipped.{resolve_policy}

-- The steer band is empty, or lies strictly below the kill line.
abbrev pub SteerBelowKill : Option ℕ → ℕ → Type 0
SteerBelowKill none cap = Unit
SteerBelowKill (some steer) cap = (1 ≤ steer) × (steer < cap)

-- What every check may rely on in a policy that was constructed.
pub record IsValid (t : PolicyThresholds) : Type 0 where
  pub repeats_pos : 1 ≤ t.max_loop_repeats
  pub window_pos : 1 ≤ t.loop_window_actions
  pub steer_band : SteerBelowKill t.loop_steer_repeats t.max_loop_repeats
  pub tokens_pos : 1 ≤ t.max_tokens_per_run
  pub runtime_pos : 1 ≤ t.max_runtime_seconds
  pub heartbeat_pos : 1 ≤ t.heartbeat_interval_seconds
  pub grace_pos : 1 ≤ t.cooperative_grace_seconds
  pub verification_pos : 1 ≤ t.verification_timeout_seconds

-- Thresholds are accepted exactly when they are valid, and then unchanged.
pub make_thresholds_iff :
    (t u : PolicyThresholds) → (make_thresholds t ≡ some u) ↔ ((t ≡ u) × IsValid t)
unfolding make_thresholds
make_thresholds_iff t u = (λ h. (ground arith, ground arith), λ h. ground arith)

-- Every symptom is found again from its wire name.
pub symptom_of-value : (s : SymptomType) → symptom_of (value s) ≡ some s
unfolding symptom_of value
symptom_of-value SymptomType.loop = refl
symptom_of-value SymptomType.token_runaway = refl
symptom_of-value SymptomType.wall_clock = refl
symptom_of-value SymptomType.tool_scope_violation = refl
symptom_of-value SymptomType.heartbeat_stale = refl
symptom_of-value SymptomType.manual_kill = refl

-- A policy that the lookup returns is valid, and has the name that was asked for.
pub resolve_policy-IsValid :
    (name : String) (p : Policy)
    → resolve_policy name ≡ some p
    → IsValid p.thresholds × (p.name ≡ name)
unfolding resolve_policy
resolve_policy-IsValid name p h =
    ground (arith, eq_iff "strict" name, eq_iff "coding-default" name, eq_iff "permissive" name)
