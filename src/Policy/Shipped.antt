-- ===== src/Policy/Shipped.antt =====
-- packages/hermeskill-sdk/src/hermeskill/policies.py: the three policies that ship, and their lookup.
use hermeskill.Common.{
  ℕ, ◌*◌, String, Option, none, some, List, [], ◌∷◌, ◌==◌, string_eq, if◌then◌else◌,
}
use hermeskill.Policy.{SymptomType, Policy}

-- A dollar, in the unit of money.
abbrev pub usd : ℕ → ℕ
usd n = n * 100000000

abbrev pub strict : Policy
strict = record {
  name = "strict";
  thresholds = record {
    max_loop_repeats = 3;
    loop_window_actions = 15;
    loop_steer_repeats = none;
    max_tokens_per_run = 100000;
    max_cost_usd = usd 2;
    max_runtime_seconds = 300;
    heartbeat_interval_seconds = 15;
    cooperative_grace_seconds = 5;
    verification_timeout_seconds = 20;
  };
  tool_allowlist = "read_file" ∷ "search" ∷ [];
  apoptosis_proofing = record { allowed_symptoms = []; max_duration_hours = 1 };
}

abbrev pub coding_default : Policy
coding_default = record {
  name = "coding-default";
  thresholds = record {
    max_loop_repeats = 5;
    loop_window_actions = 20;
    loop_steer_repeats = some 3;
    max_tokens_per_run = 500000;
    max_cost_usd = usd 25;
    max_runtime_seconds = 1800;
    heartbeat_interval_seconds = 30;
    cooperative_grace_seconds = 10;
    verification_timeout_seconds = 30;
  };
  tool_allowlist = "read_file" ∷ "write_file" ∷ "run_bash" ∷ "search" ∷ "http_get" ∷ [];
  apoptosis_proofing = record {
    allowed_symptoms = SymptomType.tool_scope_violation ∷ [];
    max_duration_hours = 4;
  };
}

abbrev pub permissive : Policy
permissive = record {
  name = "permissive";
  thresholds = record {
    max_loop_repeats = 10;
    loop_window_actions = 40;
    loop_steer_repeats = some 5;
    max_tokens_per_run = 2000000;
    max_cost_usd = usd 100;
    max_runtime_seconds = 86400;
    heartbeat_interval_seconds = 60;
    cooperative_grace_seconds = 15;
    verification_timeout_seconds = 60;
  };
  tool_allowlist = [];
  apoptosis_proofing = record {
    allowed_symptoms = SymptomType.tool_scope_violation ∷ SymptomType.loop ∷ [];
    max_duration_hours = 8;
  };
}

-- `DEFAULT_POLICIES`
abbrev pub default_policies : List Policy
default_policies = strict ∷ coding_default ∷ permissive ∷ []

abbrev pub policy_named : String → List Policy → Option Policy
policy_named name [] = none
policy_named name (p ∷ ps) = if p.name == name then some p else policy_named name ps

-- `none` stands for the UnknownPolicyError. Values do not change here, so a copy is the value.
unfoldable pub resolve_policy : String → Option Policy
resolve_policy name = policy_named name default_policies
