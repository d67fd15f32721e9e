-- ===== src/Capability.antt =====
-- packages/hermeskill-sdk/src/hermeskill/capability: the decision whether a profile may use a capability
-- (models.py, approval.py, resolver.py), its users (gateway.py, enforcement.py, shadow.py) and the map from
-- tools to capabilities (toolmap.py). The files under config are loaded by a library: their content is an
-- argument.
pub mod Gate
use hermeskill.Common.{
  ℕ, String, Bool, true, false, Option, none, some, List, [], ◌∷◌, contains, ◌==◌, string_eq,
  if◌then◌else◌,
}
use hermeskill.Json.{Json, Fields, leaf, str, list, tuple, dict, lookup}

pub data PermissionDecision : Type 0 where
  allow refused approval_required : PermissionDecision

pub record Capability : Type 0 where
  pub name : String
  pub risk : String
  pub domain : String
  pub description : String

pub record CapabilityResult : Type 0 where
  pub capability : String
  pub decision : PermissionDecision
  pub risk : Option String
  pub reason : Option String

-- `CapabilityRegistry`
unfoldable pub registered : List Capability → String → Option Capability
registered [] name = none
registered (c ∷ cs) name = if c.name == name then some c else registered cs name

-- `policies.get(profile, [])`
unfoldable pub capabilities_of : List (String × List String) → String → List String
capabilities_of [] profile = []
capabilities_of ((p, allowed) ∷ ps) profile =
    if p == profile then allowed else capabilities_of ps profile

pub record CapabilityResolver : Type 0 where
  pub registry : List Capability
  pub policies : List (String × List String)

unfoldable pub evaluate_risk : String → PermissionDecision
evaluate_risk risk =
    if risk == "low"
    then PermissionDecision.allow
    else if contains ("medium" ∷ "high" ∷ []) risk
    then PermissionDecision.approval_required
    else PermissionDecision.refused

check_item : Option Capability → List String → String → CapabilityResult
unfolding evaluate_risk
check_item none allowed capability = record {
  capability = capability;
  decision = PermissionDecision.refused;
  risk = none;
  reason = some "unknown capability";
}
check_item (some item) allowed capability =
    if contains allowed capability
    then record {
      capability = capability;
      decision = evaluate_risk item.risk;
      risk = some item.risk;
      reason = some "profile grants capability";
    }
    else record {
      capability = capability;
      decision = PermissionDecision.refused;
      risk = some item.risk;
      reason = some "profile does not grant capability";
    }

-- `CapabilityResolver.check`
unfoldable pub check : CapabilityResolver → String → String → CapabilityResult
unfolding check_item
check r profile capability =
    check_item (registered r.registry capability) (capabilities_of r.policies profile) capability

abbrev pub is_allow : PermissionDecision → Bool
is_allow PermissionDecision.allow = true
is_allow _ = false

-- What `CapabilityGateway.execute` does: it calls the target, or raises a PermissionError for the reason.
pub data Executed (A : Type 0) : Type 0 where
  called : A → Executed A
  permission_error : String → Option String → Executed A

unfoldable pub execute :
    {A B : Type 0} → CapabilityResolver → String → String → (B → A) → B → Executed A
execute r profile capability target args =
    let result = check r profile capability in
    if is_allow result.decision
    then Executed.called (target args)
    else Executed.permission_error capability result.reason

pub record EnforcementResult : Type 0 where
  pub allowed : Bool
  pub decision : PermissionDecision
  pub enforced : Bool

abbrev enabled_in : List (String × Bool) → String → Bool
enabled_in [] capability = false
enabled_in ((c, b) ∷ cs) capability = if c == capability then b else enabled_in cs capability

-- `CapabilityEnforcer.evaluate`
unfoldable pub evaluate : List (String × Bool) → String → PermissionDecision → EnforcementResult
evaluate pilot_policy capability decision =
    if enabled_in pilot_policy capability
    then record { allowed = is_allow decision; decision = decision; enforced = true }
    else record { allowed = true; decision = decision; enforced = false }

-- `entry if isinstance(entry, dict) else None`
abbrev as_dict : Option Json → Option Fields
as_dict (some (dict fs)) = some fs
as_dict _ = none

-- A capability that is no text is in no registry, which is keyed by names.
abbrev as_text : Option Json → Option String
as_text (some (str s)) = some s
as_text _ = none

abbrev lookup_in : String → Option Fields → Option Json
lookup_in k none = none
lookup_in k (some fs) = lookup k fs

-- `ToolCapabilityMap.capability_for_tool`
unfoldable pub capability_for_tool : Fields → String → Option String
capability_for_tool tools tool_name =
    if tool_name == ""
    then none
    else as_text
        (lookup_in "capability" (as_dict (lookup_in "tool" (as_dict (lookup tool_name tools)))))
