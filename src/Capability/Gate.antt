-- ===== src/Capability/Gate.antt =====
-- capability/gateway.py: the calls that the gateway lets through.
use hermeskill.Common.{
  String, ◌≡◌, refl, ◌↔◌, inl, inr, true, Bool-cases, Option, none, some, List, contains, arith,
  eq_iff, string_eq,
}
use hermeskill.Capability.{
  Capability, CapabilityResolver, registered, capabilities_of, evaluate_risk, check_item, check,
  Executed, is_allow, execute,
}

-- The profile is granted a registered capability of low risk.
abbrev pub IsGranted : CapabilityResolver → String → String → Type 0
IsGranted r profile capability =
    (item : Capability) × (registered r.registry capability ≡ some item)
    × (item.risk ≡ "low")
    × (contains (capabilities_of r.policies profile) capability ≡ true)

evaluate_risk_low : (risk : String) → is_allow (evaluate_risk risk) ≡ true → risk ≡ "low"
unfolding evaluate_risk
evaluate_risk_low risk h = ground (arith, eq_iff risk "low")

check_item_allows :
    (o : Option Capability) (allowed : List String) (capability : String)
    → is_allow (check_item o allowed capability).decision ≡ true
    → (item : Capability) × (o ≡ some item)
      × (item.risk ≡ "low")
      × (contains allowed capability ≡ true)
unfolding check_item
check_item_allows none allowed capability h = cc h
check_item_allows (some item) allowed capability h =
    elim (Bool-cases (contains allowed capability)) [
      | inl e ↦ (item, refl, evaluate_risk_low item.risk (rw e at h), e)
      | inr e ↦ cc (rw e at h)
    ]

check_allows :
    (r : CapabilityResolver) (profile capability : String)
    → IsGranted r profile capability
    → is_allow (check r profile capability).decision ≡ true
unfolding check check_item evaluate_risk
check_allows r profile capability (item, found, low, granted) = rw (found, granted, low) refl

-- The gateway calls the target exactly when the profile is granted a registered capability of low risk,
-- and then gives what the target gives.
pub execute-IsGranted :
    {A B : Type 0} (r : CapabilityResolver) (profile capability : String) (target : B → A)
    (args : B) (a : A)
    → (execute r profile capability target args ≡ Executed.called a)
      ↔ (IsGranted r profile capability × (target args ≡ a))
unfolding execute
execute-IsGranted r profile capability target args a = (let_through, called)
  where
    let_through :
        execute r profile capability target args ≡ Executed.called a
        → IsGranted r profile capability × (target args ≡ a)
    let_through h = elim (Bool-cases (is_allow (check r profile capability).decision)) [
      | inl e ↦ (
        unfold check in
            check_item_allows (registered r.registry capability)
              (capabilities_of r.policies profile) capability e,
        cc (rw e at h),
      )
      | inr e ↦ cc (rw e at h)
    ]

    called :
        IsGranted r profile capability × (target args ≡ a)
        → execute r profile capability target args ≡ Executed.called a
    called (granted, same) = rw (check_allows r profile capability granted, same) refl
