-- ===== src/Redaction/Hidden.antt =====
-- capability/redaction.py: what is left of the values under sensitive keys, of the texts, and of the depth.
use hermeskill.Common.{
  ℕ, ◌+◌, ◌-◌, ◌≤◌, String, ◌≡◌, refl, ◌⊎◌, inl, inr, true, Bool-cases, arith, ltb,
}
use hermeskill.Json.{
  Json, Items, Fields, leaf, str, list, tuple, dict, end, item, done, field, depth, depth_items,
  depth_fields,
}
use hermeskill.Redaction.{
  Pattern, redacted, max_depth, is_sensitive_key, scrub_string, redact_at, redact_items,
  redact_fields, redact_arguments,
}

-- A text that may be shown: the mark of redaction, or what scrubbing makes of some text.
abbrev pub IsShown : (Pattern → String → String) → String → Type 0
IsShown sub s = (s ≡ redacted) ⊎ ((t : String) × (s ≡ scrub_string sub t))

-- A tree that may be shown: its texts may be, and the values under sensitive keys are the mark.
unfoldable mutual
  pub IsShowable : (Pattern → String → String) → Json → Type 0
  IsShowable sub (leaf l) = Unit
  IsShowable sub (str s) = IsShown sub s
  IsShowable sub (list xs) = AreShowable sub xs
  IsShowable sub (tuple xs) = AreShowable sub xs
  IsShowable sub (dict fs) = HidesSecrets sub fs

  pub AreShowable : (Pattern → String → String) → Items → Type 0
  AreShowable sub end = Unit
  AreShowable sub (item x xs) = IsShowable sub x × AreShowable sub xs

  pub HidesSecrets : (Pattern → String → String) → Fields → Type 0
  HidesSecrets sub done = Unit
  HidesSecrets sub (field k v fs) =
      (is_sensitive_key k ≡ true → v ≡ str redacted) × (IsShowable sub v × HidesSecrets sub fs)

mutual
  unfolding redact_at IsShowable

  redact_at-IsShowable :
      (sub : Pattern → String → String) (d : ℕ) (v : Json) → IsShowable sub (redact_at sub d v)
  redact_at-IsShowable sub d (leaf l) = elim (Bool-cases (ltb max_depth d)) [
    | inl e ↦ rw e (inl refl)
    | inr e ↦ rw e tt
  ]
  redact_at-IsShowable sub d (str s) = elim (Bool-cases (ltb max_depth d)) [
    | inl e ↦ rw e (inl refl)
    | inr e ↦ rw e (inr (s, refl))
  ]
  redact_at-IsShowable sub d (list xs) = elim (Bool-cases (ltb max_depth d)) [
    | inl e ↦ rw e (inl refl)
    | inr e ↦ rw e (redact_items-AreShowable sub d xs)
  ]
  redact_at-IsShowable sub d (tuple xs) = elim (Bool-cases (ltb max_depth d)) [
    | inl e ↦ rw e (inl refl)
    | inr e ↦ rw e (redact_items-AreShowable sub d xs)
  ]
  redact_at-IsShowable sub d (dict fs) = elim (Bool-cases (ltb max_depth d)) [
    | inl e ↦ rw e (inl refl)
    | inr e ↦ rw e (redact_fields-HidesSecrets sub d fs)
  ]

  redact_items-AreShowable :
      (sub : Pattern → String → String) (d : ℕ) (xs : Items)
      → AreShowable sub (redact_items sub d xs)
  redact_items-AreShowable sub d end = tt
  redact_items-AreShowable sub d (item x xs) =
      (redact_at-IsShowable sub (d + 1) x, redact_items-AreShowable sub d xs)

  redact_fields-HidesSecrets :
      (sub : Pattern → String → String) (d : ℕ) (fs : Fields)
      → HidesSecrets sub (redact_fields sub d fs)
  redact_fields-HidesSecrets sub d done = tt
  redact_fields-HidesSecrets sub d (field k v fs) = elim (Bool-cases (is_sensitive_key k)) [
    | inl e ↦ rw e (λ _. refl, (inl refl, redact_fields-HidesSecrets sub d fs))
    | inr e ↦
        rw e (λ h. cc h, (redact_at-IsShowable sub (d + 1) v, redact_fields-HidesSecrets sub d fs))
  ]

mutual
  unfolding redact_at depth

  depth-redact_at :
      (sub : Pattern → String → String) (d : ℕ) (v : Json)
      → depth (redact_at sub d v) ≤ max_depth + 1 - d
  depth-redact_at sub d (leaf l) = elim (Bool-cases (ltb max_depth d)) [
    | inl e ↦ rw e (omega arith)
    | inr e ↦ rw e (omega arith)
  ]
  depth-redact_at sub d (str s) = elim (Bool-cases (ltb max_depth d)) [
    | inl e ↦ rw e (omega arith)
    | inr e ↦ rw e (omega arith)
  ]
  depth-redact_at sub d (list xs) = ground (arith, depth-redact_items sub d xs)
  depth-redact_at sub d (tuple xs) = ground (arith, depth-redact_items sub d xs)
  depth-redact_at sub d (dict fs) = ground (arith, depth-redact_fields sub d fs)

  depth-redact_items :
      (sub : Pattern → String → String) (d : ℕ) (xs : Items)
      → depth_items (redact_items sub d xs) ≤ max_depth - d
  depth-redact_items sub d end = omega arith
  depth-redact_items sub d (item x xs) =
      omega (arith, depth-redact_at sub (d + 1) x, depth-redact_items sub d xs)

  depth-redact_fields :
      (sub : Pattern → String → String) (d : ℕ) (fs : Fields)
      → depth_fields (redact_fields sub d fs) ≤ max_depth - d
  depth-redact_fields sub d done = omega arith
  depth-redact_fields sub d (field k v fs) = elim (Bool-cases (is_sensitive_key k)) [
    | inl e ↦ rw e (omega (arith, depth-redact_fields sub d fs))
    | inr e ↦ rw e (omega (arith, depth-redact_at sub (d + 1) v, depth-redact_fields sub d fs))
  ]

-- However deep the arguments are, at most 33 containers stand one in another in what an operator sees.
pub depth-redact_arguments :
    (sub : Pattern → String → String) (v : Json) → depth (redact_arguments sub v) ≤ 33
unfolding redact_arguments
depth-redact_arguments sub v = depth-redact_at sub 0 v
