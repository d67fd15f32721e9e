-- ===== src/Calibration/Loosened.antt =====
-- calibration.py: when a report suggests another threshold, and which.
use hermeskill.Common.{
  ℕ, ◌+◌, ◌*◌, ◌≤◌, String, ◌≡◌, refl, sym, ap, ◌∙◌, ◌↔◌, inl, inr, Bool-cases, Option, none, some,
  List, length, ltb, arith,
}
use hermeskill.Policy.{SymptomType, Policy}
use hermeskill.Policy.Shipped.{resolve_policy}
use hermeskill.Calibration.{
  FeedbackLabel, KnobKind, Knob, SymptomCalibration, base, with_knob, with_data, count_label,
  calibrate_symptom, knob_of, current_of, loosen, round,
}

-- The feedback is enough and bad enough, and `v` is the loosened threshold of the symptom.
pub record CallsFor (s : SymptomType) (labels : List FeedbackLabel) (policy : Policy) (v : ℕ)
    : Type 0 where
  pub enough : 5 ≤ length labels
  pub knob : Knob
  pub has_knob : knob_of s ≡ some knob
  pub bad : length labels * 3 ≤ count_label FeedbackLabel.false_positive labels * 10
  pub loosened : v ≡ loosen (current_of policy knob.kind) knob.kind

some_inj : {A : Type 0} (x y : A) → some x ≡ some y → x ≡ y
some_inj x y h = cc h

with_knob_suggests :
    (b : SymptomCalibration) (policy : Policy) (knob : Knob) (v : ℕ)
    → b.suggested_value ≡ none
    → ((with_knob b policy knob).suggested_value ≡ some v) ↔ (
        (b.total_labeled * 3 ≤ b.false_positives * 10)
        × (v ≡ loosen (current_of policy knob.kind) knob.kind))
unfolding with_knob
with_knob_suggests b policy knob v bare =
    elim (Bool-cases (ltb (b.false_positives * 10) (b.total_labeled * 3))) [
      | inl e ↦ rw e ((λ h. cc (h, bare)), λ h. grind (arith, e, h.0))
      | inr e ↦ rw e ((λ h. (ground (arith, e), sym (some_inj _ _ h))), λ h. ap some (sym h.1))
    ]

with_data_suggests :
    (b : SymptomCalibration) (policy : Policy) (o : Option Knob) (v : ℕ)
    → b.suggested_value ≡ none
    → ((with_data b policy o).suggested_value ≡ some v) ↔ (
        (knob : Knob) × (o ≡ some knob)
        × (b.total_labeled * 3 ≤ b.false_positives * 10)
        × (v ≡ loosen (current_of policy knob.kind) knob.kind))
unfolding with_data
with_data_suggests b policy none v bare =
    ((λ h. cc (h, bare)), λ h. let (knob, found, bad, same) = h in cc found)
with_data_suggests b policy (some knob) v bare =
    let both = with_knob_suggests b policy knob v bare in
    (
      (λ h. let (bad, same) = both.0 h in (knob, refl, bad, same)),
      λ h.
          let (k, found, bad, same) = h in
          let here = some_inj knob k found in
          both.1 (bad, same ∙ ap (λ x. loosen (current_of policy x.kind) x.kind) (sym here)),
    )

-- A threshold is suggested exactly when the symptom has one, at least five kills are labeled, and at least three
-- in ten are false positives; it is the loosened one.
pub calibrate_symptom-CallsFor :
    (s : SymptomType) (labels : List FeedbackLabel) (policy : Policy) (v : ℕ)
    → ((calibrate_symptom s labels policy).suggested_value ≡ some v) ↔ CallsFor s labels policy v
unfolding calibrate_symptom base
calibrate_symptom-CallsFor s labels policy v = elim (Bool-cases (ltb (length labels) 5)) [
  | inl e ↦ rw e ((λ h. cc h), λ c. grind (arith, e, c.enough))
  | inr e ↦
      let both = with_data_suggests (base s labels) policy (knob_of s) v refl in
      rw e (
        (λ h.
            let (knob, found, bad, same) = both.0 h in
            record {
              enough = ground (arith, e);
              knob = knob;
              has_knob = found;
              bad = bad;
              loosened = same;
            }),
        λ c. both.1 (c.knob, c.has_knob, c.bad, c.loosened),
      )
]

round_low : (n : ℕ) → n ≤ round n 120 * 120 + 60
round_low n = ground arith

round_low_usd : (n : ℕ) → n ≤ round n 2000000 * 2000000 + 1000000
round_low_usd n = ground arith

-- The least current value that the rounding cannot bring down.
abbrev pub step_of : KnobKind → ℕ
step_of KnobKind.int = 0
step_of KnobKind.seconds = 21
step_of KnobKind.usd = 1000000

loosen_raises : (c : ℕ) (k : KnobKind) → step_of k ≤ c → c ≤ loosen c k
unfolding loosen
loosen_raises c KnobKind.int h = ground arith
loosen_raises c KnobKind.seconds h = omega (arith, round_low (c * 3), h)
loosen_raises c KnobKind.usd h = omega (arith, round_low_usd (c * 3), h)

-- The thresholds of the shipped policies are above those values.
shipped_above :
    (name : String) (policy : Policy) (k : KnobKind)
    → resolve_policy name ≡ some policy
    → step_of k ≤ current_of policy k
unfolding resolve_policy current_of
shipped_above name policy KnobKind.int h = omega arith
shipped_above name policy KnobKind.seconds h = ground arith
shipped_above name policy KnobKind.usd h = ground arith

-- What is suggested for a shipped policy is never below its threshold, whatever the feedback says.
pub suggestion_never_tightens :
    (name : String) (s : SymptomType) (labels : List FeedbackLabel) (policy : Policy) (knob : Knob)
    (v : ℕ)
    → resolve_policy name ≡ some policy
    → knob_of s ≡ some knob
    → (calibrate_symptom s labels policy).suggested_value ≡ some v
    → current_of policy knob.kind ≤ v
suggestion_never_tightens name s labels policy knob v shipped has h =
    let c = (calibrate_symptom-CallsFor s labels policy v).0 h in
    let same = some_inj c.knob knob (sym c.has_knob ∙ has) in
    let up =
      loosen_raises (current_of policy knob.kind) knob.kind
        (shipped_above name policy knob.kind shipped) in
    omega (arith, up, c.loosened, ap (λ k. loosen (current_of policy k.kind) k.kind) same)

rounds_away : (c : ℕ) → c ≤ 20 → round (c * 3) 120 * 60 ≡ 0
rounds_away c h = ground arith

-- With a running time of at most twenty seconds, enough bad feedback suggests a limit of zero.
pub short_limit_suggests_zero :
    (labels : List FeedbackLabel) (policy : Policy)
    → policy.thresholds.max_runtime_seconds ≤ 20
    → 5 ≤ length labels
    → length labels * 3 ≤ count_label FeedbackLabel.false_positive labels * 10
    → (calibrate_symptom SymptomType.wall_clock labels policy).suggested_value ≡ some 0
unfolding knob_of current_of loosen
short_limit_suggests_zero labels policy low enough bad =
    (calibrate_symptom-CallsFor SymptomType.wall_clock labels policy 0).1 (record {
      enough = enough;
      knob = record { field = "max_runtime_seconds"; kind = KnobKind.seconds };
      has_knob = refl;
      bad = bad;
      loosened = sym (rounds_away policy.thresholds.max_runtime_seconds low);
    })
