-- ===== src/Calibration/Counts.antt =====
-- calibration.py: how the kills are counted in a report.
use hermeskill.Common.{
  ℕ, ◌+◌, ◌≡◌, refl, sym, ap, ◌∙◌, inl, inr, Bool-cases, Option, none, some, List, [], ◌∷◌, ◌++◌,
  length, length-append, Dict, find, store, find-store, find-store-other, ◌==◌, string_eq,
  if◌then◌else◌, arith,
}
use hermeskill.Policy.{SymptomType, Policy, value}
use hermeskill.Calibration.{
  FeedbackLabel, LabeledKill, SymptomCalibration, Knob, base, with_knob, with_data,
  calibrate_symptom, or_empty, labels_under, group, knob_of, symptom_types, add_symptom,
  calibrate_all, total_of, build_calibration_report,
}

-- How many labels a dictionary has for some symptoms.
labels_in : List SymptomType → Dict (List FeedbackLabel) → ℕ
labels_in [] d = 0
labels_in (s ∷ ss) d = length (labels_under d (value s)) + labels_in ss d

-- How often a symptom stands in a list.
occurrences : SymptomType → List SymptomType → ℕ
occurrences t [] = 0
occurrences t (s ∷ ss) = (if value t == value s then 1 else 0) + occurrences t ss

total-with_data :
    (b : SymptomCalibration) (policy : Policy) (o : Option Knob)
    → (with_data b policy o).total_labeled ≡ b.total_labeled
unfolding with_data with_knob
total-with_data b policy none = refl
total-with_data b policy (some knob) = ground arith

total-calibrate_symptom :
    (s : SymptomType) (labels : List FeedbackLabel) (policy : Policy)
    → (calibrate_symptom s labels policy).total_labeled ≡ length labels
unfolding calibrate_symptom base
total-calibrate_symptom s labels policy =
    ground (arith, total-with_data (base s labels) policy (knob_of s))

total-add_symptom :
    (s : SymptomType) (policy : Policy) (o : Option (List FeedbackLabel))
    (rest : List SymptomCalibration)
    → total_of (add_symptom s policy o rest) ≡ length (or_empty o) + total_of rest
unfolding add_symptom total_of
total-add_symptom s policy none rest = omega arith
total-add_symptom s policy (some labels) rest =
    omega (arith, total-calibrate_symptom s labels policy)

total-calibrate_all :
    (ss : List SymptomType) (d : Dict (List FeedbackLabel)) (policy : Policy)
    → total_of (calibrate_all ss d policy) ≡ labels_in ss d
unfolding calibrate_all labels_in total_of
total-calibrate_all [] d policy = refl
total-calibrate_all (s ∷ ss) d policy =
    total-add_symptom s policy (find d (value s)) (calibrate_all ss d policy)
    ∙ ap (◌+◌ (length (labels_under d (value s)))) (total-calibrate_all ss d policy)

labels_under-store :
    (d : Dict (List FeedbackLabel)) (t s : SymptomType) (l : FeedbackLabel)
    → length (labels_under (store (value t) (labels_under d (value t) ++ l ∷ []) d) (value s))
      ≡ (if value t == value s then 1 else 0) + length (labels_under d (value s))
labels_under-store d t s l = elim (Bool-cases (value t == value s)) [
  | inl e ↦
      let same = (string_eq.same_iff (value t) (value s)).0 e in
      let labels = labels_under d (value t) in
      let new = store (value t) (labels ++ l ∷ []) d in
      let stored =
        ap (λ k. length (labels_under new k)) (sym same)
        ∙ ap (λ o. length (or_empty o)) (find-store (value t) (labels ++ l ∷ []) d) in
      rw e (
        omega
          (arith, stored, length-append labels (l ∷ []), ap (λ k. length (labels_under d k)) same))
  | inr e ↦
      rw e
        (omega (arith, ap (λ o. length (or_empty o)) (find-store-other (value t) (value s) _ d e)))
]

labels_in-store :
    (ss : List SymptomType) (d : Dict (List FeedbackLabel)) (t : SymptomType) (l : FeedbackLabel)
    → labels_in ss (store (value t) (labels_under d (value t) ++ l ∷ []) d)
      ≡ occurrences t ss + labels_in ss d
unfolding labels_in occurrences
labels_in-store [] d t l = refl
labels_in-store (s ∷ ss) d t l = omega (arith, labels_under-store d t s l, labels_in-store ss d t l)

once : (t : SymptomType) → occurrences t symptom_types ≡ 1
unfolding occurrences value
once SymptomType.loop = refl
once SymptomType.token_runaway = refl
once SymptomType.wall_clock = refl
once SymptomType.tool_scope_violation = refl
once SymptomType.heartbeat_stale = refl
once SymptomType.manual_kill = refl

labels_in-group :
    (kills : List LabeledKill) (d : Dict (List FeedbackLabel))
    → labels_in symptom_types (group kills d) ≡ length kills + labels_in symptom_types d
unfolding group
labels_in-group [] d = omega arith
labels_in-group (k ∷ kills) d =
    let next = store (value k.symptom) (labels_under d (value k.symptom) ++ k.label ∷ []) d in
    omega (
      arith,
      labels_in-group kills next,
      labels_in-store symptom_types d k.symptom k.label,
      once k.symptom,
    )

none_yet : labels_in symptom_types [] ≡ 0
unfolding labels_in find
none_yet = refl

-- A report counts each labeled kill once.
pub build_calibration_report-total :
    (policy : Policy) (kills : List LabeledKill)
    → (build_calibration_report policy kills).total_labeled_kills ≡ length kills
unfolding build_calibration_report
build_calibration_report-total policy kills = omega (
  arith,
  total-calibrate_all symptom_types (group kills []) policy,
  labels_in-group kills [],
  none_yet,
)
