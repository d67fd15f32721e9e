-- ===== src/Tests/Advice.antt =====
-- Examples for the calibration.
use hermeskill.Common.{◌≡◌, ◌≤◌, ◌*◌, refl, ◌↔◌, some, List, [], ◌∷◌, length, arith}
use hermeskill.Policy.{SymptomType, Policy}
use hermeskill.Policy.Shipped.{coding_default, resolve_policy}
use hermeskill.Calibration.{
  FeedbackLabel, LabeledKill, KnobKind, count_label, calibrate_symptom, knob_of, current_of, loosen,
  base,
}
use hermeskill.Calibration.Loosened.{
  CallsFor, calibrate_symptom-CallsFor, suggestion_never_tightens, short_limit_suggests_zero,
}

abbrev wrong : FeedbackLabel
wrong = FeedbackLabel.false_positive

abbrev right : FeedbackLabel
right = FeedbackLabel.good_kill

abbrev labels : List FeedbackLabel
labels = wrong ∷ right ∷ wrong ∷ right ∷ right ∷ []

abbrev kills : List LabeledKill
kills =
    record { symptom = SymptomType.loop; label = right }
    ∷ record { symptom = SymptomType.wall_clock; label = wrong }
    ∷ record { symptom = SymptomType.loop; label = FeedbackLabel.other }
    ∷ []

calibrate_symptom-CallsFor_example :
    ((calibrate_symptom SymptomType.loop labels coding_default).suggested_value ≡ some 8)
    ↔ CallsFor SymptomType.loop labels coding_default 8
calibrate_symptom-CallsFor_example =
    calibrate_symptom-CallsFor SymptomType.loop labels coding_default 8

suggests_45_minutes :
    (calibrate_symptom SymptomType.wall_clock labels coding_default).suggested_value ≡ some 2700
unfolding calibrate_symptom knob_of current_of loosen count_label base
suggests_45_minutes = refl

ships : resolve_policy "coding-default" ≡ some coding_default
unfolding resolve_policy
ships = refl

has_knob :
    knob_of SymptomType.wall_clock
    ≡ some (record { field = "max_runtime_seconds"; kind = KnobKind.seconds })
unfolding knob_of
has_knob = refl

suggestion_never_tightens_example : current_of coding_default KnobKind.seconds ≤ 2700
suggestion_never_tightens_example =
    suggestion_never_tightens "coding-default" SymptomType.wall_clock labels coding_default
      (record { field = "max_runtime_seconds"; kind = KnobKind.seconds }) 2700 ships has_knob
      suggests_45_minutes

abbrev hasty : Policy
hasty = record coding_default {
  thresholds = record coding_default.thresholds { max_runtime_seconds = 20 };
}

bad_enough : length labels * 3 ≤ count_label FeedbackLabel.false_positive labels * 10
unfolding count_label
bad_enough = omega arith

short_limit_suggests_zero_example :
    (calibrate_symptom SymptomType.wall_clock labels hasty).suggested_value ≡ some 0
short_limit_suggests_zero_example =
    short_limit_suggests_zero labels hasty (omega arith) (omega arith) bad_enough
