-- ===== src/Calibration.antt =====
-- packages/hermeskill-sdk/src/hermeskill/calibration.py, with the selection of the labeled kills in
-- packages/hermeskill-control-plane/src/control_plane/api/calibration.py: what the feedback on past kills says
-- about a policy. A threshold is in the unit of its field; a rate is compared as a fraction, without the
-- rounding of floats.
pub mod Counts
pub mod Loosened
use mathlib.Core.List.{reverse}
use hermeskill.Common.{
  ℕ, suc, ◌+◌, ◌*◌, ◌/◌, ◌%◌, String, Bool, true, false, Option, none, some, List, [], ◌∷◌, ◌++◌,
  map, length, keep_if, last?, Dict, find, store, ltb, leb, nat_beq, ◌==◌, string_eq, if◌then◌else◌,
}
use hermeskill.Policy.{SymptomType, Policy, value, symptom_of}
use hermeskill.Json.{Json, Fields, str, done, lookup}

pub data FeedbackLabel : Type 0 where
  good_kill false_positive missed_kill other : FeedbackLabel

-- `FeedbackLabel(raw)`; none stands for the ValueError.
unfoldable pub label_of : String → Option FeedbackLabel
label_of raw =
    if raw == "good_kill"
    then some FeedbackLabel.good_kill
    else if raw == "false_positive"
    then some FeedbackLabel.false_positive
    else if raw == "missed_kill"
    then some FeedbackLabel.missed_kill
    else if raw == "other"
    then some FeedbackLabel.other
    else none

pub data KnobKind : Type 0 where
  int seconds usd : KnobKind

pub record Knob : Type 0 where
  pub field : String
  pub kind : KnobKind

-- `_SYMPTOM_KNOB.get(symptom)`
unfoldable pub knob_of : SymptomType → Option Knob
knob_of SymptomType.loop = some (record { field = "max_loop_repeats"; kind = KnobKind.int })
knob_of SymptomType.token_runaway = some (record { field = "max_cost_usd"; kind = KnobKind.usd })
knob_of SymptomType.wall_clock =
    some (record { field = "max_runtime_seconds"; kind = KnobKind.seconds })
knob_of _ = none

-- `getattr(policy.thresholds, knob.field)`
unfoldable pub current_of : Policy → KnobKind → ℕ
current_of p KnobKind.int = p.thresholds.max_loop_repeats
current_of p KnobKind.usd = p.thresholds.max_cost_usd
current_of p KnobKind.seconds = p.thresholds.max_runtime_seconds

pub record LabeledKill : Type 0 where
  pub symptom : SymptomType
  pub label : FeedbackLabel

-- `round(n / d)`: to the nearest whole number, and to the even one of two.
abbrev pub round : ℕ → ℕ → ℕ
round n d =
    if ltb (n % d * 2) d
    then n / d
    else if ltb d (n % d * 2)
    then n / d + 1
    else if nat_beq (n / d % 2) 0
    then n / d
    else n / d + 1

-- `_loosen`: one and a half times the value, then to a whole number, to minutes, or to cents.
unfoldable pub loosen : ℕ → KnobKind → ℕ
loosen current KnobKind.int = (current * 3 + 1) / 2
loosen current KnobKind.seconds = round (current * 3) 120 * 60
loosen current KnobKind.usd = round (current * 3) 2000000 * 1000000

-- `_confidence_for`
unfoldable pub confidence_for : ℕ → String
confidence_for n = if leb 30 n then "high" else if leb 10 n then "medium" else "low"

-- The templates of the rationale, with what is written into them.
pub data Rationale : Type 0 where
  too_few : ℕ → Rationale
  -- false positives, total, symptom
  no_knob : ℕ → ℕ → SymptomType → Rationale
  -- false positives, total
  within_tolerance : ℕ → ℕ → Rationale
  -- false positives, total, symptom, policy, field, current, suggested
  consider_raising : ℕ → ℕ → SymptomType → String → String → ℕ → ℕ → Rationale

-- The rate of false positives is the quotient of two fields, and 0 where nothing is labeled.
pub record SymptomCalibration : Type 0 where
  pub symptom : SymptomType
  pub total_labeled : ℕ
  pub good_kills : ℕ
  pub false_positives : ℕ
  pub missed_kills : ℕ
  pub other : ℕ
  pub threshold_field : Option String
  pub current_value : Option ℕ
  pub suggested_value : Option ℕ
  pub confidence : String
  pub rationale : Rationale

abbrev same_label : FeedbackLabel → FeedbackLabel → Bool
same_label FeedbackLabel.good_kill FeedbackLabel.good_kill = true
same_label FeedbackLabel.false_positive FeedbackLabel.false_positive = true
same_label FeedbackLabel.missed_kill FeedbackLabel.missed_kill = true
same_label FeedbackLabel.other FeedbackLabel.other = true
same_label _ _ = false

-- `Counter(labels)[label]`
unfoldable pub count_label : FeedbackLabel → List FeedbackLabel → ℕ
count_label l labels = length (keep_if (same_label l) labels)

-- `base`
unfoldable pub base : SymptomType → List FeedbackLabel → SymptomCalibration
base symptom labels = record {
  symptom = symptom;
  total_labeled = length labels;
  good_kills = count_label FeedbackLabel.good_kill labels;
  false_positives = count_label FeedbackLabel.false_positive labels;
  missed_kills = count_label FeedbackLabel.missed_kill labels;
  other = count_label FeedbackLabel.other labels;
  threshold_field = none;
  current_value = none;
  suggested_value = none;
  confidence = "insufficient_data";
  rationale = Rationale.too_few (length labels);
}

-- The cases 3 and 4, for a symptom with a threshold.
with_knob : SymptomCalibration → Policy → Knob → SymptomCalibration
with_knob b policy knob =
    let current = current_of policy knob.kind in
    if ltb (b.false_positives * 10) (b.total_labeled * 3)
    then record b {
      threshold_field = some knob.field;
      current_value = some current;
      confidence = confidence_for b.total_labeled;
      rationale = Rationale.within_tolerance b.false_positives b.total_labeled;
    }
    else record b {
      threshold_field = some knob.field;
      current_value = some current;
      suggested_value = some (loosen current knob.kind);
      confidence = confidence_for b.total_labeled;
      rationale =
          Rationale.consider_raising b.false_positives b.total_labeled b.symptom policy.name
            knob.field current (loosen current knob.kind);
    }

with_data : SymptomCalibration → Policy → Option Knob → SymptomCalibration
unfolding with_knob
with_data b policy none = record b {
  confidence = confidence_for b.total_labeled;
  rationale = Rationale.no_knob b.false_positives b.total_labeled b.symptom;
}
with_data b policy (some knob) = with_knob b policy knob

-- `_calibrate_symptom`
unfoldable pub calibrate_symptom : SymptomType → List FeedbackLabel → Policy → SymptomCalibration
unfolding with_data
calibrate_symptom symptom labels policy =
    if ltb (length labels) 5
    then base symptom labels
    else with_data (base symptom labels) policy (knob_of symptom)

-- `by_symptom`: the labels of the kills, under the text of the symptom.
abbrev or_empty : Option (List FeedbackLabel) → List FeedbackLabel
or_empty none = []
or_empty (some labels) = labels

abbrev labels_under : Dict (List FeedbackLabel) → String → List FeedbackLabel
labels_under d k = or_empty (find d k)

unfoldable pub group : List LabeledKill → Dict (List FeedbackLabel) → Dict (List FeedbackLabel)
group [] d = d
group (k ∷ kills) d =
    group kills (store (value k.symptom) (labels_under d (value k.symptom) ++ k.label ∷ []) d)

-- `SymptomType`, in the order of its declaration.
abbrev pub symptom_types : List SymptomType
symptom_types =
    SymptomType.loop ∷ SymptomType.token_runaway ∷ SymptomType.wall_clock
    ∷ SymptomType.tool_scope_violation ∷ SymptomType.heartbeat_stale ∷ SymptomType.manual_kill ∷ []

add_symptom :
    SymptomType
    → Policy
    → Option (List FeedbackLabel)
    → List SymptomCalibration
    → List SymptomCalibration
add_symptom symptom policy none rest = rest
add_symptom symptom policy (some labels) rest = calibrate_symptom symptom labels policy ∷ rest

unfoldable pub calibrate_all :
    List SymptomType → Dict (List FeedbackLabel) → Policy → List SymptomCalibration
unfolding add_symptom
calibrate_all [] d policy = []
calibrate_all (s ∷ ss) d policy =
    add_symptom s policy (find d (value s)) (calibrate_all ss d policy)

unfoldable pub total_of : List SymptomCalibration → ℕ
total_of [] = 0
total_of (c ∷ cs) = c.total_labeled + total_of cs

pub record CalibrationReport : Type 0 where
  pub policy_name : String
  pub total_labeled_kills : ℕ
  pub symptoms : List SymptomCalibration

unfoldable pub build_calibration_report : Policy → List LabeledKill → CalibrationReport
build_calibration_report policy kills =
    let symptoms = calibrate_all symptom_types (group kills []) policy in
    record {
      policy_name = policy.name;
      total_labeled_kills = total_of symptoms;
      symptoms = symptoms;
    }

-- `_terminal_symptom`, of the log of the symptoms in a certificate; its entries are dicts.
abbrev is_terminal_entry : Fields → Bool
is_terminal_entry e = elim (lookup "severity" e) [ some (str s) ↦ s == "terminal" | _ ↦ false ]

first_terminal : List Fields → Option Fields
first_terminal [] = none
first_terminal (e ∷ es) = if is_terminal_entry e then some e else first_terminal es

entry_symptom : Option Fields → Option SymptomType
entry_symptom none = none
entry_symptom (some done) = none
entry_symptom (some e) = elim (lookup "symptom" e) [ some (str s) ↦ symptom_of s | _ ↦ none ]

or_last : Option Fields → List Fields → Option Fields
or_last (some e) log = some e
or_last none log = last? log

unfoldable pub terminal_symptom : Option (List Fields) → Option SymptomType
unfolding first_terminal entry_symptom or_last
terminal_symptom none = none
terminal_symptom (some log) = entry_symptom (or_last (first_terminal (reverse log)) log)

-- `_parse_label`
unfoldable pub parse_label : Option String → Option FeedbackLabel
parse_label none = none
parse_label (some raw) = label_of raw

labeled_if : Option SymptomType → Option FeedbackLabel → List LabeledKill → List LabeledKill
labeled_if (some s) (some l) rest = record { symptom = s; label = l } ∷ rest
labeled_if _ _ rest = rest

-- The loop of `get_policy_calibration` over the rows of its query.
unfoldable pub labeled : List (Option (List Fields) × Option String) → List LabeledKill
unfolding labeled_if
labeled [] = []
labeled ((cert, raw_label) ∷ rows) =
    labeled_if (terminal_symptom cert) (parse_label raw_label) (labeled rows)
