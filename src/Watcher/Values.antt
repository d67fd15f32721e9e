-- ===== src/Watcher/Values.antt =====
-- The texts and dicts that the checks and the watcher build: a reason is the template of an f-string
-- with its arguments, and a detail is a dict in the order of insertion.
use hermeskill.Common.{ℕ, String, Option, none, some, List, [], ◌∷◌, ◌==◌, string_eq, if◌then◌else◌}

pub data Reason : Type 0 where
  -- signature, count, window, cap
  loop_repeated : String → ℕ → ℕ → ℕ → Reason
  -- signature, count, window, steer, cap, remaining
  loop_steered : String → ℕ → ℕ → ℕ → ℕ → ℕ → Reason
  cost_over tokens_over runtime_over : ℕ → ℕ → Reason
  tool_not_allowed : String → Reason
  suppressed : Reason → Reason
  manual : String → Reason
  text : String → Reason

pub data Value : Type 0 where
  null : Value
  str : String → Value
  num : ℕ → Value
  strs : List String → Value
  reason : Reason → Value

abbrev pub Detail : Type 0
Detail = List (String × Value)

-- d[k] = v
unfoldable pub put : String → Value → Detail → Detail
put k v [] = (k, v) ∷ []
put k v ((j, w) ∷ d) = if j == k then (j, v) ∷ d else (j, w) ∷ put k v d

-- d.get(k)
unfoldable pub get : String → Detail → Option Value
get k [] = none
get k ((j, v) ∷ d) = if j == k then some v else get k d

abbrev pub or_null : Option String → Value
or_null none = Value.null
or_null (some s) = Value.str s

pub data Severity : Type 0 where
  warning terminal steer : Severity
