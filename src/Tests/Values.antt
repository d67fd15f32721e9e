-- ===== src/Tests/Values.antt =====
-- Examples for policies, prices and the ring buffer.
use hermeskill.Common.{String, ◌≤◌, ◌≡◌, refl, some, List, [], ◌∷◌, length}
use hermeskill.Policy.{SymptomType, value, symptom_of}
use hermeskill.Policy.Validation.{symptom_of-value}
use hermeskill.Pricing.{cost_for_usage}
use hermeskill.Watcher.{append_bounded}
use hermeskill.Watcher.Buffer.{length-append_bounded-le}

prefixed_price : cost_for_usage " anthropic:Claude-Sonnet-4-7 " 1000000 2000 ≡ 303000000
unfolding cost_for_usage
prefixed_price = refl

unknown_is_free : cost_for_usage "gpt-9" 1000000 2000 ≡ 0
unfolding cost_for_usage
unknown_is_free = refl

symptom_of-value_example : symptom_of (value SymptomType.wall_clock) ≡ some SymptomType.wall_clock
symptom_of-value_example = symptom_of-value SymptomType.wall_clock

abbrev two_calls : List String
two_calls = "a" ∷ "b" ∷ []

length-append_bounded-le_example : length (append_bounded 2 two_calls "c") ≤ 2
length-append_bounded-le_example = length-append_bounded-le 2 two_calls "c"

abbrev three_calls : List String
three_calls = "a" ∷ "b" ∷ "c" ∷ []
