-- ===== src/Pricing.antt =====
-- packages/hermeskill-sdk/src/hermeskill/pricing.py. A price is a number of cents for 10⁶ tokens, so a
-- cost is a whole number of 10⁻⁸ dollars; the source computes it in floats, whose rounding is not
-- modelled. The warnings, which are only logged, and the date of a price, which only they read, are
-- left out.
use hermeskill.Common.{
  codes, codes_eq, strip, to_lower, ℕ, ◌+◌, ◌*◌, String, ◌≡◌, refl, Option, none, some, List, [],
  ◌∷◌, map, arith, nat_beq, if◌then◌else◌,
}

pub record Price : Type 0 where
  pub input_per_mtok : ℕ
  pub output_per_mtok : ℕ

abbrev price : String → ℕ → ℕ → List ℕ × Price
price name i o = (codes name, record { input_per_mtok = i; output_per_mtok = o })

-- `_TABLE`
abbrev pub table : List (List ℕ × Price)
table =
    price "claude-haiku-4-5" 100 500
    ∷ price "claude-sonnet-4-7" 300 1500
    ∷ price "claude-opus-4-7" 1500 7500
    ∷ price "gpt-4o-mini" 15 60
    ∷ price "gpt-4o" 250 1000
    ∷ price "gpt-5" 500 2000
    ∷ []

-- `model.split(":", 1)[-1]`
after_colon : List ℕ → Option (List ℕ)
after_colon [] = none
after_colon (c ∷ cs) = if nat_beq c b':' then some cs else after_colon cs

abbrev or_whole : Option (List ℕ) → List ℕ → List ℕ
or_whole none s = s
or_whole (some t) s = t

-- `_normalize`
unfoldable pub normalize : String → List ℕ
unfolding strip after_colon to_lower
normalize model = let s = codes model in map to_lower (strip (or_whole (after_colon s) s))

unfoldable pub price_of : List ℕ → List (List ℕ × Price) → Option Price
unfolding codes_eq
price_of key [] = none
price_of key ((k, p) ∷ rest) = if codes_eq k key then some p else price_of key rest

abbrev pub cost_at : Option Price → ℕ → ℕ → ℕ
cost_at none input output = 0
cost_at (some p) input output = input * p.input_per_mtok + output * p.output_per_mtok

unfoldable pub cost_for_usage : String → ℕ → ℕ → ℕ
unfolding normalize price_of
cost_for_usage model input output = cost_at (price_of (normalize model) table) input output

cost_at-add :
    (q : Option Price) (i j o p : ℕ) → cost_at q (i + j) (o + p) ≡ cost_at q i o + cost_at q j p
cost_at-add none i j o p = refl
cost_at-add (some q) i j o p = grind arith

-- The cost of two calls of one model is that of one call with the tokens of both.
pub cost_for_usage-add :
    (model : String) (i j o p : ℕ)
    → cost_for_usage model (i + j) (o + p) ≡ cost_for_usage model i o + cost_for_usage model j p
unfolding cost_for_usage
cost_for_usage-add model i j o p = cost_at-add (price_of (normalize model) table) i j o p
