-- ===== src/Common/Dicts.antt =====
-- Dictionaries as lists of entries, oldest first, with texts as keys.
use Prim.Native.Nat.{ℕ, ◌+◌, ◌≤◌}
use Prim.Native.String.{String}
use mathlib.Core.Path.{◌≡◌, refl, ap}
use mathlib.Core.Logic.{inl, inr}
use mathlib.Core.Bool.{Bool, true, false, ◌||◌}
use mathlib.Core.Option.{Option, none, some}
use mathlib.Core.List.{List, [], ◌∷◌}
use native.Mathlib.Omega.{arith}
use hermeskill.Common.Tests.{if◌then◌else◌, Bool-cases}
use hermeskill.Common.Equality.{◌==◌, string_eq, beq_refl, contains}

abbrev pub Dict {ℓ} : Type ℓ → Type ℓ
Dict V = List (String × V)

abbrev pub weight {ℓ} : {V : Type ℓ} → (V → ℕ) → Option V → ℕ
weight f none = 0
weight f (some v) = f v

module _ {ℓ} {V : Type ℓ} where
  -- d.get(k)
  unfoldable pub find : Dict V → String → Option V
  find [] k = none
  find ((j, v) ∷ d) k = if j == k then some v else find d k

  -- d.pop(k, None)
  unfoldable pub erase : String → Dict V → Dict V
  erase k [] = []
  erase k ((j, v) ∷ d) = let rest = erase k d in if j == k then d else (j, v) ∷ rest

  -- d[k] = w
  unfoldable pub store : String → V → Dict V → Dict V
  store k w [] = (k, w) ∷ []
  store k w ((j, v) ∷ d) = let rest = store k w d in if j == k then (j, w) ∷ d else (j, v) ∷ rest

  unfoldable pub keys : Dict V → List String
  keys [] = []
  keys ((j, v) ∷ d) = j ∷ keys d

  -- The sum of what `f` gives for the values.
  unfoldable pub tally : (V → ℕ) → Dict V → ℕ
  tally f [] = 0
  tally f ((j, v) ∷ d) = f v + tally f d

  -- How many entries a key has.
  unfoldable pub entries : String → Dict V → ℕ
  entries k [] = 0
  entries k ((j, v) ∷ d) = (if j == k then 1 else 0) + entries k d

text_of : (j k : String) → (j == k) ≡ true → j ≡ k
text_of j k e = (string_eq.same_iff j k).0 e

or_true : (b : Bool) → (b || true) ≡ true
or_true b = ground arith

module _ {ℓ} {V : Type ℓ} where
  pub tally-erase :
      (f : V → ℕ) (k : String) (d : Dict V) → tally f (erase k d) + weight f (find d k) ≡ tally f d
  unfolding tally erase find
  tally-erase f k [] = refl
  tally-erase f k ((j, v) ∷ d) = elim (Bool-cases (j == k)) [
    | inl e ↦ rw e (omega arith)
    | inr e ↦ rw e (omega (arith, tally-erase f k d))
  ]

  pub tally-store :
      (f : V → ℕ) (k : String) (w : V) (d : Dict V)
      → tally f (store k w d) + weight f (find d k) ≡ tally f d + f w
  unfolding tally store find
  tally-store f k w [] = omega arith
  tally-store f k w ((j, v) ∷ d) = elim (Bool-cases (j == k)) [
    | inl e ↦ rw e (omega arith)
    | inr e ↦ rw e (omega (arith, tally-store f k w d))
  ]

  pub find-store : (k : String) (w : V) (d : Dict V) → find (store k w d) k ≡ some w
  unfolding store find
  find-store k w [] = rw (beq_refl k) refl
  find-store k w ((j, v) ∷ d) = elim (Bool-cases (j == k)) [
    | inl e ↦ rw e (rw e refl)
    | inr e ↦ rw e (rw e (find-store k w d))
  ]

  pub entries-erase : (k i : String) (d : Dict V) → entries i (erase k d) ≤ entries i d
  unfolding entries erase
  entries-erase k i [] = omega arith
  entries-erase k i ((j, v) ∷ d) = elim (Bool-cases (j == k)) [
    | inl e ↦ rw e (omega arith)
    | inr e ↦ rw e (omega (arith, entries-erase k i d))
  ]

  pub find-absent : (k : String) (d : Dict V) → entries k d ≡ 0 → find d k ≡ none
  unfolding entries find
  find-absent k [] h = refl
  find-absent k ((j, v) ∷ d) h = elim (Bool-cases (j == k)) [
    | inl e ↦ grind (arith, rw e at h)
    | inr e ↦ rw e (find-absent k d (omega (arith, rw e at h)))
  ]

  pub find-erase : (k : String) (d : Dict V) → entries k d ≤ 1 → find (erase k d) k ≡ none
  unfolding entries find erase
  find-erase k [] h = refl
  find-erase k ((j, v) ∷ d) h = elim (Bool-cases (j == k)) [
    | inl e ↦ rw e (find-absent k d (omega (arith, rw e at h)))
    | inr e ↦ rw e (rw e (find-erase k d (omega (arith, rw e at h))))
  ]

  entries-store-same :
      (k : String) (w : V) (d : Dict V) → entries k d ≤ 1 → entries k (store k w d) ≤ 1
  unfolding entries store
  entries-store-same k w [] h = ground arith
  entries-store-same k w ((j, v) ∷ d) h = elim (Bool-cases (j == k)) [
    | inl e ↦ rw e (omega (arith, rw e at h))
    | inr e ↦ rw e (rw e (omega (arith, entries-store-same k w d (omega (arith, rw e at h)))))
  ]

  entries-store-other :
      (k i : String) (w : V) (d : Dict V) → (k == i) ≡ false → entries i (store k w d) ≡ entries i d
  unfolding entries store
  entries-store-other k i w [] h = rw h refl
  entries-store-other k i w ((j, v) ∷ d) h = elim (Bool-cases (j == k)) [
    | inl e ↦ rw e refl
    | inr e ↦ rw e (ap (λ n. (if j == i then 1 else 0) + n) (entries-store-other k i w d h))
  ]

  pub entries-store :
      (k i : String) (w : V) (d : Dict V)
      → ((x : String) → entries x d ≤ 1)
      → entries i (store k w d) ≤ 1
  entries-store k i w d h = elim (Bool-cases (k == i)) [
    | inl e ↦ rw (← text_of k i e) (entries-store-same k w d (h k))
    | inr e ↦ rw (entries-store-other k i w d e) (h i)
  ]

  pub find-store-other :
      (k i : String) (w : V) (d : Dict V) → (k == i) ≡ false → find (store k w d) i ≡ find d i
  unfolding find store
  find-store-other k i w [] h = rw h refl
  find-store-other k i w ((j, v) ∷ d) h = elim (Bool-cases (j == k)) [
    | inl e ↦ rw e (rw (ap (λ x. x == i) (text_of j k e), h) refl)
    | inr e ↦ rw e (ap (λ o. if j == i then some v else o) (find-store-other k i w d h))
  ]

  pub find-erase-other :
      (k i : String) (d : Dict V) → (k == i) ≡ false → find (erase k d) i ≡ find d i
  unfolding find erase
  find-erase-other k i [] h = refl
  find-erase-other k i ((j, v) ∷ d) h = elim (Bool-cases (j == k)) [
    | inl e ↦ rw e (rw (ap (λ x. x == i) (text_of j k e), h) refl)
    | inr e ↦ rw e (ap (λ o. if j == i then some v else o) (find-erase-other k i d h))
  ]

  pub find-some_key :
      (k : String) (v : V) (d : Dict V) → find d k ≡ some v → contains (keys d) k ≡ true
  unfolding find keys
  find-some_key k v [] h = cc h
  find-some_key k v ((j, w) ∷ d) h = elim (Bool-cases (j == k)) [
    | inl e ↦ rw (text_of j k e) (rw (beq_refl k) refl)
    | inr e ↦ rw (find-some_key k v d (rw e at h)) (or_true (k == j))
  ]

  pub absent_everywhere : (d : Dict V) → ((k : String) → find d k ≡ none) → d ≡ []
  unfolding find
  absent_everywhere [] h = refl
  absent_everywhere ((j, v) ∷ d) h = cc (rw (beq_refl j, find) at (h j))
