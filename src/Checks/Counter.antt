-- ===== src/Checks/Counter.antt =====
-- `collections.Counter` over the window, as checks.py uses it: a dict in the order of first insertion,
-- and `most_common(1)`, the first entry of the greatest count.
use native.Mathlib.Nat.{zero-add}
use hermeskill.Common.{
  ℕ, sym, ap, ◌∙◌, false, true, ◌||◌, Option-cases, zero, suc, ◌+◌, ◌≤◌, String, ◌≡◌, refl, inl,
  inr, Bool, Option, none, some, List, [], ◌∷◌, ◌++◌, arith, drop, length, ltb, ◌==◌, string_eq,
  eq_iff, if◌then◌else◌,
}

abbrev pub Counts : Type 0
Counts = List (String × ℕ)

-- counts[sig] += 1
unfoldable pub bump : String → Counts → Counts
bump sig [] = (sig, 1) ∷ []
bump sig ((k, n) ∷ c) = if k == sig then (k, n + 1) ∷ c else (k, n) ∷ bump sig c

unfoldable pub count_into : Counts → List String → Counts
unfolding bump
count_into c [] = c
count_into c (sig ∷ sigs) = count_into (bump sig c) sigs

unfoldable pub counter : List String → Counts
unfolding count_into
counter sigs = count_into [] sigs

-- counts[sig], which is 0 for a missing key
unfoldable pub count_of : String → Counts → ℕ
count_of sig [] = 0
count_of sig ((k, n) ∷ c) = if k == sig then n else count_of sig c

-- The first of the greatest, as Python's `max` picks it.
abbrev pub better : String × ℕ → Option (String × ℕ) → String × ℕ
better e none = e
better (k, n) (some (j, m)) = if ltb n m then (j, m) else (k, n)

unfoldable pub most_common : Counts → Option (String × ℕ)
most_common [] = none
most_common (e ∷ c) = some (better e (most_common c))

-- How often a signature stands in a window: the specification.
unfoldable pub occurrences : String → List String → ℕ
occurrences sig [] = 0
occurrences sig (x ∷ xs) = (if x == sig then 1 else 0) + occurrences sig xs

count_of-bump :
    (sig x : String) (c : Counts)
    → count_of sig (bump x c) ≡ (if x == sig then 1 else 0) + count_of sig c
unfolding count_of bump
count_of-bump sig x [] = ground (arith, eq_iff x sig)
count_of-bump sig x ((k, n) ∷ c) =
    ground (arith, eq_iff k x, eq_iff k sig, eq_iff x sig, count_of-bump sig x c)

count_of-count_into :
    (sig : String) (c : Counts) (xs : List String)
    → count_of sig (count_into c xs) ≡ count_of sig c + occurrences sig xs
unfolding count_into occurrences
count_of-count_into sig c [] = omega arith
count_of-count_into sig c (x ∷ xs) =
    omega (arith, count_of-count_into sig (bump x c) xs, count_of-bump sig x c)

pub count_of-counter :
    (sig : String) (xs : List String) → count_of sig (counter xs) ≡ occurrences sig xs
unfolding counter count_of
count_of-counter sig xs = count_of-count_into sig [] xs ∙ zero-add (occurrences sig xs)

abbrev best : Option (String × ℕ) → ℕ
best none = 0
best (some (k, n)) = n

-- The entry that `most_common` picks bounds every count.
count_of-le-best : (sig : String) (c : Counts) → count_of sig c ≤ best (most_common c)
unfolding most_common count_of
count_of-le-best sig [] = omega arith
count_of-le-best sig ((k, m) ∷ c) = ground (arith, count_of-le-best sig c)

-- A key stands in the dict.
abbrev has : String → Counts → Bool
has sig [] = false
has sig ((k, n) ∷ c) = k == sig || has sig c

-- No key stands twice.
abbrev IsDict : Counts → Type 0
IsDict [] = Unit
IsDict ((k, n) ∷ c) = (has k c ≡ false) × IsDict c

has-bump : (k x : String) (c : Counts) → has k (bump x c) ≡ (x == k || has k c)
unfolding bump
has-bump k x [] = refl
has-bump k x ((j, n) ∷ c) = ground (arith, eq_iff j x, eq_iff j k, eq_iff x k, has-bump k x c)

bump-IsDict : (x : String) (c : Counts) → IsDict c → IsDict (bump x c)
unfolding bump
bump-IsDict x [] d = (refl, tt)
bump-IsDict x ((j, n) ∷ c) d =
    ground (arith, eq_iff j x, eq_iff x j, has-bump j x c, bump-IsDict x c d.1)

count_into-IsDict : (c : Counts) (xs : List String) → IsDict c → IsDict (count_into c xs)
unfolding count_into
count_into-IsDict c [] d = d
count_into-IsDict c (x ∷ xs) d = count_into-IsDict (bump x c) xs (bump-IsDict x c d)

most_common-has :
    (c : Counts) (top : String) (n : ℕ) → most_common c ≡ some (top, n) → has top c ≡ true
unfolding most_common
most_common-has [] top n h = cc
most_common-has ((k, m) ∷ c) top n h = elim (Option-cases (most_common c)) [
  | inl e ↦ ground (arith, eq_iff k top)
  | inr ((j, i), e) ↦ ground (arith, eq_iff k top, most_common-has c j i e)
]

count_of-most_common :
    (c : Counts) (top : String) (n : ℕ)
    → IsDict c
    → most_common c ≡ some (top, n)
    → count_of top c ≡ n
unfolding most_common count_of
count_of-most_common [] top n d h = cc
count_of-most_common ((k, m) ∷ c) top n d h = elim (Option-cases (most_common c)) [
  | inl e ↦ ground (arith, eq_iff k top)
  | inr ((j, i), e) ↦
      ground (arith, eq_iff k top, most_common-has c j i e, count_of-most_common c j i d.1 e)
]

-- The peak of a window: no signature stands in it more often, and the peak's own does so often.
pub record IsPeak (xs : List String) (top : String) (n : ℕ) : Type 0 where
  pub attained : occurrences top xs ≡ n
  pub greatest : (sig : String) → occurrences sig xs ≤ n

pub most_common-IsPeak :
    (xs : List String) (top : String) (n : ℕ)
    → most_common (counter xs) ≡ some (top, n)
    → IsPeak xs top n
unfolding counter
most_common-IsPeak xs top n h = record {
  attained =
      sym (count_of-counter top xs)
      ∙ count_of-most_common (count_into [] xs) top n (count_into-IsDict [] xs tt) h;
  greatest =
      λ sig. omega (arith, count_of-counter sig xs, count_of-le-best sig (counter xs), ap best h);
}

pub occurrences_self : (x : String) (xs : List String) → 1 ≤ occurrences x (x ∷ xs)
unfolding occurrences
occurrences_self x xs = ground (arith, eq_iff x x)

-- A window in which some signature stands has a peak.
pub most_common-counter :
    (sig : String) (xs : List String)
    → 1 ≤ occurrences sig xs
    → (top : String) × (n : ℕ) × (most_common (counter xs) ≡ some (top, n))
most_common-counter sig xs h = elim (Option-cases (most_common (counter xs))) [
  | inl e ↦
      absurd (omega (arith, count_of-counter sig xs, count_of-le-best sig (counter xs), ap best e))
  | inr ((top, n), e) ↦ (top, n, e)
]

pub occurrences-append :
    (sig : String) (xs ys : List String)
    → occurrences sig (xs ++ ys) ≡ occurrences sig xs + occurrences sig ys
unfolding occurrences
occurrences-append sig [] ys = omega arith
occurrences-append sig (x ∷ xs) ys = omega (arith, occurrences-append sig xs ys)

pub occurrences-drop-le :
    (sig : String) (n : ℕ) (xs : List String) → occurrences sig (drop n xs) ≤ occurrences sig xs
unfolding occurrences
occurrences-drop-le sig zero xs = omega arith
occurrences-drop-le sig (suc n) [] = omega arith
occurrences-drop-le sig (suc n) (x ∷ xs) = omega (arith, occurrences-drop-le sig n xs)

pub occurrences-le-length : (sig : String) (xs : List String) → occurrences sig xs ≤ length xs
unfolding occurrences
occurrences-le-length sig [] = omega arith
occurrences-le-length sig (x ∷ xs) = ground (arith, occurrences-le-length sig xs)
