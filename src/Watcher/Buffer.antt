-- ===== src/Watcher/Buffer.antt =====
-- The ring buffer of watcher.py, `deque(maxlen=loop_window_actions)`, against the history of calls.
use hermeskill.Common.{
  ℕ, zero, suc, ◌+◌, ◌-◌, ◌≤◌, ◌<◌, ◌≡◌, refl, sym, ap, ◌∙◌, some, List, [], ◌∷◌, ◌++◌, arith,
  length, drop, last?, length-append, length-drop, last?-append,
}
use hermeskill.Watcher.{append_bounded}

-- The last `n` entries.
abbrev pub latest {ℓ} : {A : Type ℓ} → ℕ → List A → List A
latest n xs = drop (length xs - n) xs

module _ {ℓ} {A : Type ℓ} where
  drop-append : (j : ℕ) (xs ys : List A) → j ≤ length xs → drop j xs ++ ys ≡ drop j (xs ++ ys)
  drop-append zero xs ys h = refl
  drop-append (suc j) [] ys h = absurd (omega arith)
  drop-append (suc j) (x ∷ xs) ys h = drop-append j xs ys (omega arith)

  drop-nil : (k : ℕ) → drop {A = A} k [] ≡ []
  drop-nil zero = refl
  drop-nil (suc k) = refl

  pub latest-nil : (n : ℕ) → latest {A = A} n [] ≡ []
  latest-nil n = drop-nil (0 - n)

  drop-drop : (i j k : ℕ) (xs : List A) → k ≡ j + i → drop i (drop j xs) ≡ drop k xs
  drop-drop i zero k xs e = ap (λ m. drop m xs) (omega arith)
  drop-drop i (suc j) k [] e = drop-nil i ∙ sym (drop-nil k)
  drop-drop i (suc j) zero (x ∷ xs) e = absurd (omega arith)
  drop-drop i (suc j) (suc k) (x ∷ xs) e = drop-drop i j k xs (omega arith)

  last?-drop : (k : ℕ) (xs : List A) → k < length xs → last? (drop k xs) ≡ last? xs
  last?-drop zero xs h = refl
  last?-drop (suc k) [] h = absurd (omega arith)
  last?-drop (suc k) (x ∷ []) h = absurd (omega arith)
  last?-drop (suc k) (x ∷ y ∷ xs) h = last?-drop k (y ∷ xs) (omega arith)

  -- The buffer never holds more than its bound.
  pub length-append_bounded-le : (n : ℕ) (xs : List A) (x : A) → length (append_bounded n xs x) ≤ n
  unfolding append_bounded
  length-append_bounded-le n xs x =
      omega (arith, length-drop {ℓ} (length (xs ++ x ∷ []) - n) (xs ++ x ∷ []))

  -- What was appended last is in it.
  pub last?-append_bounded :
      (n : ℕ) (xs : List A) (x : A) → 1 ≤ n → last? (append_bounded n xs x) ≡ some x
  unfolding append_bounded
  last?-append_bounded n xs x h =
      last?-drop (length (xs ++ x ∷ []) - n) (xs ++ x ∷ [])
        (omega (arith, length-append {ℓ} xs (x ∷ [])))
      ∙ last?-append xs x

  -- Appending to the latest `n` of a history gives the latest `n` of the longer history.
  pub append_bounded-latest :
      (n : ℕ) (xs : List A) (x : A) → append_bounded n (latest n xs) x ≡ latest n (xs ++ x ∷ [])
  unfolding append_bounded
  append_bounded-latest n xs x = rw (drop-append (length xs - n) xs (x ∷ []) (omega arith)) (
      drop-drop _ (length xs - n) _ (xs ++ x ∷ []) (
        omega
          (arith, length-append {ℓ} xs (x ∷ []), length-drop {ℓ} (length xs - n) (xs ++ x ∷ []))))
