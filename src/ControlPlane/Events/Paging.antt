-- ===== src/ControlPlane/Events/Paging.antt =====
-- events.py: the pages of an agent's events, one after another.
use mathlib.Core.List.{reverse, append_assoc, append-nil}
use mathlib.Core.Path.{subst}
use hermeskill.Common.{
  ℕ, zero, suc, ◌≤◌, ◌<◌, String, ◌≡◌, refl, sym, ap, ◌∙◌, ◌⊎◌, inl, inr, false, Bool-cases, Option,
  none, some, List, [], ◌∷◌, ◌++◌, length, take, drop, last?, keep_if, All, ltb, nat_beq,
  nat_beq_iff, length-append, length-drop, take-append-drop, last?-append, arith,
}
use hermeskill.ControlPlane.Events.{EventRow, EventLog, of_agent, older, head_page}

-- Ids that fall along a list.
unfoldable pub Falls : List EventRow → Type 0
Falls [] = Unit
Falls (x ∷ xs) = All (λ r. r.id < x.id) xs × Falls xs

-- Ids that grow along a list.
unfoldable pub Rises : List EventRow → Type 0
Rises [] = Unit
Rises (x ∷ xs) = All (λ r. x.id < r.id) xs × Rises xs

keep_if-All :
    (n : ℕ) (xs : List EventRow) → All (λ r. r.id < n) xs → keep_if (λ r. ltb r.id n) xs ≡ xs
keep_if-All n [] h = refl
keep_if-All n (x ∷ xs) (now, later) = ground (arith, keep_if-All n xs later, now)

middle :
    (P : EventRow → Type 0) (xs : List EventRow) (r : EventRow) (ys : List EventRow)
    → All P (xs ++ r ∷ ys)
    → P r
middle P [] r ys (now, later) = now
middle P (x ∷ xs) r ys (now, later) = middle P xs r ys later

-- Below the id of a row of a falling list stand the rows after it.
keep_below :
    (xs : List EventRow) (r : EventRow) (ys : List EventRow)
    → Falls (xs ++ r ∷ ys)
    → keep_if (λ x. ltb x.id r.id) (xs ++ r ∷ ys) ≡ ys
unfolding Falls
keep_below [] r ys (now, later) = ground (arith, keep_if-All r.id ys now)
keep_below (x ∷ xs) r ys (now, later) =
    ground (arith, keep_below xs r ys later, middle (λ y. y.id < x.id) xs r ys now)

snoc-cases :
    {A : Type 0} (xs : List A) → (xs ≡ []) ⊎ ((init : List A) × (r : A) × (xs ≡ init ++ r ∷ []))
snoc-cases [] = inl refl
snoc-cases (x ∷ xs) = elim (snoc-cases xs) [
  | inl e ↦ inr ([], x, ap (◌∷◌ x) e)
  | inr (init, r, e) ↦ inr (x ∷ init, r, ap (◌∷◌ x) e)
]

not_both : (a n : ℕ) → nat_beq (suc a) (suc n) ≡ false → nat_beq a n ≡ false
not_both a n h = ground arith

take_short :
    {A : Type 0} (n : ℕ) (xs : List A) → nat_beq (length (take n xs)) n ≡ false → take n xs ≡ xs
take_short zero xs h = cc h
take_short (suc n) [] h = refl
take_short (suc n) (x ∷ xs) h = ap (◌∷◌ x) (take_short n xs (not_both (length (take n xs)) n h))

-- The pages that follow one another from a cursor, one after another.
unfoldable pub history : ℕ → ℕ → Option ℕ → String → EventLog → List EventRow
history zero limit cursor agent_id log = []
history (suc fuel) limit cursor agent_id log =
    let page = head_page limit cursor agent_id log in
    page.events
    ++ elim page.next_before_id [ none ↦ [] | some id ↦ history fuel limit (some id) agent_id log ]

module _ (limit : ℕ) (agent_id : String) (log : EventLog) (pos : 1 ≤ limit) where
  abbrev pub all_rows : List EventRow
  all_rows = reverse (of_agent agent_id log)

  -- After a full page that ends with `r`, the cursor stands before what is left.
  pub history_from :
      (fuel : ℕ) (cursor : Option ℕ) (before rest : List EventRow)
      → Falls all_rows
      → all_rows ≡ before ++ rest
      → older cursor all_rows ≡ rest
      → length rest < fuel
      → history fuel limit cursor agent_id log ≡ rest
  unfolding history head_page
  history_from zero cursor before rest falls split here short = grind (arith, short)
  history_from (suc fuel) cursor before rest falls split here short =
      elim (Bool-cases (nat_beq (length (take limit rest)) limit)) [
        | inr e ↦ rw (here, e) (append-nil (take limit rest) ∙ take_short limit rest e)
        | inl e ↦ elim (snoc-cases (take limit rest)) [
          | inl f ↦ grind (arith, pos, e, ap length f)
          | inr (init, r, f) ↦
              let ends : last? (take limit rest) ≡ some r = ap last? f ∙ last?-append init r in
              let whole = take-append-drop limit rest in
              let split_here : all_rows ≡ (before ++ init) ++ r ∷ drop limit rest =
                split
                ∙ ap (◌++◌ before) (sym whole)
                ∙ ap (λ zs. before ++ (zs ++ drop limit rest)) f
                ∙ ap (◌++◌ before) (append_assoc init (r ∷ []) (drop limit rest))
                ∙ sym (append_assoc before init (r ∷ drop limit rest)) in
              let rest_here =
                history_from fuel (some r.id) (before ++ take limit rest) (drop limit rest) falls
                  (split
                    ∙ ap (◌++◌ before) (sym whole)
                    ∙ sym (append_assoc before (take limit rest) (drop limit rest)))
                  (ap (older (some r.id)) split_here
                    ∙ keep_below (before ++ init) r (drop limit rest)
                        (subst Falls split_here falls))
                  (omega (
                    arith,
                    length-drop limit rest,
                    short,
                    pos,
                    (nat_beq_iff (length (take limit rest)) limit).0 e,
                    ap length whole,
                    length-append (take limit rest) (drop limit rest),
                  )) in
              rw (here, e, ends) (ap (◌++◌ (take limit rest)) rest_here ∙ whole)
        ]
      ]
