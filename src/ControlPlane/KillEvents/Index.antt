-- ===== src/ControlPlane/KillEvents/Index.antt =====
-- migrations/versions/0002_kill_events.py: the partial unique index, and the ids of the kill events.
use hermeskill.Common.{
  ℕ, ◌+◌, ◌≤◌, ◌<◌, String, ◌≡◌, refl, sym, ap, ◌∙◌, ◌↔◌, inl, inr, Bool, true, false, ◌&&◌,
  Bool-cases, List, [], ◌∷◌, ◌++◌, arith, any, keep_if, length, ltb, eq_iff, nat_beq_iff, ◌==◌,
  string_eq, nat_eq,
}
use hermeskill.ControlPlane.{KillEvent}
use hermeskill.ControlPlane.KillEvents.{is_active, is_active_of, breaks_index, replace_row}

abbrev pub active_count : String → List KillEvent → ℕ
active_count agent_id rows = length (keep_if (is_active_of agent_id) rows)

abbrev pub OneActive : List KillEvent → Type 0
OneActive rows = (agent_id : String) → active_count agent_id rows ≤ 1

any_of_kept {ℓ} :
    {A : Type ℓ} (p q : A → Bool) (xs : List A)
    → ((x : A) → q x ≡ true → p x ≡ true)
    → 1 ≤ length (keep_if q xs)
    → any p xs ≡ true
any_of_kept p q [] h n = absurd (omega arith)
any_of_kept p q (x ∷ xs) h n = elim (Bool-cases (q x)) [
  | inl e ↦ rw (h x e) refl
  | inr e ↦ ground (arith, any_of_kept p q xs h (rw e at n))
]

any-false {ℓ} :
    {A : Type ℓ} (p : A → Bool) (xs : List A) → ((x : A) → p x ≡ false) → any p xs ≡ false
any-false p [] h = refl
any-false p (x ∷ xs) h = rw (h x, any-false p xs h) refl

crowded_row :
    (rows : List KillEvent) (agent_id : String) (k : KillEvent)
    → 2 ≤ active_count agent_id rows
    → is_active_of agent_id k ≡ true
    → (is_active k && ltb 1 (active_count k.agent_id rows)) ≡ true
crowded_row rows agent_id k two h =
    let same : k.agent_id ≡ agent_id = ground (arith, eq_iff k.agent_id agent_id) in
    rw same (ground arith)

-- The index accepts a table exactly when no agent has two active kill events in it.
pub breaks_index_iff : (rows : List KillEvent) → (breaks_index rows ≡ false) ↔ OneActive rows
unfolding breaks_index
breaks_index_iff rows = (accepted, λ one. any-false _ rows (λ k. ground (arith, one k.agent_id)))
  where
    accepted : breaks_index rows ≡ false → OneActive rows
    accepted ok agent_id = elim (Bool-cases (ltb 1 (active_count agent_id rows))) [
      | inr few ↦ ground arith
      | inl many ↦
          let two : 2 ≤ active_count agent_id rows = ground arith in
          absurd (
            cc (
              ok,
              any_of_kept (λ k. is_active k && ltb 1 (active_count k.agent_id rows))
                  (is_active_of agent_id) rows (λ k h. crowded_row rows agent_id k two h)
                  (omega arith),
            ))
    ]

-- The ids grow along the table, from `low` to below `next`.
abbrev pub Ascending : ℕ → ℕ → List KillEvent → Type 0
Ascending low next [] = low ≤ next
Ascending low next (k ∷ rows) = (low ≤ k.id) × Ascending (k.id + 1) next rows

pub append-Ascending :
    (low next : ℕ) (rows : List KillEvent) (k : KillEvent)
    → k.id ≡ next
    → Ascending low next rows
    → Ascending low (next + 1) (rows ++ k ∷ [])
append-Ascending low next [] k e h = (omega arith, omega arith)
append-Ascending low next (j ∷ rows) k e (h, t) = (h, append-Ascending (j.id + 1) next rows k e t)

pub replace_row-Ascending :
    (low next : ℕ) (rows : List KillEvent) (k : KillEvent)
    → Ascending low next rows
    → Ascending low next (replace_row k rows)
unfolding replace_row
replace_row-Ascending low next [] k h = h
replace_row-Ascending low next (j ∷ rows) k (h, t) = elim (Bool-cases (j.id == k.id)) [
  | inl e ↦
      let same : j.id ≡ k.id = (nat_beq_iff j.id k.id).0 e in
      rw (e, ← same) (h, replace_row-Ascending (j.id + 1) next rows k t)
  | inr e ↦ rw e (h, replace_row-Ascending (j.id + 1) next rows k t)
]

-- A row of the table below the ids that are left is not written.
pub replace_row_below :
    (low next : ℕ) (rows : List KillEvent) (k : KillEvent)
    → k.id < low
    → Ascending low next rows
    → replace_row k rows ≡ rows
unfolding replace_row
replace_row_below low next [] k h a = refl
replace_row_below low next (j ∷ rows) k h (a, t) =
    ground (arith, replace_row_below (j.id + 1) next rows k (omega arith) t)

pub kept_above :
    (low next : ℕ) (rows : List KillEvent) (p : KillEvent → Bool) (k : KillEvent)
    → Ascending low next rows
    → keep_if p rows ≡ k ∷ []
    → low ≤ k.id
kept_above low next [] p k a e = absurd (cc e)
kept_above low next (j ∷ rows) p k (a, t) e = elim (Bool-cases (p j)) [
  | inl y ↦ ground (arith, rw y at e)
  | inr n ↦ omega (arith, kept_above (j.id + 1) next rows p k t (rw n at e))
]

pub count_head {ℓ} :
    {A : Type ℓ} (p : A → Bool) (x y : A) (xs : List A)
    → p x ≡ p y
    → length (keep_if p (x ∷ xs)) ≡ length (keep_if p (y ∷ xs))
count_head p x y xs e = elim (Bool-cases (p y)) [ inl h ↦ rw (e, h) refl | inr h ↦ rw (e, h) refl ]

-- Writing a row over the one active row of an agent, with the agent and the activity unchanged, leaves
-- the rows of every agent as many as they were.
pub active_count-replace_row :
    (low next : ℕ) (rows : List KillEvent) (agent_id other : String) (k row : KillEvent)
    → Ascending low next rows
    → keep_if (is_active_of agent_id) rows ≡ k ∷ []
    → row.id ≡ k.id
    → is_active_of other row ≡ is_active_of other k
    → active_count other (replace_row row rows) ≡ active_count other rows
unfolding replace_row
active_count-replace_row low next [] agent_id other k row a e same_id same = absurd (cc e)
active_count-replace_row low next (j ∷ rows) agent_id other k row (a, t) e same_id same =
    elim (Bool-cases (is_active_of agent_id j)) [
      | inl y ↦
          let found : j ≡ k = ground (arith, rw y at e) in
          let at_head : (j.id == row.id) ≡ true =
            (nat_beq_iff j.id row.id).1 (ap (λ w. w.id) found ∙ sym same_id) in
          rw
            (
              at_head,
              replace_row_below (j.id + 1) next rows row (omega (arith, ap (λ w. w.id) found)) t,
              found,
            )
            (count_head (is_active_of other) row k rows same)
      | inr n ↦
          let above = kept_above (j.id + 1) next rows (is_active_of agent_id) k t (rw n at e) in
          ground (
            arith,
            active_count-replace_row (j.id + 1) next rows agent_id other k row t (rw n at e) same_id
                same,
          )
    ]
