-- ===== src/Vitals/Listing.antt =====
-- vitals.py, `iter_live_snapshots`: the order of the listing, and what is in it.
use mathlib.Core.List.{Perm}
use mathlib.Core.List.Perm
use hermeskill.Common.{
  ℕ, ◌≤◌, inl, inr, Bool, not, ◌&&◌, Bool-cases, Option, none, some, Option-cases, List, [], ◌∷◌,
  All, leb, leb→le, leb_false→lt, keep_if, map, arith,
}
use hermeskill.Vitals.{
  VitalsSnapshot, LiveFile, is_running, too_old, insert, listed, iter_live_snapshots,
}

-- No snapshot is written later than one before it.
abbrev pub IsFreshestFirst : List VitalsSnapshot → Type 0
IsFreshestFirst [] = Unit
IsFreshestFirst (s ∷ ss) = All (λ t. t.written_at ≤ s.written_at) ss × IsFreshestFirst ss

older :
    (m n : ℕ) (ss : List VitalsSnapshot)
    → m ≤ n
    → All (λ t. t.written_at ≤ m) ss
    → All (λ t. t.written_at ≤ n) ss
older m n [] le h = tt
older m n (s ∷ ss) le (now, h) = (omega (arith, now, le), older m n ss le h)

insert-All :
    (n : ℕ) (s : VitalsSnapshot) (ss : List VitalsSnapshot)
    → s.written_at ≤ n
    → All (λ t. t.written_at ≤ n) ss
    → All (λ t. t.written_at ≤ n) (insert s ss)
unfolding insert
insert-All n s [] le h = (le, tt)
insert-All n s (t ∷ ss) le (now, h) = elim (Bool-cases (leb t.written_at s.written_at)) [
  | inl e ↦ rw e (le, (now, h))
  | inr e ↦ rw e (now, insert-All n s ss le h)
]

insert-IsFreshestFirst :
    (s : VitalsSnapshot) (ss : List VitalsSnapshot)
    → IsFreshestFirst ss
    → IsFreshestFirst (insert s ss)
unfolding insert
insert-IsFreshestFirst s [] h = (tt, tt)
insert-IsFreshestFirst s (t ∷ ss) (all, h) = elim (Bool-cases (leb t.written_at s.written_at)) [
  | inl e ↦
      let le = leb→le t.written_at s.written_at e in
      rw e ((le, older t.written_at s.written_at ss le all), (all, h))
  | inr e ↦ rw e (
    insert-All t.written_at s ss (omega (arith, leb_false→lt t.written_at s.written_at e)) all,
    insert-IsFreshestFirst s ss h,
  )
]

insert-Perm : (s : VitalsSnapshot) (ss : List VitalsSnapshot) → Perm (insert s ss) (s ∷ ss)
unfolding insert
insert-Perm s [] = Perm.rfl
insert-Perm s (t ∷ ss) = elim (Bool-cases (leb t.written_at s.written_at)) [
  | inl e ↦ rw e Perm.rfl
  | inr e ↦ rw e (Perm.trans (Perm.cons t (insert-Perm s ss)) (Perm.swap s t ss))
]

-- The readable files, with their times.
abbrev pub readings : List LiveFile → List (ℕ × VitalsSnapshot)
readings [] = []
readings (f ∷ files) =
    let rest = readings files in elim f.content [ none ↦ rest | some s ↦ (f.mtime, s) ∷ rest ]

-- The reading is of an agent that has ended, or of one that has been heard of lately.
abbrev pub is_shown : ℕ → Option ℕ → ℕ × VitalsSnapshot → Bool
is_shown now max_age (mtime, s) = not (is_running s.status && too_old now mtime max_age)

abbrev pub shown : ℕ → Option ℕ → List LiveFile → List VitalsSnapshot
shown now max_age files = map (λ r. r.1) (keep_if (is_shown now max_age) (readings files))

-- The listing is freshest first, and has just the readable snapshots, each once, of the agents that have ended and
-- of the running ones whose file is not older than the limit on the age, if there is one.
pub iter_live_snapshots-Perm :
    (now : ℕ) (max_age : Option ℕ) (files : List LiveFile)
    → IsFreshestFirst (iter_live_snapshots now max_age files)
      × Perm (iter_live_snapshots now max_age files) (shown now max_age files)
unfolding iter_live_snapshots listed
iter_live_snapshots-Perm now max_age [] = (tt, Perm.rfl)
iter_live_snapshots-Perm now max_age (f ∷ files) =
    let (sorted, same) = iter_live_snapshots-Perm now max_age files in
    elim (Option-cases f.content) [
      | inl e ↦ rw e (sorted, same)
      | inr (s, e) ↦ elim (Bool-cases (is_running s.status && too_old now f.mtime max_age)) [
        | inl old ↦ rw (e, old) (sorted, same)
        | inr fresh ↦
            rw (e, fresh)
              (
                insert-IsFreshestFirst s (iter_live_snapshots now max_age files) sorted,
                Perm.trans (insert-Perm s (iter_live_snapshots now max_age files))
                    (Perm.cons s same),
              )
      ]
    ]
