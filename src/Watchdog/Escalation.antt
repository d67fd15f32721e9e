-- ===== src/Watchdog/Escalation.antt =====
-- apoptosis.py: when the watchdog cancels a task.
use hermeskill.Common.{
  ℕ, ◌+◌, ◌≤◌, ◌≡◌, ◌≢◌, refl, sym, ap, ◌∙◌, ◌⊎◌, inl, inr, Bool, true, false, ◌||◌, Bool-cases,
  Option, none, some, List, [], ◌∷◌, ◌++◌, All, leb, le→leb, arith,
}
use hermeskill.Watchdog.{Observation, Ending, Phase, escalate, cooperates, turn, watch}

watch-ended :
    (g : ℕ) (os : List Observation) (e : Ending) → watch g os (Phase.ended e) ≡ Phase.ended e
unfolding watch turn
watch-ended g [] e = refl
watch-ended g (o ∷ os) e = watch-ended g os e

-- The task is captured and running, and nobody stops the watchdog.
abbrev pub Refuses : Observation → Type 0
Refuses o = (o.stop ≡ false) × (o.done ≡ some false)

-- Nothing has happened yet.
abbrev pub IsQuiet : Observation → Type 0
IsQuiet o = (o.stop ≡ false) × ((o.triggered || o.terminate_requested) ≡ false)

turn-grace :
    (g d : ℕ) (o : Observation)
    → Refuses o
    → ((d ≤ o.monotonic) × (turn g o (Phase.grace d) ≡ Phase.ended Ending.cancelled))
      ⊎ (turn g o (Phase.grace d) ≡ Phase.grace d)
unfolding turn escalate cooperates
turn-grace g d o (running, refuses) = elim (Bool-cases (leb d o.monotonic)) [
  | inl e ↦ inl (ground (arith, e), rw (e, refuses) refl)
  | inr e ↦ inr (rw (e, running, refuses) refl)
]

turn-overdue :
    (g d : ℕ) (o : Observation)
    → d ≤ o.monotonic
    → o.done ≡ some false
    → turn g o (Phase.grace d) ≡ Phase.ended Ending.cancelled
unfolding turn escalate
turn-overdue g d o late refuses = rw (le→leb d o.monotonic late, refuses) refl

watch-grace :
    (g d : ℕ) (between : List Observation) (p : Observation) (after : List Observation)
    → All Refuses between
    → d ≤ p.monotonic
    → p.done ≡ some false
    → watch g (between ++ p ∷ after) (Phase.grace d) ≡ Phase.ended Ending.cancelled
unfolding watch
watch-grace g d [] p after running late refuses =
    ap (watch g after) (turn-overdue g d p late refuses) ∙ watch-ended g after Ending.cancelled
watch-grace g d (o ∷ between) p after (now, running) late refuses = elim (turn-grace g d o now) [
  | inl (_, e) ↦
      ap (watch g (between ++ p ∷ after)) e ∙ watch-ended g (between ++ p ∷ after) Ending.cancelled
  | inr e ↦
      ap (watch g (between ++ p ∷ after)) e ∙ watch-grace g d between p after running late refuses
]

turn-quiet : (g : ℕ) (o : Observation) → IsQuiet o → turn g o Phase.waiting ≡ Phase.waiting
unfolding turn
turn-quiet g o (running, quiet) = rw (running, quiet) refl

turn-struck :
    (g : ℕ) (o : Observation)
    → o.stop ≡ false
    → (o.triggered || o.terminate_requested) ≡ true
    → turn g o Phase.waiting ≡ Phase.grace (o.monotonic + g)
unfolding turn
turn-struck g o running struck = rw (running, struck) refl

-- A kill that the watchdog sees, of a task that keeps running while nobody stops the watchdog, leads to a
-- cancellation as soon as the thread wakes up after the grace period.
pub unresponsive_task_is_cancelled :
    (g : ℕ) (before : List Observation) (o : Observation) (between : List Observation)
    (p : Observation) (after : List Observation)
    → All IsQuiet before
    → o.stop ≡ false
    → (o.triggered || o.terminate_requested) ≡ true
    → All Refuses between
    → o.monotonic + g ≤ p.monotonic
    → p.done ≡ some false
    → watch g (before ++ o ∷ (between ++ p ∷ after)) Phase.waiting ≡ Phase.ended Ending.cancelled
unfolding watch
unresponsive_task_is_cancelled g [] o between p after quiet running struck refusing late refuses =
    ap (watch g (between ++ p ∷ after)) (turn-struck g o running struck)
    ∙ watch-grace g (o.monotonic + g) between p after refusing late refuses
unresponsive_task_is_cancelled g (q ∷ before) o between p after (now, quiet) running struck refusing
      late refuses =
    ap (watch g (before ++ o ∷ (between ++ p ∷ after))) (turn-quiet g q now)
    ∙ unresponsive_task_is_cancelled g before o between p after quiet running struck refusing late
        refuses

-- What the thread has seen when it cancels in the grace period that ends at `d`.
pub record IsLate (d : ℕ) (os : List Observation) : Type 0 where
  pub between : List Observation
  pub last : Observation
  pub after : List Observation
  pub split : os ≡ between ++ last ∷ after
  pub late : d ≤ last.monotonic
  pub running : last.done ≡ some false
  pub none_done : All (λ o. o.done ≢ some true) between

-- What the thread has seen when it cancels: a kill, and a late task.
pub record IsOverdue (g : ℕ) (os : List Observation) : Type 0 where
  pub before : List Observation
  pub kill : Observation
  pub rest : List Observation
  pub split : os ≡ before ++ kill ∷ rest
  pub struck : (kill.triggered || kill.terminate_requested) ≡ true
  pub is_late : IsLate (kill.monotonic + g) rest

escalate_cancels :
    (o : Option Bool) → Phase.ended (escalate o) ≡ Phase.ended Ending.cancelled → o ≡ some false
unfolding escalate
escalate_cancels none h = cc h
escalate_cancels (some true) h = cc h
escalate_cancels (some false) h = refl

cooperates_goes_on :
    (o : Option Bool) (d g : ℕ) (os : List Observation)
    → watch g os (cooperates o d) ≡ Phase.ended Ending.cancelled
    → (o ≢ some true) × (watch g os (Phase.grace d) ≡ Phase.ended Ending.cancelled)
unfolding cooperates
cooperates_goes_on none d g os h = (λ e. cc e, h)
cooperates_goes_on (some false) d g os h = (λ e. cc e, h)
cooperates_goes_on (some true) d g os h = cc (h, watch-ended g os Ending.cooperated)

grace-IsLate :
    (g d : ℕ) (os : List Observation)
    → watch g os (Phase.grace d) ≡ Phase.ended Ending.cancelled
    → IsLate d os
unfolding watch turn
grace-IsLate g d [] h = cc h
grace-IsLate g d (o ∷ os) h = elim (Bool-cases (leb d o.monotonic)) [
  | inl e ↦
      let done = sym (watch-ended g os (escalate o.done)) ∙ (rw e at h) in
      record {
        between = [];
        last = o;
        after = os;
        split = refl;
        late = ground (arith, e);
        running = escalate_cancels o.done done;
        none_done = tt;
      }
  | inr e ↦ elim (Bool-cases o.stop) [
    | inl f ↦ cc (rw (e, f) at h, watch-ended g os Ending.stopped)
    | inr f ↦
        let (alive, on) = cooperates_goes_on o.done d g os (rw (e, f) at h) in
        let l = grace-IsLate g d os on in
        record {
          between = o ∷ l.between;
          last = l.last;
          after = l.after;
          split = ap (◌∷◌ o) l.split;
          late = l.late;
          running = l.running;
          none_done = (alive, l.none_done);
        }
  ]
]

-- The watchdog cancels a task only after it has seen a kill, at least the grace period later, with the task still
-- running then and not seen to have ended in between.
pub cancelled-IsOverdue :
    (g : ℕ) (os : List Observation)
    → watch g os Phase.waiting ≡ Phase.ended Ending.cancelled
    → IsOverdue g os
unfolding watch turn
cancelled-IsOverdue g [] h = cc h
cancelled-IsOverdue g (o ∷ os) h = elim (Bool-cases o.stop) [
  | inl e ↦ cc (rw e at h, watch-ended g os Ending.stopped)
  | inr e ↦ elim (Bool-cases (o.triggered || o.terminate_requested)) [
    | inl f ↦ record {
      before = [];
      kill = o;
      rest = os;
      split = refl;
      struck = f;
      is_late = grace-IsLate g (o.monotonic + g) os (rw (e, f) at h);
    }
    | inr f ↦
        let l = cancelled-IsOverdue g os (rw (e, f) at h) in
        record {
          before = o ∷ l.before;
          kill = l.kill;
          rest = l.rest;
          split = ap (◌∷◌ o) l.split;
          struck = l.struck;
          is_late = l.is_late;
        }
  ]
]
