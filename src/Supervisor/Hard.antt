-- ===== src/Supervisor/Hard.antt =====
-- supervisor.py: a child that neither ends nor reacts.
use mathlib.Core.List.{append_assoc}
use hermeskill.Common.{
  ℕ, ◌+◌, ◌≤◌, ◌≡◌, ◌≢◌, ◌⊎◌, refl, ap, ◌∙◌, inl, inr, Bool, true, false, ◌||◌, Bool-cases,
  Option-cases, Option, none, some, List, [], ◌∷◌, ◌++◌, All, any, leb, le→leb, if◌then◌else◌,
  arith,
}
use hermeskill.Supervisor.{
  Settings, Look, Trigger, Escalated, Ending, triggers, escalate, ended, struck, after_turn,
  supervise,
}

abbrev pub IsAlive : Look → Type 0
IsAlive l = l.alive ≡ true

-- At some look an exception is raised.
abbrev pub Raises : List Look → Type 0
Raises looks = any (λ l. l.raises) looks ≡ true

raises_later : (x y : Bool) → y ≡ true → (x || y) ≡ true
raises_later x y h = ground arith

-- The escalation has killed the child, or an exception has ended it while the child was alive.
abbrev Fatal : List Look → Option Escalated → Type 0
Fatal looks o =
    (o ≡ some Escalated.forced) ⊎ ((o ≡ some (Escalated.interrupted true)) × Raises looks)

escalate_kills :
    (deadline : ℕ) (between : List Look) (p : Look) (after : List Look)
    → All IsAlive between
    → p.alive ≡ true
    → deadline ≤ p.monotonic
    → Fatal (between ++ p ∷ after) (escalate deadline (between ++ p ∷ after))
unfolding escalate
escalate_kills deadline [] p after alive here late = elim (Bool-cases p.raises) [
  | inl r ↦ rw (r, here) (inr (refl, refl))
  | inr r ↦ rw (r, here, le→leb deadline p.monotonic late) (inl refl)
]
escalate_kills deadline (l ∷ between) p after (now, alive) here late = elim (Bool-cases l.raises) [
  | inl r ↦ rw (r, now) (inr (refl, refl))
  | inr r ↦ elim (Bool-cases (leb deadline l.monotonic)) [
    | inl e ↦ rw (r, now, e) (inl refl)
    | inr e ↦ rw (r, now, e) (escalate_kills deadline between p after alive here late)
  ]
]

alive-All :
    (n : ℕ) (before : List Look) (l : Look) (between : List Look)
    → All (λ q. (q.alive ≡ true) × (q.signalled ≤ n)) before
    → l.alive ≡ true
    → All IsAlive between
    → All IsAlive (before ++ l ∷ between)
alive-All n [] l between early here alive = (here, alive)
alive-All n (q ∷ before) l between (now, early) here alive =
    (now.0, alive-All n before l between early here alive)

-- A run over the looks has ended with SIGKILL: with a result that says so, or, if an exception is raised at one of
-- them, by the `finally`.
abbrev pub KillsHard : List Look → Ending → Type 0
KillsHard looks (Ending.returned r) = (r.killed ≡ true) × (r.sigkilled ≡ true)
KillsHard looks (Ending.raised alive) = (alive ≡ true) × Raises looks

pub record IsKilled (looks : List Look) (o : Option Ending) : Type 0 where
  pub ending : Ending
  pub has_ended : o ≡ some ending
  pub hard : KillsHard looks ending

IsKilled-later :
    (l : Look) (looks : List Look) (o : Option Ending) → IsKilled looks o → IsKilled (l ∷ looks) o
IsKilled-later l looks o k = record {
  ending = k.ending;
  has_ended = k.has_ended;
  hard = go k.ending k.hard;
}
  where
    go : (e : Ending) → KillsHard looks e → KillsHard (l ∷ looks) e
    go (Ending.returned r) h = h
    go (Ending.raised alive) (h, r) = (h, raises_later l.raises _ r)

ended-IsKilled :
    (c : Settings) (t : Trigger) (looks : List Look) (o : Option Escalated)
    → Fatal looks o
    → IsKilled looks (ended c t o)
unfolding ended
ended-IsKilled c t looks o (inl e) =
    rw e (record { ending = _; has_ended = refl; hard = (refl, refl) })
ended-IsKilled c t looks o (inr (e, r)) =
    rw e (record { ending = Ending.raised true; has_ended = refl; hard = (refl, r) })

struck-IsKilled :
    (c : Settings) (l : Look) (t : Trigger) (looks : List Look)
    → t ≢ Trigger.completed
    → Fatal looks (escalate (l.signalled + c.grace) looks)
    → IsKilled looks (struck c l t looks)
unfolding struck
struck-IsKilled c l Trigger.completed looks not_over e = absurd (not_over refl)
struck-IsKilled c l Trigger.wall_clock looks not_over e =
    ended-IsKilled c Trigger.wall_clock looks _ e
struck-IsKilled c l Trigger.heartbeat_loss looks not_over e =
    ended-IsKilled c Trigger.heartbeat_loss looks _ e

alive_is_not_over :
    (c : Settings) (start : ℕ) (l : Look) (t : Trigger)
    → l.alive ≡ true
    → triggers c start l ≡ some t
    → t ≢ Trigger.completed
unfolding triggers
alive_is_not_over c start l t here e over = ground (arith, here, e, over)

times_out :
    (c : Settings) (start limit : ℕ) (l : Look)
    → l.alive ≡ true
    → c.wall_clock ≡ some limit
    → start + limit ≤ l.monotonic
    → triggers c start l ≡ some Trigger.wall_clock
unfolding triggers
times_out c start limit l here limited late =
    rw (here, limited, le→leb (start + limit) l.monotonic late) refl

turn_raised :
    (c : Settings) (start : ℕ) (l : Look) (looks : List Look)
    → l.raises ≡ true
    → supervise c start (l ∷ looks) ≡ some (Ending.raised l.alive)
unfolding supervise
turn_raised c start l looks r =
    ap
      (λ b.
        if b
        then some (Ending.raised l.alive)
        else after_turn c l looks (supervise c start looks) (triggers c start l))
      r

turn_goes_on :
    (c : Settings) (start : ℕ) (l : Look) (looks : List Look) (o : Option Trigger)
    → l.raises ≡ false
    → triggers c start l ≡ o
    → supervise c start (l ∷ looks) ≡ after_turn c l looks (supervise c start looks) o
unfolding supervise
turn_goes_on c start l looks o r e =
    ap
      (λ b.
        if b
        then some (Ending.raised l.alive)
        else after_turn c l looks (supervise c start looks) (triggers c start l))
      r
    ∙ ap (after_turn c l looks (supervise c start looks)) e

IsKilled-by :
    (l : Look) (looks : List Look) (o k : Option Ending)
    → o ≡ k
    → IsKilled looks k
    → IsKilled (l ∷ looks) o
IsKilled-by l looks o k e h =
    let later = IsKilled-later l looks k h in
    record { ending = later.ending; has_ended = e ∙ later.has_ended; hard = later.hard }

-- A turn at which the child is alive, and either its run goes on to the killing, or the turn leads to it.
turn-IsKilled :
    (c : Settings) (start : ℕ) (l : Look) (looks : List Look)
    → l.alive ≡ true
    → ((t : Trigger)
        → triggers c start l ≡ some t
        → Fatal looks (escalate (l.signalled + c.grace) looks))
    → (triggers c start l ≡ none → IsKilled looks (supervise c start looks))
    → IsKilled (l ∷ looks) (supervise c start (l ∷ looks))
unfolding after_turn
turn-IsKilled c start l looks here fatal rest = elim (Bool-cases l.raises) [
  | inl r ↦ record {
    ending = Ending.raised l.alive;
    has_ended = turn_raised c start l looks r;
    hard = (here, ap (λ b. b || any (λ q. q.raises) looks) r);
  }
  | inr r ↦ elim (Option-cases (triggers c start l)) [
    | inl e ↦ IsKilled-by l looks _ _ (turn_goes_on c start l looks none r e) (rest e)
    | inr (t, e) ↦
        IsKilled-by l looks _ _ (turn_goes_on c start l looks (some t) r e)
          (struck-IsKilled c l t looks (alive_is_not_over c start l t here e) (fatal t e))
  ]
]

module _ (c : Settings) (start limit : ℕ) (limited : c.wall_clock ≡ some limit) where
  -- With a limit on its time, a child that is alive at the limit and at every look until one after the grace
  -- period from SIGTERM is killed with SIGKILL, if no earlier look reads a later clock for that SIGTERM; the run
  -- returns a result that says so, unless an exception is raised at one of the looks.
  pub supervise-IsKilled :
      (before : List Look) (l : Look) (between : List Look) (p : Look) (after : List Look)
      → All (λ q. (q.alive ≡ true) × (q.signalled ≤ l.signalled)) before
      → l.alive ≡ true
      → start + limit ≤ l.monotonic
      → All IsAlive between
      → p.alive ≡ true
      → l.signalled + c.grace ≤ p.monotonic
      → IsKilled
          (before ++ l ∷ (between ++ p ∷ after))
          (supervise c start (before ++ l ∷ (between ++ p ∷ after)))
  supervise-IsKilled [] l between p after early here late alive there overdue =
      turn-IsKilled c start l (between ++ p ∷ after) here
        (λ t e. escalate_kills (l.signalled + c.grace) between p after alive there overdue)
        (λ e. cc (e, times_out c start limit l here limited late))
  supervise-IsKilled (q ∷ before) l between p after ((up, soon), early) here late alive there
        overdue =
      turn-IsKilled c start q (before ++ l ∷ (between ++ p ∷ after)) up
        (λ t e. rw (← append_assoc before (l ∷ between) (p ∷ after)) (
          escalate_kills (q.signalled + c.grace) (before ++ l ∷ between) p after
            (alive-All l.signalled before l between early here alive) there
            (omega (arith, soon, overdue))))
        (λ e. supervise-IsKilled before l between p after early here late alive there overdue)
