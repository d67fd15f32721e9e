-- ===== src/Supervisor/Justified.antt =====
-- supervisor.py: why a child is killed.
use hermeskill.Common.{
  ℕ, ◌≡◌, ◌≢◌, ◌⊎◌, refl, ap, inl, inr, true, Bool-cases, Option-cases, some, List, [], ◌∷◌, ◌++◌,
}
use hermeskill.Supervisor.{
  Settings, Look, Trigger, Ending, reaches, triggers, struck, after_turn, supervise,
}

-- The run has killed the child: it returns a result that says so, or its `finally` has done it.
abbrev pub Kills : Ending → Type 0
Kills (Ending.returned r) = r.killed ≡ true
Kills (Ending.raised alive) = alive ≡ true

-- A reason for the killing, at a look at which the child is alive: one of the limits is reached, or an exception is
-- raised.
abbrev pub Justifies : Settings → ℕ → Look → Type 0
Justifies c start l =
    (l.raises ≡ true)
    ⊎ ((reaches c.wall_clock start l.monotonic ≡ true)
        ⊎ (reaches c.heartbeat_timeout l.last_beat l.time ≡ true))

pub record IsJustified (c : Settings) (start : ℕ) (looks : List Look) : Type 0 where
  pub before : List Look
  pub look : Look
  pub after : List Look
  pub split : looks ≡ before ++ look ∷ after
  pub alive : look.alive ≡ true
  pub reason : Justifies c start look

trigger_reached :
    (c : Settings) (start : ℕ) (l : Look) (t : Trigger)
    → triggers c start l ≡ some t
    → t ≢ Trigger.completed
    → (l.alive ≡ true) × Justifies c start l
unfolding triggers
trigger_reached c start l t e on = elim (Bool-cases l.alive) [
  | inr f ↦ absurd (on (cc (rw f at e)))
  | inl f ↦ elim (Bool-cases (reaches c.wall_clock start l.monotonic)) [
    | inl g ↦ (f, inr (inl g))
    | inr g ↦ elim (Bool-cases (reaches c.heartbeat_timeout l.last_beat l.time)) [
      | inl h ↦ (f, inr (inr h))
      | inr h ↦ cc (rw (f, g, h) at e)
    ]
  ]
]

struck-Kills :
    (c : Settings) (l : Look) (t : Trigger) (looks : List Look) (e : Ending)
    → struck c l t looks ≡ some e
    → Kills e
    → t ≢ Trigger.completed
unfolding struck
struck-Kills c l Trigger.completed looks (Ending.returned r) e k = cc (e, k)
struck-Kills c l Trigger.completed looks (Ending.raised alive) e k = cc e
struck-Kills c l Trigger.wall_clock looks x e k = λ h. cc h
struck-Kills c l Trigger.heartbeat_loss looks x e k = λ h. cc h

raised_alive :
    (l : Look) (x : Ending) → some (Ending.raised l.alive) ≡ some x → Kills x → l.alive ≡ true
raised_alive l (Ending.returned r) e k = cc e
raised_alive l (Ending.raised alive) e k = cc (e, k)

-- A run kills a child, by the escalation or in the `finally`, only if at some look the child is alive and has used up
-- its time, or has not beaten its heart for the timeout, or an exception is raised there.
pub supervise-IsJustified :
    (c : Settings) (start : ℕ) (looks : List Look) (x : Ending)
    → supervise c start looks ≡ some x
    → Kills x
    → IsJustified c start looks
unfolding supervise after_turn
supervise-IsJustified c start [] x e k = cc e
supervise-IsJustified c start (l ∷ looks) x e k = elim (Bool-cases l.raises) [
  | inl r ↦ record {
    before = [];
    look = l;
    after = looks;
    split = refl;
    alive = raised_alive l x (rw r at e) k;
    reason = inl r;
  }
  | inr r ↦ elim (Option-cases (triggers c start l)) [
    | inl f ↦
        let j = supervise-IsJustified c start looks x (rw (f, r) at e) k in
        record {
          before = l ∷ j.before;
          look = j.look;
          after = j.after;
          split = ap (◌∷◌ l) j.split;
          alive = j.alive;
          reason = j.reason;
        }
    | inr (t, f) ↦
        let on = struck-Kills c l t looks x (rw (f, r) at e) k in
        let (alive, reason) = trigger_reached c start l t f on in
        record {
          before = [];
          look = l;
          after = looks;
          split = refl;
          alive = alive;
          reason = reason;
        }
  ]
]
