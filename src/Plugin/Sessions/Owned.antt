-- ===== src/Plugin/Sessions/Owned.antt =====
-- plugin.py: who owns the watchers in the registry.
use hermeskill.Common.{
  ℕ, ◌+◌, ◌≤◌, String, ◌≡◌, refl, ap, inl, inr, Bool, true, false, Bool-cases, Option-cases, Option,
  none, some, List, [], ◌∷◌, find, store, tally, weight, tally-erase, tally-store, string_eq,
  nat_beq, contains, arith,
}
use hermeskill.Plugin.Sessions.{
  Creation, Slot, Plugin, Step, started, generation, unregister, keep_or_drop, install, finish_slot,
  finish_in, finish, drop_state, finalize, close, advance, advance_all,
}
use hermeskill.Plugin.Sessions.Ledger.{
  hit, count, held_by, held, owners, IsLedger, IsFresh, AllFresh, count-contains, count-unregister,
  present, dropped,
}
use hermeskill.Plugin.Sessions.Taken.{
  IsLedger-enter, IsLedger-create, IsLedger-lose, IsLedger-arrive,
}

IsLedger-keep_or_drop :
    (session_id b : String) (p q : Plugin) (o : Option String)
    → IsLedger p
    → 1 ≤ count b p.registry
    → ((a : String) → owners a q + hit a b ≡ owners a p)
    → q.registry ≡ p.registry
    → find q.states session_id ≡ o
    → IsLedger (keep_or_drop session_id b q o).1
unfolding keep_or_drop owners
IsLedger-keep_or_drop session_id b p q none l here owned e absent = record {
  registered = λ a. omega (
    arith,
    l.registered a,
    owned a,
    ap (count a) e,
    tally-store (hit a) session_id b q.states,
    ap (weight (hit a)) absent,
  );
  once = λ a. omega (arith, l.once a, ap (count a) e);
}
IsLedger-keep_or_drop session_id b p q (some other) l here owned e found =
    dropped p _ b l here owned (ap (unregister b) e)

IsLedger-install :
    (session_id b : String) (kept : Bool) (p q : Plugin)
    → IsLedger p
    → 1 ≤ count b p.registry
    → ((a : String) → owners a q + hit a b ≡ owners a p)
    → q.registry ≡ p.registry
    → IsLedger (install session_id b kept q).1
unfolding install owners
IsLedger-install session_id b true p q l here owned e =
    IsLedger-keep_or_drop session_id b p q (find q.states session_id) l here owned e refl
IsLedger-install session_id b false p q l here owned e =
    dropped p _ b l here owned (ap (unregister b) e)

IsLedger-finish_slot :
    (session_id : String) (p : Plugin) (g : ℕ) (c : Creation) (slot : Slot)
    → IsLedger p
    → find p.creating_sessions session_id ≡ some slot
    → slot.creation ≡ c
    → IsLedger (finish_slot session_id p g c).1
unfolding finish_slot owners
IsLedger-finish_slot session_id p g Creation.begun slot l found e = l
IsLedger-finish_slot session_id p g Creation.failed slot l found e = record {
  registered = λ a. omega (
    arith,
    l.registered a,
    tally-erase (held a) session_id p.creating_sessions,
    ap (weight (held a)) found,
    ap (held_by a) e,
  );
  once = l.once;
}
IsLedger-finish_slot session_id p g (Creation.made b) slot l found e =
    IsLedger-install session_id b (nat_beq (generation p session_id) g) p _ l
      (present p l session_id b slot found e)
      (λ a. omega (
        arith,
        tally-erase (held a) session_id p.creating_sessions,
        ap (weight (held a)) found,
        ap (held_by a) e,
      ))
      refl

IsLedger-finish : (session_id : String) (p : Plugin) → IsLedger p → IsLedger (finish session_id p).1
unfolding finish finish_in
IsLedger-finish session_id p l = elim (Option-cases (find p.creating_sessions session_id)) [
  | inl e ↦ rw e l
  | inr (slot, e) ↦
      rw e (IsLedger-finish_slot session_id p slot.generation slot.creation slot l e refl)
]

IsLedger-drop_state :
    (session_id : String) (p : Plugin) (o : Option String)
    → IsLedger p
    → find p.states session_id ≡ o
    → IsLedger (drop_state session_id p o)
unfolding drop_state owners count
IsLedger-drop_state session_id p none l e = l
IsLedger-drop_state session_id p (some b) l e = record {
  registered = λ a.
      omega (arith, l.registered a, tally-erase (hit a) session_id p.states, ap (weight (hit a)) e);
  once = l.once;
}

pub IsLedger-close : (b : String) (p : Plugin) → IsLedger p → IsLedger (close b p)
unfolding close owners
IsLedger-close b p l = elim (Bool-cases (contains p.leaving b)) [
  | inr e ↦ rw e l
  | inl e ↦
      let here = count-contains p.leaving b e in
      rw e (
        dropped p _ b l (omega (arith, here, l.registered b))
          (λ a. omega (arith, count-unregister a b p.leaving here)) refl)
]

pub IsLedger-finalize :
    (session_id : String) (p : Plugin) → IsLedger p → IsLedger (finalize session_id p)
unfolding finalize owners
IsLedger-finalize session_id p l =
    let counted : Plugin = record p {
      session_generations = store session_id (generation p session_id + 1) p.session_generations;
    } in
    IsLedger-drop_state session_id counted (find p.states session_id)
      (record { registered = l.registered; once = l.once }) refl

IsLedger-advance : (x : Step) (p : Plugin) → IsFresh x p → IsLedger p → IsLedger (advance x p)
unfolding advance finalize owners IsFresh
IsLedger-advance (Step.entering session_id) p fresh l = IsLedger-enter session_id p l
IsLedger-advance (Step.creating session_id result) p fresh l =
    IsLedger-create session_id result p fresh l
IsLedger-advance (Step.losing session_id) p fresh l = IsLedger-lose session_id p l
IsLedger-advance (Step.arriving b) p fresh l = IsLedger-arrive b p fresh l
IsLedger-advance (Step.finishing session_id) p fresh l = IsLedger-finish session_id p l
IsLedger-advance (Step.finalizing session_id) p fresh l = IsLedger-finalize session_id p l
IsLedger-advance (Step.closing b) p fresh l = IsLedger-close b p l

pub IsLedger-advance_all :
    (xs : List Step) (p : Plugin) → AllFresh xs p → IsLedger p → IsLedger (advance_all xs p)
unfolding advance_all AllFresh
IsLedger-advance_all [] p fresh l = l
IsLedger-advance_all (x ∷ xs) p (now, later) l =
    IsLedger-advance_all xs (advance x p) later (IsLedger-advance x p now l)

-- However the threads interleave, if each new watcher has an id that is not in the registry: a watcher is
-- registered at most once, and exactly if a session, a creation in flight or a finalization under way holds it, just
-- one of them, or a creation has registered it and its owner has an exception in place of it.
pub advance_all-IsLedger :
    (xs : List Step) → AllFresh xs started → IsLedger (advance_all xs started)
unfolding owners tally count
advance_all-IsLedger xs fresh =
    IsLedger-advance_all xs started fresh
      (record { registered = λ a. refl; once = λ a. omega arith })
