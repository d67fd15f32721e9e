-- ===== src/Plugin/Sessions/Finalized.antt =====
-- plugin.py: sessions that are finalized, and sessions that are not.
use hermeskill.Common.{
  ℕ, zero, suc, contains, String, ◌≡◌, refl, ◌∙◌, inl, inr, Bool, true, false, Bool-cases, Option,
  none, some, List, [], ◌∷◌, find, find-store-other, find-erase-other, ◌==◌, string_eq,
}
use hermeskill.Plugin.Sessions.{
  Creation, Slot, Plugin, Step, reserve, enter_found, enter, create_slot, create_in, create,
  keep_or_drop, install, finish_slot, finish_in, finish, drop_state, finalize, lose_slot, lose_in,
  lose, arrive_after, arrive, close, advance, advance_all,
}

-- A step other than the finalization of the session.
unfoldable pub Spares : String → Step → Type 0
Spares s (Step.finalizing t) = (t == s) ≡ false
Spares s _ = Unit

unfoldable pub AllSpare : String → List Step → Type 0
AllSpare s [] = Unit
AllSpare s (x ∷ xs) = Spares s x × AllSpare s xs

-- What the last section makes of the state that a session has.
module _ (s a : String) where
  Has : Plugin → Type 0
  Has p = find p.states s ≡ some a

  keep_or_drop-Has :
      (t b : String) (p : Plugin) (o : Option String)
      → find p.states t ≡ o
      → Has p
      → Has (keep_or_drop t b p o).1
  unfolding keep_or_drop Has
  keep_or_drop-Has t b p (some c) e h = h
  keep_or_drop-Has t b p none e h = elim (Bool-cases (t == s)) [
    | inl same ↦ cc (e, h, (string_eq.same_iff t s).0 same)
    | inr other ↦ find-store-other t s b p.states other ∙ h
  ]

  install-Has : (t b : String) (kept : Bool) (p : Plugin) → Has p → Has (install t b kept p).1
  unfolding install Has
  install-Has t b true p h = keep_or_drop-Has t b p (find p.states t) refl h
  install-Has t b false p h = h

  finish_slot-Has :
      (t : String) (p : Plugin) (g : ℕ) (c : Creation) → Has p → Has (finish_slot t p g c).1
  unfolding finish_slot Has
  finish_slot-Has t p g (Creation.made b) h = install-Has t b _ _ h
  finish_slot-Has t p g Creation.failed h = h
  finish_slot-Has t p g Creation.begun h = h

  create_slot-Has :
      (t : String) (r : Option String) (p : Plugin) (g : ℕ) (c : Creation)
      → Has p
      → Has (create_slot t r p g c)
  unfolding create_slot Has
  create_slot-Has t (some b) p g Creation.begun h = h
  create_slot-Has t none p g Creation.begun h = h
  create_slot-Has t (some b) p g Creation.failed h = h
  create_slot-Has t none p g Creation.failed h = h
  create_slot-Has t (some b) p g (Creation.made c) h = h
  create_slot-Has t none p g (Creation.made c) h = h

  create_in-Has :
      (t : String) (r : Option String) (p : Plugin) (o : Option Slot)
      → Has p
      → Has (create_in t r p o)
  unfolding create_in
  create_in-Has t r p none h = h
  create_in-Has t r p (some slot) h = create_slot-Has t r p slot.generation slot.creation h

  finish_in-Has : (t : String) (p : Plugin) (o : Option Slot) → Has p → Has (finish_in t p o).1
  unfolding finish_in
  finish_in-Has t p none h = h
  finish_in-Has t p (some slot) h = finish_slot-Has t p slot.generation slot.creation h

  drop_state-Has :
      (t : String) (p : Plugin) (o : Option String)
      → (t == s) ≡ false
      → Has p
      → Has (drop_state t p o)
  unfolding drop_state Has
  drop_state-Has t p none other h = h
  drop_state-Has t p (some b) other h = find-erase-other t s p.states other ∙ h

  lose_slot-Has : (t : String) (p : Plugin) (g : ℕ) (c : Creation) → Has p → Has (lose_slot t p g c)
  unfolding lose_slot Has
  lose_slot-Has t p g Creation.begun h = h
  lose_slot-Has t p g (Creation.made b) h = h
  lose_slot-Has t p g Creation.failed h = h

  lose_in-Has : (t : String) (p : Plugin) (o : Option Slot) → Has p → Has (lose_in t p o)
  unfolding lose_in
  lose_in-Has t p none h = h
  lose_in-Has t p (some slot) h = lose_slot-Has t p slot.generation slot.creation h

  arrive_after-Has : (b : String) (n : ℕ) (p : Plugin) → Has p → Has (arrive_after b n p)
  unfolding arrive_after Has
  arrive_after-Has b zero p h = h
  arrive_after-Has b (suc n) p h = h

  close-Has : (b : String) (p : Plugin) → Has p → Has (close b p)
  unfolding close Has
  close-Has b p h = elim (Bool-cases (contains p.leaving b)) [ inl e ↦ rw e h | inr e ↦ rw e h ]

  reserve-Has : (t : String) (p : Plugin) (o : Option Slot) → Has p → Has (reserve t p o).1
  unfolding reserve Has
  reserve-Has t p none h = h
  reserve-Has t p (some slot) h = h

  enter_found-Has :
      (t : String) (p : Plugin) (o : Option String) → Has p → Has (enter_found t p o).1
  unfolding enter_found Has
  enter_found-Has t p none h = reserve-Has t p (find p.creating_sessions t) h
  enter_found-Has t p (some b) h = h

  advance-Has : (x : Step) (p : Plugin) → Spares s x → Has p → Has (advance x p)
  unfolding advance enter create lose arrive finish finalize Has Spares
  advance-Has (Step.entering t) p spared h = enter_found-Has t p (find p.states t) h
  advance-Has (Step.creating t r) p spared h = create_in-Has t r p (find p.creating_sessions t) h
  advance-Has (Step.losing t) p spared h = lose_in-Has t p (find p.creating_sessions t) h
  advance-Has (Step.arriving b) p spared h = arrive_after-Has b p.abandoned p h
  advance-Has (Step.closing b) p spared h = close-Has b p h
  advance-Has (Step.finishing t) p spared h = finish_in-Has t p (find p.creating_sessions t) h
  advance-Has (Step.finalizing t) p spared h = drop_state-Has t _ (find p.states t) spared h

-- A session that has a watcher keeps it until it is finalized, however the threads interleave, so that each
-- hook of the session reads the same state.
pub session_keeps_watcher :
    (s a : String) (xs : List Step) (p : Plugin)
    → AllSpare s xs
    → find p.states s ≡ some a
    → find (advance_all xs p).states s ≡ some a
unfolding advance_all AllSpare Has
session_keeps_watcher s a [] p spared h = h
session_keeps_watcher s a (x ∷ xs) p (now, later) h =
    session_keeps_watcher s a xs (advance x p) later (advance-Has s a x p now h)
