-- ===== src/Plugin/Sessions/Tidy.antt =====
-- plugin.py: the entries of the plugin's dictionaries, and the generations in them.
use hermeskill.Common.{
  ℕ, zero, suc, contains, ◌+◌, ◌≤◌, String, ◌≡◌, refl, sym, ap, ◌∙◌, inl, inr, Bool, true, false,
  Bool-cases, Option, none, some, List, [], ◌∷◌, find, erase, store, entries, weight, find-store,
  find-store-other, find-erase, find-erase-other, entries-store, entries-erase, ◌==◌, string_eq,
  arith,
}
use hermeskill.Plugin.Sessions.{
  Creation, Slot, Plugin, Step, started, generation, reserve, enter_found, enter, create_slot,
  create_in, create, keep_or_drop, install, finish_slot, finish_in, finish, drop_state, finalize,
  lose_slot, lose_in, lose, arrive_after, arrive, close, advance, advance_all,
}

-- Each session has one state and one slot at most, and a slot's generation is not ahead of the session's.
pub record IsTidy (p : Plugin) : Type 0 where
  pub states_once : (i : String) → entries i p.states ≤ 1
  pub slots_once : (i : String) → entries i p.creating_sessions ≤ 1
  pub timely :
      (i : String) (slot : Slot)
      → find p.creating_sessions i ≡ some slot
      → slot.generation ≤ generation p i

pub some_inj : {A : Type 0} (x y : A) → some x ≡ some y → x ≡ y
some_inj x y h = cc h

IsTidy-store :
    (t : String) (slot : Slot) (p : Plugin)
    → slot.generation ≤ generation p t
    → IsTidy p
    → IsTidy (record p { creating_sessions = store t slot p.creating_sessions })
unfolding generation
IsTidy-store t slot p ready w = record {
  states_once = w.states_once;
  slots_once = λ i. entries-store t i slot p.creating_sessions w.slots_once;
  timely = λ i other h. elim (Bool-cases (t == i)) [
    | inl e ↦
        let same = (string_eq.same_iff t i).0 e in
        let mine = some_inj slot other (
          sym (find-store t slot p.creating_sessions)
          ∙ ap (find (store t slot p.creating_sessions)) same
          ∙ h) in
        rw (← mine, ← same) ready
    | inr e ↦ w.timely i other (sym (find-store-other t i slot p.creating_sessions e) ∙ h)
  ];
}

IsTidy-erase :
    (t : String) (p : Plugin)
    → IsTidy p
    → IsTidy (record p { creating_sessions = erase t p.creating_sessions })
unfolding generation
IsTidy-erase t p w = record {
  states_once = w.states_once;
  slots_once = λ i. omega (arith, entries-erase t i p.creating_sessions, w.slots_once i);
  timely = λ i other h. elim (Bool-cases (t == i)) [
    | inl e ↦
        let same = (string_eq.same_iff t i).0 e in
        cc (
          find-erase t p.creating_sessions (w.slots_once t),
          ap (find (erase t p.creating_sessions)) same,
          h,
        )
    | inr e ↦ w.timely i other (sym (find-erase-other t i p.creating_sessions e) ∙ h)
  ];
}

-- What a plugin has beside its tidy dictionaries does not matter.
IsTidy-states :
    (p q : Plugin)
    → ((i : String) → entries i q.states ≤ 1)
    → q.creating_sessions ≡ p.creating_sessions
    → q.session_generations ≡ p.session_generations
    → IsTidy p
    → IsTidy q
unfolding generation
IsTidy-states p q h slots generations w = record {
  states_once = h;
  slots_once = λ i. rw slots (w.slots_once i);
  timely = λ i slot found. rw generations (w.timely i slot (rw slots at found));
}

IsTidy-keep_or_drop :
    (t b : String) (p : Plugin) (o : Option String) → IsTidy p → IsTidy (keep_or_drop t b p o).1
unfolding keep_or_drop
IsTidy-keep_or_drop t b p none w =
    IsTidy-states p _ (λ i. entries-store t i b p.states w.states_once) refl refl w
IsTidy-keep_or_drop t b p (some c) w = IsTidy-states p _ w.states_once refl refl w

IsTidy-install :
    (t b : String) (kept : Bool) (p : Plugin) → IsTidy p → IsTidy (install t b kept p).1
unfolding install
IsTidy-install t b true p w = IsTidy-keep_or_drop t b p (find p.states t) w
IsTidy-install t b false p w = IsTidy-states p _ w.states_once refl refl w

IsTidy-finish_slot :
    (t : String) (p : Plugin) (g : ℕ) (c : Creation) → IsTidy p → IsTidy (finish_slot t p g c).1
unfolding finish_slot
IsTidy-finish_slot t p g (Creation.made b) w = IsTidy-install t b _ _ (IsTidy-erase t p w)
IsTidy-finish_slot t p g Creation.failed w = IsTidy-erase t p w
IsTidy-finish_slot t p g Creation.begun w = w

IsTidy-finish_in :
    (t : String) (p : Plugin) (o : Option Slot) → IsTidy p → IsTidy (finish_in t p o).1
unfolding finish_in
IsTidy-finish_in t p none w = w
IsTidy-finish_in t p (some slot) w = IsTidy-finish_slot t p slot.generation slot.creation w

IsTidy-create_slot :
    (t : String) (r : Option String) (p : Plugin) (g : ℕ) (c : Creation)
    → g ≤ generation p t
    → IsTidy p
    → IsTidy (create_slot t r p g c)
unfolding create_slot generation
IsTidy-create_slot t (some b) p g Creation.begun ready w =
    IsTidy-states _ _ w.states_once refl refl (IsTidy-store t _ p ready w)
IsTidy-create_slot t none p g Creation.begun ready w = IsTidy-store t _ p ready w
IsTidy-create_slot t (some b) p g Creation.failed ready w = w
IsTidy-create_slot t none p g Creation.failed ready w = w
IsTidy-create_slot t (some b) p g (Creation.made c) ready w = w
IsTidy-create_slot t none p g (Creation.made c) ready w = w

IsTidy-create_in :
    (t : String) (r : Option String) (p : Plugin) (o : Option Slot)
    → find p.creating_sessions t ≡ o
    → IsTidy p
    → IsTidy (create_in t r p o)
unfolding create_in
IsTidy-create_in t r p none e w = w
IsTidy-create_in t r p (some slot) e w =
    IsTidy-create_slot t r p slot.generation slot.creation (w.timely t slot e) w

IsTidy-reserve : (t : String) (p : Plugin) (o : Option Slot) → IsTidy p → IsTidy (reserve t p o).1
unfolding reserve
IsTidy-reserve t p none w = IsTidy-store t _ p (omega arith) w
IsTidy-reserve t p (some slot) w = w

IsTidy-enter_found :
    (t : String) (p : Plugin) (o : Option String) → IsTidy p → IsTidy (enter_found t p o).1
unfolding enter_found
IsTidy-enter_found t p none w = IsTidy-reserve t p (find p.creating_sessions t) w
IsTidy-enter_found t p (some b) w = w

IsTidy-drop_state :
    (t : String) (p : Plugin) (o : Option String) → IsTidy p → IsTidy (drop_state t p o)
unfolding drop_state
IsTidy-drop_state t p none w = w
IsTidy-drop_state t p (some b) w =
    IsTidy-states p _ (λ i. omega (arith, entries-erase t i p.states, w.states_once i)) refl refl w

IsTidy-lose_slot :
    (t : String) (p : Plugin) (g : ℕ) (c : Creation)
    → g ≤ generation p t
    → IsTidy p
    → IsTidy (lose_slot t p g c)
unfolding lose_slot generation
IsTidy-lose_slot t p g Creation.begun ready w =
    IsTidy-states _ _ w.states_once refl refl (IsTidy-store t _ p ready w)
IsTidy-lose_slot t p g (Creation.made b) ready w =
    IsTidy-states _ _ w.states_once refl refl (IsTidy-store t _ p ready w)
IsTidy-lose_slot t p g Creation.failed ready w = w

IsTidy-lose_in :
    (t : String) (p : Plugin) (o : Option Slot)
    → find p.creating_sessions t ≡ o
    → IsTidy p
    → IsTidy (lose_in t p o)
unfolding lose_in
IsTidy-lose_in t p none e w = w
IsTidy-lose_in t p (some slot) e w =
    IsTidy-lose_slot t p slot.generation slot.creation (w.timely t slot e) w

IsTidy-arrive_after : (b : String) (n : ℕ) (p : Plugin) → IsTidy p → IsTidy (arrive_after b n p)
unfolding arrive_after
IsTidy-arrive_after b zero p w = w
IsTidy-arrive_after b (suc n) p w = IsTidy-states p _ w.states_once refl refl w

pub IsTidy-close : (b : String) (p : Plugin) → IsTidy p → IsTidy (close b p)
unfolding close
IsTidy-close b p w = elim (Bool-cases (contains p.leaving b)) [
  | inl e ↦ rw e (IsTidy-states p _ w.states_once refl refl w)
  | inr e ↦ rw e w
]

-- `session_finalize` up to its counter.
unfoldable pub counted : String → Plugin → Plugin
counted t p = record p { session_generations = store t (generation p t + 1) p.session_generations }

pub generation-counted : (t : String) (p : Plugin) → generation (counted t p) t ≡ generation p t + 1
unfolding generation counted
generation-counted t p =
    ap (weight (λ g. g)) (find-store t (generation p t + 1) p.session_generations)

pub generation-counted-grows :
    (t i : String) (p : Plugin) → generation p i ≤ generation (counted t p) i
unfolding generation counted
generation-counted-grows t i p = elim (Bool-cases (t == i)) [
  | inl e ↦
      let same = (string_eq.same_iff t i).0 e in
      omega
        (arith, ap (generation p) same, ap (generation (counted t p)) same, generation-counted t p)
  | inr e ↦ omega (
    arith,
    ap (weight (λ g. g)) (find-store-other t i (generation p t + 1) p.session_generations e),
  )
]

pub IsTidy-counted : (t : String) (p : Plugin) → IsTidy p → IsTidy (counted t p)
unfolding counted
IsTidy-counted t p w = record {
  states_once = w.states_once;
  slots_once = w.slots_once;
  timely = λ i slot h. omega (arith, w.timely i slot h, generation-counted-grows t i p);
}

pub IsTidy-advance : (x : Step) (p : Plugin) → IsTidy p → IsTidy (advance x p)
unfolding advance enter create lose arrive finish finalize counted
IsTidy-advance (Step.entering t) p w = IsTidy-enter_found t p (find p.states t) w
IsTidy-advance (Step.creating t r) p w = IsTidy-create_in t r p (find p.creating_sessions t) refl w
IsTidy-advance (Step.losing t) p w = IsTidy-lose_in t p (find p.creating_sessions t) refl w
IsTidy-advance (Step.arriving b) p w = IsTidy-arrive_after b p.abandoned p w
IsTidy-advance (Step.closing b) p w = IsTidy-close b p w
IsTidy-advance (Step.finishing t) p w = IsTidy-finish_in t p (find p.creating_sessions t) w
IsTidy-advance (Step.finalizing t) p w =
    IsTidy-drop_state t _ (find p.states t) (IsTidy-counted t p w)

IsTidy-advance_all : (xs : List Step) (p : Plugin) → IsTidy p → IsTidy (advance_all xs p)
unfolding advance_all
IsTidy-advance_all [] p w = w
IsTidy-advance_all (x ∷ xs) p w = IsTidy-advance_all xs (advance x p) (IsTidy-advance x p w)

-- In every interleaving of the threads each session has one state and one creation in flight at most, and a
-- creation in flight never has a later generation than its session.
pub advance_all-IsTidy : (xs : List Step) → IsTidy (advance_all xs started)
unfolding entries find
advance_all-IsTidy xs = IsTidy-advance_all xs started (record {
  states_once = λ i. omega arith;
  slots_once = λ i. omega arith;
  timely = λ i slot h. cc h;
})
