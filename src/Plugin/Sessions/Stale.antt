-- ===== src/Plugin/Sessions/Stale.antt =====
-- plugin.py: a session that is finalized while its creation is in flight.
use hermeskill.Common.{
  ℕ, zero, suc, contains, ◌<◌, String, ◌≡◌, refl, sym, ap, ◌∙◌, inl, inr, Bool, true, false,
  Bool-cases, Option, none, some, List, [], ◌∷◌, find, erase, store, find-store, find-store-other,
  find-erase, find-erase-other, ◌==◌, string_eq, nat_beq, arith,
}
use hermeskill.Plugin.Sessions.{
  Creation, Slot, Plugin, Step, started, generation, reserve, enter_found, enter, create_slot,
  create_in, create, keep_or_drop, install, finish_slot, finish_in, finish, drop_state, finalize,
  lose_slot, lose_in, lose, arrive_after, arrive, close, advance, advance_all,
}
use hermeskill.Plugin.Sessions.Tidy.{
  IsTidy, some_inj, counted, generation-counted, generation-counted-grows, advance_all-IsTidy,
}

-- A creation in flight of a session that has no state, from before the session's last finalization.
record IsStale (s : String) (p : Plugin) : Type 0 where
  absent : find p.states s ≡ none
  slot : Slot
  found : find p.creating_sessions s ≡ some slot
  old : slot.generation < generation p s

-- A step other than the end of the creation.
unfoldable pub Waits : String → Step → Type 0
Waits s (Step.finishing t) = (t == s) ≡ false
Waits s _ = Unit

unfoldable pub AllWait : String → List Step → Type 0
AllWait s [] = Unit
AllWait s (x ∷ xs) = Waits s x × AllWait s xs

later : (g n : ℕ) → g < n → nat_beq n g ≡ false
later g n h = ground arith

module _ (s : String) where
  IsStale-store :
      (t : String) (new : Slot) (p : Plugin)
      → ((t == s) ≡ true → new.generation < generation p s)
      → IsStale s p
      → IsStale s (record p { creating_sessions = store t new p.creating_sessions })
  unfolding generation
  IsStale-store t new p early k = elim (Bool-cases (t == s)) [
    | inl e ↦ record {
      absent = k.absent;
      slot = new;
      found =
          ap (find (store t new p.creating_sessions)) (sym ((string_eq.same_iff t s).0 e))
          ∙ find-store t new p.creating_sessions;
      old = early e;
    }
    | inr e ↦ record {
      absent = k.absent;
      slot = k.slot;
      found = find-store-other t s new p.creating_sessions e ∙ k.found;
      old = k.old;
    }
  ]

  IsStale-reserve :
      (t : String) (p : Plugin) (o : Option Slot)
      → find p.creating_sessions t ≡ o
      → IsStale s p
      → IsStale s (reserve t p o).1
  unfolding reserve
  IsStale-reserve t p none e k =
      IsStale-store t _ p (λ same. cc (e, k.found, (string_eq.same_iff t s).0 same)) k
  IsStale-reserve t p (some slot) e k = k

  IsStale-enter_found :
      (t : String) (p : Plugin) (o : Option String) → IsStale s p → IsStale s (enter_found t p o).1
  unfolding enter_found
  IsStale-enter_found t p none k = IsStale-reserve t p (find p.creating_sessions t) refl k
  IsStale-enter_found t p (some b) k = k

  IsStale-create_slot :
      (t : String) (r : Option String) (p : Plugin) (g : ℕ) (c : Creation)
      → ((t == s) ≡ true → g < generation p s)
      → IsStale s p
      → IsStale s (create_slot t r p g c)
  unfolding create_slot generation
  IsStale-create_slot t (some b) p g Creation.begun early k =
      let on = IsStale-store t (record { generation = g; creation = Creation.made b }) p early k in
      record { absent = on.absent; slot = on.slot; found = on.found; old = on.old }
  IsStale-create_slot t none p g Creation.begun early k = IsStale-store t _ p early k
  IsStale-create_slot t (some b) p g Creation.failed early k = k
  IsStale-create_slot t none p g Creation.failed early k = k
  IsStale-create_slot t (some b) p g (Creation.made c) early k = k
  IsStale-create_slot t none p g (Creation.made c) early k = k

  -- The slot of the session is the stale one.
  early_slot :
      (t : String) (p : Plugin) (slot : Slot)
      → find p.creating_sessions t ≡ some slot
      → IsStale s p
      → (t == s) ≡ true
      → slot.generation < generation p s
  early_slot t p slot e k same =
      let mine =
        some_inj k.slot slot (
          sym k.found
          ∙ ap (find p.creating_sessions) (sym ((string_eq.same_iff t s).0 same))
          ∙ e) in
      omega (arith, k.old, ap (λ x. x.generation) mine)

  IsStale-create_in :
      (t : String) (r : Option String) (p : Plugin) (o : Option Slot)
      → find p.creating_sessions t ≡ o
      → IsStale s p
      → IsStale s (create_in t r p o)
  unfolding create_in
  IsStale-create_in t r p none e k = k
  IsStale-create_in t r p (some slot) e k =
      IsStale-create_slot t r p slot.generation slot.creation (early_slot t p slot e k) k

  IsStale-lose_slot :
      (t : String) (p : Plugin) (g : ℕ) (c : Creation)
      → ((t == s) ≡ true → g < generation p s)
      → IsStale s p
      → IsStale s (lose_slot t p g c)
  unfolding lose_slot generation
  IsStale-lose_slot t p g Creation.begun early k =
      let on = IsStale-store t (record { generation = g; creation = Creation.failed }) p early k in
      record { absent = on.absent; slot = on.slot; found = on.found; old = on.old }
  IsStale-lose_slot t p g (Creation.made b) early k =
      let on = IsStale-store t (record { generation = g; creation = Creation.failed }) p early k in
      record { absent = on.absent; slot = on.slot; found = on.found; old = on.old }
  IsStale-lose_slot t p g Creation.failed early k = k

  IsStale-lose_in :
      (t : String) (p : Plugin) (o : Option Slot)
      → find p.creating_sessions t ≡ o
      → IsStale s p
      → IsStale s (lose_in t p o)
  unfolding lose_in
  IsStale-lose_in t p none e k = k
  IsStale-lose_in t p (some slot) e k =
      IsStale-lose_slot t p slot.generation slot.creation (early_slot t p slot e k) k

  IsStale-arrive_after :
      (b : String) (n : ℕ) (p : Plugin) → IsStale s p → IsStale s (arrive_after b n p)
  unfolding arrive_after generation
  IsStale-arrive_after b zero p k = k
  IsStale-arrive_after b (suc n) p k = record {
    absent = k.absent;
    slot = k.slot;
    found = k.found;
    old = k.old;
  }

  IsStale-close : (b : String) (p : Plugin) → IsStale s p → IsStale s (close b p)
  unfolding close generation
  IsStale-close b p k = elim (Bool-cases (contains p.leaving b)) [
    | inl e ↦ rw e (record { absent = k.absent; slot = k.slot; found = k.found; old = k.old })
    | inr e ↦ rw e k
  ]

  IsStale-keep_or_drop :
      (t b : String) (p : Plugin) (o : Option String)
      → (t == s) ≡ false
      → IsStale s p
      → IsStale s (keep_or_drop t b p o).1
  unfolding keep_or_drop generation
  IsStale-keep_or_drop t b p none other k = record {
    absent = find-store-other t s b p.states other ∙ k.absent;
    slot = k.slot;
    found = k.found;
    old = k.old;
  }
  IsStale-keep_or_drop t b p (some c) other k = record {
    absent = k.absent;
    slot = k.slot;
    found = k.found;
    old = k.old;
  }

  IsStale-install :
      (t b : String) (kept : Bool) (p : Plugin)
      → (t == s) ≡ false
      → IsStale s p
      → IsStale s (install t b kept p).1
  unfolding install generation
  IsStale-install t b true p other k = IsStale-keep_or_drop t b p (find p.states t) other k
  IsStale-install t b false p other k = record {
    absent = k.absent;
    slot = k.slot;
    found = k.found;
    old = k.old;
  }

  IsStale-erase :
      (t : String) (p : Plugin)
      → (t == s) ≡ false
      → IsStale s p
      → IsStale s (record p { creating_sessions = erase t p.creating_sessions })
  unfolding generation
  IsStale-erase t p other k = record {
    absent = k.absent;
    slot = k.slot;
    found = find-erase-other t s p.creating_sessions other ∙ k.found;
    old = k.old;
  }

  IsStale-finish_slot :
      (t : String) (p : Plugin) (g : ℕ) (c : Creation)
      → (t == s) ≡ false
      → IsStale s p
      → IsStale s (finish_slot t p g c).1
  unfolding finish_slot
  IsStale-finish_slot t p g (Creation.made b) other k =
      IsStale-install t b _ _ other (IsStale-erase t p other k)
  IsStale-finish_slot t p g Creation.failed other k = IsStale-erase t p other k
  IsStale-finish_slot t p g Creation.begun other k = k

  IsStale-finish_in :
      (t : String) (p : Plugin) (o : Option Slot)
      → (t == s) ≡ false
      → IsStale s p
      → IsStale s (finish_in t p o).1
  unfolding finish_in
  IsStale-finish_in t p none other k = k
  IsStale-finish_in t p (some slot) other k =
      IsStale-finish_slot t p slot.generation slot.creation other k

  IsStale-drop_state :
      (t : String) (p : Plugin) (o : Option String)
      → find p.states t ≡ o
      → IsStale s p
      → IsStale s (drop_state t p o)
  unfolding drop_state generation
  IsStale-drop_state t p none e k = k
  IsStale-drop_state t p (some b) e k = elim (Bool-cases (t == s)) [
    | inl same ↦ cc (e, k.absent, (string_eq.same_iff t s).0 same)
    | inr other ↦ record {
      absent = find-erase-other t s p.states other ∙ k.absent;
      slot = k.slot;
      found = k.found;
      old = k.old;
    }
  ]

  IsStale-counted : (t : String) (p : Plugin) → IsStale s p → IsStale s (counted t p)
  unfolding counted
  IsStale-counted t p k = record {
    absent = k.absent;
    slot = k.slot;
    found = k.found;
    old = omega (arith, k.old, generation-counted-grows t s p);
  }

  IsStale-advance : (x : Step) (p : Plugin) → Waits s x → IsStale s p → IsStale s (advance x p)
  unfolding advance enter create lose arrive finish finalize counted Waits
  IsStale-advance (Step.entering t) p waits k = IsStale-enter_found t p (find p.states t) k
  IsStale-advance (Step.creating t r) p waits k =
      IsStale-create_in t r p (find p.creating_sessions t) refl k
  IsStale-advance (Step.losing t) p waits k =
      IsStale-lose_in t p (find p.creating_sessions t) refl k
  IsStale-advance (Step.arriving b) p waits k = IsStale-arrive_after b p.abandoned p k
  IsStale-advance (Step.closing b) p waits k = IsStale-close b p k
  IsStale-advance (Step.finishing t) p waits k =
      IsStale-finish_in t p (find p.creating_sessions t) waits k
  IsStale-advance (Step.finalizing t) p waits k =
      IsStale-drop_state t _ (find p.states t) refl (IsStale-counted t p k)

  IsStale-advance_all :
      (xs : List Step) (p : Plugin) → AllWait s xs → IsStale s p → IsStale s (advance_all xs p)
  unfolding advance_all AllWait
  IsStale-advance_all [] p waits k = k
  IsStale-advance_all (x ∷ xs) p (now, later) k =
      IsStale-advance_all xs (advance x p) later (IsStale-advance x p now k)

  install-stale :
      (b : String) (kept : Bool) (p : Plugin)
      → kept ≡ false
      → find p.states s ≡ none
      → ((install s b kept p).0 ≡ none) × (find (install s b kept p).1.states s ≡ none)
  unfolding install
  install-stale b true p e absent = cc e
  install-stale b false p e absent = (refl, absent)

  -- The end of a stale creation gives no state, whatever it has made.
  finish_slot-stale :
      (p : Plugin) (g : ℕ) (c : Creation)
      → g < generation p s
      → find p.states s ≡ none
      → ((finish_slot s p g c).0 ≡ none) × (find (finish_slot s p g c).1.states s ≡ none)
  unfolding finish_slot generation
  finish_slot-stale p g Creation.begun old absent = (refl, absent)
  finish_slot-stale p g Creation.failed old absent = (refl, absent)
  finish_slot-stale p g (Creation.made b) old absent =
      install-stale b _ (record p { creating_sessions = erase s p.creating_sessions })
        (later g (generation p s) old) absent

  finish-stale :
      (q : Plugin) → IsStale s q → ((finish s q).0 ≡ none) × (find (finish s q).1.states s ≡ none)
  unfolding finish finish_in
  finish-stale q k =
      rw k.found (finish_slot-stale q k.slot.generation k.slot.creation k.old k.absent)

  IsStale-finalize :
      (p : Plugin) (o : Option String) (slot : Slot)
      → IsTidy p
      → find p.states s ≡ o
      → find p.creating_sessions s ≡ some slot
      → IsStale s (drop_state s (counted s p) o)
  unfolding drop_state counted generation
  IsStale-finalize p none slot w e f = record {
    absent = e;
    slot = slot;
    found = f;
    old = omega (arith, w.timely s slot f, generation-counted s p);
  }
  IsStale-finalize p (some b) slot w e f = record {
    absent = find-erase s p.states (w.states_once s);
    slot = slot;
    found = f;
    old = omega (arith, w.timely s slot f, generation-counted s p);
  }

-- A finalization wins against a creation that is in flight: however the threads interleave after it, until the
-- creation ends, its end gives its callers no state and leaves the session without one.
pub finalize_wins :
    (s : String) (before after : List Step) (slot : Slot)
    → find (advance_all before started).creating_sessions s ≡ some slot
    → AllWait s after
    → ((finish s (advance_all after (finalize s (advance_all before started)))).0 ≡ none)
      × (find (finish s (advance_all after (finalize s (advance_all before started)))).1.states s
          ≡ none)
unfolding finalize counted
finalize_wins s before after slot found waits =
    let p = advance_all before started in
    finish-stale s _ (
      IsStale-advance_all s after (finalize s p) waits
        (IsStale-finalize s p (find p.states s) slot (advance_all-IsTidy before) refl found))
