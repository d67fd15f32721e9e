-- ===== src/Plugin/Sessions/Shutdown.antt =====
-- plugin.py: what `shutdown` leaves in the registry.
use hermeskill.Common.{
  ◌+◌, String, ◌≡◌, refl, ap, ◌∙◌, inl, inr, true, Bool-cases, Option-cases, Option, none, some,
  List, [], ◌∷◌, find, keys, tally, find-some_key, absent_everywhere, find-erase, find-erase-other,
  ◌==◌, string_eq, beq_refl, contains, arith,
}
use hermeskill.Plugin.Sessions.{
  Plugin, Step, started, drop_state, finalize, close, close_found, session_finalize, finalize_each,
  advance, advance_all, unregister, shutdown,
}
use hermeskill.Plugin.Sessions.Ledger.{count, hit, held, owners, AllFresh, IsLedger}
use hermeskill.Plugin.Sessions.Owned.{IsLedger-finalize, IsLedger-close, advance_all-IsLedger}
use hermeskill.Plugin.Sessions.Tidy.{
  IsTidy, IsTidy-close, IsTidy-advance, IsTidy-counted, counted, advance_all-IsTidy,
}

-- What a whole `session_finalize` leaves as it is.
record SameRest (p q : Plugin) : Type 0 where
  leaving : q.leaving ≡ p.leaving
  stranded : q.stranded ≡ p.stranded
  slots : q.creating_sessions ≡ p.creating_sessions

rest-close_found :
    (t : String) (p : Plugin) (o : Option String) → SameRest p (close_found o (drop_state t p o))
unfolding close_found close drop_state unregister
rest-close_found t p none = record { leaving = refl; stranded = refl; slots = refl }
rest-close_found t p (some b) =
    rw (beq_refl b) (record { leaving = refl; stranded = refl; slots = refl })

rest-session_finalize : (t : String) (p : Plugin) → SameRest p (session_finalize t p)
unfolding session_finalize finalize counted
rest-session_finalize t p =
    let r = rest-close_found t (counted t p) (find p.states t) in
    record { leaving = r.leaving; stranded = r.stranded; slots = r.slots }

rest-finalize_each : (ts : List String) (p : Plugin) → SameRest p (finalize_each ts p)
unfolding finalize_each
rest-finalize_each [] p = record { leaving = refl; stranded = refl; slots = refl }
rest-finalize_each (t ∷ ts) p =
    let now = rest-session_finalize t p in
    let later = rest-finalize_each ts (session_finalize t p) in
    record {
      leaving = later.leaving ∙ now.leaving;
      stranded = later.stranded ∙ now.stranded;
      slots = later.slots ∙ now.slots;
    }

states-close : (b : String) (p : Plugin) → (close b p).states ≡ p.states
unfolding close
states-close b p = elim (Bool-cases (contains p.leaving b)) [
  | inl e ↦ rw e refl
  | inr e ↦ rw e refl
]

states-close_found : (o : Option String) (p : Plugin) → (close_found o p).states ≡ p.states
unfolding close_found
states-close_found none p = refl
states-close_found (some b) p = states-close b p

absent_stays :
    (t i : String) (p : Plugin) (o : Option String)
    → find p.states t ≡ o
    → find p.states i ≡ none
    → find (drop_state t p o).states i ≡ none
unfolding drop_state
absent_stays t i p none e h = h
absent_stays t i p (some b) e h = elim (Bool-cases (t == i)) [
  | inl same ↦ cc (e, h, (string_eq.same_iff t i).0 same)
  | inr other ↦ find-erase-other t i p.states other ∙ h
]

dropped_is_absent :
    (t : String) (p : Plugin) (o : Option String)
    → IsTidy p
    → find p.states t ≡ o
    → find (drop_state t p o).states t ≡ none
unfolding drop_state
dropped_is_absent t p none w e = e
dropped_is_absent t p (some b) w e = find-erase t p.states (w.states_once t)

absent-session_finalize :
    (t i : String) (p : Plugin)
    → find p.states i ≡ none
    → find (session_finalize t p).states i ≡ none
unfolding session_finalize finalize counted
absent-session_finalize t i p h =
    ap (λ d. find d i) (states-close_found (find p.states t) (finalize t p))
    ∙ absent_stays t i (counted t p) (find p.states t) refl h

finalized_is_absent :
    (t : String) (p : Plugin) → IsTidy p → find (session_finalize t p).states t ≡ none
unfolding session_finalize finalize counted
finalized_is_absent t p w =
    ap (λ d. find d t) (states-close_found (find p.states t) (finalize t p))
    ∙ dropped_is_absent t (counted t p) (find p.states t) (IsTidy-counted t p w) refl

all_absent_stay :
    (ts : List String) (i : String) (p : Plugin)
    → find p.states i ≡ none
    → find (finalize_each ts p).states i ≡ none
unfolding finalize_each
all_absent_stay [] i p h = h
all_absent_stay (t ∷ ts) i p h =
    all_absent_stay ts i (session_finalize t p) (absent-session_finalize t i p h)

IsTidy-close_found : (o : Option String) (p : Plugin) → IsTidy p → IsTidy (close_found o p)
unfolding close_found
IsTidy-close_found none p w = w
IsTidy-close_found (some b) p w = IsTidy-close b p w

IsTidy-finalize : (t : String) (p : Plugin) → IsTidy p → IsTidy (finalize t p)
IsTidy-finalize t p w = unfold advance in IsTidy-advance (Step.finalizing t) p w

all_finalized_are_absent :
    (ts : List String) (i : String) (p : Plugin)
    → IsTidy p
    → contains ts i ≡ true
    → find (finalize_each ts p).states i ≡ none
unfolding finalize_each session_finalize
all_finalized_are_absent [] i p w h = cc h
all_finalized_are_absent (t ∷ ts) i p w h = elim (Bool-cases (i == t)) [
  | inl e ↦
      let same = (string_eq.same_iff i t).0 e in
      all_absent_stay ts i (session_finalize t p)
        (ap (find (session_finalize t p).states) same ∙ finalized_is_absent t p w)
  | inr e ↦
      all_finalized_are_absent ts i (session_finalize t p)
        (IsTidy-close_found (find p.states t) (finalize t p) (IsTidy-finalize t p w)) (rw e at h)
]

-- Once `shutdown` has finalized the sessions that it finds, no session has a state.
states-shutdown : (p : Plugin) → IsTidy p → (shutdown p).states ≡ []
unfolding shutdown
states-shutdown p w = absent_everywhere _ (λ i. elim (Option-cases (find p.states i)) [
  | inl e ↦ all_absent_stay (keys p.states) i p e
  | inr (b, e) ↦ all_finalized_are_absent (keys p.states) i p w (find-some_key i b p.states e)
])

IsLedger-close_found : (o : Option String) (p : Plugin) → IsLedger p → IsLedger (close_found o p)
unfolding close_found
IsLedger-close_found none p l = l
IsLedger-close_found (some b) p l = IsLedger-close b p l

IsLedger-finalize_each :
    (ts : List String) (p : Plugin) → IsLedger p → IsLedger (finalize_each ts p)
unfolding finalize_each session_finalize
IsLedger-finalize_each [] p l = l
IsLedger-finalize_each (t ∷ ts) p l =
    IsLedger-finalize_each ts (session_finalize t p)
      (IsLedger-close_found (find p.states t) (finalize t p) (IsLedger-finalize t p l))

-- However the threads have interleaved, if each new watcher has an id that is not in the registry and no creation is
-- in flight: once `shutdown` has finalized the sessions that it finds, with no other thread between, what is left in
-- the registry is the watchers of the finalizations that other threads have under way, and those whose creation
-- has ended with an exception after their registration.
pub registry-shutdown :
    (xs : List Step)
    → AllFresh xs started
    → (advance_all xs started).creating_sessions ≡ []
    → (a : String)
    → count a (shutdown (advance_all xs started)).registry
      ≡ count a (advance_all xs started).leaving + count a (advance_all xs started).stranded
unfolding shutdown owners tally
registry-shutdown xs fresh idle a =
    let p = advance_all xs started in
    let l = IsLedger-finalize_each (keys p.states) p (advance_all-IsLedger xs fresh) in
    let rest = rest-finalize_each (keys p.states) p in
    omega (
      arith,
      l.registered a,
      ap (tally (hit a)) (states-shutdown p (advance_all-IsTidy xs)),
      ap (tally (held a)) (rest.slots ∙ idle),
      ap (count a) rest.leaving,
      ap (count a) rest.stranded,
    )
