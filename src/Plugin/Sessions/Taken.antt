-- ===== src/Plugin/Sessions/Taken.antt =====
-- plugin.py: the steps of a creation before its end, against the ledger.
use hermeskill.Common.{
  ℕ, zero, suc, String, ◌≡◌, refl, sym, ap, ◌∙◌, inl, inr, Option-cases, Option, none, some, find,
  weight, tally-store, string_eq, arith,
}
use hermeskill.Plugin.Sessions.{
  Creation, Slot, Plugin, Step, reserve, enter_found, enter, create_slot, create_in, create,
  lose_slot, lose_in, lose, arrive_after, arrive,
}
use hermeskill.Plugin.Sessions.Ledger.{
  count, held_by, held, owners, IsLedger, IsFresh, count-register, register_once, IsLedger-store,
}

pub IsLedger-enter :
    (session_id : String) (p : Plugin) → IsLedger p → IsLedger (enter session_id p).1
unfolding enter enter_found reserve
IsLedger-enter session_id p l = elim (Option-cases (find p.states session_id)) [
  | inr (a, e) ↦ rw e l
  | inl e ↦ elim (Option-cases (find p.creating_sessions session_id)) [
    | inr (slot, f) ↦ rw (e, f) l
    | inl f ↦ rw (e, f) (IsLedger-store p l session_id _ (λ a. sym (ap (weight (held a)) f)))
  ]
]

IsLedger-create_slot :
    (session_id : String) (result : Option String) (p : Plugin) (g : ℕ) (c : Creation) (slot : Slot)
    → IsFresh (Step.creating session_id result) p
    → IsLedger p
    → find p.creating_sessions session_id ≡ some slot
    → slot.creation ≡ c
    → IsLedger (create_slot session_id result p g c)
unfolding create_slot IsFresh owners
IsLedger-create_slot session_id (some b) p g Creation.begun slot fresh l found e =
    let free : (a : String) → weight (held a) (find p.creating_sessions session_id) ≡ 0 =
      λ a. ap (weight (held a)) found ∙ ap (held_by a) e in
    let taken : Slot = record { generation = g; creation = Creation.made b } in
    record {
      registered = λ a. omega (
        arith,
        l.registered a,
        free a,
        tally-store (held a) session_id taken p.creating_sessions,
        count-register a b p.registry fresh,
      );
      once = λ a. register_once a b p.registry fresh (l.once a);
    }
IsLedger-create_slot session_id none p g Creation.begun slot fresh l found e =
    IsLedger-store p l session_id _ (λ a. sym (ap (weight (held a)) found ∙ ap (held_by a) e))
IsLedger-create_slot session_id (some b) p g Creation.failed slot fresh l found e = l
IsLedger-create_slot session_id (some b) p g (Creation.made c) slot fresh l found e = l
IsLedger-create_slot session_id none p g Creation.failed slot fresh l found e = l
IsLedger-create_slot session_id none p g (Creation.made c) slot fresh l found e = l

pub IsLedger-create :
    (session_id : String) (result : Option String) (p : Plugin)
    → IsFresh (Step.creating session_id result) p
    → IsLedger p
    → IsLedger (create session_id result p)
unfolding create create_in
IsLedger-create session_id result p fresh l =
    elim (Option-cases (find p.creating_sessions session_id)) [
      | inl e ↦ rw e l
      | inr (slot, e) ↦ rw e (
          IsLedger-create_slot session_id result p slot.generation slot.creation slot fresh l e
            refl)
    ]

IsLedger-lose_slot :
    (session_id : String) (p : Plugin) (g : ℕ) (c : Creation) (slot : Slot)
    → IsLedger p
    → find p.creating_sessions session_id ≡ some slot
    → slot.creation ≡ c
    → IsLedger (lose_slot session_id p g c)
unfolding lose_slot owners count
IsLedger-lose_slot session_id p g Creation.begun slot l found e =
    let kept =
      IsLedger-store p l session_id (record { generation = g; creation = Creation.failed })
        (λ a. sym (ap (weight (held a)) found ∙ ap (held_by a) e)) in
    record { registered = kept.registered; once = l.once }
IsLedger-lose_slot session_id p g (Creation.made b) slot l found e =
    let lost : Slot = record { generation = g; creation = Creation.failed } in
    record {
      registered = λ a. omega (
        arith,
        l.registered a,
        tally-store (held a) session_id lost p.creating_sessions,
        ap (weight (held a)) found,
        ap (held_by a) e,
      );
      once = l.once;
    }
IsLedger-lose_slot session_id p g Creation.failed slot l found e = l

pub IsLedger-lose : (session_id : String) (p : Plugin) → IsLedger p → IsLedger (lose session_id p)
unfolding lose lose_in
IsLedger-lose session_id p l = elim (Option-cases (find p.creating_sessions session_id)) [
  | inl e ↦ rw e l
  | inr (slot, e) ↦
      rw e (IsLedger-lose_slot session_id p slot.generation slot.creation slot l e refl)
]

IsLedger-arrive_after :
    (b : String) (n : ℕ) (p : Plugin)
    → count b p.registry ≡ 0
    → IsLedger p
    → IsLedger (arrive_after b n p)
unfolding arrive_after owners count
IsLedger-arrive_after b zero p fresh l = l
IsLedger-arrive_after b (suc n) p fresh l = record {
  registered = λ a. omega (arith, l.registered a, count-register a b p.registry fresh);
  once = λ a. register_once a b p.registry fresh (l.once a);
}

pub IsLedger-arrive :
    (b : String) (p : Plugin) → count b p.registry ≡ 0 → IsLedger p → IsLedger (arrive b p)
unfolding arrive
IsLedger-arrive b p fresh l = IsLedger-arrive_after b p.abandoned p fresh l
