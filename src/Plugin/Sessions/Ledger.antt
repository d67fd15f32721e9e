-- ===== src/Plugin/Sessions/Ledger.antt =====
-- plugin.py: a ledger of the watchers in the registry, against those who hold them.
use hermeskill.Common.{
  ℕ, ◌+◌, ◌≤◌, String, ◌≡◌, refl, ap, ◌∙◌, inl, inr, true, false, Bool-cases, some, List, [], ◌∷◌,
  find, store, tally, weight, tally-erase, tally-store, ◌==◌, string_eq, beq_refl, contains,
  if◌then◌else◌, arith,
}
use hermeskill.Plugin.Sessions.{Creation, Slot, Plugin, Step, register, unregister, advance}

abbrev pub hit : String → String → ℕ
hit a b = if a == b then 1 else 0

-- How often an agent stands in the registry.
unfoldable pub count : String → List String → ℕ
count a [] = 0
count a (b ∷ ids) = hit a b + count a ids

abbrev pub held_by : String → Creation → ℕ
held_by a (Creation.made b) = hit a b
held_by a _ = 0

abbrev pub held : String → Slot → ℕ
held a slot = held_by a slot.creation

-- How many sessions, creations in flight and finalizations under way hold the agent, and whether a creation that
-- has ended with an exception has left it behind.
unfoldable pub owners : String → Plugin → ℕ
owners a p =
    tally (hit a) p.states
    + tally (held a) p.creating_sessions
    + count a p.leaving
    + count a p.stranded

pub record IsLedger (p : Plugin) : Type 0 where
  pub registered : (a : String) → count a p.registry ≡ owners a p
  pub once : (a : String) → count a p.registry ≤ 1

-- The new agent's id is not in the registry.
unfoldable pub IsFresh : Step → Plugin → Type 0
IsFresh (Step.creating session_id (some agent_id)) p = count agent_id p.registry ≡ 0
IsFresh (Step.arriving agent_id) p = count agent_id p.registry ≡ 0
IsFresh _ p = Unit

unfoldable pub AllFresh : List Step → Plugin → Type 0
AllFresh [] p = Unit
AllFresh (x ∷ xs) p = IsFresh x p × AllFresh xs (advance x p)

pub hit_same : (a : String) → hit a a ≡ 1
hit_same a = rw (beq_refl a) refl

pub hit_at_most : (a b : String) → hit a b ≤ 1
hit_at_most a b = ground arith

pub hit_other : (a b : String) → (a == b) ≡ false → hit a b ≡ 0
hit_other a b h = rw h refl

pub contains-count : (ids : List String) (b : String) → count b ids ≡ 0 → contains ids b ≡ false
unfolding count
contains-count [] b h = refl
contains-count (x ∷ ids) b h = elim (Bool-cases (b == x)) [
  | inl e ↦ grind (arith, rw e at h)
  | inr e ↦ rw e (contains-count ids b (omega (arith, rw e at h)))
]

pub count-contains : (ids : List String) (b : String) → contains ids b ≡ true → 1 ≤ count b ids
unfolding count
count-contains [] b h = cc h
count-contains (x ∷ ids) b h = elim (Bool-cases (b == x)) [
  | inl e ↦ rw e (omega arith)
  | inr e ↦ rw e (omega (arith, count-contains ids b (rw e at h)))
]

pub count-register :
    (a b : String) (ids : List String)
    → count b ids ≡ 0
    → count a (register b ids) ≡ hit a b + count a ids
unfolding register count
count-register a b ids h = rw (contains-count ids b h) refl

pub register_once :
    (a b : String) (ids : List String)
    → count b ids ≡ 0
    → count a ids ≤ 1
    → count a (register b ids) ≤ 1
register_once a b ids fresh once = elim (Bool-cases (a == b)) [
  | inl h ↦ omega (
    arith,
    count-register a b ids fresh,
    hit_at_most a b,
    ap (λ x. count x ids) ((string_eq.same_iff a b).0 h),
    fresh,
  )
  | inr h ↦ omega (arith, count-register a b ids fresh, once, hit_other a b h)
]

pub count-unregister :
    (a b : String) (ids : List String)
    → 1 ≤ count b ids
    → count a (unregister b ids) + hit a b ≡ count a ids
unfolding unregister count
count-unregister a b [] h = grind (arith, h)
count-unregister a b (i ∷ ids) h = elim (Bool-cases (b == i)) [
  | inl e ↦ rw e (omega (arith, ap (hit a) ((string_eq.same_iff b i).0 e)))
  | inr e ↦ rw e (omega (arith, count-unregister a b ids (omega (arith, rw e at h))))
]

-- A creation in flight is in the registry.
pub present :
    (p : Plugin) (l : IsLedger p) (session_id b : String) (slot : Slot)
    → find p.creating_sessions session_id ≡ some slot
    → slot.creation ≡ Creation.made b
    → 1 ≤ count b p.registry
unfolding owners
present p l session_id b slot found made =
    let held_here = ap (weight (held b)) found ∙ ap (held_by b) made ∙ hit_same b in
    omega (arith, l.registered b, tally-erase (held b) session_id p.creating_sessions, held_here)

pub IsLedger-store :
    (p : Plugin) (l : IsLedger p) (session_id : String) (slot : Slot)
    → ((a : String) → held a slot ≡ weight (held a) (find p.creating_sessions session_id))
    → IsLedger (record p { creating_sessions = store session_id slot p.creating_sessions })
unfolding owners
IsLedger-store p l session_id slot same = record {
  registered = λ a.
      omega
        (arith, l.registered a, same a, tally-store (held a) session_id slot p.creating_sessions);
  once = l.once;
}

-- A ledger in which the agent `b` is taken out of a dictionary, together with its entry in the registry.
pub dropped :
    (p q : Plugin) (b : String)
    → IsLedger p
    → 1 ≤ count b p.registry
    → ((a : String) → owners a q + hit a b ≡ owners a p)
    → q.registry ≡ unregister b p.registry
    → IsLedger q
dropped p q b l here owned e =
    let counts : (a : String) → count a q.registry + hit a b ≡ count a p.registry =
      λ a. ap (λ ids. count a ids + hit a b) e ∙ count-unregister a b p.registry here in
    record {
      registered = λ a. omega (arith, counts a, owned a, l.registered a);
      once = λ a. omega (arith, counts a, l.once a);
    }
