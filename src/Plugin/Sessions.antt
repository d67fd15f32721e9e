-- ===== src/Plugin/Sessions.antt =====
-- plugin.py: the sessions of the plugin under several threads. A critical section under `_state_lock`, and a call
-- of the registry of watcher.py, is one step. A watcher stands by its agent's id, and the registry by the ids in it.
-- Only the owner of a slot creates and finishes, so that its local variables stand in the slot.
pub mod Ledger
pub mod Taken
pub mod Owned
pub mod Finalized
pub mod Tidy
pub mod Stale
pub mod Shutdown
use hermeskill.Common.{
  ℕ, zero, suc, ◌+◌, String, Bool, true, false, Option, none, some, List, [], ◌∷◌, Dict, find,
  erase, store, keys, weight, ◌==◌, string_eq, nat_beq, contains, if◌then◌else◌,
}

-- What the owner has of the creation: not there yet, the agent of the new watcher, or an exception.
pub data Creation : Type 0 where
  begun failed : Creation
  made : String → Creation

-- An entry of `_creating_sessions`, with its owner's variables; whoever waits holds the same generation.
pub record Slot : Type 0 where
  pub generation : ℕ
  pub creation : Creation

pub record Plugin : Type 0 where
  pub states : Dict String
  pub session_generations : Dict ℕ
  pub creating_sessions : Dict Slot
  pub registry : List String
  -- the local `state` of each `session_finalize` that has taken its state and not yet unregistered it
  pub leaving : List String
  -- how many creations still run for an owner that has stopped waiting
  pub abandoned : ℕ
  -- no variable of the source: the registered watchers whose creation has ended with an exception
  pub stranded : List String

abbrev pub started : Plugin
started = record {
  states = [];
  session_generations = [];
  creating_sessions = [];
  registry = [];
  leaving = [];
  abandoned = 0;
  stranded = [];
}

-- `_session_generations.get(session_id, 0)`
unfoldable pub generation : Plugin → String → ℕ
generation p session_id = weight (λ g. g) (find p.session_generations session_id)

-- `register_watcher` and `unregister_watcher`
unfoldable pub register : String → List String → List String
register agent_id ids = if contains ids agent_id then ids else agent_id ∷ ids

unfoldable pub unregister : String → List String → List String
unregister agent_id [] = []
unregister agent_id (i ∷ ids) =
    let rest = unregister agent_id ids in if agent_id == i then ids else i ∷ rest

-- What the first section of `ensure_session` leads to: the state, a slot of one's own, or the wait for another.
pub data Entered : Type 0 where
  present : String → Entered
  owner : Entered
  waiter : ℕ → Entered

reserve : String → Plugin → Option Slot → Entered × Plugin
reserve session_id p none = (
  Entered.owner,
  record p {
    creating_sessions =
        store session_id
          (record { generation = generation p session_id; creation = Creation.begun })
          p.creating_sessions;
  },
)
reserve session_id p (some slot) = (Entered.waiter slot.generation, p)

enter_found : String → Plugin → Option String → Entered × Plugin
unfolding reserve
enter_found session_id p (some agent_id) = (Entered.present agent_id, p)
enter_found session_id p none = reserve session_id p (find p.creating_sessions session_id)

unfoldable pub enter : String → Plugin → Entered × Plugin
unfolding enter_found
enter session_id p = enter_found session_id p (find p.states session_id)

-- The section after the wait: none where the loop goes round again.
unfoldable pub resume : String → ℕ → Plugin → Option (Option String)
resume session_id pending_generation p =
    if nat_beq (generation p session_id) pending_generation
    then some (find p.states session_id)
    else none

-- `_create_session_state` up to `register_watcher`: the agent of the new watcher, or an exception before it.
create_slot : String → Option String → Plugin → ℕ → Creation → Plugin
create_slot session_id (some agent_id) p g Creation.begun = record p {
  creating_sessions =
      store session_id (record { generation = g; creation = Creation.made agent_id })
        p.creating_sessions;
  registry = register agent_id p.registry;
}
create_slot session_id none p g Creation.begun = record p {
  creating_sessions =
      store session_id (record { generation = g; creation = Creation.failed }) p.creating_sessions;
}
create_slot session_id result p g _ = p

create_in : String → Option String → Plugin → Option Slot → Plugin
unfolding create_slot
create_in session_id result p none = p
create_in session_id result p (some slot) =
    create_slot session_id result p slot.generation slot.creation

unfoldable pub create : String → Option String → Plugin → Plugin
unfolding create_in
create session_id result p = create_in session_id result p (find p.creating_sessions session_id)

-- An exception at the owner of the slot: one of `_create_session_state` after `register_watcher`, or the end of the
-- wait of 35 seconds, which does not stop the creation.
lose_slot : String → Plugin → ℕ → Creation → Plugin
lose_slot session_id p g Creation.begun = record p {
  creating_sessions =
      store session_id (record { generation = g; creation = Creation.failed }) p.creating_sessions;
  abandoned = p.abandoned + 1;
}
lose_slot session_id p g (Creation.made agent_id) = record p {
  creating_sessions =
      store session_id (record { generation = g; creation = Creation.failed }) p.creating_sessions;
  stranded = agent_id ∷ p.stranded;
}
lose_slot session_id p g Creation.failed = p

lose_in : String → Plugin → Option Slot → Plugin
unfolding lose_slot
lose_in session_id p none = p
lose_in session_id p (some slot) = lose_slot session_id p slot.generation slot.creation

unfoldable pub lose : String → Plugin → Plugin
unfolding lose_in
lose session_id p = lose_in session_id p (find p.creating_sessions session_id)

-- `register_watcher` in a creation whose owner has stopped waiting.
arrive_after : String → ℕ → Plugin → Plugin
arrive_after agent_id zero p = p
arrive_after agent_id (suc n) p = record p {
  abandoned = n;
  registry = register agent_id p.registry;
  stranded = agent_id ∷ p.stranded;
}

unfoldable pub arrive : String → Plugin → Plugin
unfolding arrive_after
arrive agent_id p = arrive_after agent_id p.abandoned p

-- The last section of `ensure_session`, for the owner of the slot: the state that it returns.
keep_or_drop : String → String → Plugin → Option String → Option String × Plugin
keep_or_drop session_id agent_id p none =
    (some agent_id, record p { states = store session_id agent_id p.states })
keep_or_drop session_id agent_id p (some other) =
    (some other, record p { registry = unregister agent_id p.registry })

install : String → String → Bool → Plugin → Option String × Plugin
unfolding keep_or_drop
install session_id agent_id true p = keep_or_drop session_id agent_id p (find p.states session_id)
install session_id agent_id false p = (none, record p { registry = unregister agent_id p.registry })

finish_slot : String → Plugin → ℕ → Creation → Option String × Plugin
unfolding install
finish_slot session_id p g (Creation.made agent_id) =
    install session_id agent_id (nat_beq (generation p session_id) g)
      (record p { creating_sessions = erase session_id p.creating_sessions })
finish_slot session_id p g Creation.failed =
    (none, record p { creating_sessions = erase session_id p.creating_sessions })
finish_slot session_id p g Creation.begun = (none, p)

finish_in : String → Plugin → Option Slot → Option String × Plugin
unfolding finish_slot
finish_in session_id p none = (none, p)
finish_in session_id p (some slot) = finish_slot session_id p slot.generation slot.creation

unfoldable pub finish : String → Plugin → Option String × Plugin
unfolding finish_in
finish session_id p = finish_in session_id p (find p.creating_sessions session_id)

-- `session_finalize`, the section under the lock.
drop_state : String → Plugin → Option String → Plugin
drop_state session_id p none = p
drop_state session_id p (some agent_id) = record p {
  states = erase session_id p.states;
  leaving = agent_id ∷ p.leaving;
}

unfoldable pub finalize : String → Plugin → Plugin
unfolding drop_state
finalize session_id p =
    drop_state session_id
      (record p {
        session_generations = store session_id (generation p session_id + 1) p.session_generations;
      })
      (find p.states session_id)

-- `session_finalize`, the call of `unregister_watcher`.
unfoldable pub close : String → Plugin → Plugin
close agent_id p =
    if contains p.leaving agent_id
    then record p {
      leaving = unregister agent_id p.leaving;
      registry = unregister agent_id p.registry;
    }
    else p

-- A step of some thread.
pub data Step : Type 0 where
  entering : String → Step
  creating : String → Option String → Step
  losing : String → Step
  arriving : String → Step
  finishing : String → Step
  finalizing : String → Step
  closing : String → Step

unfoldable pub advance : Step → Plugin → Plugin
advance (Step.entering session_id) p = (enter session_id p).1
advance (Step.creating session_id result) p = create session_id result p
advance (Step.losing session_id) p = lose session_id p
advance (Step.arriving agent_id) p = arrive agent_id p
advance (Step.finishing session_id) p = (finish session_id p).1
advance (Step.finalizing session_id) p = finalize session_id p
advance (Step.closing agent_id) p = close agent_id p

unfoldable pub advance_all : List Step → Plugin → Plugin
advance_all [] p = p
advance_all (x ∷ xs) p = advance_all xs (advance x p)

-- `session_finalize` from its start to its end, with no other thread between.
close_found : Option String → Plugin → Plugin
close_found none p = p
close_found (some agent_id) p = close agent_id p

unfoldable pub session_finalize : String → Plugin → Plugin
unfolding close_found
session_finalize session_id p = close_found (find p.states session_id) (finalize session_id p)

finalize_each : List String → Plugin → Plugin
finalize_each [] p = p
finalize_each (session_id ∷ session_ids) p =
    finalize_each session_ids (session_finalize session_id p)

-- The first call of `shutdown`, up to its finalizations.
unfoldable pub shutdown : Plugin → Plugin
unfolding finalize_each
shutdown p = finalize_each (keys p.states) p
