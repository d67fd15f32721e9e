-- ===== src/Tests/Sessions.antt =====
-- Examples for the sessions of the plugin: two threads, a finalization that comes between, and the end.
use hermeskill.Common.{◌+◌, ◌≡◌, refl, none, some, List, [], ◌∷◌, find, store, erase, keys}
use hermeskill.Plugin.Sessions.{
  Plugin, Creation, Step, started, enter, create, finish, finalize, generation, register,
  unregister, lose, arrive, close, session_finalize, advance, advance_all, shutdown,
}
use hermeskill.Plugin.Sessions.Ledger.{count, IsFresh, AllFresh, IsLedger}
use hermeskill.Plugin.Sessions.Owned.{advance_all-IsLedger}
use hermeskill.Plugin.Sessions.Finalized.{Spares, AllSpare, session_keeps_watcher}
use hermeskill.Plugin.Sessions.Stale.{Waits, AllWait, finalize_wins}
use hermeskill.Plugin.Sessions.Shutdown.{registry-shutdown}

-- Four sessions. The first is entered by two threads, and finalized before its creation ends; the creation of the
-- third raises after its registration, and that of the fourth outlasts the wait of its owner.
abbrev race : List Step
race =
    Step.entering "s1"
    ∷ Step.entering "s1"
    ∷ Step.creating "s1" (some "a1")
    ∷ Step.entering "s2"
    ∷ Step.finalizing "s1"
    ∷ Step.creating "s2" (some "a2")
    ∷ Step.entering "s3"
    ∷ Step.creating "s3" (some "a3")
    ∷ Step.losing "s3"
    ∷ Step.entering "s4"
    ∷ Step.losing "s4"
    ∷ Step.finishing "s1"
    ∷ Step.finishing "s2"
    ∷ Step.finishing "s3"
    ∷ Step.finishing "s4"
    ∷ Step.arriving "a4"
    ∷ []

race_is_fresh : AllFresh race started
unfolding AllFresh IsFresh count advance enter create lose arrive finish finalize close generation
    register unregister find store erase
race_is_fresh = (
  tt,
  (
    tt,
    (refl, (tt, (tt, (refl, (tt, (refl, (tt, (tt, (tt, (tt, (tt, (tt, (tt, (refl, tt)))))))))))))),
  ),
)

advance_all-IsLedger_example : IsLedger (advance_all race started)
advance_all-IsLedger_example = advance_all-IsLedger race race_is_fresh

race_is_idle : (advance_all race started).creating_sessions ≡ []
unfolding advance_all advance enter create lose arrive finish finalize close generation register
    unregister find store erase
race_is_idle = refl

after_race : (shutdown (advance_all race started)).registry ≡ "a4" ∷ "a3" ∷ []
unfolding advance_all advance enter create lose arrive finish finalize close generation register
    unregister find store erase shutdown session_finalize keys
after_race = refl

registry-shutdown_example :
    count "a3" (shutdown (advance_all race started)).registry
    ≡ count "a3" (advance_all race started).leaving + count "a3" (advance_all race started).stranded
registry-shutdown_example = registry-shutdown race race_is_fresh race_is_idle "a3"

abbrev in_flight : List Step
in_flight = Step.entering "s1" ∷ Step.creating "s1" (some "a1") ∷ []

-- What happens between the finalization and the end of the creation.
abbrev meanwhile : List Step
meanwhile = Step.entering "s1" ∷ Step.entering "s2" ∷ Step.finalizing "s1" ∷ []

creates :
    find (advance_all in_flight started).creating_sessions "s1"
    ≡ some (record { generation = 0; creation = Creation.made "a1" })
unfolding advance_all advance enter create register generation find store
creates = refl

spared : AllWait "s1" meanwhile
unfolding AllWait Waits
spared = (tt, (tt, (tt, tt)))

finalize_wins_example :
    ((finish "s1" (advance_all meanwhile (finalize "s1" (advance_all in_flight started)))).0 ≡ none)
    × (find
          (finish "s1"
            (advance_all meanwhile (finalize "s1" (advance_all in_flight started)))).1.states
          "s1"
        ≡ none)
finalize_wins_example =
    finalize_wins "s1" in_flight meanwhile
      (record { generation = 0; creation = Creation.made "a1" }) creates spared

abbrev settled : Plugin
settled = record started { states = ("s1", "a1") ∷ []; registry = "a1" ∷ [] }

others : AllSpare "s1" (Step.entering "s1" ∷ Step.entering "s2" ∷ Step.finalizing "s2" ∷ [])
unfolding AllSpare Spares
others = (tt, (tt, (refl, tt)))

holds : find settled.states "s1" ≡ some "a1"
unfolding find
holds = refl

session_keeps_watcher_example :
    find
      (advance_all
        (Step.entering "s1" ∷ Step.entering "s2" ∷ Step.finalizing "s2" ∷ [])
        settled).states
      "s1"
    ≡ some "a1"
session_keeps_watcher_example =
    session_keeps_watcher "s1" "a1"
      (Step.entering "s1" ∷ Step.entering "s2" ∷ Step.finalizing "s2" ∷ []) settled others holds
