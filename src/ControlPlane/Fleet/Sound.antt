-- ===== src/ControlPlane/Fleet/Sound.antt =====
-- agents.py: the kill events and the grants of a store from which agents are deleted.
use hermeskill.Common.{
  ℕ, ◌+◌, ◌≤◌, String, ◌≡◌, inl, inr, Bool, false, not, Bool-cases, Option, none, some, List, [],
  ◌∷◌, keep_if, contains, All-keep_if, length-keep_if, string_eq, arith,
}
use hermeskill.ControlPlane.{Agent, KillEvent, Store, Principal}
use hermeskill.ControlPlane.KillEvents.{is_active_of}
use hermeskill.ControlPlane.KillEvents.Index.{Ascending}
use hermeskill.ControlPlane.KillEvents.Lifecycle.{IsWellFormed}
use hermeskill.ControlPlane.Grants.Spared.{SparesManualKill}
use hermeskill.ControlPlane.Events.{EventLog}
use hermeskill.ControlPlane.Fleet.{cascade_store, cascade, delete_loaded, delete_agent}

Ascending-lower :
    (low k next : ℕ) (rows : List KillEvent)
    → low ≤ k
    → Ascending k next rows
    → Ascending low next rows
Ascending-lower low k next [] h a = omega (arith, h, a)
Ascending-lower low k next (r ∷ rows) h (now, later) = (omega (arith, h, now), later)

keep_if-Ascending :
    (f : KillEvent → Bool) (low next : ℕ) (rows : List KillEvent)
    → Ascending low next rows
    → Ascending low next (keep_if f rows)
keep_if-Ascending f low next [] a = a
keep_if-Ascending f low next (r ∷ rows) (now, later) = elim (Bool-cases (f r)) [
  | inl e ↦ rw e (now, keep_if-Ascending f (r.id + 1) next rows later)
  | inr e ↦ rw e (
      Ascending-lower low (r.id + 1) next (keep_if f rows) (omega (arith, now))
        (keep_if-Ascending f (r.id + 1) next rows later))
]

pub cascade-IsWellFormed :
    (enforced : Bool) (ids : List String) (db : Store) (log : EventLog)
    → IsWellFormed db
    → IsWellFormed (cascade enforced ids db log).0
unfolding cascade cascade_store
cascade-IsWellFormed enforced [] db log w = w
cascade-IsWellFormed enforced (i ∷ ids) db log w = record {
  one_active = λ id.
      let fewer =
        length-keep_if (is_active_of id) (λ k. not (contains (i ∷ ids) k.agent_id))
          db.kill_events in
      omega (arith, fewer, w.one_active id);
  ascending = keep_if-Ascending _ 0 db.next_kill_event_id db.kill_events w.ascending;
}

pub cascade-SparesManualKill :
    (enforced : Bool) (ids : List String) (db : Store) (log : EventLog)
    → SparesManualKill db.grants
    → SparesManualKill (cascade enforced ids db log).0.grants
unfolding cascade cascade_store
cascade-SparesManualKill enforced [] db log w = w
cascade-SparesManualKill enforced (i ∷ ids) db log w =
    All-keep_if (λ g. contains g.symptoms "manual_kill" ≡ false) _ db.grants w

delete_loaded_by_cascade :
    (P : Store → Type 0) (enforced : Bool) (agent_id : String) (db : Store) (log : EventLog)
    (o : Option Agent)
    → P db
    → P (cascade enforced (agent_id ∷ []) db log).0
    → P (delete_loaded enforced agent_id db log o).1.0
unfolding delete_loaded
delete_loaded_by_cascade P enforced agent_id db log none h k = h
delete_loaded_by_cascade P enforced agent_id db log (some agent) h k = k

pub delete_agent-IsWellFormed :
    (enforced : Bool) (principal : Principal) (agent_id : String) (db : Store) (log : EventLog)
    → IsWellFormed db
    → IsWellFormed (delete_agent enforced principal agent_id db log).1.0
unfolding delete_agent
delete_agent-IsWellFormed enforced principal agent_id db log w =
    delete_loaded_by_cascade (λ d. IsWellFormed d) enforced agent_id db log _ w
      (cascade-IsWellFormed enforced (agent_id ∷ []) db log w)

pub delete_agent-SparesManualKill :
    (enforced : Bool) (principal : Principal) (agent_id : String) (db : Store) (log : EventLog)
    → SparesManualKill db.grants
    → SparesManualKill (delete_agent enforced principal agent_id db log).1.0.grants
unfolding delete_agent
delete_agent-SparesManualKill enforced principal agent_id db log w =
    delete_loaded_by_cascade (λ d. SparesManualKill d.grants) enforced agent_id db log _ w
      (cascade-SparesManualKill enforced (agent_id ∷ []) db log w)
