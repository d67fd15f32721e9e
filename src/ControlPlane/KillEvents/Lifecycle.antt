-- ===== src/ControlPlane/KillEvents/Lifecycle.antt =====
-- api/kill_events.py, api/manual_kill.py: the well-formed tables of kill events.
use hermeskill.Common.{
  ℕ, String, refl, inl, inr, ◌||◌, Bool-cases, Option, none, some, [], ◌∷◌, ◌++◌, arith, string_eq,
  nat_eq,
}
use hermeskill.ControlPlane.{
  Agent, KillEvent, Store, Principal, Scalar, load_agent_owned_by, with_agent-keeps,
}
use hermeskill.ControlPlane.KillEvents.{
  KillEventIn, Minted, is_confirmed, existing_active, breaks_index, replace_row, certified,
  auto_row, manual_row, token_taken, build_or_update, post_certificate, certify, create_kill_event,
  strike, terminate_agent, is_terminated,
}
use hermeskill.ControlPlane.KillEvents.Index.{
  OneActive, Ascending, breaks_index_iff, append-Ascending, replace_row-Ascending,
}

-- What every reachable store keeps about its kill events.
pub record IsWellFormed (db : Store) : Type 0 where
  pub one_active : OneActive db.kill_events
  pub ascending : Ascending 0 db.next_kill_event_id db.kill_events

module _ (payload : KillEventIn) (minted : Minted) (agent_id : String) (db : Store) where
  post_certificate-IsWellFormed :
      (existing : Option KillEvent)
      → IsWellFormed db
      → IsWellFormed (post_certificate payload minted agent_id existing db).1
  unfolding post_certificate build_or_update
  post_certificate-IsWellFormed none w =
      let row = auto_row db.next_kill_event_id agent_id payload minted in
      let rows = db.kill_events ++ row ∷ [] in
      elim (Bool-cases (breaks_index rows || token_taken row.id minted db.tokens)) [
        | inl refused ↦ rw refused w
        | inr ok ↦ rw ok (record {
          one_active = (breaks_index_iff rows).0 (ground arith);
          ascending =
              append-Ascending 0 db.next_kill_event_id db.kill_events row
                (unfold auto_row certified in refl) w.ascending;
        })
      ]
  post_certificate-IsWellFormed (some k) w =
      let row = certified payload minted k in
      let rows = replace_row row db.kill_events in
      elim (Bool-cases (breaks_index rows || token_taken row.id minted db.tokens)) [
        | inl refused ↦ rw refused w
        | inr ok ↦ rw ok (record {
          one_active = (breaks_index_iff rows).0 (ground arith);
          ascending = replace_row-Ascending 0 db.next_kill_event_id db.kill_events row w.ascending;
        })
      ]

  certify-IsWellFormed :
      (existing : Scalar KillEvent)
      → IsWellFormed db
      → IsWellFormed (certify payload minted agent_id existing db).1
  unfolding certify
  certify-IsWellFormed Scalar.several w = w
  certify-IsWellFormed Scalar.absent w = post_certificate-IsWellFormed none w
  certify-IsWellFormed (Scalar.single k) w = elim (Bool-cases (is_confirmed k)) [
    | inl e ↦ rw e w
    | inr e ↦ rw e (post_certificate-IsWellFormed (some k) w)
  ]

pub create_kill_event-IsWellFormed :
    (payload : KillEventIn) (minted : Minted) (principal : Principal) (agent_id : String)
    (db : Store)
    → IsWellFormed db
    → IsWellFormed (create_kill_event payload minted principal agent_id db).1
unfolding create_kill_event
create_kill_event-IsWellFormed payload minted principal agent_id db w =
    with_agent-keeps (λ d. IsWellFormed d)
      (load_agent_owned_by agent_id principal.customer_id db.agents) db _ w
      (λ agent.
        certify-IsWellFormed payload minted agent_id db (existing_active agent_id db.kill_events) w)

strike-IsWellFormed :
    (now : ℕ) (reason : String) (principal : Principal) (agent : Agent) (agent_id : String)
    (db : Store)
    → IsWellFormed db
    → IsWellFormed (strike now reason principal agent agent_id db).1
unfolding strike
strike-IsWellFormed now reason principal agent agent_id db w =
    let row = manual_row db.next_kill_event_id now reason principal agent_id in
    let rows = db.kill_events ++ row ∷ [] in
    elim (Bool-cases (is_terminated agent)) [
      | inl done ↦ rw done w
      | inr live ↦ elim (Bool-cases (breaks_index rows)) [
        | inl refused ↦ rw (live, refused) w
        | inr ok ↦
            rw (live, ok)
              (record {
                one_active = (breaks_index_iff rows).0 ok;
                ascending =
                    append-Ascending 0 db.next_kill_event_id db.kill_events row
                      (unfold manual_row in refl) w.ascending;
              })
      ]
    ]

pub terminate_agent-IsWellFormed :
    (now : ℕ) (reason : String) (principal : Principal) (agent_id : String) (db : Store)
    → IsWellFormed db
    → IsWellFormed (terminate_agent now reason principal agent_id db).1
unfolding terminate_agent
terminate_agent-IsWellFormed now reason principal agent_id db w =
    with_agent-keeps (λ d. IsWellFormed d)
      (load_agent_owned_by agent_id principal.customer_id db.agents) db _ w
      (λ agent. strike-IsWellFormed now reason principal agent agent_id db w)
