-- ===== src/ControlPlane/KillEvents/Certificates.antt =====
-- api/kill_events.py: a certificate that meets an operator's kill.
use hermeskill.Common.{
  ◌≤◌, String, ◌≡◌, refl, inl, inr, Bool, true, false, Bool-cases, some, List, [], ◌∷◌, arith,
  keep_if, length, string_eq, nat_eq,
}
use hermeskill.ControlPlane.{
  Agent, KillEvent, Store, Reply, Principal, Scalar, load_agent_owned_by, scalar_one_or_none,
}
use hermeskill.ControlPlane.KillEvents.{
  KillEventIn, Minted, is_active, is_active_of, is_confirmed, existing_active, breaks_index,
  replace_row, certified, token_taken, build_or_update, post_certificate, certify,
  create_kill_event,
}
use hermeskill.ControlPlane.KillEvents.Index.{breaks_index_iff, active_count-replace_row}
use hermeskill.ControlPlane.KillEvents.Lifecycle.{IsWellFormed}

-- The query for the active row never raises on a well-formed table.
pub existing_active-ne-several :
    (agent_id : String) (db : Store)
    → IsWellFormed db
    → existing_active agent_id db.kill_events ≡ Scalar.several
    → ⊥
existing_active-ne-several agent_id db w h =
    few (keep_if (is_active_of agent_id) db.kill_events) (w.one_active agent_id) h
  where
    few : (rows : List KillEvent) → length rows ≤ 1 → scalar_one_or_none rows ≡ Scalar.several → ⊥
    few [] n e = cc e
    few (k ∷ []) n e = cc e
    few (j ∷ k ∷ rows) n e = omega arith

pub single_row :
    (rows : List KillEvent) (k : KillEvent)
    → scalar_one_or_none rows ≡ Scalar.single k
    → rows ≡ k ∷ []
single_row [] k e = cc e
single_row (j ∷ []) k e = ground arith
single_row (j ∷ i ∷ rows) k e = cc e

pub kept_holds {ℓ} :
    {A : Type ℓ} (p : A → Bool) (xs : List A) (x : A) → keep_if p xs ≡ x ∷ [] → p x ≡ true
kept_holds p [] x e = cc e
kept_holds p (y ∷ ys) x e = elim (Bool-cases (p y)) [
  | inl h ↦ ground (arith, rw h at e)
  | inr h ↦ kept_holds p ys x (rw h at e)
]

-- The promotion of an agent's active row passes the unique index.
promotion_is_accepted :
    (payload : KillEventIn) (minted : Minted) (agent_id : String) (k : KillEvent) (db : Store)
    → IsWellFormed db
    → existing_active agent_id db.kill_events ≡ Scalar.single k
    → breaks_index (replace_row (certified payload minted k) db.kill_events) ≡ false
promotion_is_accepted payload minted agent_id k db w found =
    let only = single_row (keep_if (is_active_of agent_id) db.kill_events) k found in
    let active : is_active k ≡ true =
      ground (arith, kept_holds (is_active_of agent_id) db.kill_events k only) in
    (breaks_index_iff (replace_row (certified payload minted k) db.kill_events)).1 (λ other. omega (
      arith,
      w.one_active other,
      active_count-replace_row 0 db.next_kill_event_id db.kill_events agent_id other k
          (certified payload minted k) w.ascending only (unfold certified in refl)
          (unfold certified in rw active refl),
    ))

-- In a well-formed store, a certificate for an agent of the caller with one active kill event that
-- is not confirmed, whose id and token have no feedback token yet, is accepted: the event of the
-- reply has that id and the operator's reason, is confirmed, and bears the time of death of the
-- certificate.
pub initiated_kill_is_confirmed :
    (payload : KillEventIn) (minted : Minted) (principal : Principal) (agent_id : String)
    (agent : Agent) (k : KillEvent) (db : Store)
    → IsWellFormed db
    → load_agent_owned_by agent_id principal.customer_id db.agents ≡ some agent
    → existing_active agent_id db.kill_events ≡ Scalar.single k
    → is_confirmed k ≡ false
    → token_taken k.id minted db.tokens ≡ false
    → (row : KillEvent) × ((create_kill_event payload minted principal agent_id db).0
        ≡ Reply.replied row)
      × (row.id ≡ k.id)
      × (is_confirmed row ≡ true)
      × (row.operator_reason ≡ k.operator_reason)
      × (row.terminated_at ≡ some payload.terminated_at)
unfolding create_kill_event certify post_certificate build_or_update certified
initiated_kill_is_confirmed payload minted principal agent_id agent k db w owned found waits fresh =
    rw (owned, found, waits, promotion_is_accepted payload minted agent_id k db w found, fresh)
      (certified payload minted k, refl, refl, refl, refl, refl)
