-- ===== src/ControlPlane/KillEvents/Final.antt =====
-- api/kill_events.py: the store after an accepted certificate.
use hermeskill.Common.{
  ℕ, ◌+◌, String, ◌≡◌, refl, sym, ap, ◌∙◌, inl, inr, Bool, true, ◌||◌, Bool-cases, none, some, List,
  [], ◌∷◌, ◌++◌, arith, keep_if, nat_beq_iff, beq_refl, ◌==◌, string_eq, nat_eq,
}
use hermeskill.ControlPlane.{
  Agent, KillEvent, Store, Failure, Reply, Principal, Scalar, load_agent_owned_by,
  scalar_one_or_none,
}
use hermeskill.ControlPlane.KillEvents.{
  KillEventIn, Minted, is_active_of, is_confirmed, existing_active, breaks_index, replace_row,
  certified, auto_row, token_taken, build_or_update, post_certificate, certify, create_kill_event,
}
use hermeskill.ControlPlane.KillEvents.Index.{Ascending, kept_above, replace_row_below}
use hermeskill.ControlPlane.KillEvents.Lifecycle.{IsWellFormed}
use hermeskill.ControlPlane.KillEvents.Certificates.{single_row, kept_holds}

pub keep_if-append {ℓ} :
    {A : Type ℓ} (p : A → Bool) (xs ys : List A)
    → keep_if p (xs ++ ys) ≡ keep_if p xs ++ keep_if p ys
keep_if-append p [] ys = refl
keep_if-append p (x ∷ xs) ys = ground (arith, keep_if-append p xs ys)

keep_if-replace_row :
    (low next : ℕ) (rows : List KillEvent) (agent_id : String) (k row : KillEvent)
    → Ascending low next rows
    → keep_if (is_active_of agent_id) rows ≡ k ∷ []
    → row.id ≡ k.id
    → is_active_of agent_id row ≡ true
    → keep_if (is_active_of agent_id) (replace_row row rows) ≡ row ∷ []
unfolding replace_row
keep_if-replace_row low next [] agent_id k row a e same_id active = absurd (cc e)
keep_if-replace_row low next (j ∷ rows) agent_id k row (a, t) e same_id active =
    elim (Bool-cases (is_active_of agent_id j)) [
      | inl y ↦
          let found : j ≡ k = ground (arith, rw y at e) in
          let rest : keep_if (is_active_of agent_id) rows ≡ [] = ground (arith, rw y at e) in
          let at_head : (j.id == row.id) ≡ true =
            (nat_beq_iff j.id row.id).1 (ap (λ w. w.id) found ∙ sym same_id) in
          rw
            (
              at_head,
              active,
              replace_row_below (j.id + 1) next rows row (omega (arith, ap (λ w. w.id) found)) t,
              rest,
            )
            refl
      | inr n ↦
          let above = kept_above (j.id + 1) next rows (is_active_of agent_id) k t (rw n at e) in
          ground (
            arith,
            keep_if-replace_row (j.id + 1) next rows agent_id k row t (rw n at e) same_id active,
          )
    ]

no_row : (rows : List KillEvent) → scalar_one_or_none rows ≡ Scalar.absent → rows ≡ []
no_row [] e = refl
no_row (j ∷ []) e = cc e
no_row (j ∷ i ∷ rows) e = cc e

-- What an accepted certificate leaves: the row is the agent's one active event, and it is confirmed.
abbrev pub Leaves : String → Reply KillEvent × Store → Type 0
Leaves agent_id (reply, after) =
    (row : KillEvent)
    → reply ≡ Reply.replied row
    → (existing_active agent_id after.kill_events ≡ Scalar.single row) × (is_confirmed row ≡ true)

module _ (payload : KillEventIn) (minted : Minted) (agent_id : String) (db : Store) where
  insert-Leaves :
      existing_active agent_id db.kill_events ≡ Scalar.absent
      → Leaves agent_id (post_certificate payload minted agent_id none db)
  unfolding post_certificate build_or_update auto_row certified
  insert-Leaves e row h =
      let new = auto_row db.next_kill_event_id agent_id payload minted in
      let rows = db.kill_events ++ new ∷ [] in
      let alone : keep_if (is_active_of agent_id) (new ∷ []) ≡ new ∷ [] =
        rw (beq_refl agent_id) refl in
      let only : keep_if (is_active_of agent_id) rows ≡ new ∷ [] =
        keep_if-append (is_active_of agent_id) db.kill_events (new ∷ [])
        ∙ (rw (no_row (keep_if (is_active_of agent_id) db.kill_events) e) alone) in
      elim (Bool-cases (breaks_index rows || token_taken new.id minted db.tokens)) [
        | inl refused ↦ cc (rw refused at h)
        | inr ok ↦
            let same : new ≡ row = cc (rw ok at h) in
            (rw (ok, ← same) (ap scalar_one_or_none only), rw (← same) refl)
      ]

  promote-Leaves :
      (k : KillEvent)
      → IsWellFormed db
      → existing_active agent_id db.kill_events ≡ Scalar.single k
      → Leaves agent_id (post_certificate payload minted agent_id (some k) db)
  unfolding post_certificate build_or_update
  promote-Leaves k w e row h =
      let new = certified payload minted k in
      let only = single_row (keep_if (is_active_of agent_id) db.kill_events) k e in
      let held = kept_holds (is_active_of agent_id) db.kill_events k only in
      elim (Bool-cases
        (breaks_index (replace_row new db.kill_events) || token_taken new.id minted db.tokens)) [
          | inl refused ↦ cc (rw refused at h)
          | inr ok ↦
              let same : new ≡ row = cc (rw ok at h) in
              (
                rw (ok, ← same)
                    (ap scalar_one_or_none (
                      keep_if-replace_row 0 db.next_kill_event_id db.kill_events agent_id k new
                        w.ascending only (unfold certified in refl)
                        (unfold certified in ground (arith, held)))),
                rw (← same) (unfold certified in refl),
              )
        ]

  certify-Leaves :
      (found : Scalar KillEvent)
      → IsWellFormed db
      → existing_active agent_id db.kill_events ≡ found
      → Leaves agent_id (certify payload minted agent_id found db)
  unfolding certify
  certify-Leaves Scalar.absent w e = insert-Leaves e
  certify-Leaves Scalar.several w e = λ row h. cc h
  certify-Leaves (Scalar.single k) w e = λ row h. elim (Bool-cases (is_confirmed k)) [
    | inl done ↦ cc (rw done at h)
    | inr waits ↦ rw waits (promote-Leaves k w e row (rw waits at h))
  ]

-- In a well-formed store, an accepted certificate ends the matter: the event of the reply is the agent's
-- only active one and is confirmed, and every later certificate for the agent, by whoever owns it, is
-- refused with the id of that event and changes nothing.
pub accepted_certificate_is_final :
    (payload later : KillEventIn) (minted again : Minted) (principal other : Principal)
    (agent_id : String) (agent owner : Agent) (row : KillEvent) (db : Store)
    → IsWellFormed db
    → load_agent_owned_by agent_id principal.customer_id db.agents ≡ some agent
    → (create_kill_event payload minted principal agent_id db).0 ≡ Reply.replied row
    → load_agent_owned_by agent_id other.customer_id
        (create_kill_event payload minted principal agent_id db).1.agents
      ≡ some owner
    → (existing_active agent_id
          (create_kill_event payload minted principal agent_id db).1.kill_events
        ≡ Scalar.single row)
      × (create_kill_event later again other agent_id
            (create_kill_event payload minted principal agent_id db).1
          ≡ (
            Reply.failed (Failure.conflict (some row.id)),
            (create_kill_event payload minted principal agent_id db).1,
          ))
accepted_certificate_is_final payload later minted again principal other agent_id agent owner row db
      w owned accepted still =
    let (only, done) = left row accepted in (only, refused _ only done still)
  where
    left : Leaves agent_id (create_kill_event payload minted principal agent_id db)
    left =
        unfold create_kill_event in
        rw owned (
          certify-Leaves payload minted agent_id db (existing_active agent_id db.kill_events) w
            refl)

    refused :
        (after : Store)
        → existing_active agent_id after.kill_events ≡ Scalar.single row
        → is_confirmed row ≡ true
        → load_agent_owned_by agent_id other.customer_id after.agents ≡ some owner
        → create_kill_event later again other agent_id after
          ≡ (Reply.failed (Failure.conflict (some row.id)), after)
    refused after only done still = unfold create_kill_event certify in rw (still, only, done) refl
