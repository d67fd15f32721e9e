-- ===== src/ControlPlane/Feedback/Once.antt =====
-- api/feedback.py: two verdicts with one token, and the store after a verdict.
use hermeskill.Common.{
  ℕ, ◌+◌, String, ◌≡◌, refl, sym, ap, ◌∙◌, inl, inr, ◌⊎◌, Bool-cases, Option-cases, Option, none,
  some, List, [], ◌∷◌, arith, leb, eq_iff, ◌==◌, string_eq, nat_eq,
}
use hermeskill.ControlPlane.{KillEvent, FeedbackToken, Store, Failure, Reply}
use hermeskill.ControlPlane.KillEvents.{is_active_of}
use hermeskill.ControlPlane.KillEvents.Index.{Ascending, active_count, count_head}
use hermeskill.ControlPlane.KillEvents.Lifecycle.{IsWellFormed}
use hermeskill.ControlPlane.Feedback.{
  token_of, row_of, used, labelled, redeem, redeem_found, submit_feedback,
}

active_count-labelled :
    (now : ℕ) (label : String) (id : ℕ) (agent_id : String) (rows : List KillEvent)
    → active_count agent_id (labelled now label id rows) ≡ active_count agent_id rows
unfolding labelled
active_count-labelled now label id agent_id [] = refl
active_count-labelled now label id agent_id (k ∷ rows) = elim (Bool-cases (k.id == id)) [
  | inl e ↦ rw e (
      count_head (is_active_of agent_id)
        (record k { feedback_label = some label; feedback_at = some now }) k rows refl)
  | inr e ↦ rw e (ground (arith, active_count-labelled now label id agent_id rows))
]

labelled-Ascending :
    (now : ℕ) (label : String) (id low next : ℕ) (rows : List KillEvent)
    → Ascending low next rows
    → Ascending low next (labelled now label id rows)
unfolding labelled
labelled-Ascending now label id low next [] a = a
labelled-Ascending now label id low next (k ∷ rows) (a, t) = elim (Bool-cases (k.id == id)) [
  | inl e ↦ rw e (a, t)
  | inr e ↦ rw e (a, labelled-Ascending now label id (k.id + 1) next rows t)
]

redeem-IsWellFormed :
    (now : ℕ) (label : String) (t : FeedbackToken) (db : Store)
    → IsWellFormed db
    → IsWellFormed (redeem now label t db).1
unfolding redeem
redeem-IsWellFormed now label t db w = elim (Bool-cases (leb t.expires_at now)) [
  | inl old ↦ rw old w
  | inr live ↦ elim (Option-cases t.used_at) [
    | inr (u, e) ↦ rw (live, e) w
    | inl e ↦ elim (Option-cases (row_of t.kill_event_id db.kill_events)) [
      | inl f ↦ rw (live, e, f) w
      | inr (k, f) ↦
          rw (live, e, f)
            (record {
              one_active = λ agent_id.
                  rw (active_count-labelled now label k.id agent_id db.kill_events)
                    (w.one_active agent_id);
              ascending =
                  labelled-Ascending now label k.id 0 db.next_kill_event_id db.kill_events
                    w.ascending;
            })
    ]
  ]
]

redeem_found-IsWellFormed :
    (now : ℕ) (label : String) (o : Option FeedbackToken) (db : Store)
    → IsWellFormed db
    → IsWellFormed (redeem_found now label o db).1
unfolding redeem_found
redeem_found-IsWellFormed now label none db w = w
redeem_found-IsWellFormed now label (some t) db w = redeem-IsWellFormed now label t db w

pub submit_feedback-IsWellFormed :
    (now : ℕ) (token_hash label : String) (db : Store)
    → IsWellFormed db
    → IsWellFormed (submit_feedback now token_hash label db).1
unfolding submit_feedback
submit_feedback-IsWellFormed now token_hash label db w =
    redeem_found-IsWellFormed now label (token_of token_hash db.tokens) db w

grants-redeem :
    (now : ℕ) (label : String) (t : FeedbackToken) (db : Store)
    → (redeem now label t db).1.grants ≡ db.grants
unfolding redeem
grants-redeem now label t db = elim (Bool-cases (leb t.expires_at now)) [
  | inl old ↦ rw old refl
  | inr live ↦ elim (Option-cases t.used_at) [
    | inr (u, e) ↦ rw (live, e) refl
    | inl e ↦ elim (Option-cases (row_of t.kill_event_id db.kill_events)) [
      | inl f ↦ rw (live, e, f) refl
      | inr (k, f) ↦ rw (live, e, f) refl
    ]
  ]
]

grants-redeem_found :
    (now : ℕ) (label : String) (o : Option FeedbackToken) (db : Store)
    → (redeem_found now label o db).1.grants ≡ db.grants
unfolding redeem_found
grants-redeem_found now label none db = refl
grants-redeem_found now label (some t) db = grants-redeem now label t db

pub grants-submit_feedback :
    (now : ℕ) (token_hash label : String) (db : Store)
    → (submit_feedback now token_hash label db).1.grants ≡ db.grants
unfolding submit_feedback
grants-submit_feedback now token_hash label db =
    grants-redeem_found now label (token_of token_hash db.tokens) db

token_of-used :
    (now : ℕ) (token_hash : String) (tokens : List FeedbackToken) (t : FeedbackToken)
    → token_of token_hash tokens ≡ some t
    → token_of token_hash (used now token_hash tokens) ≡ some (record t { used_at = some now })
unfolding used
token_of-used now token_hash [] t h = cc h
token_of-used now token_hash (s ∷ tokens) t h = elim (Bool-cases (s.token_hash == token_hash)) [
  | inl e ↦ let same : s ≡ t = cc (rw e at h) in rw (e, e, ← same) refl
  | inr e ↦ rw (e, e) (token_of-used now token_hash tokens t (rw e at h))
]

token_of-hash :
    (token_hash : String) (tokens : List FeedbackToken) (t : FeedbackToken)
    → token_of token_hash tokens ≡ some t
    → t.token_hash ≡ token_hash
token_of-hash token_hash [] t h = cc h
token_of-hash token_hash (s ∷ tokens) t h = elim (Bool-cases (s.token_hash == token_hash)) [
  | inl e ↦
      let same : s ≡ t = cc (rw e at h) in
      sym (ap (λ w. w.token_hash) same) ∙ (eq_iff s.token_hash token_hash).0 e
  | inr e ↦ token_of-hash token_hash tokens t (rw e at h)
]

-- What an accepted verdict leaves of the token.
redeem_uses :
    (now : ℕ) (token_hash label : String) (t : FeedbackToken) (n : ℕ) (db : Store)
    → token_of token_hash db.tokens ≡ some t
    → (redeem now label t db).0 ≡ Reply.replied n
    → token_of token_hash (redeem now label t db).1.tokens ≡ some (record t { used_at = some now })
unfolding redeem
redeem_uses now token_hash label t n db found h = elim (Bool-cases (leb t.expires_at now)) [
  | inl old ↦ cc (rw old at h)
  | inr live ↦ elim (Option-cases t.used_at) [
    | inr (u, e) ↦ cc (rw (live, e) at h)
    | inl e ↦ elim (Option-cases (row_of t.kill_event_id db.kill_events)) [
      | inl f ↦ cc (rw (live, e, f) at h)
      | inr (k, f) ↦
          rw (live, e, f)
            (ap (λ h. token_of token_hash (used now h db.tokens))
                (token_of-hash token_hash db.tokens t found)
              ∙ token_of-used now token_hash db.tokens t found)
    ]
  ]
]

spent_token :
    (later : ℕ) (label : String) (t : FeedbackToken) (now : ℕ) (db : Store)
    → t.used_at ≡ some now
    → ((redeem later label t db ≡ (Reply.failed Failure.not_found, db))
        ⊎ (redeem later label t db ≡ (Reply.failed Failure.gone, db)))
unfolding redeem
spent_token later label t now db spent = elim (Bool-cases (leb t.expires_at later)) [
  | inl old ↦ inl (rw old refl)
  | inr live ↦ inr (rw (live, spent) refl)
]

-- After an accepted verdict, another one with the same token, at any time, is refused as expired or as
-- used and changes nothing.
pub submit_feedback_once :
    (now later : ℕ) (token_hash label other : String) (n : ℕ) (db : Store)
    → (submit_feedback now token_hash label db).0 ≡ Reply.replied n
    → ((submit_feedback later token_hash other (submit_feedback now token_hash label db).1
          ≡ (Reply.failed Failure.not_found, (submit_feedback now token_hash label db).1))
        ⊎ (submit_feedback later token_hash other (submit_feedback now token_hash label db).1
            ≡ (Reply.failed Failure.gone, (submit_feedback now token_hash label db).1)))
unfolding submit_feedback redeem_found
submit_feedback_once now later token_hash label other n db accepted =
    elim (Option-cases (token_of token_hash db.tokens)) [
      | inl missing ↦ cc (rw missing at accepted)
      | inr (t, found) ↦
          let used_up = redeem_uses now token_hash label t n db found (rw found at accepted) in
          rw (found, used_up)
            (spent_token later other (record t { used_at = some now }) now (redeem now label t db).1
              refl)
    ]
