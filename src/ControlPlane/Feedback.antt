-- ===== src/ControlPlane/Feedback.antt =====
-- api/feedback.py: an operator's verdict on a kill, through a link with a token. The hash of the raw
-- token is an argument.
pub mod Once
use hermeskill.Common.{
  ℕ, String, Bool, true, false, Option, none, some, List, [], ◌∷◌, leb, ◌==◌, string_eq, nat_eq,
  if◌then◌else◌,
}
use hermeskill.ControlPlane.{KillEvent, FeedbackToken, Store, Failure, Reply}

abbrev token_of : String → List FeedbackToken → Option FeedbackToken
token_of token_hash [] = none
token_of token_hash (t ∷ ts) = if t.token_hash == token_hash then some t else token_of token_hash ts

abbrev row_of : ℕ → List KillEvent → Option KillEvent
row_of id [] = none
row_of id (k ∷ ks) = if k.id == id then some k else row_of id ks

used : ℕ → String → List FeedbackToken → List FeedbackToken
used now token_hash [] = []
used now token_hash (t ∷ ts) =
    if t.token_hash == token_hash
    then record t { used_at = some now } ∷ ts
    else t ∷ used now token_hash ts

labelled : ℕ → String → ℕ → List KillEvent → List KillEvent
labelled now label id [] = []
labelled now label id (k ∷ ks) =
    if k.id == id
    then record k { feedback_label = some label; feedback_at = some now } ∷ ks
    else k ∷ labelled now label id ks

-- `submit_feedback` on the row that the hash finds.
redeem : ℕ → String → FeedbackToken → Store → Reply ℕ × Store
unfolding used labelled
redeem now label t db =
    if leb t.expires_at now then (Reply.failed Failure.not_found, db) else elim t.used_at [
      | some u ↦ (Reply.failed Failure.gone, db)
      | none ↦ elim (row_of t.kill_event_id db.kill_events) [
        | none ↦ (Reply.failed Failure.not_found, db)
        | some k ↦ (
          Reply.replied k.id,
          record db {
            tokens = used now t.token_hash db.tokens;
            kill_events = labelled now label k.id db.kill_events;
          },
        )
      ]
    ]

redeem_found : ℕ → String → Option FeedbackToken → Store → Reply ℕ × Store
unfolding redeem
redeem_found now label none db = (Reply.failed Failure.not_found, db)
redeem_found now label (some t) db = redeem now label t db

-- The reply is the id of the kill event.
unfoldable pub submit_feedback : ℕ → String → String → Store → Reply ℕ × Store
unfolding redeem_found
submit_feedback now token_hash label db = redeem_found now label (token_of token_hash db.tokens) db
