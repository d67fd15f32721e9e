-- ===== src/ControlPlane/KillEvents.antt =====
-- api/kill_events.py and api/manual_kill.py: a certificate that an agent posts, an operator's kill, and
-- the kills that wait for their agents. The partial unique index of migrations/versions/
-- 0002_kill_events.py allows one active kill event for an agent; a write that breaks it is rolled back.
pub mod Index
pub mod Lifecycle
pub mod Certificates
pub mod Final
pub mod Frame
pub mod Pending
use hermeskill.Common.{
  ℕ, ◌+◌, String, Bool, true, false, ◌&&◌, ◌||◌, Option, none, some, List, [], ◌∷◌, ◌++◌, any,
  keep_if, length, last?, ltb, ◌==◌, string_eq, nat_eq, if◌then◌else◌,
}
use hermeskill.Watcher.Values.{Detail, Value, put}
use hermeskill.ControlPlane.{
  Agent, AgentStatus, KillEvent, KillEventStatus, TriggerType, FeedbackToken, Store, Failure, Reply,
  Principal, Scalar, scalar_one_or_none, load_agent_owned_by, with_agent, update_agent,
}

-- `status in [INITIATED, CONFIRMED]`
abbrev pub is_active : KillEvent → Bool
is_active k = elim k.status [ KillEventStatus.zombie ↦ false | _ ↦ true ]

abbrev pub is_confirmed : KillEvent → Bool
is_confirmed k = elim k.status [ KillEventStatus.confirmed ↦ true | _ ↦ false ]

abbrev pub is_active_of : String → KillEvent → Bool
is_active_of agent_id k = k.agent_id == agent_id && is_active k

-- `_existing_active_kill_event`
abbrev pub existing_active : String → List KillEvent → Scalar KillEvent
existing_active agent_id rows = scalar_one_or_none (keep_if (is_active_of agent_id) rows)

-- The partial unique index refuses the table.
unfoldable pub breaks_index : List KillEvent → Bool
breaks_index rows =
    any (λ k. is_active k && ltb 1 (length (keep_if (is_active_of k.agent_id) rows))) rows

-- `KillEventIn`
pub record KillEventIn : Type 0 where
  pub trigger_type : TriggerType
  pub trigger_reason : String
  pub triggered_at : ℕ
  pub terminated_at : ℕ
  pub death_certificate : Detail
  pub shutdown_log : List Detail

-- A feedback token as it is minted: the hash that is kept, the URL with the raw token, the expiry.
pub record Minted : Type 0 where
  pub token_hash : String
  pub feedback_url : String
  pub expires_at : ℕ

certified : KillEventIn → Minted → KillEvent → KillEvent
certified payload minted k = record k {
  terminated_at = some payload.terminated_at;
  death_certificate =
      some (put "feedback_url" (Value.str minted.feedback_url) payload.death_certificate);
  shutdown_log = payload.shutdown_log;
  status = KillEventStatus.confirmed;
}

auto_row : ℕ → String → KillEventIn → Minted → KillEvent
unfolding certified
auto_row id agent_id payload minted = certified payload minted (record {
  id = id;
  agent_id = agent_id;
  trigger_type = payload.trigger_type;
  trigger_reason = payload.trigger_reason;
  triggered_at = payload.triggered_at;
  terminated_at = none;
  status = KillEventStatus.confirmed;
  operator_id = none;
  operator_reason = none;
  death_certificate = none;
  shutdown_log = [];
  feedback_label = none;
  feedback_at = none;
})

-- The write of an existing row.
pub replace_row : KillEvent → List KillEvent → List KillEvent
replace_row row [] = []
replace_row row (k ∷ rows) = (if k.id == row.id then row else k) ∷ replace_row row rows

-- The unique columns of the feedback tokens refuse another one.
unfoldable pub token_taken : ℕ → Minted → List FeedbackToken → Bool
token_taken id minted tokens =
    any (λ t. t.token_hash == minted.token_hash || t.kill_event_id == id) tokens

-- `_409_for_active_kill`
in_flight : Scalar KillEvent → Failure
in_flight Scalar.absent = Failure.conflict none
in_flight Scalar.several = Failure.internal
in_flight (Scalar.single k) = Failure.conflict (some k.id)

-- `_build_or_update_kill_event`: the row with the table that holds it.
build_or_update : KillEventIn → Minted → String → Option KillEvent → Store → KillEvent × Store
unfolding certified auto_row replace_row
build_or_update payload minted agent_id (some k) db =
    let row = certified payload minted k in
    (row, record db { kill_events = replace_row row db.kill_events })
build_or_update payload minted agent_id none db =
    let row = auto_row db.next_kill_event_id agent_id payload minted in
    (
      row,
      record db {
        kill_events = db.kill_events ++ row ∷ [];
        next_kill_event_id = db.next_kill_event_id + 1;
      },
    )

-- The end of `create_kill_event`: the flush, the token, and the commit.
post_certificate :
    KillEventIn → Minted → String → Option KillEvent → Store → Reply KillEvent × Store
unfolding build_or_update token_taken in_flight
post_certificate payload minted agent_id existing db =
    let (row, written) = build_or_update payload minted agent_id existing db in
    if breaks_index written.kill_events || token_taken row.id minted db.tokens
    then (Reply.failed (in_flight (existing_active agent_id db.kill_events)), db)
    else (
      Reply.replied row,
      record written {
        agents =
            update_agent agent_id
              (λ a. record a {
                status = AgentStatus.terminated;
                terminated_at = some payload.terminated_at;
              })
              db.agents;
        tokens =
            db.tokens
            ++ record {
              token_hash = minted.token_hash;
              kill_event_id = row.id;
              expires_at = minted.expires_at;
              used_at = none;
            }
              ∷ [];
      },
    )

certify : KillEventIn → Minted → String → Scalar KillEvent → Store → Reply KillEvent × Store
unfolding post_certificate
certify payload minted agent_id Scalar.several db = (Reply.failed Failure.internal, db)
certify payload minted agent_id Scalar.absent db = post_certificate payload minted agent_id none db
certify payload minted agent_id (Scalar.single k) db =
    if is_confirmed k
    then (Reply.failed (Failure.conflict (some k.id)), db)
    else post_certificate payload minted agent_id (some k) db

unfoldable pub create_kill_event :
    KillEventIn → Minted → Principal → String → Store → Reply KillEvent × Store
unfolding certify
create_kill_event payload minted principal agent_id db =
    with_agent (load_agent_owned_by agent_id principal.customer_id db.agents) db
      (λ agent. certify payload minted agent_id (existing_active agent_id db.kill_events) db)

manual_row : ℕ → ℕ → String → Principal → String → KillEvent
manual_row id now reason principal agent_id = record {
  id = id;
  agent_id = agent_id;
  trigger_type = TriggerType.manual;
  trigger_reason = "manual kill";
  triggered_at = now;
  terminated_at = none;
  status = KillEventStatus.initiated;
  operator_id = some principal.api_key_id;
  operator_reason = some reason;
  death_certificate = none;
  shutdown_log = [];
  feedback_label = none;
  feedback_at = none;
}

abbrev pub is_terminated : Agent → Bool
is_terminated a = elim a.status [ AgentStatus.terminated ↦ true | _ ↦ false ]

-- The id of the latest kill event of an agent; ids grow with the table.
abbrev pub recent_kill_id : String → List KillEvent → Option ℕ
recent_kill_id agent_id rows = elim (last? (keep_if (λ k. k.agent_id == agent_id) rows)) [
  | none ↦ none
  | some k ↦ some k.id
]

-- `terminate_agent`, once the agent is loaded.
strike : ℕ → String → Principal → Agent → String → Store → Reply KillEvent × Store
unfolding manual_row in_flight
strike now reason principal agent agent_id db =
    let row = manual_row db.next_kill_event_id now reason principal agent_id in
    let rows = db.kill_events ++ row ∷ [] in
    if is_terminated agent
    then (Reply.failed (Failure.conflict (recent_kill_id agent_id db.kill_events)), db)
    else if breaks_index rows
    then (Reply.failed (in_flight (existing_active agent_id db.kill_events)), db)
    else (
      Reply.replied row,
      record db {
        kill_events = rows;
        next_kill_event_id = db.next_kill_event_id + 1;
        agents = update_agent agent_id (λ a. record a { status = AgentStatus.dying }) db.agents;
      },
    )

unfoldable pub terminate_agent : ℕ → String → Principal → String → Store → Reply KillEvent × Store
unfolding strike
terminate_agent now reason principal agent_id db =
    with_agent (load_agent_owned_by agent_id principal.customer_id db.agents) db
      (λ agent. strike now reason principal agent agent_id db)

abbrev owned_by : String → List Agent → KillEvent → Bool
owned_by customer_id agents k = any (λ a. a.id == k.agent_id && a.customer_id == customer_id) agents

abbrev is_initiated : KillEvent → Bool
is_initiated k = elim k.status [ KillEventStatus.initiated ↦ true | _ ↦ false ]

abbrev is_manual : KillEvent → Bool
is_manual k = elim k.trigger_type [ TriggerType.manual ↦ true | TriggerType.auto ↦ false ]

abbrev pub is_pending : KillEvent → Bool
is_pending k = is_initiated k && is_manual k

-- `list_pending_kills`: the rows that it serializes.
unfoldable pub list_pending_kills : Principal → Store → List KillEvent
list_pending_kills principal db =
    keep_if (λ k. owned_by principal.customer_id db.agents k && is_pending k) db.kill_events
