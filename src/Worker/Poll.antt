-- ===== src/Worker/Poll.antt =====
-- watcher.py: a poll of the pending kills, as each watcher of the registry meets it.
use hermeskill.Common.{
  ◌⊎◌, String, ◌≡◌, refl, sym, ap, ◌∙◌, true, false, inl, inr, Option, none, some, List, [], ◌∷◌,
  arith, eq_iff, ◌==◌, string_eq, if◌then◌else◌,
}
use hermeskill.Watcher.{WatcherState, Clock, request_termination}
use hermeskill.Worker.{
  Registry, PendingKill, get_watcher, deliver, deliver_to, deliver_all, poll_tick,
}

-- A pending kill, and a list of them, as the watcher of one id meets them.
unfoldable pub delivery : Clock → PendingKill → String → WatcherState → WatcherState
delivery now k id s = if id == k.agent_id then deliver now k s else s

abbrev pub deliveries : Clock → List PendingKill → String → WatcherState → WatcherState
deliveries now [] id s = s
deliveries now (k ∷ ks) id s = deliveries now ks id (delivery now k id s)

abbrev pub mapped {ℓ} : {A : Type ℓ} → (A → A) → Option A → Option A
mapped f none = none
mapped f (some a) = some (f a)

mapped-other :
    (now : Clock) (k : PendingKill) (id : String) (o : Option WatcherState)
    → (id == k.agent_id) ≡ false
    → o ≡ mapped (delivery now k id) o
unfolding delivery
mapped-other now k id none h = refl
mapped-other now k id (some s) h = rw h

get_watcher-deliver_to :
    (now : Clock) (k : PendingKill) (id : String) (r : Registry)
    → get_watcher id (deliver_to now k r) ≡ mapped (delivery now k id) (get_watcher id r)
unfolding get_watcher deliver_to delivery
get_watcher-deliver_to now k id [] = refl
get_watcher-deliver_to now k id ((j, s) ∷ r) = ground (
  arith,
  eq_iff j id,
  eq_iff j k.agent_id,
  eq_iff id k.agent_id,
  mapped-other now k id (get_watcher id r),
  get_watcher-deliver_to now k id r,
)

mapped_twice {ℓ} :
    {A : Type ℓ} (f g : A → A) (o : Option A) → mapped f (mapped g o) ≡ mapped (λ a. f (g a)) o
mapped_twice f g none = refl
mapped_twice f g (some a) = refl

mapped_id {ℓ} : {A : Type ℓ} (o : Option A) → o ≡ mapped (λ a. a) o
mapped_id none = refl
mapped_id (some a) = refl

-- A successful poll does to the watcher of an id what the entries for that id do, in their order,
-- and nothing to other watchers; it adds and removes none.
pub get_watcher-poll_tick :
    (now : Clock) (ks : List PendingKill) (id : String) (r : Registry)
    → get_watcher id (poll_tick now (some ks) r) ≡ mapped (deliveries now ks id) (get_watcher id r)
unfolding poll_tick deliver_all
get_watcher-poll_tick now [] id r = mapped_id (get_watcher id r)
get_watcher-poll_tick now (k ∷ ks) id r =
    get_watcher-poll_tick now ks id (deliver_to now k r)
    ∙ ap (mapped (deliveries now ks id)) (get_watcher-deliver_to now k id r)
    ∙ mapped_twice (deliveries now ks id) (delivery now k id) (get_watcher id r)

delivered_flag :
    (now : Clock) (k : PendingKill) (id : String) (s : WatcherState)
    → s.terminate_requested ≡ true
    → delivery now k id s ≡ s
unfolding delivery deliver
delivered_flag now k id s h = ground arith

deliveries_flag :
    (now : Clock) (ks : List PendingKill) (id : String) (s : WatcherState)
    → s.terminate_requested ≡ true
    → deliveries now ks id s ≡ s
deliveries_flag now [] id s h = refl
deliveries_flag now (k ∷ ks) id s h =
    ap (deliveries now ks id) (delivered_flag now k id s h) ∙ deliveries_flag now ks id s h

deliver_flags :
    (now : Clock) (k : PendingKill) (s : WatcherState)
    → (deliver now k s).terminate_requested ≡ true
unfolding deliver request_termination
deliver_flags now k s = ground arith

abbrev pub Names : String → List PendingKill → Type 0
Names id [] = ⊥
Names id (k ∷ ks) = (k.agent_id ≡ id) ⊎ Names id ks

delivery_flags :
    (now : Clock) (k : PendingKill) (id : String) (s : WatcherState)
    → k.agent_id ≡ id
    → (delivery now k id s).terminate_requested ≡ true
unfolding delivery
delivery_flags now k id s e =
    ground (arith, (eq_iff id k.agent_id).1 (sym e), deliver_flags now k s)

deliveries_reach :
    (now : Clock) (ks : List PendingKill) (id : String) (s : WatcherState)
    → Names id ks
    → (deliveries now ks id s).terminate_requested ≡ true
deliveries_reach now [] id s h = absurd h
deliveries_reach now (k ∷ ks) id s (inl e) =
    let flagged = delivery_flags now k id s e in
    ap (λ w. w.terminate_requested) (deliveries_flag now ks id (delivery now k id s) flagged)
    ∙ flagged
deliveries_reach now (k ∷ ks) id s (inr h) = deliveries_reach now ks id (delivery now k id s) h

-- Every registered watcher that some entry of a successful poll names is registered and flagged after
-- the poll.
pub poll_tick_flags :
    (now : Clock) (ks : List PendingKill) (id : String) (r : Registry) (s : WatcherState)
    → get_watcher id r ≡ some s
    → Names id ks
    → (t : WatcherState) × (get_watcher id (poll_tick now (some ks) r) ≡ some t)
      × (t.terminate_requested ≡ true)
poll_tick_flags now ks id r s found named = (
  deliveries now ks id s,
  get_watcher-poll_tick now ks id r ∙ ap (mapped (deliveries now ks id)) found,
  deliveries_reach now ks id s named,
)
