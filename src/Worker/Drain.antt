-- ===== src/Worker/Drain.antt =====
-- watcher.py: the drain of the events of an agent.
use mathlib.Core.List.{append_assoc, append-nil}
use mathlib.Core.Path.{subst}
use hermeskill.Common.{
  ℕ, zero, suc, ◌+◌, ◌≤◌, ◌≡◌, refl, sym, ap, ◌∙◌, true, inl, inr, Bool-cases, List, [], ◌∷◌, ◌++◌,
  arith, length, take, drop, take-append-drop, length-drop,
}
use hermeskill.Watcher.{WatcherState, Event, drain_events, requeue_events}
use hermeskill.Worker.{
  Post, Drained, event_batch_max, enqueue_all, posted_chunk, drain_chunks, drain_one,
}

-- The queue before the posts and what arrives during them, as what was posted and what is left.
abbrev Conserves : List Event → WatcherState → Drained → Type 0
Conserves events s d =
    d.posted ++ d.state.pending_events ≡ events ++ (s.pending_events ++ d.arrived)

Conserves-chunk :
    (chunk rest meanwhile : List Event) (s : WatcherState) (d : Drained)
    → Conserves rest (record s { pending_events = s.pending_events ++ meanwhile }) d
    → Conserves (chunk ++ rest) s (posted_chunk chunk meanwhile d)
unfolding posted_chunk
Conserves-chunk chunk rest meanwhile s d h =
    append_assoc chunk d.posted d.state.pending_events
    ∙ ap (◌++◌ chunk) h
    ∙ ap (λ xs. chunk ++ (rest ++ xs)) (append_assoc s.pending_events meanwhile d.arrived)
    ∙ sym (append_assoc chunk rest (s.pending_events ++ (meanwhile ++ d.arrived)))

drain_chunks-Conserves :
    (fuel : ℕ) (posts : ℕ → Post) (i : ℕ) (events : List Event) (s : WatcherState)
    → length events ≤ fuel
    → Conserves events s (drain_chunks fuel posts i events s)
unfolding drain_chunks enqueue_all
drain_chunks-Conserves zero posts i [] s h = sym (append-nil s.pending_events)
drain_chunks-Conserves (suc fuel) posts i [] s h = sym (append-nil s.pending_events)
drain_chunks-Conserves zero posts i (e ∷ es) s h = absurd (omega arith)
drain_chunks-Conserves (suc fuel) posts i (e ∷ es) s h = elim (Bool-cases (posts i).succeeds) [
  | inl sent ↦ rw sent (
      subst (λ xs. Conserves xs s (posted_chunk (take event_batch_max events) meanwhile rest))
        (take-append-drop event_batch_max events)
        (Conserves-chunk (take event_batch_max events) (drop event_batch_max events) meanwhile s
          rest
          (drain_chunks-Conserves fuel posts (i + 1) (drop event_batch_max events)
            (enqueue_all meanwhile s) (omega (arith, length-drop {0} event_batch_max events)))))
  | inr failed ↦ rw failed (unfold requeue_events in refl)
]
  where
    events : List Event
    events = e ∷ es

    meanwhile : List Event
    meanwhile = (posts i).meanwhile

    rest : Drained
    rest = drain_chunks fuel posts (i + 1) (drop event_batch_max events) (enqueue_all meanwhile s)

-- Whatever requests fail and whatever the hooks enqueue meanwhile: what was posted, followed by what is
-- left in the queue, is the queue before followed by what was enqueued, in order.
pub drain_one_conserves :
    (posts : ℕ → Post) (s : WatcherState)
    → (drain_one posts s).posted ++ (drain_one posts s).state.pending_events
      ≡ s.pending_events ++ (drain_one posts s).arrived
unfolding drain_one drain_events
drain_one_conserves posts s =
    drain_chunks-Conserves (length s.pending_events) posts 0 s.pending_events
      (record s { pending_events = [] }) (omega arith)

drain_chunks_all :
    (fuel : ℕ) (posts : ℕ → Post) (i : ℕ) (events : List Event) (s : WatcherState)
    → length events ≤ fuel
    → ((j : ℕ) → (posts j).succeeds ≡ true)
    → (drain_chunks fuel posts i events s).posted ≡ events
unfolding drain_chunks posted_chunk
drain_chunks_all zero posts i [] s h sent = refl
drain_chunks_all (suc fuel) posts i [] s h sent = refl
drain_chunks_all zero posts i (e ∷ es) s h sent = absurd (omega arith)
drain_chunks_all (suc fuel) posts i (e ∷ es) s h sent = rw (sent i) (
    ap (◌++◌ (take event_batch_max (e ∷ es))) (
      drain_chunks_all fuel posts (i + 1) (drop event_batch_max (e ∷ es)) _
        (omega (arith, length-drop {0} event_batch_max (e ∷ es))) sent)
    ∙ take-append-drop event_batch_max (e ∷ es))

-- While every request succeeds, the drain posts the whole queue.
pub drain_one_posts_all :
    (posts : ℕ → Post) (s : WatcherState)
    → ((j : ℕ) → (posts j).succeeds ≡ true)
    → (drain_one posts s).posted ≡ s.pending_events
unfolding drain_one drain_events
drain_one_posts_all posts s sent =
    drain_chunks_all (length s.pending_events) posts 0 s.pending_events
      (record s { pending_events = [] }) (omega arith) sent
