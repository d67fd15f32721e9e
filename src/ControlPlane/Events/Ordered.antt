-- ===== src/ControlPlane/Events/Ordered.antt =====
-- events.py: the ids in the table of the events.
use mathlib.Core.List.{reverse, reverse-cons}
use hermeskill.Common.{
  All-keep_if, ℕ, ◌+◌, ◌≤◌, ◌<◌, String, inl, inr, Bool, Bool-cases, Option, none, some, List, [],
  ◌∷◌, ◌++◌, length, keep_if, All, string_eq, arith,
}
use hermeskill.Watcher.{Event}
use hermeskill.ControlPlane.{Agent}
use hermeskill.ControlPlane.Events.{EventRow, EventLog, new_rows, add_all}
use hermeskill.ControlPlane.Events.Paging.{Falls, Rises}

-- The ids grow along the table, and stay below the next one.
pub record IsOrdered (log : EventLog) : Type 0 where
  pub rises : Rises log.rows
  pub below : All (λ r. r.id < log.next_id) log.rows

All-append :
    (P : EventRow → Type 0) (xs ys : List EventRow) → All P xs → All P ys → All P (xs ++ ys)
All-append P [] ys h k = k
All-append P (x ∷ xs) ys (now, later) k = (now, All-append P xs ys later k)

All-map :
    (P Q : EventRow → Type 0) (xs : List EventRow)
    → ((r : EventRow) → P r → Q r)
    → All P xs
    → All Q xs
All-map P Q [] f h = tt
All-map P Q (x ∷ xs) f (now, later) = (f x now, All-map P Q xs f later)

All-reverse : (P : EventRow → Type 0) (xs : List EventRow) → All P xs → All P (reverse xs)
All-reverse P [] h = tt
All-reverse P (x ∷ xs) (now, later) =
    rw (reverse-cons x xs) (All-append P (reverse xs) (x ∷ []) (All-reverse P xs later) (now, tt))

Rises-append :
    (n : ℕ) (xs ys : List EventRow)
    → Rises xs
    → All (λ r. r.id < n) xs
    → Rises ys
    → All (λ r. n ≤ r.id) ys
    → Rises (xs ++ ys)
unfolding Rises
Rises-append n [] ys rx below ry above = ry
Rises-append n (x ∷ xs) ys (all, rx) (now, below) ry above = (
  All-append (λ r. x.id < r.id) xs ys all
      (All-map (λ r. n ≤ r.id) (λ r. x.id < r.id) ys (λ r h. omega (arith, h, now)) above),
  Rises-append n xs ys rx below ry above,
)

Falls-snoc :
    (x : EventRow) (xs : List EventRow)
    → Falls xs
    → All (λ r. x.id < r.id) xs
    → Falls (xs ++ x ∷ [])
unfolding Falls
Falls-snoc x [] f all = (tt, tt)
Falls-snoc x (y ∷ ys) (h, f) (now, all) =
    (All-append (λ r. r.id < y.id) ys (x ∷ []) h (now, tt), Falls-snoc x ys f all)

pub Falls-reverse : (xs : List EventRow) → Rises xs → Falls (reverse xs)
unfolding Rises Falls
Falls-reverse [] r = tt
Falls-reverse (x ∷ xs) (all, r) =
    rw (reverse-cons x xs)
      (Falls-snoc x (reverse xs) (Falls-reverse xs r) (All-reverse (λ y. x.id < y.id) xs all))

pub Rises-keep_if : (f : EventRow → Bool) (xs : List EventRow) → Rises xs → Rises (keep_if f xs)
unfolding Rises
Rises-keep_if f [] r = tt
Rises-keep_if f (x ∷ xs) (all, r) = elim (Bool-cases (f x)) [
  | inl e ↦ rw e (All-keep_if (λ y. x.id < y.id) f xs all, Rises-keep_if f xs r)
  | inr e ↦ rw e (Rises-keep_if f xs r)
]

above_new_rows :
    (n id now : ℕ) (agent_id : String) (batch : List Event)
    → n ≤ id
    → All (λ r. n ≤ r.id) (new_rows id now agent_id batch)
unfolding new_rows
above_new_rows n id now agent_id [] h = tt
above_new_rows n id now agent_id (e ∷ batch) h =
    (h, above_new_rows n (id + 1) now agent_id batch (omega (arith, h)))

below_new_rows :
    (id now : ℕ) (agent_id : String) (batch : List Event)
    → All (λ r. r.id < id + length batch) (new_rows id now agent_id batch)
unfolding new_rows
below_new_rows id now agent_id [] = tt
below_new_rows id now agent_id (e ∷ batch) = (
  omega arith,
  All-map (λ r. r.id < id + 1 + length batch) (λ r. r.id < id + length (e ∷ batch)) _
      (λ r h. omega (arith, h)) (below_new_rows (id + 1) now agent_id batch),
)

Rises-new_rows :
    (id now : ℕ) (agent_id : String) (batch : List Event) → Rises (new_rows id now agent_id batch)
unfolding new_rows Rises
Rises-new_rows id now agent_id [] = tt
Rises-new_rows id now agent_id (e ∷ batch) = (
  All-map (λ r. id + 1 ≤ r.id) (λ r. id < r.id) _ (λ r h. omega (arith, h))
      (above_new_rows (id + 1) (id + 1) now agent_id batch (omega arith)),
  Rises-new_rows (id + 1) now agent_id batch,
)

pub IsOrdered-add_all :
    (now : ℕ) (agent_id : String) (batch : List Event) (log : EventLog) (o : Option Agent)
    → IsOrdered log
    → IsOrdered (add_all now agent_id batch log o).1
unfolding add_all
IsOrdered-add_all now agent_id batch log none w = w
IsOrdered-add_all now agent_id batch log (some agent) w = record {
  rises =
      Rises-append log.next_id log.rows _ w.rises w.below
        (Rises-new_rows log.next_id now agent_id batch)
        (above_new_rows log.next_id log.next_id now agent_id batch (omega arith));
  below =
      All-append (λ r. r.id < log.next_id + length batch) log.rows _
        (All-map (λ r. r.id < log.next_id) (λ r. r.id < log.next_id + length batch) log.rows
          (λ r h. omega (arith, h)) w.below)
        (below_new_rows log.next_id now agent_id batch);
}
