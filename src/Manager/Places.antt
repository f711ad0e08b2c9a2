-- ===== src/Manager/Places.antt =====
-- manager.py: where a task may wait, and that a named queue takes it or is full.
use fastapi_taskflow.Base.{
  ℕ, suc, ◌+◌, ◌≡◌, refl, ap, ◌∙◌, ◌⊎◌, inl, inr, Bool, true, [], ◌∷◌, Option, none, some, String,
  arith, count_if, queue_full, Result, ok, raise, ◌==◌, ==_refl, string_key,
}
use fastapi_taskflow.Base.Int.{ℤ}
use fastapi_taskflow.Dict.{Dict, lookup, insert}
use fastapi_taskflow.TaskQueue.{Item, TaskQueue, enqueue, item_of}
use fastapi_taskflow.TaskQueue.Account.{count-heappush}
use fastapi_taskflow.Manager.{
  TaskManager, put_in_queue, put_at, raising, choose_queue, get_queue, is_empty,
}

-- The items of a heap that stand for the task `id`.
abbrev pub mine : String → Item → Bool
mine id x = x.task_id == id

abbrev pub total : (TaskQueue → ℕ) → Dict String TaskQueue → ℕ
total f [] = 0
total f (p ∷ m) = f p.1 + total f m

-- How often the task waits for its run: given to the loop, to Starlette, to the priority worker, or to
-- a named queue.
abbrev pub places : String → TaskManager → ℕ
places id m =
    count_if (λ x. x == id) m.started
    + count_if (λ x. x == id) m.background
    + count_if (mine id) m.priority_queue
    + total (λ q. count_if (mine id) q.heap) m.queues

total-insert :
    (f : TaskQueue → ℕ) (k : String) (q q' : TaskQueue) (m : Dict String TaskQueue)
    → lookup k m ≡ some q
    → total f (insert k q' m) + f q ≡ total f m + f q'
unfolding lookup insert
total-insert f k q q' [] h = cc
total-insert f k q q' (p ∷ m) h = ground (arith, total-insert f k q q' m)

-- `enqueue` puts the task in the heap, or raises `QueueFullError` and leaves the heap alone.
enqueue-cases :
    (id : String) (p : Option ℤ) (w : ℕ) (q : TaskQueue)
    → ((enqueue id p w q).1 ≡ none)
        × (count_if (mine id) (enqueue id p w q).0.heap ≡ suc (count_if (mine id) q.heap))
      ⊎ ((enqueue id p w q).1 ≡ some queue_full) × ((enqueue id p w q).0.heap ≡ q.heap)
unfolding enqueue
enqueue-cases id p w q =
    ground (arith, count-heappush (mine id) (item_of id p w (q.seq + 1)) q.heap, ==_refl id)

-- `startup` builds the queues from a configuration that always has "default".
abbrev pub HasDefault : TaskManager → Type 0
HasDefault m = (is_empty m.queues ≡ true) ⊎ ((q : TaskQueue) × (lookup "default" m.queues ≡ some q))

get_queue-found :
    (name : String) (m : TaskManager) (d : TaskQueue)
    → lookup "default" m.queues ≡ some d
    → (key : String) × (q : TaskQueue) × (get_queue name m ≡ ok (key, q))
      × (lookup key m.queues ≡ some q)
unfolding get_queue
get_queue-found name m d h = by_name (lookup name m.queues) refl
  where
    by_name :
        (o : Option TaskQueue)
        → lookup name m.queues ≡ o
        → (key : String) × (q : TaskQueue) × (get_queue name m ≡ ok (key, q))
          × (lookup key m.queues ≡ some q)
    by_name (some q) e = (name, q, ap (λ z. choose_queue name z (lookup "default" m.queues)) e, e)
    by_name none e = (
      "default",
      d,
      ap (λ z. choose_queue name z (lookup "default" m.queues)) e ∙ ap (choose_queue name none) h,
      h,
    )

-- The task is in one place more, or in none and the exception is `QueueFullError`.
abbrev pub Put : String → TaskManager → TaskManager × Result (Unit {0}) → Type 0
Put id m o =
    (o.1 ≡ ok tt) × (places id o.0 ≡ suc (places id m)) × (o.0.store ≡ m.store)
    ⊎ (o.1 ≡ raise queue_full) × (places id o.0 ≡ places id m) × (o.0.store ≡ m.store)

pub put_in_queue-cases :
    (name id : String) (p : Option ℤ) (w : ℕ) (m : TaskManager) (d : TaskQueue)
    → lookup "default" m.queues ≡ some d
    → Put id m (put_in_queue name id p w m)
unfolding put_in_queue
put_in_queue-cases name id p w m d h =
    let (key, q, g, l) = get_queue-found name m d h in
    let t = total-insert (λ u. count_if (mine id) u.heap) key q (enqueue id p w q).0 m.queues l in
    let opened = ap (λ z. put_at z id p w m) g in
    elim (enqueue-cases id p w q) [
      | inl (e, c) ↦ inl (
        ap (λ o. o.1) opened ∙ ap raising e,
        ap (λ o. places id o.0) opened ∙ omega (arith, t, c),
        ap (λ o. o.0.store) opened,
      )
      | inr (e, c) ↦ inr (
        ap (λ o. o.1) opened ∙ ap raising e,
        ap (λ o. places id o.0) opened ∙ omega (arith, t, ap (count_if (mine id)) c),
        ap (λ o. o.0.store) opened,
      )
    ]
