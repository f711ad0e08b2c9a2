-- ===== src/TaskQueue/Limits.antt =====
-- manager.py: `_TaskQueue` keeps its limits while its configuration stays, and loses no task.
use mathlib.Core.List.{Perm}
use fastapi_taskflow.Base.{
  ℕ, zero, suc, ◌+◌, ◌<◌, ◌≤◌, ◌≡◌, refl, ap, ◌⊎◌, inl, inr, true, false, List, [], ◌∷◌, Option,
  none, some, String, leb, arith, All, length, or_default, Bool-cases, queue_full,
}
use fastapi_taskflow.Base.Int.{ℤ, pos, neg_twice}
use fastapi_taskflow.Models.{QueueConfig}
use fastapi_taskflow.TaskQueue.{
  Item, heappush, TaskQueue, Drainer, idle, blocked, stale, enqueue, is_full, item_of, drain,
  finish, remove_nth, Event, enqueues, drains, finishes, updates, step, run, init,
}
use fastapi_taskflow.TaskQueue.Order.{heappush-perm, priority_of}

length-heappush : (x : Item) (ys : List Item) → length (heappush x ys) ≡ suc (length ys)
unfolding heappush
length-heappush x [] = refl
length-heappush x (y ∷ ys) = ground (arith, length-heappush x ys)

length-remove_nth :
    (i : ℕ) (xs : List Item) → i < length xs → suc (length (remove_nth i xs)) ≡ length xs
length-remove_nth i [] h = absurd (omega arith)
length-remove_nth zero (x ∷ xs) h = refl
length-remove_nth (suc i) (x ∷ xs) h = ap suc (length-remove_nth i xs (omega arith))

-- `n` is below the limit, if there is one.
abbrev pub Below : Option ℕ → ℕ → Type 0
Below none n = Unit
Below (some m) n = n < m

is_full-cases :
    (m : Option ℕ) (n : ℕ)
    → ((k : ℕ) × (m ≡ some k) × (k ≤ n) × (is_full m n ≡ true))
      ⊎ (Below m n × (is_full m n ≡ false))
is_full-cases none n = inr (tt, refl)
is_full-cases (some k) n = elim (Bool-cases (leb k n)) [
  | inl e ↦ inl (k, refl, ground arith, e)
  | inr e ↦ inr (ground arith, e)
]

-- `enqueue` refuses exactly when `max_size` tasks wait: it then counts the refusal and changes
-- nothing else. Otherwise one more task waits, with the given priority, 0 if there is none, under the
-- next sequence number, the drainer is told, and nothing else changes.
pub enqueue_lem :
    (t : String) (p : Option ℤ) (w : ℕ) (q : TaskQueue)
    → ((m : ℕ) × (q.config.max_size ≡ some m)
        × (m ≤ length q.heap)
        × (enqueue t p w q ≡ (record q { rejected_count = q.rejected_count + 1 }, some queue_full)))
      ⊎ (Below q.config.max_size (length q.heap)
          × (x : Item) × (h : List Item) × Perm h (x ∷ q.heap)
          × (priority_of x ≡ or_default p (pos 0))
          × ((x.task_id ≡ t) × (x.wrapped ≡ w) × (x.seq ≡ q.seq + 1))
          × (enqueue t p w q ≡ (record q { heap = h; seq = q.seq + 1; has_work = true }, none)))
unfolding enqueue
enqueue_lem t p w q = elim (is_full-cases q.config.max_size (length q.heap)) [
  | inl (m, e, h, f) ↦ inl (m, e, h, rw f)
  | inr (b, f) ↦ inr (
    b,
    item_of t p w (q.seq + 1),
    heappush (item_of t p w (q.seq + 1)) q.heap,
    heappush-perm (item_of t p w (q.seq + 1)) q.heap,
    neg_twice (or_default p (pos 0)),
    (refl, refl, refl),
    rw f,
  )
]

abbrev pub AtMost : Option ℕ → ℕ → Type 0
AtMost none n = Unit
AtMost (some m) n = n ≤ m

-- A semaphore exists exactly when there is a limit; its free permits and the running tasks add up
-- to the limit.
abbrev pub Slots : Option ℕ → Option ℕ → ℕ → Type 0
Slots none sem n = sem ≡ none
Slots (some c) none n = ⊥
Slots (some c) (some free) n = free + n ≡ c

-- No drainer is left on a semaphore that was replaced.
abbrev pub IsFresh : Drainer → Type 0
IsFresh idle = Unit
IsFresh (blocked x) = Unit
IsFresh (stale x free) = ⊥

pub record IsBounded (c m : Option ℕ) (q : TaskQueue) : Type 0 where
  pub concurrency : q.config.concurrency ≡ c
  pub max_size : q.config.max_size ≡ m
  pub waiting : AtMost m (length q.heap)
  pub slots : Slots c q.sem (length q.running)
  pub fresh : IsFresh q.drainer

module _ (c m : Option ℕ) (q : TaskQueue) (v : IsBounded c m q) where
  enqueue-IsBounded : (t : String) (p : Option ℤ) (w : ℕ) → IsBounded c m (enqueue t p w q).0
  unfolding enqueue
  enqueue-IsBounded t p w = ground (arith, length-heappush (item_of t p w (q.seq + 1)) q.heap)

  drain-IsBounded : IsBounded c m (drain q)
  unfolding drain
  drain-IsBounded = ground arith

  finish-IsBounded : (i : ℕ) → IsBounded c m (finish i q)
  unfolding finish
  finish-IsBounded i = ground (arith, length-remove_nth i q.running)

-- An event that leaves the configuration alone.
abbrev pub KeepsConfig : Event → Type 0
KeepsConfig (updates c m) = ⊥
KeepsConfig _ = Unit

step-IsBounded :
    (c m : Option ℕ) (e : Event) (q : TaskQueue)
    → KeepsConfig e
    → IsBounded c m q
    → IsBounded c m (step e q)
unfolding step
step-IsBounded c m (enqueues t p w) q k v = enqueue-IsBounded c m q v t p w
step-IsBounded c m drains q k v = drain-IsBounded c m q v
step-IsBounded c m (finishes i) q k v = finish-IsBounded c m q v i
step-IsBounded c m (updates x y) q k v = absurd k

run-IsBounded :
    (c m : Option ℕ) (es : List Event) (q : TaskQueue)
    → All KeepsConfig es
    → IsBounded c m q
    → IsBounded c m (run es q)
unfolding run
run-IsBounded c m [] q k v = v
run-IsBounded c m (e ∷ es) q k v =
    run-IsBounded c m es (step e q) k.1 (step-IsBounded c m e q k.0 v)

init-IsBounded : (n : String) (c : QueueConfig) → IsBounded c.concurrency c.max_size (init n c)
unfolding init
init-IsBounded n c = ground arith

AtMost-slots : (c sem : Option ℕ) (n : ℕ) → Slots c sem n → AtMost c n
AtMost-slots none sem n s = tt
AtMost-slots (some c) none n s = absurd s
AtMost-slots (some c) (some free) n s = omega arith

-- From setup on, under any interleaving of enqueues, turns of the drainer and ends of tasks, at most
-- `max_size` tasks wait and at most `concurrency` tasks run, and the free permits are the ones that
-- no running task holds.
pub run-init-limits :
    (n : String) (c : QueueConfig) (es : List Event)
    → All KeepsConfig es
    → let q = run es (init n c) in
      AtMost c.max_size (length q.heap)
      × AtMost c.concurrency (length q.running)
      × Slots c.concurrency q.sem (length q.running)
run-init-limits n c es k =
    let v = run-IsBounded c.concurrency c.max_size es (init n c) k (init-IsBounded n c) in
    (v.waiting, AtMost-slots c.concurrency _ _ v.slots, v.slots)
