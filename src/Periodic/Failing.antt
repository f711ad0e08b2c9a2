-- ===== src/Periodic/Failing.antt =====
-- periodic.py: what ends the loop, and what `start` forgets.
use fastapi_taskflow.Base.{
  ℕ, ◌≤◌, ◌≡◌, refl, Bool, true, false, List, [], ◌∷◌, Option, none, some, String, if◌then◌else◌,
  leb, Result, ok, raise, Exn, queue_full, arith, All, count_if, length, string_key, ==_refl, ◌∙◌,
  sym, ap, subst,
}
use fastapi_taskflow.Dict.{lookup, lookup-insert}
use fastapi_taskflow.Models.{TaskConfig, ScheduledOnce}
use fastapi_taskflow.Registry.{Func, get_by_name, or_text}
use fastapi_taskflow.TaskQueue.{TaskQueue, enqueue}
use fastapi_taskflow.Manager.{TaskManager, resolve_executor, get_queue, put_in_queue, is_empty}
use fastapi_taskflow.Periodic.{
  ScheduledEntry, PeriodicScheduler, locking, ended, Fresh, heapify, first_runs, one_off,
  cancel_one_off, arm, add_one_off, is_armed, refill, schedule_within, schedule, add_entry, fire,
  dispatch, close, start, start_with, round, answer, Event, schedules, starts, stops, cancels,
  registers, others, refills, rounds, answers, step, run,
}
use fastapi_taskflow.Periodic.Armed.{fires, count-unnamed}
use fastapi_taskflow.Periodic.Calls.{IsArmed, IsRecurring, heapify-Agrees, Runs}
use fastapi_taskflow.Periodic.OneOff.{first_runs-Runs}

-- The loop ended with `e`, when these firings had begun.
abbrev Over : Exn → List String → PeriodicScheduler → Type 0
Over e l p = (p.place ≡ ended e) × (p.taken ≡ l)

-- The event neither starts nor stops the scheduler.
abbrev pub IsCall : Event → Type 0
IsCall (schedules end o) = Unit
IsCall (starts now) = ⊥
IsCall stops = ⊥
IsCall (cancels k) = Unit
IsCall (registers valid now s) = Unit
IsCall (others m) = Unit
IsCall (refills os) = Unit
IsCall (rounds t now) = Unit
IsCall (answers t a) = Unit

module _ (x : Exn) (l : List String) where
  if-Over :
      (b : Bool) (p q : PeriodicScheduler) → Over x l p → Over x l q → Over x l (if b then p else q)
  if-Over true p q v w = v
  if-Over false p q v w = w

  cancel-Over :
      (key : String) (p : PeriodicScheduler) → Over x l p → Over x l (cancel_one_off key p)
  unfolding cancel_one_off
  cancel-Over key p v = ground (arith, v)

  add-Over : (o : ScheduledOnce) (p : PeriodicScheduler) → Over x l p → Over x l (add_one_off o p)
  unfolding add_one_off
  add-Over o p v = by_func (get_by_name o.func_name p.manager.registry)
    where
      by_func : (r : Option (Func × TaskConfig)) → Over x l (arm r o p)
      by_func none = v
      by_func (some r) = cancel-Over o.run_key p v

  step-Over :
      (next_cron : String → ℕ → String → ℕ) (e : Event) (p : PeriodicScheduler)
      → IsCall e
      → Over x l p
      → Over x l (step next_cron e p)
  unfolding step start schedule_within schedule add_entry round answer
  step-Over next_cron (schedules end o) p h v =
      if-Over p.has_backend _ _
        (if-Over (leb o.fire_at.at end) _ _ (add-Over o p v) (cancel-Over o.run_key p v)) v
  step-Over next_cron (starts now) p h v = elim h [ ]
  step-Over next_cron stops p h v = elim h [ ]
  step-Over next_cron (cancels k) p h v = cancel-Over k p v
  step-Over next_cron (registers valid now s) p h v = ground (arith, v)
  step-Over next_cron (others m) p h v = v
  step-Over next_cron (refills os) p h v = ground (arith, v)
  step-Over next_cron (rounds t now) p h v = ground (arith, v)
  step-Over next_cron (answers t b) p h v = ground (arith, v)

  run-Over :
      (next_cron : String → ℕ → String → ℕ) (es : List Event) (p : PeriodicScheduler)
      → All IsCall es
      → Over x l p
      → Over x l (run next_cron es p)
  unfolding run
  run-Over next_cron [] p h v = v
  run-Over next_cron (e ∷ es) p h v =
      run-Over next_cron es (step next_cron e p) h.1 (step-Over next_cron e p h.0 v)

full :
    (t : Fresh) (x : ScheduledEntry) (m : TaskManager) (executor k : String) (q : TaskQueue) (n : ℕ)
    → resolve_executor x.func x.config ≡ ok executor
    → is_empty m.queues ≡ false
    → get_queue (or_text x.config.queue "default") m ≡ ok (k, q)
    → q.config.max_size ≡ some n
    → n ≤ length q.heap
    → (fire t x m).1 ≡ raise queue_full
unfolding fire dispatch put_in_queue get_queue enqueue
full t x m executor k q n e h g c l = ground (arith, e, h, g, c, l)

closed :
    (x : Option ScheduledEntry) (o : TaskManager × Result (Unit {0})) (p : PeriodicScheduler)
    (e : Exn)
    → o.1 ≡ raise e
    → Over e p.taken (close x o p)
closed x o p e h = ground (arith, h)

pub full-queue-ends-loop :
    (next_cron : String → ℕ → String → ℕ) (p : PeriodicScheduler) (t : Fresh) (x : ScheduledEntry)
    (executor k : String) (q : TaskQueue) (n : ℕ) (later : List Event)
    → p.place ≡ locking x
    → resolve_executor x.func x.config ≡ ok executor
    → is_empty p.manager.queues ≡ false
    → get_queue (or_text x.config.queue "default") p.manager ≡ ok (k, q)
    → q.config.max_size ≡ some n
    → n ≤ length q.heap
    → All IsCall later
    → ((run next_cron later (answer t (ok true) p)).place ≡ ended queue_full)
      × ((run next_cron later (answer t (ok true) p)).taken ≡ p.taken)
unfolding answer
full-queue-ends-loop next_cron p t x executor k q n later e r h g c l a =
    run-Over queue_full p.taken next_cron later (answer t (ok true) p) a (
      rw (e, answer)
        (closed (some x) (fire t x p.manager) p queue_full
          (full t x p.manager executor k q n r h g c l)))

cancel-entries : (key : String) (p : PeriodicScheduler) → (cancel_one_off key p).entries ≡ p.entries
unfolding cancel_one_off
cancel-entries key p = ground arith

no_fires :
    (k : String) (xs : List ScheduledEntry)
    → All IsRecurring xs
    → count_if (fires k) (heapify xs) ≡ 0
unfolding lookup
no_fires k xs a = count-unnamed [] k (heapify xs) refl ((heapify-Agrees xs [] a).named k)

arm-is_armed :
    (f : Func) (c : TaskConfig) (o : ScheduledOnce) (p : PeriodicScheduler)
    → is_armed (lookup o.run_key (arm (some (f, c)) o p).one_offs) o ≡ true
arm-is_armed f c o p =
    let q = cancel_one_off o.run_key p in
    ground (
      arith,
      ==_refl o.run_key,
      lookup-insert o.run_key o.run_key (one_off q.next_id f c o) q.one_offs,
    )

-- `start` after a one-off was armed: the heap that it makes has no entry that would fire it, and
-- the refill from the backend takes the key for armed and changes nothing.
pub start-forgets :
    (next_cron : String → ℕ → String → ℕ) (p : PeriodicScheduler) (o : ScheduledOnce) (f : Func)
    (c : TaskConfig) (now : ℕ) (xs : List ScheduledEntry) {q : PeriodicScheduler}
    → IsArmed p
    → get_by_name o.func_name p.manager.registry ≡ some (f, c)
    → first_runs next_cron now p.entries ≡ ok xs
    → (start next_cron now (add_one_off o p)).0 ≡ q
    → (count_if (fires o.run_key) q.heap ≡ 0) × (refill (o ∷ []) q ≡ q)
unfolding start add_one_off refill
start-forgets next_cron p o f c now xs {q} v g r s =
    let w = arm (some (f, c)) o p in
    let u = (start_with (ok xs) w).0 in
    let e =
      sym s
      ∙ ap (λ z. (start next_cron now (arm z o p)).0) g
      ∙ ap (λ z. (start_with z w).0)
          (ap (first_runs next_cron now) (cancel-entries o.run_key p) ∙ r) in
    let a = subst Runs r (first_runs-Runs next_cron now p.entries v.recurring) in
    rw e
      (no_fires o.run_key xs a, ap (λ b. if b then u else add_one_off o u) (arm-is_armed f c o p))
