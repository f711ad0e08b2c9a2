-- ===== src/Periodic.antt =====
-- periodic.py: `ScheduledEntry` and `PeriodicScheduler`, and the calls of it in `schedule_once` and
-- `cancel_scheduled` of manager.py.
--   An entry is an object that the heap and `_one_offs` share: it has an identity. `heapq` gives an
--   entry of the least `next_run`; the model keeps the entries sorted. All times are UTC, in
--   microseconds. The loop is driven by events; it stands at an await when it asks the backend for
--   a lock or for a claim, and others act meanwhile. croniter is a parameter.
pub mod Armed
pub mod Calls
pub mod OneOff
pub mod Quiet
pub mod Cancelled
pub mod Failing
pub mod Schedules
pub mod Shared
pub mod Moved
pub mod Withdrawn
pub mod Entries
pub use fastapi_taskflow.Periodic.Entries.{
  ScheduledEntry, Place, PeriodicScheduler, Fresh, heapify, one_off, arm, is_armed, Schedule,
  entry_of, schedule_entry, stopped, sleeping, locking, claiming, ended,
}
unfoldable pub use fastapi_taskflow.Periodic.Entries.{
  init, push_entry, tombstone, cancel_one_off, add_one_off, schedule_within, refill, add_entry,
  schedule,
}
use fastapi_taskflow.Base.{
  ℕ, suc, ◌+◌, ◌*◌, ◌/◌, ◌≡◌, max, Bool, true, false, not, List, [], ◌∷◌, ◌++◌, Option, none, some,
  String, if◌then◌else◌, leb, ltb, eqb, or_else, or_default, Exn, key_error, value_error,
  assertion_error, is_some, any, Key, ◌==◌, Result, ok, raise, ◌>>=◌, map, string_key,
}
use fastapi_taskflow.Base.Int.{ℤ}
use fastapi_taskflow.Dict.{Dict, lookup, insert, erase}
use fastapi_taskflow.Models.{Obj, Datetime, TaskConfig, ScheduledOnce}
use fastapi_taskflow.Registry.{Func, or_text, get_by_name, register}
use fastapi_taskflow.Store.{Options, default_options, create}
use fastapi_taskflow.Manager.{TaskManager, resolve_executor, put_in_queue, is_empty, executors}

-- `_dispatch`
unfoldable pub dispatch : Fresh → String → Option ℤ → TaskManager → TaskManager × Result (Unit {0})
dispatch t queue priority m =
    if is_empty m.queues
    then (record m { started = t.task_id ∷ m.started }, ok tt)
    else put_in_queue queue t.task_id priority t.wrapped m

-- The record is created and the run dispatched, once the executor is known.
abbrev pub launch :
    Fresh
    → Func
    → List Obj
    → Dict String Obj
    → Options
    → Option ℤ
    → TaskManager
    → Result String
    → TaskManager × Result (Unit {0})
launch t f args kwargs o priority m (raise e) = (m, raise e)
launch t f args kwargs o priority m (ok executor) = dispatch t o.queue priority (record m {
  store = create t.task_id f.name args kwargs (record o { executor = some executor }) t.now m.store;
})

-- `_fire` behind the lock.
unfoldable pub fire : Fresh → ScheduledEntry → TaskManager → TaskManager × Result (Unit {0})
fire t x m =
    launch t x.func [] []
      (record default_options { source = "scheduled"; queue = or_text x.config.queue "default" })
      x.config.priority m (resolve_executor x.func x.config)

-- `_fire_once` behind the claim.
abbrev pub launch_once :
    Fresh
    → ScheduledOnce
    → TaskManager
    → Option (Func × TaskConfig)
    → TaskManager × Result (Unit {0})
launch_once t o m none = (m, ok tt)
launch_once t o m (some (f, config)) =
    launch t f o.args o.kwargs
      (record {
        idempotency_key = o.idempotency_key;
        tags = some o.tags;
        encrypted_payload = o.encrypted_payload;
        source = "scheduled";
        priority = or_else o.priority config.priority;
        executor = none;
        queue = or_text (some o.queue) (or_text config.queue "default");
      })
      (or_else o.priority config.priority) m (resolve_executor f config)

unfoldable pub fire_once : Fresh → ScheduledOnce → TaskManager → TaskManager × Result (Unit {0})
fire_once t o m = launch_once t o m (get_by_name o.func_name m.registry)

-- The end of a firing: an exception goes through `_run` and ends the loop; else a recurring entry
-- is pushed back.
abbrev pub close :
    Option ScheduledEntry → TaskManager × Result (Unit {0}) → PeriodicScheduler → PeriodicScheduler
close x (m, raise e) p = record p { manager = m; place = ended e }
close none (m, ok _) p = record p { manager = m; place = sleeping }
close (some x) (m, ok _) p = record p { manager = m; place = sleeping; heap = push_entry x p.heap }

-- The backend answers. An exception of the claim is logged and skips the firing; one of the lock
-- is not caught.
abbrev pub on_lock : Fresh → ScheduledEntry → Result Bool → PeriodicScheduler → PeriodicScheduler
on_lock t x (raise e) p = record p { place = ended e }
on_lock t x (ok false) p = close (some x) (p.manager, ok tt) p
on_lock t x (ok true) p = close (some x) (fire t x p.manager) p

abbrev pub on_claim : Fresh → ScheduledOnce → Result Bool → PeriodicScheduler → PeriodicScheduler
on_claim t o (raise e) p = record p { place = sleeping }
on_claim t o (ok false) p = record p { place = sleeping }
on_claim t o (ok true) p = close none (fire_once t o p.manager) p

unfoldable pub answer : Fresh → Result Bool → PeriodicScheduler → PeriodicScheduler
answer t a p = elim p.place [
  | stopped ↦ p
  | sleeping ↦ p
  | locking x ↦ on_lock t x a p
  | claiming o ↦ on_claim t o a p
  | ended e ↦ p
]

-- What happens to a scheduler: calls of others, `others` being any change of the manager,
-- and the steps of the loop.
pub data Event : Type 0 where
  schedules : ℕ → ScheduledOnce → Event
  starts : ℕ → Event
  stops : Event
  cancels : String → Event
  registers : (String → Func → Bool) → ℕ → Schedule → Event
  others : TaskManager → Event
  refills : List ScheduledOnce → Event
  rounds : Fresh → ℕ → Event
  answers : Fresh → Result Bool → Event

abbrev pub if_sleeping : Place → PeriodicScheduler → PeriodicScheduler → PeriodicScheduler
if_sleeping sleeping q p = q
if_sleeping x q p = p

-- `start`, once the first times are known; it is called when no loop runs.
abbrev pub start_with :
    Result (List ScheduledEntry) → PeriodicScheduler → PeriodicScheduler × Result (Unit {0})
start_with (ok xs) p =
    (record p { entries = xs; heap = heapify xs; started = true; place = sleeping }, ok tt)
start_with (raise e) p = (p, raise e)

-- `stop`: the loop is cancelled where it stands.
unfoldable pub stop : PeriodicScheduler → PeriodicScheduler
stop p = if p.started then record p { started = false; place = stopped } else p

-- `_fire` up to the lock; without a backend there is none to take.
abbrev pub fire_from : Fresh → ScheduledEntry → Result ℕ → PeriodicScheduler → PeriodicScheduler
fire_from t x (raise e) p = record p { place = ended e }
fire_from t x (ok n) p =
    let y = record x { next_run = n } in
    if p.has_backend then record p { place = locking y } else close (some y) (fire t y p.manager) p

-- `_fire_once` up to the claim.
abbrev pub fire_once_from : Fresh → ScheduledOnce → PeriodicScheduler → PeriodicScheduler
fire_once_from t o p =
    let q = record p { one_offs = erase o.run_key p.one_offs; taken = o.run_key ∷ p.taken } in
    if q.has_backend
    then record q { place = claiming o }
    else close none (fire_once t o q.manager) q

module _ (next_cron : String → ℕ → String → ℕ) where
  unfoldable pub compute_next : ScheduledEntry → ℕ → Result ℕ
  compute_next x from_time = elim x.once [
    | some o ↦ raise value_error
    | none ↦ elim x.every [
      | some d ↦ ok (from_time + d)
      | none ↦ elim x.cron [
        | some c ↦ ok (next_cron c from_time x.timezone)
        | none ↦ raise assertion_error
      ]
    ]
  ]

  -- In `start`: the first times of the entries, unless one has none.
  unfoldable pub first_runs : ℕ → List ScheduledEntry → Result (List ScheduledEntry)
  first_runs now [] = ok []
  first_runs now (x ∷ xs) = do
    n ← (if x.run_on_startup then ok now else compute_next x now)
    ys ← first_runs now xs
    ok (record x { next_run = n } ∷ ys)

  unfoldable pub start : ℕ → PeriodicScheduler → PeriodicScheduler × Result (Unit {0})
  start now p = start_with (first_runs now p.entries) p

  -- An entry that was popped from the heap.
  abbrev pub surface : Fresh → ℕ → ScheduledEntry → PeriodicScheduler → PeriodicScheduler
  surface t now x p = if x.cancelled then p else elim x.once [
    | none ↦ fire_from t x (compute_next x now) p
    | some o ↦ fire_once_from t o p
  ]

  -- One round of the inner loop of `_run`, on the heap that it finds.
  abbrev pub pop_due : Fresh → ℕ → List ScheduledEntry → PeriodicScheduler → PeriodicScheduler
  pop_due t now [] p = p
  pop_due t now (x ∷ rest) p =
      if leb x.next_run now then surface t now x (record p { heap = rest }) else p

  unfoldable pub round : Fresh → ℕ → PeriodicScheduler → PeriodicScheduler
  round t now p = elim p.place [
    | stopped ↦ p
    | sleeping ↦ pop_due t now p.heap p
    | locking x ↦ p
    | claiming o ↦ p
    | ended e ↦ p
  ]

  unfoldable pub step : Event → PeriodicScheduler → PeriodicScheduler
  step (schedules end o) p = schedule_within end o p
  step (starts now) p = (start now p).0
  step stops p = stop p
  step (cancels key) p = cancel_one_off key p
  step (registers valid now s) p = (schedule valid now s p).0
  step (others m) p = record p { manager = m }
  step (refills os) p = if_sleeping p.place (if p.has_backend then refill os p else p) p
  step (rounds t now) p = round t now p
  step (answers t a) p = answer t a p

  unfoldable pub run : List Event → PeriodicScheduler → PeriodicScheduler
  run [] p = p
  run (e ∷ es) p = run es (step e p)
