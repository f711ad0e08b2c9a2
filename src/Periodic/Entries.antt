-- ===== src/Periodic/Entries.antt =====
-- periodic.py: the entries of the scheduler, and the calls that arm and disarm them.
use fastapi_taskflow.Base.{
  ℕ, suc, Bool, true, false, not, List, [], ◌∷◌, ◌++◌, Option, none, some, String, if◌then◌else◌,
  leb, ltb, eqb, Exn, key_error, value_error, is_some, any, ◌==◌, Result, ok, raise, string_key,
}
use fastapi_taskflow.Dict.{Dict, lookup, insert, erase}
use fastapi_taskflow.Models.{Datetime, TaskConfig, ScheduledOnce}
use fastapi_taskflow.Registry.{Func, or_text, get_by_name, register}
use fastapi_taskflow.Manager.{TaskManager, executors}

pub record ScheduledEntry : Type 0 where
  pub id : ℕ
  pub func : Func
  pub config : TaskConfig
  pub every : Option ℕ
  pub cron : Option String
  pub run_on_startup : Bool
  pub timezone : String
  pub next_run : ℕ
  pub once : Option ScheduledOnce
  pub cancelled : Bool

-- Where the loop stands: not running, asleep or between two entries, waiting for the lock of a recurring entry,
-- waiting for the claim of a one-off, or ended by an exception.
pub data Place : Type 0 where
  stopped : Place
  sleeping : Place
  locking : ScheduledEntry → Place
  claiming : ScheduledOnce → Place
  ended : Exn → Place

pub record PeriodicScheduler : Type 0 where
  pub manager : TaskManager
  -- `_entries`; after the start the heap has the `next_run` of these objects.
  pub entries : List ScheduledEntry
  pub heap : List ScheduledEntry
  pub one_offs : Dict String ScheduledEntry
  -- There is a backend, and it supports one-offs.
  pub has_backend : Bool
  pub wake : Bool
  -- `_bg_task is not None`
  pub started : Bool
  -- The next fresh identity.
  pub next_id : ℕ
  pub place : Place
  -- The run keys of the one-offs whose firing began, latest first.
  pub taken : List String

-- `__init__`
unfoldable pub init : TaskManager → Bool → PeriodicScheduler
init m has_backend = record {
  manager = m;
  entries = [];
  heap = [];
  one_offs = [];
  has_backend = has_backend;
  wake = false;
  started = false;
  next_id = 0;
  place = stopped;
  taken = [];
}

-- What a firing needs from outside: the fresh task id, the closure and the time.
pub record Fresh : Type 0 where
  pub task_id : String
  pub wrapped : ℕ
  pub now : Datetime

-- `heapq.heappush`, in the order of `__lt__`
unfoldable pub push_entry : ScheduledEntry → List ScheduledEntry → List ScheduledEntry
push_entry x [] = x ∷ []
push_entry x (y ∷ ys) = if ltb x.next_run y.next_run then x ∷ y ∷ ys else y ∷ push_entry x ys

abbrev pub heapify : List ScheduledEntry → List ScheduledEntry
heapify [] = []
heapify (x ∷ xs) = push_entry x (heapify xs)

-- `entry.cancelled = True`, seen through the heap.
unfoldable pub tombstone : ℕ → List ScheduledEntry → List ScheduledEntry
tombstone i [] = []
tombstone i (x ∷ xs) = (if eqb x.id i then record x { cancelled = true } else x) ∷ tombstone i xs

-- `_one_offs.pop(run_key, None)`, and the mark on what it gives: `cancel_one_off`.
unfoldable pub cancel_one_off : String → PeriodicScheduler → PeriodicScheduler
cancel_one_off key p = elim (lookup key p.one_offs) [
  | none ↦ p
  | some x ↦ record p { one_offs = erase key p.one_offs; heap = tombstone x.id p.heap }
]

abbrev pub one_off : ℕ → Func → TaskConfig → ScheduledOnce → ScheduledEntry
one_off i f config o = record {
  id = i;
  func = f;
  config = config;
  every = none;
  cron = none;
  run_on_startup = false;
  timezone = "UTC";
  next_run = o.fire_at.at;
  once = some o;
  cancelled = false;
}

-- `add_one_off` after the look-up of the function.
abbrev pub arm : Option (Func × TaskConfig) → ScheduledOnce → PeriodicScheduler → PeriodicScheduler
arm none o p = p
arm (some (f, config)) o p =
    let q = cancel_one_off o.run_key p in
    let x = one_off q.next_id f config o in
    record q {
      one_offs = insert o.run_key x q.one_offs;
      heap = push_entry x q.heap;
      next_id = suc q.next_id;
      wake = true;
    }

unfoldable pub add_one_off : ScheduledOnce → PeriodicScheduler → PeriodicScheduler
add_one_off o p = arm (get_by_name o.func_name p.manager.registry) o p

-- What `schedule_once` does with the scheduler, once the row is saved.
unfoldable pub schedule_within : ℕ → ScheduledOnce → PeriodicScheduler → PeriodicScheduler
schedule_within horizon_end o p =
    if p.has_backend
    then (if leb o.fire_at.at horizon_end then add_one_off o p else cancel_one_off o.run_key p)
    else p

-- `_refill`, for one of the rows that are due.
abbrev pub is_armed : Option ScheduledEntry → ScheduledOnce → Bool
is_armed none o = false
is_armed (some x) o = eqb x.next_run o.fire_at.at

unfoldable pub refill : List ScheduledOnce → PeriodicScheduler → PeriodicScheduler
refill [] p = p
refill (o ∷ os) p =
    refill os (if is_armed (lookup o.run_key p.one_offs) o then p else add_one_off o p)

-- `_add_entry`
unfoldable pub add_entry : ScheduledEntry → PeriodicScheduler → PeriodicScheduler
add_entry x p = record p { entries = p.entries ++ x ∷ []; heap = push_entry x p.heap; wake = true }

-- The arguments of `@task_manager.schedule(...)`.
pub record Schedule : Type 0 where
  pub func : Func
  pub config : TaskConfig
  pub every : Option ℕ
  pub cron : Option String
  pub run_on_startup : Bool
  pub timezone : String

-- The new entry: `next_run` is the time of the call.
abbrev pub entry_of : ℕ → ℕ → Schedule → TaskConfig → ScheduledEntry
entry_of i now s config = record {
  id = i;
  func = s.func;
  config = config;
  every = s.every;
  cron = s.cron;
  run_on_startup = s.run_on_startup;
  timezone = s.timezone;
  next_run = now;
  once = none;
  cancelled = false;
}

-- The decorator behind its checks.
abbrev pub schedule_entry : ℕ → Schedule → PeriodicScheduler → PeriodicScheduler
schedule_entry now s p =
    let config = record s.config { name = some (or_text s.config.name s.func.name) } in
    let x = entry_of p.next_id now s config in
    let q = record p {
      manager = record p.manager { registry = register s.func config p.manager.registry };
      next_id = suc p.next_id;
    } in
    if p.started then add_entry x q else record q { entries = q.entries ++ x ∷ [] }

abbrev same_bool : Bool → Bool → Bool
same_bool true b = b
same_bool false b = not b

-- `TaskManager.schedule`; the executor's own validation of the function is a parameter.
unfoldable pub schedule :
    (String → Func → Bool) → ℕ → Schedule → PeriodicScheduler → PeriodicScheduler × Result Func
schedule valid now s p =
    if same_bool (is_some s.every) (is_some s.cron)
    then (p, raise value_error)
    else elim s.config.executor [
      | none ↦ (schedule_entry now s p, ok s.func)
      | some e ↦
          if any (λ x. x == e) executors
          then (if valid e s.func
              then (schedule_entry now s p, ok s.func)
              else (p, raise value_error))
          else (p, raise (key_error e))
    ]
