-- ===== src/TaskQueue.antt =====
-- manager.py: `_TaskQueue` and `TaskManager.update_queue_config`.
--   `heapq` keeps a set of items of which `heappop` takes the least; the model keeps them sorted.
--   An `asyncio.Semaphore` is its number of free permits. The drainer coroutine is the only one
--   that acquires; when the semaphore object is replaced while it waits, it keeps the old object,
--   with the permits that this one had.
pub mod Account
pub mod Order
pub mod Limits
pub mod Reconfigure
use fastapi_taskflow.Base.{
  ℕ, zero, suc, ◌+◌, ◌-◌, ◌≡◌, Bool, true, false, not, ◌&&◌, ◌||◌, List, [], ◌∷◌, ◌++◌, Option,
  none, some, String, if◌then◌else◌, ltb, leb, eqb, length, or_default, Exn, queue_full, is_some,
}
use fastapi_taskflow.Base.Int.{ℤ, pos, negsuc, neg, lt_int, eq_int}
use fastapi_taskflow.Models.{QueueConfig}

-- `(-priority, seq, task_id, wrapped)`; `wrapped` is a callable, known by a number.
pub record Item : Type 0 where
  pub key : ℤ
  pub seq : ℕ
  pub task_id : String
  pub wrapped : ℕ

-- The order of the tuples: `seq` is unique, so later components never decide.
unfoldable pub less : Item → Item → Bool
less x y = lt_int x.key y.key || (eq_int x.key y.key && ltb x.seq y.seq)

unfoldable pub heappush : Item → List Item → List Item
unfolding less
heappush x [] = x ∷ []
heappush x (y ∷ ys) = if less x y then x ∷ y ∷ ys else y ∷ heappush x ys

-- Where the drainer stands: between two items, waiting for a permit of the current semaphore with an
-- item in hand, or waiting on a semaphore that was replaced.
pub data Drainer : Type 0 where
  idle : Drainer
  blocked : Item → Drainer
  stale : Item → ℕ → Drainer

pub record TaskQueue : Type 0 where
  pub name : String
  pub config : QueueConfig
  pub heap : List Item
  pub seq : ℕ
  pub has_work : Bool
  pub sem : Option ℕ
  pub rejected_count : ℕ
  pub drainer : Drainer
  pub running : List Item

-- `__init__` and `_setup`.
unfoldable pub init : String → QueueConfig → TaskQueue
init name config = record {
  name = name;
  config = config;
  heap = [];
  seq = 0;
  has_work = false;
  sem = config.concurrency;
  rejected_count = 0;
  drainer = idle;
  running = [];
}

abbrev pub is_full : Option ℕ → ℕ → Bool
is_full none n = false
is_full (some m) n = leb m n

abbrev pub item_of : String → Option ℤ → ℕ → ℕ → Item
item_of task_id priority wrapped seq = record {
  key = neg (or_default priority (pos 0));
  seq = seq;
  task_id = task_id;
  wrapped = wrapped;
}

-- The queue after the call, and the exception if there is one.
unfoldable pub enqueue : String → Option ℤ → ℕ → TaskQueue → TaskQueue × Option Exn
enqueue task_id priority wrapped q =
    if is_full q.config.max_size (length q.heap)
    then (record q { rejected_count = q.rejected_count + 1 }, some queue_full)
    else (
      record q {
        seq = q.seq + 1;
        heap = heappush (item_of task_id priority wrapped (q.seq + 1)) q.heap;
        has_work = true;
      },
      none,
    )

unfoldable pub pending_count : TaskQueue → ℕ
pending_count q = length q.heap

-- `asyncio.create_task(self._run_slot(wrapped))`
abbrev start_slot : Item → TaskQueue → TaskQueue
start_slot x q = record q { running = x ∷ q.running; drainer = idle }

-- The part of the loop behind `heappop`: acquire, and dispatch if the permit is free.
abbrev pub acquire_then_start : Item → TaskQueue → TaskQueue
acquire_then_start x q = elim q.sem [
  | none ↦ start_slot x q
  | some free ↦ elim free [
    | zero ↦ record q { drainer = blocked x }
    | suc rest ↦ start_slot x (record q { sem = some rest })
  ]
]

-- One round of the inner loop of `_drainer`, which runs while it is not blocked.
unfoldable pub drain_round : TaskQueue → TaskQueue
drain_round q = elim q.heap [
  | [] ↦ record q { has_work = false }
  | x ∷ rest ↦ acquire_then_start x (record q { heap = rest })
]

abbrev resume_on : ℕ → Item → TaskQueue → TaskQueue
resume_on zero x q = q
resume_on (suc rest) x q = start_slot x q

-- The event loop gives the drainer a turn.
unfoldable pub drain : TaskQueue → TaskQueue
unfolding drain_round
drain q = elim q.drainer [
  | idle ↦ if q.has_work then drain_round q else q
  | blocked x ↦ acquire_then_start x q
  | stale x free ↦ resume_on free x q
]

abbrev release : Option ℕ → Option ℕ
release none = none
release (some free) = some (suc free)

abbrev remove_nth : ℕ → List Item → List Item
remove_nth i [] = []
remove_nth zero (x ∷ xs) = xs
remove_nth (suc i) (x ∷ xs) = x ∷ remove_nth i xs

-- The `finally` of `_run_slot` for the i-th running task: it releases `self._sem`, the semaphore of
-- that moment.
unfoldable pub finish : ℕ → TaskQueue → TaskQueue
finish i q =
    if ltb i (length q.running)
    then record q { running = remove_nth i q.running; sem = release q.sem }
    else q

-- Who waits on the old semaphore when it is replaced, after `extra` releases of it.
abbrev pub strand : Option ℕ → ℕ → Drainer → Drainer
strand sem extra idle = idle
strand sem extra (blocked x) = stale x (or_default sem 0 + extra)
strand sem extra (stale x free) = stale x free

-- `update_queue_config` on the queue object: the growing case releases the old semaphore
-- `concurrency - old_concurrency` times, and every case puts a fresh one in its place.
unfoldable pub update_queue_config : Option ℕ → Option ℕ → TaskQueue → TaskQueue
update_queue_config concurrency max_size q =
    let q' = record q { config = record { concurrency = concurrency; max_size = max_size } } in
    elim concurrency [
      | none ↦ record q' { sem = none; drainer = strand q.sem 0 q.drainer }
      | some c ↦ record q' {
        sem = some c;
        drainer =
            strand q.sem (if is_some q.sem then c - or_default q.config.concurrency c else 0)
              q.drainer;
      }
    ]

pub data Event : Type 0 where
  enqueues : String → Option ℤ → ℕ → Event
  drains : Event
  finishes : ℕ → Event
  updates : Option ℕ → Option ℕ → Event

unfoldable pub step : Event → TaskQueue → TaskQueue
unfolding enqueue
step (enqueues t p w) q = (enqueue t p w q).0
step drains q = drain q
step (finishes i) q = finish i q
step (updates c m) q = update_queue_config c m q

unfoldable pub run : List Event → TaskQueue → TaskQueue
run [] q = q
run (e ∷ es) q = run es (step e q)
