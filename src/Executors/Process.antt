-- ===== src/Executors/Process.antt =====
-- executors/process_executor.py: the worker's side of a task, and `ProcessExecutor` with its pool.
--   A `ProcessPoolExecutor` is known by an identity and its state. When a worker dies it is broken:
--   `submit` raises, and so do the futures that are waited for. A dispatch stands at its await
--   between `start` and `resume`. Serialization is left out: payloads are the objects.
pub mod Shutdown
pub mod Broken
use fastapi_taskflow.Base.{
  ℕ, suc, Bool, true, false, List, [], ◌∷◌, Option, none, some, String, if◌then◌else◌, Exn,
  runtime_error, Result, ok, raise, nat_key,
}
use fastapi_taskflow.Dict.{Dict, lookup, insert, erase}
use fastapi_taskflow.Models.{Obj}
use fastapi_taskflow.Pipeline.World.{Failure}

-- `_LogRecord`
pub record LogRecord : Type 0 where
  pub task_id : String
  pub message : String
  pub level : String
  pub extra : Obj

-- How the function ends in the worker: `exc_str` and the traceback are texts.
pub data Run : Type 0 where
  returns : Obj → Run
  raises : String → String → Run
  keyboard_interrupt : String → Run

-- What the awaited future gives: `_WorkerOutcome`, `_WorkerException`, `_WorkerInterrupted`,
-- `BrokenExecutor` and `CancelledError`.
pub data Reply : Type 0 where
  outcome : Obj → List LogRecord → Reply
  worker_exception : String → String → List LogRecord → Reply
  worker_interrupted : String → String → List LogRecord → Reply
  broken_executor : Reply
  cancelled_error : Reply

-- `_worker_entrypoint`, with what the local sink collected.
unfoldable pub worker_entrypoint : Run → List LogRecord → Reply
worker_entrypoint (returns v) logs = outcome v logs
worker_entrypoint (raises exc tb) logs = worker_exception exc tb logs
worker_entrypoint (keyboard_interrupt tb) logs = worker_interrupted "KeyboardInterrupt" tb logs

pub data Pool : Type 0 where
  alive broken closed : Pool

pub record ProcessExecutor : Type 0 where
  -- `_pool` and `_shutdown_called`
  pub pool : Option ℕ
  pub shutdown_called : Bool
  -- The pools that were ever made, and the next fresh identity.
  pub pools : Dict ℕ Pool
  pub next : ℕ
  -- The dispatches at their await, with the pool that each submitted to.
  pub waiting : Dict ℕ ℕ

-- `__init__`
abbrev pub init : ProcessExecutor
init = record { pool = none; shutdown_called = false; pools = []; next = 0; waiting = [] }

-- What a dispatch comes to: a value, a `RuntimeError` for the worker's exception, one for a worker that
-- died, an exception before the await, or a cancellation.
pub data Answer : Type 0 where
  returned : Obj → Answer
  raised : Failure → Answer
  worker_died : Answer
  refused : Answer
  cancelled : Answer

abbrev pub pool_or_new : Option ℕ → ProcessExecutor → ProcessExecutor × ℕ
pool_or_new (some p) x = (x, p)
pool_or_new none x = (
  record x { pool = some x.next; pools = insert x.next alive x.pools; next = suc x.next },
  x.next,
)

abbrev pub in_result : ProcessExecutor × ℕ → ProcessExecutor × Result ℕ
in_result (x, p) = (x, ok p)

unfoldable pub ensure_pool : ProcessExecutor → ProcessExecutor × Result ℕ
ensure_pool x =
    if x.shutdown_called then (x, raise runtime_error) else in_result (pool_or_new x.pool x)

-- `pool.submit`, which stands outside the `try`.
abbrev pub submit : ℕ → ℕ → Option Pool → ProcessExecutor → ProcessExecutor × Option Answer
submit d p none x = (x, some refused)
submit d p (some alive) x = (record x { waiting = insert d p x.waiting }, none)
submit d p (some broken) x = (x, some refused)
submit d p (some closed) x = (x, some refused)

abbrev pub submit_to : ℕ → ProcessExecutor × Result ℕ → ProcessExecutor × Option Answer
submit_to d (x, raise e) = (x, some refused)
submit_to d (x, ok p) = submit d p (lookup p x.pools) x

-- `dispatch` up to its await, or what it raises before.
unfoldable pub start : ℕ → ProcessExecutor → ProcessExecutor × Option Answer
unfolding ensure_pool
start d x = submit_to d (ensure_pool x)

-- `dispatch` behind its await: the executor, the answer and the records that go to the sink.
abbrev pub answer : Reply → ProcessExecutor → ProcessExecutor × Answer × List LogRecord
answer (outcome v logs) x = (x, returned v, logs)
answer (worker_exception exc tb logs) x =
    (x, raised (record { message = exc; traceback = tb; was_interrupted = false }), logs)
answer (worker_interrupted exc tb logs) x =
    (x, raised (record { message = exc; traceback = tb; was_interrupted = true }), logs)
answer broken_executor x = (record x { pool = none }, worker_died, [])
answer cancelled_error x = (x, cancelled, [])

unfoldable pub resume : ℕ → Reply → ProcessExecutor → ProcessExecutor × Answer × List LogRecord
resume d reply x = answer reply (record x { waiting = erase d x.waiting })

-- A worker of the pool dies.
abbrev pub broken_if_alive : Pool → Pool
broken_if_alive alive = broken
broken_if_alive broken = broken
broken_if_alive closed = closed

abbrev pub break_pool : ℕ → Option Pool → Dict ℕ Pool → Dict ℕ Pool
break_pool p none ps = ps
break_pool p (some s) ps = insert p (broken_if_alive s) ps

unfoldable pub worker_dies : ℕ → ProcessExecutor → ProcessExecutor
worker_dies p x = record x { pools = break_pool p (lookup p x.pools) x.pools }

abbrev pub close_pool : Option ℕ → ProcessExecutor → ProcessExecutor
close_pool none x = record x { shutdown_called = true }
close_pool (some p) x = record x {
  shutdown_called = true;
  pool = none;
  pools = insert p closed x.pools;
}

-- `shutdown`; both ways of its wait close the pool.
unfoldable pub shutdown : ProcessExecutor → ProcessExecutor
shutdown x = if x.shutdown_called then x else close_pool x.pool x

pub data Event : Type 0 where
  starts : ℕ → Event
  resumes : ℕ → Reply → Event
  dies : ℕ → Event
  shuts_down : Event

unfoldable pub step : Event → ProcessExecutor → ProcessExecutor
unfolding start resume worker_dies shutdown
step (starts d) x = (start d x).0
step (resumes d r) x = (resume d r x).0
step (dies p) x = worker_dies p x
step shuts_down x = shutdown x

unfoldable pub run : List Event → ProcessExecutor → ProcessExecutor
unfolding step
run [] x = x
run (e ∷ es) x = run es (step e x)
