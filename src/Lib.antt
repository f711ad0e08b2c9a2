-- ===== src/Lib.antt =====
-- Verification library of fastapi-taskflow: managed background tasks for FastAPI.
--
-- A task enters by `add_task` of wrapper.py. The manager (manager.py) resolves its executor and its
-- configuration (registry.py), writes a record to the in-memory store (store.py), and hands the
-- wrapped task to a named queue, to the priority worker, to Starlette or to the event loop. The run
-- itself (executor.py) goes through three middlewares (middleware.py): idempotency, logging and
-- retry. The snapshot scheduler (snapshot.py) saves records to a backend (backends/), restores them,
-- and at the next start dispatches the tasks that had not finished. The routes (router.py) cancel
-- and retry tasks and delete history. The periodic scheduler (periodic.py) fires recurring tasks and
-- one-offs into the same queues. `startup` and `shutdown` of the manager drive the schedulers and the
-- queues. The routes stand behind a guard for the session tokens that the login hands out (auth.py).
--
-- Files and code (paths below fastapi_taskflow/ of the repository):
--   Base, Dict        tests, lists, integers, results; Python dictionaries in insertion order
--   Models            models.py: statuses, configurations, records, `to_dict` and `from_dict`
--   Registry          registry.py: `TaskRegistry`
--   Store             store.py: `TaskStore`; a method is one step, since it runs under the lock
--   TaskQueue         manager.py: `_TaskQueue` and `update_queue_config`, as events on a queue
--   Manager           manager.py and wrapper.py: `task`, `_resolve_executor`, `_get_queue`,
--                     `enqueue_priority`, `add_task`, `merged_list`
--   Pipeline          middleware.py and executor.py: `execute_task` and the three middlewares
--   Backend           backends/base.py as an interface with laws, backends/sqlite.py and
--                     backends/redis.py as its instances
--   Snapshot          snapshot.py: `load`, `flush`, `flush_one`, `flush_pending`, `requeue`, pruning,
--                     the background loop
--   Router            router.py: cancel, retry, bulk retry, retry of failed tasks, deletion of history
--   Periodic          periodic.py: `ScheduledEntry`, `PeriodicScheduler`; `schedule`, `schedule_once`,
--                     `cancel_scheduled` and `list_scheduled` of manager.py; several instances
--                     on one table
--   Lifecycle         manager.py: `startup` and `shutdown`
--   Executors         executors/: the process executor and its pools, the semaphore of the async executor,
--                     the checks of functions
--   Cluster           instance_registry.py, fan_out.py: the registry of instances and their records
--   Auth              auth.py: credentials, session tokens, the guard, login and logout
--   Tests             runs at fixed inputs
--
-- Concurrency: asyncio switches between coroutines only at an await. The pipeline is written over a
-- state monad with exceptions; at each await a `Turn` says how long it takes, which calls of the
-- store others make meanwhile, and whether a CancelledError is thrown in. Queues and stores are
-- driven by lists of events in any order; instances that share a backend by lists of rounds or steps
-- in any order; the periodic scheduler by lists of calls of others, rounds of its loop and answers
-- of the backend; the registry of instances by lists of reads and saves; the pools by lists of
-- dispatches and their ends.
--
-- Bounds and fuel: all loops are structural, over lists or over the number of attempts, so there is no
-- fuel. Numbers are unbounded, as in Python. Times are numbers, and floats are kept as terms, since
-- the code only passes them on.
--
-- Parameters: the task functions (what each attempt gives), the observers and the callback on success
-- (they raise nothing), the cipher, the pickler, the JSON form of an argument, the fresh ids, and the
-- closures of wrapped tasks, which are known by numbers. The slots of a cron expression are a
-- function (croniter); HMAC, the JSON form of the claims of a token, and what a GET to a peer gives
-- are functions too.
--
-- Not modelled: log sinks and context variables, decryption of arguments at the start of a run, the
-- serialization for worker processes, the thread pools, the routes that only read, the refill times
-- and the sleep of the periodic scheduler, the backends for Postgres and MySQL (the statements of
-- SQLite in other dialects), the pages of the login, and the dashboard.
pub mod Base
pub mod Dict
pub mod Models
pub mod Registry
pub mod Store
pub mod TaskQueue
pub mod Manager
pub mod Pipeline
pub mod Backend
pub mod Snapshot
pub mod Router
pub mod Periodic
pub mod Lifecycle
pub mod Executors
pub mod Cluster
pub mod Auth
pub mod Tests
