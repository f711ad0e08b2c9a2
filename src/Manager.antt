-- ===== src/Manager.antt =====
-- manager.py and wrapper.py: `TaskManager` as far as it takes tasks in, and
-- `ManagedBackgroundTasks.add_task`.
--   A wrapped task, the closure of `make_background_func`, is known by a number. `started` are the
--   ids of the tasks given to `asyncio.create_task` (latest first), `background` those given to
--   Starlette. The cipher and the pickler are not code of this repository: they are parameters.
pub mod Places
pub mod Admission
pub mod Merged
use fastapi_taskflow.Base.{
  ℕ, suc, ◌+◌, Bool, true, false, not, List, [], ◌∷◌, ◌++◌, Option, none, some, String,
  if◌then◌else◌, is_some, or_default, or_else, Exn, key_error, queue_full, task_argument, Result,
  ok, raise, ok_or, ◌>>=◌, ◌>>◌, ◌==◌, string_key, Key, any,
}
use fastapi_taskflow.Base.Int.{ℤ, neg}
use fastapi_taskflow.Dict.{Dict, lookup, insert}
use fastapi_taskflow.Models.{
  Obj, Bytes, Datetime, TaskStatus, rejected, TaskConfig, default_config, TaskRecord,
}
use fastapi_taskflow.Registry.{Func, TaskRegistry, or_text, register, get_config}
use fastapi_taskflow.Store.{TaskStore, Options, Field, create, update, find_by_idempotency_key}
use fastapi_taskflow.TaskQueue.{Item, TaskQueue, enqueue, heappush}

pub record TaskManager : Type 0 where
  pub store : TaskStore
  pub registry : TaskRegistry
  pub queues : Dict String TaskQueue
  pub priority_queue : List Item
  pub priority_seq : ℕ
  pub started : List String
  pub background : List String
  -- `_scheduler is not None`, and its flag.
  pub has_scheduler : Bool
  pub requeue_pending : Bool

-- The keys of `_executors`.
abbrev pub executors : List String
executors = "async" ∷ "thread" ∷ "process" ∷ []

-- `_resolve_executor`: the name of the executor.
unfoldable pub resolve_executor : Func → TaskConfig → Result String
resolve_executor f config = elim config.executor [
  | some name ↦ if any (λ e. e == name) executors then ok name else raise (key_error name)
  | none ↦ ok (if f.is_coroutine then "async" else "thread")
]

abbrev pub choose_queue : String → Option TaskQueue → Option TaskQueue → Result (String × TaskQueue)
choose_queue name (some q) d = ok (name, q)
choose_queue name none (some q) = ok ("default", q)
choose_queue name none none = raise (key_error "default")

-- `_get_queue`: the queue with its key, with the fallback to "default".
unfoldable pub get_queue : String → TaskManager → Result (String × TaskQueue)
get_queue name m = choose_queue name (lookup name m.queues) (lookup "default" m.queues)

-- `enqueue_priority`
unfoldable pub enqueue_priority : String → ℤ → ℕ → TaskManager → TaskManager
enqueue_priority task_id priority wrapped m = record m {
  priority_seq = m.priority_seq + 1;
  priority_queue =
      heappush
        (record {
          key = neg priority;
          seq = m.priority_seq + 1;
          task_id = task_id;
          wrapped = wrapped;
        })
        m.priority_queue;
}

-- One round of `_run_priority_worker`, when the queue is not empty.
unfoldable pub priority_round : TaskManager → TaskManager
priority_round m = elim m.priority_queue [
  | [] ↦ m
  | x ∷ rest ↦ record m { priority_queue = rest; started = x.task_id ∷ m.started }
]

-- `@task_manager.task(...)`; the executor's own validation of the function is a parameter.
unfoldable pub task :
    (String → Func → Bool) → Func → TaskConfig → TaskManager → TaskManager × Result Func
task valid f config m =
    let config' = record config { name = some (or_text config.name f.name) } in
    let m' = record m {
      registry = register f config' m.registry;
      requeue_pending =
          if config.persist
          then (if m.has_scheduler then true else m.requeue_pending)
          else m.requeue_pending;
    } in
    elim config.executor [
      | none ↦ (m', ok f)
      | some e ↦
          if any (λ x. x == e) executors
          then (if valid e f then (m', ok f) else (m, raise Exn.value_error))
          else (m, raise (key_error e))
    ]

-- A call of `add_task`: its arguments, the fresh id, the closure and the time.
pub record Request : Type 0 where
  pub func : Func
  pub args : List Obj
  pub kwargs : Dict String Obj
  pub idempotency_key : Option String
  pub tags : Option (Dict String String)
  pub eager : Option Bool
  pub priority : Option ℤ
  pub queue : Option String
  pub task_id : String
  pub wrapped : ℕ
  pub now : Datetime

abbrev pub raising : Option Exn → Result (Unit {0})
raising none = ok tt
raising (some e) = raise e

abbrev pub put_at :
    Result (String × TaskQueue)
    → String
    → Option ℤ
    → ℕ
    → TaskManager
    → TaskManager × Result (Unit {0})
put_at (raise e) task_id priority wrapped m = (m, raise e)
put_at (ok (key, q)) task_id priority wrapped m = (
  record m { queues = insert key (enqueue task_id priority wrapped q).0 m.queues },
  raising (enqueue task_id priority wrapped q).1,
)

-- `self._task_manager._get_queue(name).enqueue(...)`
unfoldable pub put_in_queue :
    String → String → Option ℤ → ℕ → TaskManager → TaskManager × Result (Unit {0})
unfolding get_queue
put_in_queue name task_id priority wrapped m = put_at (get_queue name m) task_id priority wrapped m

abbrev pub is_empty : {A : Type 0} → List A → Bool
is_empty [] = true
is_empty (x ∷ xs) = false

module _ (picklable : List Obj → Dict String Obj → Bool)
    (fernet : Option (List Obj → Dict String Obj → Bytes)) where
  -- `validate_args` of the executor.
  abbrev pub validate_args : String → Request → Result (Unit {0})
  validate_args name r =
      if name == "process"
      then (if picklable r.args r.kwargs then ok tt else raise task_argument)
      else ok tt

  abbrev pub priority_of : Request → TaskConfig → Option ℤ
  priority_of r config = or_else r.priority config.priority

  -- `queue or config.queue or "default"`
  abbrev pub queue_of : Request → TaskConfig → String
  queue_of r config = or_text r.queue (or_text config.queue "default")

  -- `store.create(...)` with the arguments or, under a cipher, the payload.
  abbrev pub create_record : Request → TaskConfig → String → TaskStore → TaskStore
  create_record r config executor s =
      let o : Options = record {
        idempotency_key = r.idempotency_key;
        tags = r.tags;
        encrypted_payload = none;
        source = "manual";
        priority = priority_of r config;
        executor = some executor;
        queue = queue_of r config;
      } in
      elim fernet [
        | none ↦ create r.task_id r.func.name r.args r.kwargs o r.now s
        | some encrypt ↦
            create r.task_id r.func.name [] []
              (record o { encrypted_payload = some (encrypt r.args r.kwargs) }) r.now s
      ]

  -- `except QueueFullError`: the record is marked, and the exception goes on.
  abbrev pub on_full : String → TaskManager × Result (Unit {0}) → TaskManager × Result String
  on_full id (m, ok _) = (m, ok id)
  on_full id (m, raise queue_full) =
      (record m { store = update id (Field.status rejected ∷ []) m.store }, raise queue_full)
  on_full id (m, raise e) = (m, raise e)

  abbrev pub by_priority : Request → Option ℤ → TaskManager → TaskManager × Result String
  by_priority r (some p) m = (enqueue_priority r.task_id p r.wrapped m, ok r.task_id)
  by_priority r none m = (record m { background = m.background ++ r.task_id ∷ [] }, ok r.task_id)

  -- Where the wrapped task goes.
  unfoldable pub route : Request → TaskConfig → TaskManager → TaskManager × Result String
  unfolding put_in_queue
  route r config m =
      if or_default r.eager config.eager
      then (record m { started = r.task_id ∷ m.started }, ok r.task_id)
      else if is_empty m.queues
      then by_priority r (priority_of r config) m
      else on_full r.task_id
          (put_in_queue (queue_of r config) r.task_id (priority_of r config) r.wrapped m)

  abbrev pub existing : Option String → TaskStore → Option TaskRecord
  existing none s = none
  existing (some key) s = find_by_idempotency_key key s

  abbrev pub config_of : Request → TaskManager → TaskConfig
  config_of r m = or_default (get_config r.func m.registry) default_config

  -- What is checked before anything is written.
  abbrev pub checks : Request → TaskConfig → Result String
  checks r config = do name ← resolve_executor r.func config; validate_args name r; ok name

  abbrev pub admit : Result String → Request → TaskManager → TaskManager × Result String
  admit (raise e) r m = (m, raise e)
  admit (ok executor) r m =
      route r (config_of r m)
        (record m { store = create_record r (config_of r m) executor m.store })

  abbrev pub unless_existing :
      Option TaskRecord → TaskManager → TaskManager × Result String → TaskManager × Result String
  unless_existing (some old) m o = (m, ok old.task_id)
  unless_existing none m o = o

  -- `add_task`
  unfoldable pub add_task : Request → TaskManager → TaskManager × Result String
  add_task r m =
      unless_existing (existing r.idempotency_key m.store) m (admit (checks r (config_of r m)) r m)
