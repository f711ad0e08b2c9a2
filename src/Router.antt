-- ===== src/Router.antt =====
-- router.py: the handlers that change state: cancel, retry, bulk retry, retry of failed tasks, and the
-- deletion of history.
pub mod Retry
pub mod Cancel
pub mod Bulk
use fastapi_taskflow.Base.{
  ℕ, zero, suc, ◌+◌, ◌-◌, Bool, true, false, not, ◌&&◌, ◌||◌, List, [], ◌∷◌, ◌++◌, map, Option,
  none, some, String, if◌then◌else◌, is_some, leb, length, max, Exn, http, Result, ok, raise, ◌==◌,
  string_key, Key, keep,
}
use fastapi_taskflow.Dict.{Dict, lookup}
use fastapi_taskflow.Models.{
  Datetime, to_utc, TaskStatus, pending, running, success, failed, interrupted, cancelled, rejected,
  TaskConfig, TaskRecord, AuditEntry,
}
use fastapi_taskflow.Registry.{Func, get_by_name, or_text}
use fastapi_taskflow.Store.{
  TaskStore, Options, Field, get, create, update, delete, delete_completed_before,
}
use fastapi_taskflow.Manager.{TaskManager, resolve_executor, put_in_queue, is_empty}
use fastapi_taskflow.Manager.Merged.{Cache, any_task, merged_list}

-- What the handlers work on.
pub record App : Type 0 where
  pub manager : TaskManager
  -- `_running_tasks`: for each handle, whether it is done.
  pub running_tasks : Dict String Bool
  -- Handles that were cancelled, tasks that were flushed, ids that the backend was told to delete.
  pub cancels : List String
  pub flushed : List String
  pub deletes : List (List String)
  -- Latest first; at most 1000.
  pub audit_log : List AuditEntry
  pub retry_replaces_original : Bool
  pub cache : Cache
  pub peers : List TaskRecord

abbrev take : ℕ → List AuditEntry → List AuditEntry
take zero es = []
take (suc n) [] = []
take (suc n) (e ∷ es) = e ∷ take n es

abbrev pub audit : AuditEntry → App → App
audit e app = record app { audit_log = take 1000 (e ∷ app.audit_log) }

abbrev pub set_manager : (TaskManager → TaskManager) → App → App
set_manager f app = record app { manager = f app.manager }

abbrev is_cancellable : Option Bool → Bool
is_cancellable none = false
is_cancellable (some is_done) = not is_done

abbrev pub flush_one : String → App → App
flush_one id app =
    if app.manager.has_scheduler then record app { flushed = id ∷ app.flushed } else app

-- The branches of `cancel_task`, by the record's status.
abbrev pub cancel_by : TaskStatus → String → Datetime → App → Result App
cancel_by pending id now app = ok (
    flush_one id (
      set_manager
        (λ m. record m {
          store = update id (Field.status cancelled ∷ Field.end_time now ∷ []) m.store;
        })
        app))
cancel_by running id now app =
    if is_cancellable (lookup id app.running_tasks)
    then ok (record app { cancels = id ∷ app.cancels })
    else raise (http 400)
cancel_by _ id now app = raise (http 400)

abbrev pub audited : AuditEntry → App → Result App → App × Result (Unit {0})
audited e app (ok app') = (audit e app', ok tt)
audited e app (raise x) = (app, raise x)

abbrev pub cancel_found :
    Option TaskRecord → String → Datetime → AuditEntry → App → App × Result (Unit {0})
cancel_found none id now e app = (app, raise (http 404))
cancel_found (some r) id now e app = audited e app (cancel_by r.status id now app)

-- `POST /{task_id}/cancel`
unfoldable pub cancel_task : String → Datetime → AuditEntry → App → App × Result (Unit {0})
cancel_task id now e app = cancel_found (get id app.manager.store) id now e app

abbrev pub is_retryable : TaskStatus → Bool
is_retryable failed = true
is_retryable interrupted = true
is_retryable rejected = true
is_retryable _ = false

-- The new record of a retry: the arguments and the tags of the old one, in its queue.
abbrev pub retry_options : TaskRecord → String → Options
retry_options r executor = record {
  idempotency_key = none;
  tags = some r.tags;
  encrypted_payload = none;
  source = "manual";
  priority = none;
  executor = some executor;
  queue = or_text (some r.queue) "default";
}

-- `queue.enqueue(...)` or `asyncio.create_task(...)`
abbrev pub run_again :
    String → String → TaskRecord → ℕ → TaskManager → TaskManager × Result (Unit {0})
run_again queue id r wrapped m =
    if is_empty m.queues
    then (record m { started = id ∷ m.started }, ok tt)
    else put_in_queue queue id r.priority wrapped m

abbrev pub redispatch_on :
    Result String
    → TaskRecord
    → Func
    → String
    → ℕ
    → Datetime
    → TaskManager
    → TaskManager × Result (Unit {0})
redispatch_on (raise e) r f id wrapped now m = (m, raise e)
redispatch_on (ok executor) r f id wrapped now m =
    run_again (or_text (some r.queue) "default") id r wrapped
      (record m { store = create id f.name r.args r.kwargs (retry_options r executor) now m.store })

-- What the retry handlers do with a task: a new record under a fresh id, and a new run.
unfoldable pub redispatch :
    TaskRecord
    → Func
    → TaskConfig
    → String
    → ℕ
    → Datetime
    → TaskManager
    → TaskManager × Result (Unit {0})
redispatch r f config id wrapped now m =
    redispatch_on (resolve_executor f config) r f id wrapped now m

-- `if retry_replaces_original: ...`
abbrev pub replace_original : String → App → App
replace_original id app =
    if app.retry_replaces_original
    then record app {
      manager = record app.manager { store = (delete id app.manager.store).0 };
      deletes = if app.manager.has_scheduler then (id ∷ []) ∷ app.deletes else app.deletes;
    }
    else app

abbrev pub finish_retry :
    String → AuditEntry → App → TaskManager × Result (Unit {0}) → App × Result (Unit {0})
finish_retry old e app (m, raise x) = (record app { manager = m }, raise x)
finish_retry old e app (m, ok _) =
    (audit e (replace_original old (record app { manager = m })), ok tt)

abbrev pub retry_known :
    Option (Func × TaskConfig)
    → TaskRecord
    → String
    → String
    → ℕ
    → Datetime
    → AuditEntry
    → App
    → App × Result (Unit {0})
retry_known none r old id wrapped now e app = (app, raise (http 409))
retry_known (some (f, config)) r old id wrapped now e app =
    finish_retry old e app (redispatch r f config id wrapped now app.manager)

abbrev pub retry_found :
    Option TaskRecord → String → String → ℕ → Datetime → AuditEntry → App → App × Result (Unit {0})
retry_found none old id wrapped now e app = (app, raise (http 404))
retry_found (some r) old id wrapped now e app =
    if is_retryable r.status
    then retry_known (get_by_name r.func_name app.manager.registry) r old id wrapped now e app
    else (app, raise (http 400))

-- `POST /{task_id}/retry`: `old` is retried as `id`.
unfoldable pub retry_task :
    String → String → ℕ → Datetime → AuditEntry → App → App × Result (Unit {0})
unfolding redispatch
retry_task old id wrapped now e app =
    retry_found (any_task app.manager.has_scheduler app.cache app.peers old app.manager.store) old
      id wrapped now e app

-- `DELETE /history`: the counts of the store and of the backend, and the total that is reported.
unfoldable pub delete_history : Datetime → ℕ → App → App × (ℕ × ℕ × ℕ)
delete_history cutoff backend_deleted app =
    let (s, store_deleted) = delete_completed_before cutoff app.manager.store in
    let from_backend = if app.manager.has_scheduler then backend_deleted else 0 in
    (
      record app {
        manager = record app.manager { store = s };
        cache =
            if app.manager.has_scheduler then record { backend = []; read_at = 0 } else app.cache;
      },
      (from_backend + (store_deleted - from_backend), store_deleted, from_backend),
    )
