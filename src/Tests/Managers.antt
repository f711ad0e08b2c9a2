-- ===== src/Tests/Managers.antt =====
-- The registry, the manager and the routes at fixed inputs.
use fastapi_taskflow.Base.{refl, inr, true, [], ◌∷◌, none, some, string_key}
use fastapi_taskflow.Dict.{lookup}
use fastapi_taskflow.Models.{default_config, TaskConfig, failed, TaskRecord, AuditEntry}
use fastapi_taskflow.Registry.{TaskRegistry, get_by_name}
use fastapi_taskflow.Registry.Lookup.{IsConsistent}
use fastapi_taskflow.Store.{get, new_record}
use fastapi_taskflow.Store.Records.{IsValid}
use fastapi_taskflow.TaskQueue.{init}
use fastapi_taskflow.Manager.{Request, resolve_executor}
use fastapi_taskflow.Manager.Places.{HasDefault}
use fastapi_taskflow.Manager.Admission.{Taken, add_task-cases}
use fastapi_taskflow.Manager.Merged.{Cache, any_task}
use fastapi_taskflow.Router.{App, retry_task, cancel_task, retry_options}
use fastapi_taskflow.Router.Retry.{Retried, retry_task-Retried}
use fastapi_taskflow.Router.Cancel.{Ends, cancel_task-Ends}
use fastapi_taskflow.Router.Bulk.{Accounts, retry_all, retry_all-Accounts}
use fastapi_taskflow.Tests.{one_task, welcome, noon, send_email, manager}

abbrev empty_registry : TaskRegistry
empty_registry = record { by_id = []; by_name = [] }

empty-IsConsistent : IsConsistent empty_registry
empty-IsConsistent = record { named = tt }

abbrev mailer : TaskConfig
mailer = record default_config { name = some "mailer" }

one_task-IsValid : IsValid one_task
unfolding lookup
one_task-IsValid = record { distinct = (refl, tt); own_id = (refl, tt) }

manager-HasDefault : HasDefault manager
unfolding lookup
manager-HasDefault = inr (init "default" (record { concurrency = none; max_size = some 1 }), refl)

abbrev pub request : Request
request = record {
  func = send_email;
  args = 5 ∷ [];
  kwargs = [];
  idempotency_key = none;
  tags = none;
  eager = none;
  priority = none;
  queue = none;
  task_id = "t2";
  wrapped = 2;
  now = noon;
}

add_task-cases_example : Taken (λ xs m. true) none request manager
add_task-cases_example =
    add_task-cases (λ xs m. true) none request manager manager-HasDefault one_task-IsValid

abbrev stale_cache : Cache
stale_cache = record { backend = record welcome { status = failed } ∷ []; read_at = 0 }

abbrev broken : TaskRecord
broken = record welcome { status = failed }

abbrev app : App
app = record {
  manager = record manager { store = record one_task { tasks = ("t1", broken) ∷ [] } };
  running_tasks = [];
  cancels = [];
  flushed = [];
  deletes = [];
  audit_log = [];
  retry_replaces_original = true;
  cache = record { backend = []; read_at = 0 };
  peers = [];
}

abbrev entry : AuditEntry
entry = record {
  entry_id = "e1";
  action = "retry";
  task_id = "t1";
  actor = "anonymous";
  timestamp = noon;
}

retry_task-Retried_example :
    Retried "t1" "t2" refl
      (new_record "t2" "send_email" (7 ∷ []) [] (retry_options broken "async") noon)
      app
      (retry_task "t1" "t2" 2 noon entry app)
unfolding lookup get get_by_name resolve_executor any_task
retry_task-Retried_example =
    retry_task-Retried "t1" "t2" refl broken send_email default_config "async" 2 noon entry app
      manager-HasDefault (record { distinct = (refl, tt); own_id = (refl, tt) }) refl refl refl refl

cancel_task-Ends_example :
    Ends "t1" noon entry
      (record app { manager = manager })
      welcome
      (cancel_task "t1" noon entry (record app { manager = manager }))
unfolding lookup get
cancel_task-Ends_example =
    cancel_task-Ends "t1" noon entry (record app { manager = manager }) welcome one_task-IsValid
      refl

retry_all-Accounts_example :
    Accounts 1
      (retry_all
        (λ id m. get id m.store)
        noon
        (record { old = "t1"; id = "t2"; wrapped = 2 } ∷ [])
        app.manager).1
retry_all-Accounts_example =
    retry_all-Accounts (λ id m. get id m.store) noon
      (record { old = "t1"; id = "t2"; wrapped = 2 } ∷ []) app.manager
