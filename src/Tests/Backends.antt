-- ===== src/Tests/Backends.antt =====
-- The SQLite backend and the scheduler over it at fixed inputs.
use fastapi_taskflow.Base.{
  ◌≤◌, ◌≡◌, refl, true, false, ◌&&◌, [], ◌∷◌, none, some, or_else, arith, string_key,
}
use fastapi_taskflow.Dict.{lookup}
use fastapi_taskflow.Models.{Obj, running, cancelled, TaskRecord}
use fastapi_taskflow.Store.{get, is_expired}
use fastapi_taskflow.Manager.{TaskManager}
use fastapi_taskflow.Manager.Merged.{find_task, last_with}
use fastapi_taskflow.Backend.Sqlite.{
  Sqlite, to_row, save, load, acquire_schedule_lock, row_is_old, is_old_status,
}
use fastapi_taskflow.Backend.Tables.{opt_snapshot, load-save, row_is_old-is_expired, sqlite_backend}
use fastapi_taskflow.Backend.Locks.{attempts, lock-exclusive}
use fastapi_taskflow.Snapshot.{flush_pending}
use fastapi_taskflow.Snapshot.Requeue.{Round, dispatches, dispatched-at-most-once}
use fastapi_taskflow.Snapshot.Shutdown.{opt_after_shutdown, flush_pending-records}
use fastapi_taskflow.Tests.{one_task, welcome, noon, manager}

abbrev pub json : Obj → Obj
json x = x

abbrev pub empty_db : Sqlite
empty_db = record {
  snapshots = [];
  pendings = [];
  idempotency_keys = [];
  schedule_locks = [];
  metadata = [];
  scheduled_once = [];
}

load-save_example :
    find_task "t1" (load (save json 5 (welcome ∷ []) empty_db))
    ≡ or_else (opt_snapshot json 5 (last_with "t1" (welcome ∷ []))) (find_task "t1" (load empty_db))
load-save_example = load-save json 5 (welcome ∷ []) empty_db "t1" tt

abbrev cancelled_task : TaskRecord
cancelled_task = record welcome { status = cancelled; end_time = some noon }

row_is_old-is_expired_example :
    row_is_old 50 (to_row json 5 cancelled_task)
    ≡ (is_expired (record { at = 50; aware = true }) cancelled_task && is_old_status cancelled)
row_is_old-is_expired_example =
    row_is_old-is_expired json 5 (record { at = 50; aware = true }) cancelled_task

lock-exclusive_example :
    (acquire_schedule_lock "report" 60 120 (
      attempts
        (record { key = "report"; ttl = 9; now = 110 } ∷ [])
        (acquire_schedule_lock "report" 60 100 empty_db).0)).1
    ≡ false
unfolding acquire_schedule_lock lookup
lock-exclusive_example =
    lock-exclusive "report" 60 100 empty_db (record { key = "report"; ttl = 9; now = 110 } ∷ []) 60
      120 refl (omega arith, tt) (omega arith)

-- Two instances requeue the same row.
abbrev one_pending : Sqlite
one_pending = record empty_db {
  pendings =
      (
        "t7",
        record {
          task_id = "t7";
          func_name = "gone";
          created_at = noon;
          retries_used = 0;
          args = [];
          kwargs = [];
          encrypted_payload = none;
          queue = some "default";
        },
      )
      ∷ [];
}

abbrev lost : TaskRecord
lost = record welcome { task_id = "t7"; func_name = "gone" }

abbrev round : Round
round = record { completed = []; task = lost; manager = manager }

dispatched-at-most-once_example :
    dispatches (sqlite_backend json 5) (λ id. 1) "t7" (round ∷ round ∷ []) one_pending ≤ 1
unfolding sqlite_backend lookup
dispatched-at-most-once_example =
    dispatched-at-most-once (sqlite_backend json 5) (λ id. 1) "t7" (round ∷ round ∷ []) one_pending

abbrev stopping : TaskManager
stopping = record manager {
  store = record one_task { tasks = ("t1", record welcome { status = running }) ∷ [] };
}

flush_pending-records_example :
    get "t1" (flush_pending (sqlite_backend json 5) noon stopping empty_db).0.store
    ≡ opt_after_shutdown stopping.registry noon (get "t1" stopping.store)
unfolding lookup
flush_pending-records_example =
    flush_pending-records (sqlite_backend json 5) noon stopping empty_db "t1"
      (record { distinct = (refl, tt); own_id = (refl, tt) })
