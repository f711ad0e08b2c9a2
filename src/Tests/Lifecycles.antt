-- ===== src/Tests/Lifecycles.antt =====
-- A shutdown and the startup after it, and the snapshot loop, at fixed inputs.
use fastapi_taskflow.Base.{
  ◌+◌, ◌*◌, ◌<◌, ◌≡◌, refl, ◌==◌, string_key, true, false, Bool-cases, inl, inr, List, [], ◌∷◌,
  none, some, String,
}
use fastapi_taskflow.Dict.{Dict, lookup, Entries}
use fastapi_taskflow.Registry.{get_by_name}
use fastapi_taskflow.Store.{get}
use fastapi_taskflow.Store.Records.{IsValid}
use fastapi_taskflow.Manager.{TaskManager, resolve_executor}
use fastapi_taskflow.Manager.Merged.{find_task}
use fastapi_taskflow.Backend.{in_ids}
use fastapi_taskflow.Backend.Sqlite.{Sqlite, completed_ids}
use fastapi_taskflow.Backend.Tables.{sqlite_backend}
use fastapi_taskflow.Snapshot.Cycle.{Cycle, Round, retention_every, run, run-prunings}
use fastapi_taskflow.Lifecycle.{Instance, startup, shutdown}
use fastapi_taskflow.Lifecycle.Requeued.{AllRunnable, times}
use fastapi_taskflow.Lifecycle.Restart.{restart-starts, shutdown-forgets, IsIdle}
use fastapi_taskflow.Tests.{one_task, welcome, noon, manager}
use fastapi_taskflow.Tests.Backends.{json, empty_db}

abbrev instance_of : TaskManager → Instance
instance_of m = record {
  manager = m;
  queue_configs = ("default", record { concurrency = some 2; max_size = none }) ∷ [];
  periodic = none;
  snapshots_run = false;
  worker_runs = false;
  shutdown_event = none;
}

abbrev old : Instance
old = instance_of (record manager { requeue_pending = true })

abbrev next : Instance
next =
    instance_of (record manager {
      requeue_pending = true;
      queues = [];
      store = record one_task { tasks = [] };
    })

one_task-IsValid : IsValid one_task
unfolding lookup
one_task-IsValid = record { distinct = (refl, tt); own_id = (refl, tt) }

next-AllRunnable : AllRunnable next.manager.registry
unfolding get_by_name lookup resolve_executor
next-AllRunnable name = elim (Bool-cases (◌==◌ {K = String} "send_email" name)) [
  | inl e ↦ rw (e, get_by_name) ("async", refl)
  | inr e ↦ rw (e, get_by_name) tt
]

no_history : (ids : List String) → in_ids "t1" (completed_ids ids empty_db) ≡ false
unfolding completed_ids lookup
no_history ids = refl

restart-starts_example :
    let B = sqlite_backend json 5 in
    let o = startup B (λ id. 1) (λ c t z. t) (λ db. []) 20 next (shutdown B noon old empty_db).1 in
    (times B (λ id. 1) "t1" o.0.manager ≡ 1) × Entries IsIdle o.0.manager.queues
unfolding sqlite_backend lookup get get_by_name shutdown fastapi_taskflow.Store.records
    fastapi_taskflow.Backend.Sqlite.save_pending fastapi_taskflow.Dict.insert completed_ids
restart-starts_example =
    restart-starts (sqlite_backend json 5) (λ id. 1) (λ c t z. t) (λ db. []) noon 20 old next
      empty_db "t1" welcome welcome refl one_task-IsValid refl refl refl refl refl refl
      next-AllRunnable refl no_history

shutdown-forgets_example :
    find_task "t9"
      ((sqlite_backend json 5).load_pending (shutdown (sqlite_backend json 5) noon old empty_db).1)
    ≡ none
unfolding lookup get
shutdown-forgets_example =
    shutdown-forgets (sqlite_backend json 5) noon old empty_db "t9" "t1" welcome welcome refl
      one_task-IsValid refl refl refl refl

abbrev quiet : Cycle (sqlite_backend json 5) (λ c db. (db, 0))
quiet = record { store = one_task; db = empty_db; counter = 0; prunings = 0 }

abbrev failing : Round
failing = record { flush_raises = true; prune_raises = true; cutoff = noon }

run-prunings_example :
    let y =
      run
        (sqlite_backend json 5)
        (λ c db. (db, 0))
        true
        (retention_every 10800)
        (failing ∷ failing ∷ failing ∷ [])
        quiet in
    (y.prunings * retention_every 10800 + y.counter ≡ 3) × (y.counter < retention_every 10800)
run-prunings_example =
    run-prunings (sqlite_backend json 5) (λ c db. (db, 0)) 10800 (failing ∷ failing ∷ failing ∷ [])
      quiet refl refl
