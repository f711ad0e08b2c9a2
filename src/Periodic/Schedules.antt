-- ===== src/Periodic/Schedules.antt =====
-- manager.py: `schedule_once`, `cancel_scheduled` and `list_scheduled`, over the SQLite backend.
--   A call is one step here, over the backend's answers; Periodic.Shared takes the row and the entry
--   in memory apart.
use fastapi_taskflow.Base.{
  ℕ, ◌+◌, Bool, true, false, List, [], Option, none, some, String, if◌then◌else◌, or_default,
  or_else, runtime_error, Result, ok, raise, ◌>>=◌, ◌>>◌,
}
use fastapi_taskflow.Dict.{Dict}
use fastapi_taskflow.Models.{
  Obj, Bytes, Datetime, to_utc, default_config, TaskConfig, ScheduledOnce,
}
use fastapi_taskflow.Registry.{or_text, get_config}
use fastapi_taskflow.Manager.{TaskManager, Request, resolve_executor, validate_args}
use fastapi_taskflow.Backend.Sqlite.{Sqlite, save_scheduled, delete_scheduled, load_due}
use fastapi_taskflow.Periodic.{PeriodicScheduler, schedule_within, cancel_one_off}

-- `run_at` and `run_key` with the arguments of a task; `eager` and the fresh id are not used.
pub record OnceCall : Type 0 where
  pub request : Request
  pub run_at : Datetime
  pub run_key : String

abbrev pub aware : Datetime → Datetime
aware dt = if dt.aware then dt else to_utc dt

-- `_require_scheduled_once`: there is a backend, and it supports one-offs.
abbrev pub require_scheduled_once : Option Bool → Result (Unit {0})
require_scheduled_once none = raise runtime_error
require_scheduled_once (some false) = raise runtime_error
require_scheduled_once (some true) = ok tt

abbrev pub arm_within : ℕ → ScheduledOnce → Option PeriodicScheduler → Option PeriodicScheduler
arm_within horizon_end o none = none
arm_within horizon_end o (some p) = some (schedule_within horizon_end o p)

abbrev pub disarm : String → Option PeriodicScheduler → Option PeriodicScheduler
disarm key none = none
disarm key (some p) = some (cancel_one_off key p)

abbrev pub save_and_arm :
    ℕ
    → Result ScheduledOnce
    → Option PeriodicScheduler
    → Sqlite
    → Option PeriodicScheduler × Sqlite × Result (Unit {0})
save_and_arm horizon_end (raise e) p db = (p, db, raise e)
save_and_arm horizon_end (ok o) p db = (arm_within horizon_end o p, save_scheduled o db, ok tt)

module _ (picklable : List Obj → Dict String Obj → Bool)
    (fernet : Option (List Obj → Dict String Obj → Bytes)) where
  abbrev pub scheduled_entry : OnceCall → TaskConfig → ScheduledOnce
  scheduled_entry c config =
      let r = c.request in
      let o : ScheduledOnce = record {
        run_key = c.run_key;
        func_name = r.func.name;
        fire_at = aware c.run_at;
        args = r.args;
        kwargs = r.kwargs;
        encrypted_payload = none;
        queue = or_text r.queue (or_text config.queue "default");
        priority = or_else r.priority config.priority;
        idempotency_key = r.idempotency_key;
        tags = or_default r.tags [];
        created_at = r.now;
      } in
      elim fernet [
        | none ↦ o
        | some encrypt ↦ record o {
          args = [];
          kwargs = [];
          encrypted_payload = some (encrypt r.args r.kwargs);
        }
      ]

  -- What is checked before anything is saved, and the entry.
  abbrev pub checked_entry : Option Bool → OnceCall → TaskManager → Result ScheduledOnce
  checked_entry backend c m =
      let config = or_default (get_config c.request.func m.registry) default_config in
      do
        require_scheduled_once backend
        name ← resolve_executor c.request.func config
        validate_args picklable fernet name c.request
        ok (scheduled_entry c config)

  unfoldable pub schedule_once :
      Option Bool
      → ℕ
      → OnceCall
      → TaskManager
      → Option PeriodicScheduler
      → Sqlite
      → Option PeriodicScheduler × Sqlite × Result (Unit {0})
  unfolding to_utc resolve_executor save_scheduled schedule_within
  schedule_once backend horizon_end c m p db =
      save_and_arm horizon_end (checked_entry backend c m) p db

abbrev pub delete_and_disarm :
    Result (Unit {0})
    → String
    → Option PeriodicScheduler
    → Sqlite
    → Option PeriodicScheduler × Sqlite × Result Bool
delete_and_disarm (raise e) key p db = (p, db, raise e)
delete_and_disarm (ok _) key p db =
    let (db', removed) = delete_scheduled key db in (disarm key p, db', ok removed)

unfoldable pub cancel_scheduled :
    Option Bool
    → String
    → Option PeriodicScheduler
    → Sqlite
    → Option PeriodicScheduler × Sqlite × Result Bool
unfolding delete_scheduled cancel_one_off
cancel_scheduled backend key p db = delete_and_disarm (require_scheduled_once backend) key p db

-- 365 days in microseconds.
abbrev pub one_year : ℕ
one_year = 31536000000000

unfoldable pub list_scheduled : Option Bool → Option ℕ → ℕ → Sqlite → Result (List ScheduledOnce)
unfolding load_due
list_scheduled backend before now db = do
  require_scheduled_once backend
  ok (load_due (or_default before (now + one_year)) db)
