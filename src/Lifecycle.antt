-- ===== src/Lifecycle.antt =====
-- manager.py: `TaskManager.startup` and `TaskManager.shutdown`, over the schedulers and the queues.
--   One call is one step: what other coroutines do at its awaits is not modelled. The loggers, the
--   instance registry, the signal handlers and the pools stand apart: they touch none of this state.
--   A periodic scheduler holds the manager as an object, so its copy here follows the manager.
pub mod Requeued
pub mod Saved
pub mod Restart
use fastapi_taskflow.Base.{
  ℕ, Bool, true, false, List, [], ◌∷◌, Option, none, some, String, if◌then◌else◌, is_some, Result,
  ok, raise, string_key,
}
use fastapi_taskflow.Dict.{Dict, lookup, insert}
use fastapi_taskflow.Models.{Datetime, QueueConfig}
use fastapi_taskflow.Store.{notify_shutdown}
use fastapi_taskflow.TaskQueue.{TaskQueue, init}
use fastapi_taskflow.Manager.{TaskManager, is_empty}
use fastapi_taskflow.Backend.{SnapshotBackend}
use fastapi_taskflow.Snapshot.{load, flush, flush_pending, requeue}
use fastapi_taskflow.Periodic.{PeriodicScheduler, start, stop}

pub record Instance : Type 0 where
  pub manager : TaskManager
  pub queue_configs : Dict String QueueConfig
  pub periodic : Option PeriodicScheduler
  -- The background task of the snapshot scheduler, and the worker of the priority queue.
  pub snapshots_run : Bool
  pub worker_runs : Bool
  -- `_shutdown_event`: whether it is set.
  pub shutdown_event : Option Bool

abbrev pub with_manager : TaskManager → PeriodicScheduler → PeriodicScheduler
with_manager m p = record p { manager = m }

-- The overrides of the metadata, for the queues that are configured.
unfoldable pub apply_overrides :
    Dict String QueueConfig → Dict String QueueConfig → Dict String QueueConfig
apply_overrides [] configs = configs
apply_overrides (p ∷ overrides) configs =
    apply_overrides overrides
      (if is_some (lookup p.0 configs) then insert p.0 p.1 configs else configs)

-- The loop that makes the queues.
unfoldable pub open_queues : Dict String QueueConfig → Dict String TaskQueue → Dict String TaskQueue
open_queues [] queues = queues
open_queues (p ∷ configs) queues = open_queues configs (insert p.0 (init p.0 p.1) queues)

-- The end of `startup`: named queues with their drainers, or the worker of the priority queue.
unfoldable pub start_queues : Dict String QueueConfig → Instance → Instance
unfolding apply_overrides open_queues
start_queues overrides i =
    if is_empty i.queue_configs
    then record i { worker_runs = true }
    else (let configs =
          if i.manager.has_scheduler
          then apply_overrides overrides i.queue_configs
          else i.queue_configs in
        record i {
          queue_configs = configs;
          manager = record i.manager { queues = open_queues configs i.manager.queues };
        })

-- `_periodic_scheduler.start()`
abbrev pub start_periodic :
    (String → ℕ → String → ℕ)
    → ℕ
    → Option PeriodicScheduler
    → Option PeriodicScheduler × Result (Unit {0})
start_periodic next_cron now none = (none, ok tt)
start_periodic next_cron now (some p) = let (q, o) = start next_cron now p in (some q, o)

abbrev pub stop_periodic : Option PeriodicScheduler → Option PeriodicScheduler
stop_periodic none = none
stop_periodic (some p) = some (stop p)

abbrev pub synced : TaskManager → Option PeriodicScheduler → Option PeriodicScheduler
synced m none = none
synced m (some p) = some (with_manager m p)

abbrev pub sync : Instance → Instance
sync i = record i { periodic = synced i.manager i.periodic }

module _ {DB : Type 0} (B : SnapshotBackend DB) (wrap : String → ℕ)
    (next_cron : String → ℕ → String → ℕ) (read_overrides : DB → Dict String QueueConfig) where
  abbrev pub maybe_requeue : Bool → TaskManager → DB → TaskManager × DB × Result ℕ
  maybe_requeue true m db = requeue B wrap m db
  maybe_requeue false m db = (m, db, ok 0)

  -- What `startup` does with the snapshot scheduler.
  abbrev pub restore_state : Bool → TaskManager → DB → TaskManager × DB × Result ℕ
  restore_state true m db =
      maybe_requeue m.requeue_pending (record m { store = (load B db m.store).0 }) db
  restore_state false m db = (m, db, ok 0)

  abbrev pub after_periodic :
      Option PeriodicScheduler × Result (Unit {0})
      → Instance
      → DB
      → Instance × DB × Result (Unit {0})
  after_periodic (p, raise e) i db = (sync (record i { periodic = p }), db, raise e)
  after_periodic (p, ok _) i db =
      (sync (start_queues (read_overrides db) (record i { periodic = p })), db, ok tt)

  abbrev pub after_restore :
      ℕ → TaskManager × DB × Result ℕ → Instance → Instance × DB × Result (Unit {0})
  after_restore now (m, db, raise e) i = (sync (record i { manager = m }), db, raise e)
  after_restore now (m, db, ok n) i =
      after_periodic (start_periodic next_cron now i.periodic)
        (record i {
          manager = m;
          snapshots_run = if m.has_scheduler then true else i.snapshots_run;
        })
        db

  unfoldable pub startup : ℕ → Instance → DB → Instance × DB × Result (Unit {0})
  unfolding load requeue start start_queues
  startup now i db =
      after_restore now (restore_state i.manager.has_scheduler i.manager db)
        (record i { shutdown_event = some false })

-- The queues are dropped with what waits in them, or the worker is cancelled.
unfoldable pub stop_queues : Instance → Instance
stop_queues i =
    if is_empty i.manager.queues
    then record i { worker_runs = false }
    else record i { manager = record i.manager { queues = [] } }

module _ {DB : Type 0} (B : SnapshotBackend DB) where
  -- `stop`, `flush` and `flush_pending` of the snapshot scheduler.
  abbrev pub save_state : Bool → Datetime → Instance → DB → Instance × DB
  save_state false now i db = (i, db)
  save_state true now i db =
      let o = flush_pending B now i.manager (flush B i.manager.store db).0 in
      (record i { manager = o.0; snapshots_run = false }, o.1)

  abbrev pub then_sync : Instance × DB → Instance × DB
  then_sync (i, db) = (sync i, db)

  unfoldable pub shutdown : Datetime → Instance → DB → Instance × DB
  unfolding notify_shutdown stop stop_queues flush flush_pending
  shutdown now i db =
      let s = record i {
        shutdown_event = if is_some i.shutdown_event then some true else none;
        manager = record i.manager { store = notify_shutdown i.manager.store };
      } in
      let q = stop_queues s in
      then_sync (
        save_state q.manager.has_scheduler now (record q { periodic = stop_periodic q.periodic })
          db)
