-- ===== src/Lifecycle/Restart.antt =====
-- manager.py and snapshot.py: a shutdown of one process and the startup of the next on its backend.
use fastapi_taskflow.Base.{
  ℕ, suc, ◌≡◌, refl, sym, ap, ◌∙◌, true, false, List, [], ◌∷◌, Option, none, some, String,
  if◌then◌else◌, is_some, Result, ok, raise, ◌==◌, string_key, subst, count_if, inl, inr,
  Bool-cases,
}
use fastapi_taskflow.Dict.{Dict, Entries, insert-Entries}
use fastapi_taskflow.Models.{Datetime, QueueConfig, TaskRecord}
use fastapi_taskflow.Registry.{get_by_name}
use fastapi_taskflow.Store.{get, notify_shutdown}
use fastapi_taskflow.Store.Records.{IsValid}
use fastapi_taskflow.TaskQueue.{TaskQueue, init}
use fastapi_taskflow.Manager.{TaskManager, is_empty}
use fastapi_taskflow.Manager.Merged.{find_task}
use fastapi_taskflow.Backend.{SnapshotBackend, in_ids}
use fastapi_taskflow.Snapshot.{flush, flush_pending, load, requeue}
use fastapi_taskflow.Periodic.{PeriodicScheduler}
use fastapi_taskflow.Lifecycle.Requeued.{AllRunnable, times}
use fastapi_taskflow.Lifecycle.{
  Instance, restore_state, maybe_requeue, after_restore, after_periodic, apply_overrides,
  start_periodic, open_queues, start_queues, stop_queues, startup, shutdown,
}
use fastapi_taskflow.Lifecycle.Saved.{
  saved-name, saved, saved_of, flush_pending-last, replaced, flush_pending-row, requeue-Starts,
}

module _ {DB : Type 0} (B : SnapshotBackend DB) where
  shutdown-row :
      (now : Datetime) (i : Instance) (db : DB) (id : String) (t r : TaskRecord)
      → (id == "") ≡ false
      → IsValid i.manager.store
      → i.manager.has_scheduler ≡ true
      → get id i.manager.store ≡ some t
      → saved i.manager.requeue_pending i.manager.registry now t ≡ some r
      → let db' = (shutdown B now i db).1 in
        (find_task id (B.load_pending db') ≡ some (B.reload_pending r))
        × (B.is_pending id db' ≡ true)
  unfolding shutdown stop_queues notify_shutdown get
  shutdown-row now i db id t r u v s g w =
      let valid : IsValid (notify_shutdown i.manager.store) = record {
        distinct = v.distinct;
        own_id = v.own_id;
      } in
      let m = record i.manager { store = notify_shutdown i.manager.store } in
      let saved_db = (flush B m.store db).0 in
      elim (Bool-cases (is_empty i.manager.queues)) [
        | inl e ↦ rw (e, s) (flush_pending-row B now m saved_db id t r u valid g w)
        | inr e ↦
            rw (e, s)
              (flush_pending-row B now (record m { queues = [] }) saved_db id t r u valid g w)
      ]

  -- A shutdown that saves a task forgets every pending task of the backend that it does not have
  -- itself: one that another instance saved before is in no row afterwards.
  pub shutdown-forgets :
      (now : Datetime) (i : Instance) (db : DB) (id k : String) (t r : TaskRecord)
      → (id == "") ≡ false
      → IsValid i.manager.store
      → i.manager.has_scheduler ≡ true
      → get k i.manager.store ≡ some t
      → saved i.manager.requeue_pending i.manager.registry now t ≡ some r
      → get id i.manager.store ≡ none
      → find_task id (B.load_pending (shutdown B now i db).1) ≡ none
  unfolding shutdown stop_queues notify_shutdown get flush_pending
  shutdown-forgets now i db id k t r u v s g w n =
      let valid : IsValid (notify_shutdown i.manager.store) = record {
        distinct = v.distinct;
        own_id = v.own_id;
      } in
      let m = record i.manager { store = notify_shutdown i.manager.store } in
      let saved_db = (flush B m.store db).0 in
      let here =
        flush_pending-last B now m k valid ∙ ap (saved_of m.requeue_pending m.registry now) g ∙ w in
      let there =
        flush_pending-last B now m id valid ∙ ap (saved_of m.requeue_pending m.registry now) n in
      elim (Bool-cases (is_empty i.manager.queues)) [
        | inl e ↦ rw (e, s) (replaced B id k _ _ r u here there)
        | inr e ↦ rw (e, s) (replaced B id k _ _ r u here there)
      ]

abbrev pub IsIdle : String → TaskQueue → Type 0
IsIdle name q = (q.heap ≡ []) × (q.running ≡ [])

open_queues-IsIdle :
    (configs : Dict String QueueConfig) (queues : Dict String TaskQueue)
    → Entries IsIdle queues
    → Entries IsIdle (open_queues configs queues)
unfolding open_queues init
open_queues-IsIdle [] queues h = h
open_queues-IsIdle (p ∷ configs) queues h =
    open_queues-IsIdle configs _ (insert-Entries IsIdle p.0 (init p.0 p.1) queues (refl, refl) h)

start_queues-kept :
    (overrides : Dict String QueueConfig) (i : Instance)
    → i.manager.queues ≡ []
    → ((start_queues overrides i).manager.started ≡ i.manager.started)
      × Entries IsIdle (start_queues overrides i).manager.queues
unfolding start_queues
start_queues-kept overrides i q = elim (Bool-cases (is_empty i.queue_configs)) [
  | inl e ↦ rw (e, q) (refl, tt)
  | inr e ↦
      rw (e, q)
        (
          refl,
          open_queues-IsIdle
              (if i.manager.has_scheduler
                then apply_overrides overrides i.queue_configs
                else i.queue_configs)
              [] tt,
        )
]

module _ {DB : Type 0} (B : SnapshotBackend DB) (wrap : String → ℕ)
    (next_cron : String → ℕ → String → ℕ) (read_overrides : DB → Dict String QueueConfig) where
  -- What is kept of a manager: the tasks it started, and no task in a queue.
  abbrev Keeps : TaskManager → Instance → Type 0
  Keeps m i = (i.manager.started ≡ m.started) × Entries IsIdle i.manager.queues

  after_periodic-Keeps :
      (o : Option PeriodicScheduler × Result (Unit {0})) (i : Instance) (db : DB)
      → i.manager.queues ≡ []
      → Keeps i.manager (after_periodic B wrap next_cron read_overrides o i db).0
  after_periodic-Keeps (p, raise e) i db q = (refl, rw q tt)
  after_periodic-Keeps (p, ok _) i db q =
      start_queues-kept (read_overrides db) (record i { periodic = p }) q

  after_restore-Keeps :
      (now : ℕ) (o : TaskManager × DB × Result ℕ) (i : Instance)
      → o.0.queues ≡ []
      → ((n : ℕ) × (o.2 ≡ ok n))
      → Keeps o.0 (after_restore B wrap next_cron read_overrides now o i).0
  after_restore-Keeps now o i q (n, e) = rw e (
      after_periodic-Keeps (start_periodic next_cron now i.periodic)
        (record i {
          manager = o.0;
          snapshots_run = if o.0.has_scheduler then true else i.snapshots_run;
        })
        o.1 q)

  pub restart-starts :
      (now : Datetime) (later : ℕ) (i j : Instance) (db : DB) (id : String) (t r : TaskRecord)
      → (id == "") ≡ false
      → IsValid i.manager.store
      → i.manager.has_scheduler ≡ true
      → get id i.manager.store ≡ some t
      → saved i.manager.requeue_pending i.manager.registry now t ≡ some r
      → j.manager.has_scheduler ≡ true
      → j.manager.requeue_pending ≡ true
      → j.manager.queues ≡ []
      → AllRunnable j.manager.registry
      → is_some (get_by_name t.func_name j.manager.registry) ≡ true
      → ((ids : List String) → in_ids id (B.completed_ids ids (shutdown B now i db).1) ≡ false)
      → let o = startup B wrap next_cron read_overrides later j (shutdown B now i db).1 in
        (times B wrap id o.0.manager ≡ suc (times B wrap id j.manager))
        × Entries IsIdle o.0.manager.queues
  unfolding startup
  restart-starts now later i j db id t r u v s g w s' p q h f c =
      let (row, listed) = shutdown-row B now i db id t r u v s g w in
      let db' = (shutdown B now i db).1 in
      let m = record j.manager { store = (load B db' j.manager.store).0 } in
      let (n, q', e) = requeue-Starts B wrap id (B.reload_pending r) m db' q h row listed c (
        ap (λ k. is_some (get_by_name k j.manager.registry))
          ((B.reload_pending-kept r).1
            ∙ saved-name i.manager.requeue_pending i.manager.registry now t r w)
        ∙ f) in
      let j' = record j { shutdown_event = some false } in
      let k = after_restore-Keeps later (requeue B wrap m db') j' q' e in
      subst
        (λ o.
          let x = after_restore B wrap next_cron read_overrides later o j' in
          (times B wrap id x.0.manager ≡ suc (times B wrap id j.manager))
          × Entries IsIdle x.0.manager.queues)
        (sym (
          ap (λ b. restore_state B wrap next_cron read_overrides b j.manager db') s'
          ∙ ap (λ b. maybe_requeue B wrap next_cron read_overrides b m db') p))
        (ap (λ ids. count_if (λ k. k == id) ids) k.0 ∙ n, k.1)
