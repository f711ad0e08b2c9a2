-- ===== src/Snapshot.antt =====
-- snapshot.py: `SnapshotScheduler`, over any backend that fills the interface.
--   The closure of a requeued task is known by a number (`wrap`). Exceptions of the backend, which the
--   code logs, are not modelled.
pub mod Requeue
pub mod Shutdown
pub mod Cycle
use fastapi_taskflow.Base.{
  ℕ, suc, ◌+◌, Bool, true, false, not, List, [], ◌∷◌, ◌++◌, map, Option, none, some, String,
  if◌then◌else◌, length, keep, Exn, Result, ok, raise,
}
use fastapi_taskflow.Models.{
  Datetime, TaskStatus, pending, running, success, failed, interrupted, cancelled, rejected,
  TaskConfig, TaskRecord,
}
use fastapi_taskflow.Registry.{Func, TaskRegistry, get_by_name, or_text}
use fastapi_taskflow.Store.{
  TaskStore, Field, records, get, restore, update, set_attrs, delete_completed_before,
}
use fastapi_taskflow.Manager.{TaskManager, resolve_executor, put_in_queue, is_empty}
use fastapi_taskflow.Backend.{SnapshotBackend, in_ids}

-- The statuses that `flush` saves.
abbrev pub is_finished : TaskStatus → Bool
is_finished pending = false
is_finished running = false
is_finished success = true
is_finished failed = true
is_finished interrupted = true
is_finished cancelled = true
is_finished rejected = true

abbrev pub is_unfinished : TaskStatus → Bool
is_unfinished pending = true
is_unfinished running = true
is_unfinished _ = false

abbrev pub requeue_safe : Option (Func × TaskConfig) → Bool
requeue_safe none = false
requeue_safe (some (f, config)) = config.requeue_on_interrupt

-- What one unfinished task adds to `to_requeue` and to `to_interrupt`, and the store after it. The
-- record in the lists is the one in the store, so it has the new status.
pub record Sorted : Type 0 where
  pub store : TaskStore
  pub to_requeue : List TaskRecord
  pub to_interrupt : List TaskRecord

module _ (requeue_pending : Bool) (registry : TaskRegistry) (now : Datetime) where
  abbrev pub interrupt : List Field
  interrupt = Field.status interrupted ∷ Field.end_time now ∷ []

  abbrev pub sort_running : Bool → TaskRecord → Sorted → Sorted
  sort_running true t a = record a {
    store = update t.task_id (Field.status pending ∷ []) a.store;
    to_requeue = a.to_requeue ++ record t { status = pending } ∷ [];
  }
  sort_running false t a = record a {
    store = update t.task_id interrupt a.store;
    to_interrupt = a.to_interrupt ++ record t { status = interrupted; end_time = some now } ∷ [];
  }

  abbrev pub sort_one : TaskStatus → TaskRecord → Sorted → Sorted
  sort_one pending t a = record a {
    to_requeue = if requeue_pending then a.to_requeue ++ t ∷ [] else a.to_requeue;
  }
  sort_one running t a = sort_running (requeue_safe (get_by_name t.func_name registry)) t a
  sort_one _ t a = a

  -- The loop of `flush_pending`.
  unfoldable pub sort_all : List TaskRecord → Sorted → Sorted
  sort_all [] a = a
  sort_all (t ∷ ts) a = sort_all ts (sort_one t.status t a)

module _ {DB : Type 0} (B : SnapshotBackend DB) where
  -- `load`
  unfoldable pub restore_all : List TaskRecord → TaskStore → TaskStore
  restore_all [] s = s
  restore_all (r ∷ rs) s = restore_all rs (restore r s)

  unfoldable pub load : DB → TaskStore → TaskStore × ℕ
  unfolding restore_all
  load db s = (restore_all (B.load db) s, length (B.load db))

  abbrev pub save_some : List TaskRecord → DB → DB
  save_some [] db = db
  save_some (t ∷ ts) db = B.save (t ∷ ts) db

  unfoldable pub flush : TaskStore → DB → DB × ℕ
  flush s db =
      let completed = keep (λ t. is_finished t.status) (records s) in
      (save_some completed db, length completed)

  unfoldable pub flush_one : String → TaskStore → DB → DB
  flush_one task_id s db = elim (get task_id s) [ none ↦ db | some r ↦ B.save (r ∷ []) db ]

  abbrev pub save_pending_some : List TaskRecord → DB → DB
  save_pending_some [] db = db
  save_pending_some (t ∷ ts) db = B.save_pending (t ∷ ts) db

  unfoldable pub flush_pending : Datetime → TaskManager → DB → TaskManager × DB × ℕ
  unfolding sort_all
  flush_pending now m db =
      let a =
        sort_all m.requeue_pending m.registry now
          (keep (λ t. is_unfinished t.status) (records m.store))
          (record { store = m.store; to_requeue = []; to_interrupt = [] }) in
      (
        record m { store = a.store },
        save_pending_some a.to_requeue (save_some a.to_interrupt db),
        length a.to_requeue,
      )

  -- `_prune_old_records`; `delete_before` of the backend is a parameter.
  unfoldable pub prune : (DB → DB × ℕ) → Datetime → TaskStore → DB → TaskStore × DB × ℕ
  prune delete_before cutoff s db =
      let (s', n) = delete_completed_before cutoff s in
      let (db', k) = delete_before db in (s', db', n + k)

  module _ (wrap : String → ℕ) where
    -- What `requeue` does with a claimed task whose function it knows.
    abbrev pub launch : TaskRecord → Result String → TaskManager → TaskManager × Result Bool
    launch r (raise e) m = (m, raise e)
    launch r (ok executor) m =
        let m' = record m { store = update r.task_id (Field.executor executor ∷ []) m.store } in
        if is_empty m'.queues
        then (record m' { started = r.task_id ∷ m'.started }, ok true)
        else (let o =
              put_in_queue (or_text (some r.queue) "default") r.task_id r.priority (wrap r.task_id)
                m' in
            (o.0, elim o.1 [ ok _ ↦ ok true | raise e ↦ raise e ]))

    abbrev pub dispatch_known :
        TaskRecord → Option (Func × TaskConfig) → TaskManager → TaskManager × Result Bool
    dispatch_known r none m = (m, ok false)
    dispatch_known r (some (f, config)) m =
        launch r (resolve_executor f config) (record m { store = restore r m.store })

    abbrev pub if_claimed : TaskRecord → Bool → TaskManager → TaskManager × Result Bool
    if_claimed r false m = (m, ok false)
    if_claimed r true m = dispatch_known r (get_by_name r.func_name m.registry) m

    -- One round of the loop of `requeue`; the answer says whether the task was dispatched.
    unfoldable pub requeue_one :
        List String → TaskRecord → TaskManager → DB → TaskManager × DB × Result Bool
    requeue_one completed r m db =
        if in_ids r.task_id completed
        then (m, db, ok false)
        else (let (db', claimed) = B.claim_pending r.task_id db in
            let (m', o) = if_claimed r claimed m in (m', db', o))

    abbrev add_one : Bool → ℕ → ℕ
    add_one true n = suc n
    add_one false n = n

    abbrev pub counted : Bool → TaskManager × DB × Result ℕ → TaskManager × DB × Result ℕ
    counted b (m, db, ok n) = (m, db, ok (add_one b n))
    counted b (m, db, raise e) = (m, db, raise e)

    unfoldable pub requeue_all :
        List String → List TaskRecord → TaskManager → DB → TaskManager × DB × Result ℕ
    unfolding requeue_one
    requeue_all completed [] m db = (m, db, ok 0)
    requeue_all completed (r ∷ rs) m db =
        let (m', db', o) = requeue_one completed r m db in
        elim o [ raise e ↦ (m', db', raise e) | ok b ↦ counted b (requeue_all completed rs m' db') ]

    abbrev pub then_clear : TaskManager × DB × Result ℕ → TaskManager × DB × Result ℕ
    then_clear (m, db, ok n) = (m, B.clear_pending db, ok n)
    then_clear (m, db, raise e) = (m, db, raise e)

    abbrev pub requeue_rows : List TaskRecord → TaskManager → DB → TaskManager × DB × Result ℕ
    requeue_rows [] m db = (m, db, ok 0)
    requeue_rows (r ∷ rs) m db =
        then_clear (requeue_all (B.completed_ids (map (λ t. t.task_id) (r ∷ rs)) db) (r ∷ rs) m db)

    unfoldable pub requeue : TaskManager → DB → TaskManager × DB × Result ℕ
    unfolding requeue_all
    requeue m db = requeue_rows (B.load_pending db) m db
