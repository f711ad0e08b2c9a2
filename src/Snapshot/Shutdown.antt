-- ===== src/Snapshot/Shutdown.antt =====
-- snapshot.py: what `flush_pending` makes of the records at shutdown.
use fastapi_taskflow.Base.{
  ◌≡◌, refl, ap, sym, ◌∙◌, Bool, true, false, List, [], ◌∷◌, map, Option, none, some, String,
  if◌then◌else◌, keep, ◌==◌, string_key, arith,
}
use fastapi_taskflow.Dict.{Dict, lookup, Distinct, Entries, Entries-both, lookup-each}
use fastapi_taskflow.Models.{
  Datetime, TaskStatus, pending, running, success, failed, interrupted, cancelled, rejected,
  TaskRecord,
}
use fastapi_taskflow.Registry.{TaskRegistry, get_by_name}
use fastapi_taskflow.Store.{TaskStore, Field, records, get, update, set_attrs}
use fastapi_taskflow.Store.Calls.{updates, step}
use fastapi_taskflow.Store.Records.{IsValid, get-step, step-IsValid}
use fastapi_taskflow.Manager.{TaskManager}
use fastapi_taskflow.Backend.{SnapshotBackend}
use fastapi_taskflow.Snapshot.{
  Sorted, requeue_safe, sort_one, sort_all, sort_running, interrupt, is_unfinished, flush_pending,
}

module _ (registry : TaskRegistry) (now : Datetime) where
  abbrev stopped : Bool → TaskRecord → TaskRecord
  stopped true t = record t { status = pending }
  stopped false t = record t { status = interrupted; end_time = some now }

  abbrev by_status : TaskStatus → TaskRecord → TaskRecord
  by_status running t = stopped (requeue_safe (get_by_name t.func_name registry)) t
  by_status _ t = t

  -- The record after shutdown: a RUNNING one is PENDING if its function is safe to run again, and
  -- INTERRUPTED at the given time otherwise; every other one is as it was.
  abbrev pub after_shutdown : TaskRecord → TaskRecord
  after_shutdown t = by_status t.status t

  abbrev pub opt_after_shutdown : Option TaskRecord → Option TaskRecord
  opt_after_shutdown none = none
  opt_after_shutdown (some t) = some (after_shutdown t)

module _ (b : Bool) (registry : TaskRegistry) (now : Datetime) where
  get-update :
      (k : String) (fs : List Field) (s : TaskStore) (t : TaskRecord) (j : String)
      → IsValid s
      → get k s ≡ some t
      → get j (update k fs s) ≡ (if k == j then some (set_attrs fs t) else get j s)
  unfolding step
  get-update k fs s t j v g =
      get-step s v (updates k fs) j ∙ ground (arith, string_key.same_iff k j)

  abbrev Becomes : TaskRecord → TaskRecord → TaskStore → TaskStore → Type 0
  Becomes t x s s' =
      IsValid s' × ((j : String) → get j s' ≡ (if t.task_id == j then some x else get j s))

  same : (t : TaskRecord) (s : TaskStore) → IsValid s → get t.task_id s ≡ some t → Becomes t t s s
  same t s v g = (v, λ j. ground (arith, string_key.same_iff t.task_id j))

  stopped_one :
      (t : TaskRecord) (c : Bool) (a : Sorted)
      → IsValid a.store
      → get t.task_id a.store ≡ some t
      → Becomes t (stopped registry now c t) a.store (sort_running b registry now c t a).store
  unfolding set_attrs step
  stopped_one t true a v g =
      let fs = Field.status pending ∷ [] in
      (step-IsValid a.store v (updates t.task_id fs), λ j. get-update t.task_id fs a.store t j v g)
  stopped_one t false a v g =
      let fs = interrupt b registry now in
      (step-IsValid a.store v (updates t.task_id fs), λ j. get-update t.task_id fs a.store t j v g)

  -- One task of the loop.
  sorted_one :
      (t : TaskRecord) (st : TaskStatus) (a : Sorted)
      → IsValid a.store
      → get t.task_id a.store ≡ some t
      → Becomes t (by_status registry now st t) a.store (sort_one b registry now st t a).store
  sorted_one t running a v g = stopped_one t (requeue_safe (get_by_name t.func_name registry)) a v g
  sorted_one t pending a v g = same t a.store v g
  sorted_one t success a v g = same t a.store v g
  sorted_one t failed a v g = same t a.store v g
  sorted_one t interrupted a v g = same t a.store v g
  sorted_one t cancelled a v g = same t a.store v g
  sorted_one t rejected a v g = same t a.store v g

  visited :
      (t : TaskRecord) (ts : List TaskRecord) (a : Sorted) (st : TaskStatus)
      → t.status ≡ st
      → sort_all b registry now (if is_unfinished st then t ∷ ts else ts) a
        ≡ sort_all b registry now ts (sort_one b registry now t.status t a)
  unfolding sort_all
  visited t ts a pending e = refl
  visited t ts a running e = refl
  visited t ts a success e =
      ap (λ z. sort_all b registry now ts (sort_one b registry now z t a)) (sym e)
  visited t ts a failed e =
      ap (λ z. sort_all b registry now ts (sort_one b registry now z t a)) (sym e)
  visited t ts a interrupted e =
      ap (λ z. sort_all b registry now ts (sort_one b registry now z t a)) (sym e)
  visited t ts a cancelled e =
      ap (λ z. sort_all b registry now ts (sort_one b registry now z t a)) (sym e)
  visited t ts a rejected e =
      ap (λ z. sort_all b registry now ts (sort_one b registry now z t a)) (sym e)

  -- The finished tasks, which the loop does not visit, would change nothing.
  pub keep-sort_all :
      (ts : List TaskRecord) (a : Sorted)
      → sort_all b registry now (keep (λ t. is_unfinished t.status) ts) a
        ≡ sort_all b registry now ts a
  unfolding sort_all
  keep-sort_all [] a = refl
  keep-sort_all (t ∷ ts) a =
      visited t (keep (λ t. is_unfinished t.status) ts) a t.status refl
      ∙ keep-sort_all ts (sort_one b registry now t.status t a)

  abbrev Agree : TaskStore → Dict String TaskRecord → Type 0
  Agree s m = Entries (λ k t. (t.task_id ≡ k) × (get k s ≡ some t)) m

  keep-Agree :
      (t x : TaskRecord) (s s' : TaskStore) (m : Dict String TaskRecord)
      → Becomes t x s s'
      → lookup t.task_id m ≡ none
      → Agree s m
      → Agree s' m
  unfolding lookup
  keep-Agree t x s s' [] c n h = tt
  keep-Agree t x s s' (p ∷ m) c n h = (
    ground
        (arith, c.1 p.0, h.0, string_key.same_iff t.task_id p.0, string_key.same_iff p.0 t.task_id),
    keep-Agree t x s s' m c (ground (arith, string_key.same_iff p.0 t.task_id)) h.1,
  )

  abbrev over : Option TaskRecord → Option TaskRecord → Option TaskRecord
  over none o = o
  over (some t) o = some (after_shutdown registry now t)

  get-sort_all :
      (m : Dict String TaskRecord) (a : Sorted) (j : String)
      → Distinct m
      → IsValid a.store
      → Agree a.store m
      → get j (sort_all b registry now (map (λ p. p.1) m) a).store
        ≡ over (lookup j m) (get j a.store)
  unfolding sort_all lookup
  get-sort_all [] a j d v h = refl
  get-sort_all (p ∷ m) a j d v h =
      let a' = sort_one b registry now p.1.status p.1 a in
      let c = sorted_one p.1 p.1.status a v (ap (λ k. get k a.store) h.0.0 ∙ h.0.1) in
      let later = keep-Agree p.1 _ a.store a'.store m c (ap (λ k. lookup k m) h.0.0 ∙ d.0) h.1 in
      get-sort_all m a' j d.1 c.0 later
      ∙ ground
          (arith, c.1 j, d.0, h.0.0, string_key.same_iff p.0 j, string_key.same_iff p.1.task_id j)

  agree : (s : TaskStore) → IsValid s → Agree s s.tasks
  unfolding get
  agree s v =
      Entries-both (λ k t. t.task_id ≡ k) (λ k t. lookup k s.tasks ≡ some t) s.tasks v.own_id
        (lookup-each s.tasks v.distinct)

over_itself :
    (registry : TaskRegistry) (now : Datetime) (o : Option TaskRecord)
    → over true registry now o o ≡ opt_after_shutdown registry now o
over_itself registry now none = refl
over_itself registry now (some t) = refl

module _ {DB : Type 0} (B : SnapshotBackend DB) where
  pub flush_pending-records :
      (now : Datetime) (m : TaskManager) (db : DB) (id : String)
      → IsValid m.store
      → get id (flush_pending B now m db).0.store
        ≡ opt_after_shutdown m.registry now (get id m.store)
  unfolding flush_pending records get
  flush_pending-records now m db id v =
      let a : Sorted = record { store = m.store; to_requeue = []; to_interrupt = [] } in
      ap (λ z. get id z.store) (keep-sort_all m.requeue_pending m.registry now (records m.store) a)
      ∙ get-sort_all m.requeue_pending m.registry now m.store.tasks a id v.distinct v
          (agree m.requeue_pending m.registry now m.store v)
      ∙ over_itself m.registry now (lookup id m.store.tasks)
