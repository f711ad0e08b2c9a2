-- ===== src/Lifecycle/Saved.antt =====
-- snapshot.py: the rows that a shutdown leaves in a backend, and what a requeue makes of one.
use fastapi_taskflow.Base.{
  ℕ, suc, ◌+◌, ◌≡◌, refl, sym, ap, ◌∙◌, Bool, true, false, List, [], ◌∷◌, ◌++◌, map, Option, none,
  some, String, if◌then◌else◌, is_some, or_else, Result, ok, arith, ◌==◌, string_key, keep, ◌⊎◌,
  inl, inr, Bool-cases, ==_refl,
}
use fastapi_taskflow.Dict.{Dict, lookup, Distinct, Entries}
use fastapi_taskflow.Models.{
  Datetime, TaskStatus, pending, running, success, failed, interrupted, cancelled, rejected,
  TaskRecord,
}
use fastapi_taskflow.Registry.{TaskRegistry, get_by_name}
use fastapi_taskflow.Store.{get, records}
use fastapi_taskflow.Store.Records.{IsValid}
use fastapi_taskflow.Manager.{TaskManager}
use fastapi_taskflow.Manager.Merged.{find_task, last_with}
use fastapi_taskflow.Backend.{SnapshotBackend, in_ids, opt_map}
use fastapi_taskflow.Snapshot.{
  Sorted, requeue_safe, sort_one, sort_all, sort_running, is_unfinished, save_pending_some,
  flush_pending, requeue, requeue_rows, requeue_all, then_clear,
}
use fastapi_taskflow.Snapshot.Shutdown.{keep-sort_all}
use fastapi_taskflow.Lifecycle.Requeued.{AllRunnable, times, once, requeued}

module _ (b : Bool) (registry : TaskRegistry) (now : Datetime) where
  abbrev by_status : TaskStatus → TaskRecord → Option TaskRecord
  by_status pending t = if b then some t else none
  by_status running t =
      if requeue_safe (get_by_name t.func_name registry)
      then some (record t { status = pending })
      else none
  by_status _ t = none

  -- What the shutdown saves of a record for the next start.
  abbrev pub saved : TaskRecord → Option TaskRecord
  saved t = by_status t.status t

  abbrev pub saved_of : Option TaskRecord → Option TaskRecord
  saved_of none = none
  saved_of (some t) = saved t

  by_status-name :
      (st : TaskStatus) (t r : TaskRecord) → by_status st t ≡ some r → r.func_name ≡ t.func_name
  by_status-name pending t r e = ground (arith, e)
  by_status-name running t r e = ground (arith, e)
  by_status-name success t r e = cc e
  by_status-name failed t r e = cc e
  by_status-name interrupted t r e = cc e
  by_status-name cancelled t r e = cc e
  by_status-name rejected t r e = cc e

  pub saved-name : (t r : TaskRecord) → saved t ≡ some r → r.func_name ≡ t.func_name
  saved-name t r e = by_status-name t.status t r e

  last_with-append :
      (id : String) (xs : List TaskRecord) (y : TaskRecord)
      → last_with id (xs ++ y ∷ []) ≡ (if y.task_id == id then some y else last_with id xs)
  unfolding last_with
  last_with-append id [] y = refl
  last_with-append id (x ∷ xs) y = ground (arith, last_with-append id xs y)

  sorted_one :
      (id : String) (t : TaskRecord) (st : TaskStatus) (a : Sorted)
      → last_with id (sort_one b registry now st t a).to_requeue
        ≡ or_else (if t.task_id == id then by_status st t else none) (last_with id a.to_requeue)
  sorted_one id t pending a = ground (arith, last_with-append id a.to_requeue t)
  sorted_one id t running a = by_safe (requeue_safe (get_by_name t.func_name registry))
    where
      by_safe :
          (s : Bool)
          → last_with id (sort_running b registry now s t a).to_requeue
            ≡ or_else
                (if t.task_id == id
                  then (if s then some (record t { status = pending }) else none)
                  else none)
                (last_with id a.to_requeue)
      by_safe true =
          ground (arith, last_with-append id a.to_requeue (record t { status = pending }))
      by_safe false = ground arith
  sorted_one id t success a = ground arith
  sorted_one id t failed a = ground arith
  sorted_one id t interrupted a = ground arith
  sorted_one id t cancelled a = ground arith
  sorted_one id t rejected a = ground arith

  to_requeue-sort_all :
      (id : String) (m : Dict String TaskRecord) (a : Sorted)
      → Distinct m
      → Entries (λ k t. t.task_id ≡ k) m
      → last_with id (sort_all b registry now (map (λ p. p.1) m) a).to_requeue
        ≡ or_else (saved_of (lookup id m)) (last_with id a.to_requeue)
  unfolding sort_all lookup
  to_requeue-sort_all id [] a d o = refl
  to_requeue-sort_all id (p ∷ m) a d o =
      to_requeue-sort_all id m (sort_one b registry now p.1.status p.1 a) d.1 o.1
      ∙ by_key (Bool-cases (p.0 == id))
    where
      by_key :
          ((p.0 == id) ≡ true) ⊎ ((p.0 == id) ≡ false)
          → or_else
              (saved_of (lookup id m))
              (last_with id (sort_one b registry now p.1.status p.1 a).to_requeue)
            ≡ or_else
                (saved_of (if p.0 == id then some p.1 else lookup id m))
                (last_with id a.to_requeue)
      by_key (inl h) = rw h (
          rw (sym ((string_key.same_iff p.0 id).0 h))
            (rw d.0 (sorted_one p.0 p.1 p.1.status a ∙ rw o.0 (rw (==_refl p.0) refl))))
      by_key (inr h) = rw h (rw (sorted_one id p.1 p.1.status a) (rw o.0 (rw h refl)))

or_else-none : (o : Option TaskRecord) → or_else o none ≡ o
or_else-none none = refl
or_else-none (some t) = refl

module _ {DB : Type 0} (B : SnapshotBackend DB) where
  find-save_some :
      (id : String) (ts : List TaskRecord) (db : DB) (r : TaskRecord)
      → (id == "") ≡ false
      → last_with id ts ≡ some r
      → (find_task id (B.load_pending (save_pending_some B ts db)) ≡ some (B.reload_pending r))
        × (B.is_pending id (save_pending_some B ts db) ≡ true)
  unfolding last_with
  find-save_some id [] db r u e = cc e
  find-save_some id (t ∷ ts) db r u e = (
    B.find-save_pending id (t ∷ ts) db u ∙ ap (opt_map B.reload_pending) e,
    B.save_pending-listed id (t ∷ ts) db (ap is_some e),
  )

  pub flush_pending-last :
      (now : Datetime) (m : TaskManager) (id : String)
      → IsValid m.store
      → last_with id
          (sort_all m.requeue_pending m.registry now
            (keep (λ t. is_unfinished t.status) (records m.store))
            (record { store = m.store; to_requeue = []; to_interrupt = [] })).to_requeue
        ≡ saved_of m.requeue_pending m.registry now (get id m.store)
  unfolding records get last_with
  flush_pending-last now m id v =
      let a : Sorted = record { store = m.store; to_requeue = []; to_interrupt = [] } in
      ap (λ z. last_with id z.to_requeue)
        (keep-sort_all m.requeue_pending m.registry now (records m.store) a)
      ∙ to_requeue-sort_all m.requeue_pending m.registry now id m.store.tasks a v.distinct v.own_id
      ∙ or_else-none _

  pub replaced :
      (id k : String) (ts : List TaskRecord) (db : DB) (r : TaskRecord)
      → (id == "") ≡ false
      → last_with k ts ≡ some r
      → last_with id ts ≡ none
      → find_task id (B.load_pending (save_pending_some B ts db)) ≡ none
  unfolding last_with
  replaced id k [] db r u e n = cc e
  replaced id k (t ∷ ts) db r u e n =
      B.find-save_pending id (t ∷ ts) db u ∙ ap (opt_map B.reload_pending) n

  -- The row that a shutdown leaves of a task that did not finish.
  pub flush_pending-row :
      (now : Datetime) (m : TaskManager) (db : DB) (id : String) (t r : TaskRecord)
      → (id == "") ≡ false
      → IsValid m.store
      → get id m.store ≡ some t
      → saved m.requeue_pending m.registry now t ≡ some r
      → let db' = (flush_pending B now m db).1 in
        (find_task id (B.load_pending db') ≡ some (B.reload_pending r))
        × (B.is_pending id db' ≡ true)
  unfolding flush_pending
  flush_pending-row now m db id t r u v g s =
      find-save_some id _ _ r u
        (flush_pending-last now m id v ∙ ap (saved_of m.requeue_pending m.registry now) g ∙ s)

  module _ (wrap : String → ℕ) where
    abbrev Starts : String → TaskManager → TaskManager × DB × Result ℕ → Type 0
    Starts id m o =
        (times B wrap id o.0 ≡ suc (times B wrap id m))
        × (o.0.queues ≡ [])
        × ((n : ℕ) × (o.2 ≡ ok n))

    cleared :
        (id : String) (m : TaskManager) (o : TaskManager × DB × Result ℕ)
        → Starts id m o
        → Starts id m (then_clear B wrap o)
    cleared id m o (t, q, (n, e)) = rw e (t, q, (n, refl))

    rows-Starts :
        (id : String) (r : TaskRecord) (rows : List TaskRecord) (m : TaskManager) (db : DB)
        → m.queues ≡ []
        → AllRunnable m.registry
        → find_task id rows ≡ some r
        → B.is_pending id db ≡ true
        → ((ids : List String) → in_ids id (B.completed_ids ids db) ≡ false)
        → is_some (get_by_name r.func_name m.registry) ≡ true
        → Starts id m (requeue_rows B wrap rows m db)
    unfolding find_task
    rows-Starts id r [] m db q h f p c g = cc f
    rows-Starts id r (x ∷ xs) m db q h f p c g =
        let ids = map (λ t. t.task_id) (x ∷ xs) in
        let (t, q', n) = requeued B wrap (B.completed_ids ids db) (x ∷ xs) m db q h in
        cleared id m (requeue_all B wrap (B.completed_ids ids db) (x ∷ xs) m db) (
          t id
              ∙ ap
                  (λ y. times B wrap id m + once B wrap (B.completed_ids ids db) m.registry id db y)
                  f
              ∙ rw (c ids) (rw p (rw g (omega arith))),
          q',
          n,
        )

    pub requeue-Starts :
        (id : String) (r : TaskRecord) (m : TaskManager) (db : DB)
        → m.queues ≡ []
        → AllRunnable m.registry
        → find_task id (B.load_pending db) ≡ some r
        → B.is_pending id db ≡ true
        → ((ids : List String) → in_ids id (B.completed_ids ids db) ≡ false)
        → is_some (get_by_name r.func_name m.registry) ≡ true
        → Starts id m (requeue B wrap m db)
    unfolding requeue
    requeue-Starts id r m db q h f p c g = rows-Starts id r (B.load_pending db) m db q h f p c g
