-- ===== src/Lifecycle/Requeued.antt =====
-- snapshot.py: which tasks the loop of `requeue` starts while there are no named queues, as in `startup`.
use fastapi_taskflow.Base.{
  ℕ, ◌+◌, ◌≡◌, refl, sym, ap, ◌∙◌, Bool, true, false, not, ◌&&◌, List, [], ◌∷◌, Option, none, some,
  String, if◌then◌else◌, is_some, Result, ok, count_if, arith, subst, ◌==◌, string_key, Bool-cases,
  inl, inr,
}
use fastapi_taskflow.Models.{TaskConfig, TaskRecord}
use fastapi_taskflow.Registry.{Func, TaskRegistry, get_by_name}
use fastapi_taskflow.Store.{restore}
use fastapi_taskflow.Manager.{TaskManager, resolve_executor}
use fastapi_taskflow.Manager.Merged.{find_task}
use fastapi_taskflow.Backend.{SnapshotBackend, in_ids}
use fastapi_taskflow.Snapshot.{
  launch, dispatch_known, if_claimed, requeue_one, requeue_all, counted,
}

-- Each registered function has an executor, as the checks of `task` ensure.
abbrev pub Runnable : Option (Func × TaskConfig) → Type 0
Runnable none = Unit
Runnable (some (f, config)) = (e : String) × (resolve_executor f config ≡ ok e)

abbrev pub AllRunnable : TaskRegistry → Type 0
AllRunnable registry = (name : String) → Runnable (get_by_name name registry)

abbrev pub started_or_not : Bool → String → List String → List String
started_or_not true id ids = id ∷ ids
started_or_not false id ids = ids

-- What one round leaves of the manager: the task is started if `b` says so.
abbrev Goes : TaskManager → Bool → String → TaskManager × Result Bool → Type 0
Goes m b id o =
    (o.0.queues ≡ [])
    × (o.0.registry ≡ m.registry)
    × (o.0.started ≡ started_or_not b id m.started)
    × (o.1 ≡ ok b)

module _ {DB : Type 0} (B : SnapshotBackend DB) (wrap : String → ℕ) where
  launched :
      (r : TaskRecord) (m : TaskManager) (x : String)
      → m.queues ≡ []
      → Goes m true r.task_id (launch B wrap r (ok x) m)
  launched r m x q = rw q (refl, refl, refl, refl)

  known :
      (r : TaskRecord) (m : TaskManager) (g : Option (Func × TaskConfig))
      → m.queues ≡ []
      → Runnable g
      → Goes m (is_some g) r.task_id (dispatch_known B wrap r g m)
  known r m none q h = (q, refl, refl, refl)
  known r m (some (f, config)) q h =
      rw h.1 (launched r (record m { store = restore r m.store }) h.0 q)

  claimed :
      (r : TaskRecord) (c : Bool) (m : TaskManager)
      → m.queues ≡ []
      → AllRunnable m.registry
      → Goes m
          (c && is_some (get_by_name r.func_name m.registry))
          r.task_id
          (if_claimed B wrap r c m)
  claimed r false m q h = (q, refl, refl, refl)
  claimed r true m q h = known r m (get_by_name r.func_name m.registry) q (h r.func_name)

  -- Whether a task that is not yet in the history is still in the table.
  abbrev pub takes : List String → String → DB → Bool
  takes completed id db = not (in_ids id completed) && B.is_pending id db

  abbrev pub dispatches : List String → TaskRegistry → String → DB → TaskRecord → Bool
  dispatches completed registry id db r =
      takes completed id db && is_some (get_by_name r.func_name registry)

  abbrev Row : List String → TaskRecord → DB → DB → Type 0
  Row completed r db db' =
      (j : String)
      → B.is_pending j db'
        ≡ (if r.task_id == j then in_ids j completed && B.is_pending j db else B.is_pending j db)

  kept :
      (completed : List String) (r : TaskRecord) (db : DB) (j : String)
      → in_ids r.task_id completed ≡ true
      → B.is_pending j db
        ≡ (if r.task_id == j then in_ids j completed && B.is_pending j db else B.is_pending j db)
  kept completed r db j e = elim (Bool-cases (r.task_id == j)) [
    | inl t ↦ rw t (rw (sym ((string_key.same_iff r.task_id j).0 t)) (rw e refl))
    | inr f ↦ rw f refl
  ]

  row :
      (completed : List String) (r : TaskRecord) (db : DB) (j : String)
      → in_ids r.task_id completed ≡ false
      → B.is_pending j (B.claim_pending r.task_id db).0
        ≡ (if r.task_id == j then in_ids j completed && B.is_pending j db else B.is_pending j db)
  row completed r db j e = B.claim-removes r.task_id j db ∙ elim (Bool-cases (r.task_id == j)) [
    | inl t ↦ rw t (rw (sym ((string_key.same_iff r.task_id j).0 t)) (rw e refl))
    | inr f ↦ rw f refl
  ]

  round :
      (completed : List String) (r : TaskRecord) (m : TaskManager) (db : DB)
      → m.queues ≡ []
      → AllRunnable m.registry
      → let (m', db', o) = requeue_one B wrap completed r m db in
        Goes m (dispatches completed m.registry r.task_id db r) r.task_id (m', o)
        × Row completed r db db'
  unfolding requeue_one
  round completed r m db q h = elim (Bool-cases (in_ids r.task_id completed)) [
    | inl e ↦ rw e ((q, refl, refl, refl), λ j. kept completed r db j e)
    | inr e ↦ rw e (
      rw (sym (B.claim-answer r.task_id db)) (claimed r (B.claim_pending r.task_id db).1 m q h),
      λ j. row completed r db j e,
    )
  ]

  abbrev pub times : String → TaskManager → ℕ
  times id m = count_if (λ k. k == id) m.started

  -- What the loop adds for a task: its first record in the list decides.
  abbrev pub once : List String → TaskRegistry → String → DB → Option TaskRecord → ℕ
  once completed registry id db none = 0
  once completed registry id db (some r) = if dispatches completed registry id db r then 1 else 0

  abbrev pub Loop :
      List String → List TaskRecord → TaskManager → DB → TaskManager × DB × Result ℕ → Type 0
  Loop completed rs m db o =
      ((id : String)
        → times id o.0 ≡ times id m + once completed m.registry id db (find_task id rs))
      × (o.0.queues ≡ [])
      × ((n : ℕ) × (o.2 ≡ ok n))

  times-started :
      (b : Bool) (k id : String) (xs : List String)
      → count_if (λ j. j == id) (started_or_not b k xs)
        ≡ count_if (λ j. j == id) xs + (if b then (if k == id then 1 else 0) else 0)
  times-started b k id xs = ground arith

  gone :
      (completed : List String) (registry : TaskRegistry) (id : String) (db : DB)
      (x : Option TaskRecord) (p : Bool)
      → B.is_pending id db ≡ (in_ids id completed && p)
      → once completed registry id db x ≡ 0
  gone completed registry id db none p e = refl
  gone completed registry id db (some r) p e = ground (arith, e)

  untouched :
      (completed : List String) (registry : TaskRegistry) (id : String) (db db' : DB)
      (x : Option TaskRecord)
      → B.is_pending id db' ≡ B.is_pending id db
      → once completed registry id db' x ≡ once completed registry id db x
  untouched completed registry id db db' none e = refl
  untouched completed registry id db db' (some r) e = rw e refl

  share :
      (completed : List String) (r : TaskRecord) (rs : List TaskRecord) (registry : TaskRegistry)
      (db db' : DB) (id : String)
      → Row completed r db db'
      → (if dispatches completed registry r.task_id db r
            then (if r.task_id == id then 1 else 0)
            else 0)
          + once completed registry id db' (find_task id rs)
        ≡ once completed registry id db (if r.task_id == id then some r else find_task id rs)
  share completed r rs registry db db' id w = elim (Bool-cases (r.task_id == id)) [
    | inl t ↦ rw t (
        rw
          (gone completed registry id db' (find_task id rs) (B.is_pending id db) (w id ∙ rw t refl))
          (rw ((string_key.same_iff r.task_id id).0 t) (ground arith)))
    | inr f ↦ rw f (
        rw (untouched completed registry id db db' (find_task id rs) (w id ∙ rw f refl))
          (ground arith))
  ]

  counted-kept :
      (b : Bool) (o : TaskManager × DB × Result ℕ) (n : ℕ)
      → o.2 ≡ ok n
      → ((counted B wrap b o).0 ≡ o.0) × ((k : ℕ) × ((counted B wrap b o).2 ≡ ok k))
  counted-kept b o n e = rw e (refl, (_, refl))

  stepped :
      (completed : List String) (r : TaskRecord) (rs : List TaskRecord) (m : TaskManager) (db : DB)
      (b : Bool)
      → let (m', db', o) = requeue_one B wrap completed r m db in
        o ≡ ok b
        → requeue_all B wrap completed (r ∷ rs) m db
          ≡ counted B wrap b (requeue_all B wrap completed rs m' db')
  unfolding requeue_all
  stepped completed r rs m db b e = rw (e, requeue_all) refl

  pub requeued :
      (completed : List String) (rs : List TaskRecord) (m : TaskManager) (db : DB)
      → m.queues ≡ []
      → AllRunnable m.registry
      → Loop completed rs m db (requeue_all B wrap completed rs m db)
  unfolding requeue_all find_task
  requeued completed [] m db q h = (λ id. omega arith, q, (0, refl))
  requeued completed (r ∷ rs) m db q h =
      let o = requeue_one B wrap completed r m db in
      let ((g, same, s, e), w) = round completed r m db q h in
      let (t, q', (n, k)) = requeued completed rs o.0 o.1 g (subst AllRunnable (sym same) h) in
      let d = dispatches completed m.registry r.task_id db r in
      let (c, f) = counted-kept d (requeue_all B wrap completed rs o.0 o.1) n k in
      rw (stepped completed r rs m db d e) (
        λ id.
            ap (times id) c
            ∙ t id
            ∙ omega (
              arith,
              ap (λ ids. count_if (λ j. j == id) ids) s ∙ times-started d r.task_id id m.started,
              ap (λ g. once completed g id o.1 (find_task id rs)) same,
              share completed r rs m.registry db o.1 id w,
            ),
        ap (λ x. x.queues) c ∙ q',
        f,
      )
