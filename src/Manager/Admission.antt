-- ===== src/Manager/Admission.antt =====
-- wrapper.py: what `add_task` does with a task, on every branch.
use fastapi_taskflow.Base.{
  suc, ◌+◌, ◌≡◌, refl, ap, sym, subst, ◌∙◌, ◌⊎◌, inl, inr, Bool, true, false, List, [], ◌∷◌, Option,
  none, some, String, if◌then◌else◌, arith, count_if-append, or_default, Exn, queue_full, Result,
  ok, raise, ◌==◌, ==_refl, string_key,
}
use fastapi_taskflow.Base.Int.{ℤ, neg}
use fastapi_taskflow.Dict.{Dict, lookup}
use fastapi_taskflow.Models.{Obj, Bytes, Datetime, TaskConfig, rejected, TaskRecord}
use fastapi_taskflow.Store.{TaskStore, Options, get, create, update, Field, set_attrs, new_record}
use fastapi_taskflow.Store.Calls.{creates, step}
use fastapi_taskflow.Store.Records.{IsValid, update-found, step-IsValid, get-step}
use fastapi_taskflow.TaskQueue.{Item, TaskQueue}
use fastapi_taskflow.TaskQueue.Account.{count-heappush}
use fastapi_taskflow.Manager.{
  TaskManager, Request, put_in_queue, route, add_task, on_full, by_priority, enqueue_priority,
  create_record, priority_of, queue_of, checks, admit, unless_existing, config_of, existing,
  is_empty,
}
use fastapi_taskflow.Manager.Places.{mine, places, HasDefault, Put, put_in_queue-cases}

-- The record of an accepted task: PENDING, with the arguments or, under a cipher, the payload.
abbrev pub accepted :
    (List Obj → Dict String Obj → Bool)
    → Option (List Obj → Dict String Obj → Bytes)
    → Request
    → TaskConfig
    → String
    → TaskRecord
accepted picklable fernet r c executor =
    let o : Options = record {
      idempotency_key = r.idempotency_key;
      tags = r.tags;
      encrypted_payload = none;
      source = "manual";
      priority = priority_of picklable fernet r c;
      executor = some executor;
      queue = queue_of picklable fernet r c;
    } in
    elim fernet [
      | none ↦ new_record r.task_id r.func.name r.args r.kwargs o r.now
      | some encrypt ↦
          new_record r.task_id r.func.name [] []
            (record o { encrypted_payload = some (encrypt r.args r.kwargs) }) r.now
    ]

pub create-IsValid :
    (k f : String) (args : List Obj) (kwargs : Dict String Obj) (o : Options) (now : Datetime)
    (s : TaskStore)
    → IsValid s
    → IsValid (create k f args kwargs o now s)
      × (get k (create k f args kwargs o now s) ≡ some (new_record k f args kwargs o now))
unfolding step
create-IsValid k f args kwargs o now s v = (
  step-IsValid s v (creates k f args kwargs o now),
  get-step s v (creates k f args kwargs o now) k ∙ rw (==_refl k) refl,
)

created :
    (picklable : List Obj → Dict String Obj → Bool)
    (fernet : Option (List Obj → Dict String Obj → Bytes)) (r : Request) (c : TaskConfig)
    (executor : String) (s : TaskStore)
    → IsValid s
    → IsValid (create_record picklable fernet r c executor s)
      × (get r.task_id (create_record picklable fernet r c executor s)
          ≡ some (accepted picklable fernet r c executor))
created picklable none r c executor s v =
    create-IsValid r.task_id r.func.name r.args r.kwargs _ r.now s v
created picklable (some encrypt) r c executor s v =
    create-IsValid r.task_id r.func.name [] [] _ r.now s v

module _ (picklable : List Obj → Dict String Obj → Bool)
    (fernet : Option (List Obj → Dict String Obj → Bytes)) where
  -- The task waits in one place more and has the record `x`, or it waits nowhere and `x` is REJECTED.
  abbrev pub Admitted : String → TaskRecord → TaskManager → TaskManager × Result String → Type 0
  Admitted id x m o =
      (o.1 ≡ ok id) × (places id o.0 ≡ suc (places id m)) × (get id o.0.store ≡ some x)
      ⊎ (o.1 ≡ raise queue_full)
        × (places id o.0 ≡ places id m)
        × (get id o.0.store ≡ some (record x { status = rejected }))

  settled :
      (id : String) (x : TaskRecord) (m m' : TaskManager) (o : Result (Unit {0}))
      → IsValid m.store
      → get id m.store ≡ some x
      → Put id m (m', o)
      → Admitted id x m (on_full picklable fernet id (m', o))
  unfolding set_attrs
  settled id x m m' o v g (inl (e, p, s)) = inl (
    ap (λ z. (on_full picklable fernet id (m', z)).1) e,
    ap (λ z. places id (on_full picklable fernet id (m', z)).0) e ∙ p,
    ap (λ z. get id (on_full picklable fernet id (m', z)).0.store) e ∙ ap (get id) s ∙ g,
  )
  settled id x m m' o v g (inr (e, p, s)) =
      let u = update-found id (Field.status rejected ∷ []) m.store v g in
      inr (
        ap (λ z. (on_full picklable fernet id (m', z)).1) e,
        ap (λ z. places id (on_full picklable fernet id (m', z)).0) e ∙ p,
        ap (λ z. get id (on_full picklable fernet id (m', z)).0.store) e
            ∙ ap (λ z. get id (update id (Field.status rejected ∷ []) z)) s
            ∙ u.1,
      )

  prioritised :
      (r : Request) (p : Option ℤ) (x : TaskRecord) (m : TaskManager)
      → get r.task_id m.store ≡ some x
      → Admitted r.task_id x m (by_priority picklable fernet r p m)
  unfolding enqueue_priority
  prioritised r none x m g = inl (
    refl,
    ground (
      arith,
      count_if-append (λ z. z == r.task_id) m.background (r.task_id ∷ []),
      ==_refl r.task_id,
    ),
    g,
  )
  prioritised r (some p) x m g =
      let item : Item = record {
        key = neg p;
        seq = m.priority_seq + 1;
        task_id = r.task_id;
        wrapped = r.wrapped;
      } in
      inl (
        refl,
        ground (arith, count-heappush (mine r.task_id) item m.priority_queue, ==_refl r.task_id),
        g,
      )

  queued :
      (r : Request) (c : TaskConfig) (x : TaskRecord) (m : TaskManager)
      → IsValid m.store
      → get r.task_id m.store ≡ some x
      → (d : TaskQueue) → lookup "default" m.queues ≡ some d
      → Admitted r.task_id x m (
          on_full picklable fernet r.task_id (
            put_in_queue
              (queue_of picklable fernet r c)
              r.task_id
              (priority_of picklable fernet r c)
              r.wrapped
              m))
  queued r c x m v g d h =
      let o =
        put_in_queue (queue_of picklable fernet r c) r.task_id (priority_of picklable fernet r c)
          r.wrapped m in
      settled r.task_id x m o.0 o.1 v g (
        put_in_queue-cases (queue_of picklable fernet r c) r.task_id
          (priority_of picklable fernet r c) r.wrapped m d h)

  route-Admitted :
      (r : Request) (c : TaskConfig) (x : TaskRecord) (m : TaskManager)
      → HasDefault m
      → IsValid m.store
      → get r.task_id m.store ≡ some x
      → Admitted r.task_id x m (route picklable fernet r c m)
  unfolding route
  route-Admitted r c x m d v g = by_eager (or_default r.eager c.eager)
    where
      legacy : TaskManager × Result String
      legacy = by_priority picklable fernet r (priority_of picklable fernet r c) m

      named : TaskManager × Result String
      named = on_full picklable fernet r.task_id (
          put_in_queue (queue_of picklable fernet r c) r.task_id (priority_of picklable fernet r c)
            r.wrapped m)

      by_empty :
          (b : Bool) → is_empty m.queues ≡ b → Admitted r.task_id x m (if b then legacy else named)
      by_empty true e = prioritised r (priority_of picklable fernet r c) x m g
      by_empty false e = elim d [
        | inl n ↦ absurd (ground arith)
        | inr (q, h) ↦ queued r c x m v g q h
      ]

      by_eager :
          (b : Bool)
          → Admitted r.task_id x m (
              if b
              then (record m { started = r.task_id ∷ m.started }, ok r.task_id)
              else (if is_empty m.queues then legacy else named))
      by_eager true = inl (refl, ground (arith, ==_refl r.task_id), g)
      by_eager false = by_empty (is_empty m.queues) refl

  -- The branches of `add_task`: the key is known, a check fails, or the task is admitted.
  abbrev pub Taken : Request → TaskManager → Type 0
  Taken r m =
      ((old : TaskRecord) × (existing picklable fernet r.idempotency_key m.store ≡ some old)
        × (add_task picklable fernet r m ≡ (m, ok old.task_id)))
      ⊎ ((e : Exn) × (checks picklable fernet r (config_of picklable fernet r m) ≡ raise e)
          × (add_task picklable fernet r m ≡ (m, raise e)))
      ⊎ ((executor : String) × (checks picklable fernet r (config_of picklable fernet r m)
            ≡ ok executor)
          × Admitted r.task_id
              (accepted picklable fernet r (config_of picklable fernet r m) executor) m
              (add_task picklable fernet r m))

  opened :
      (r : Request) (m : TaskManager) {o : Option TaskRecord} {k : Result String}
      → existing picklable fernet r.idempotency_key m.store ≡ o
      → checks picklable fernet r (config_of picklable fernet r m) ≡ k
      → add_task picklable fernet r m
        ≡ unless_existing picklable fernet o m (admit picklable fernet k r m)
  unfolding add_task
  opened r m {o} e f =
      ap
        (λ z.
          unless_existing picklable fernet z m (
            admit picklable fernet (checks picklable fernet r (config_of picklable fernet r m)) r
              m))
        e
      ∙ ap (λ z. unless_existing picklable fernet o m (admit picklable fernet z r m)) f

  pub add_task-cases : (r : Request) (m : TaskManager) → HasDefault m → IsValid m.store → Taken r m
  add_task-cases r m d v = by_key (existing picklable fernet r.idempotency_key m.store) refl
    where
      c : TaskConfig
      c = config_of picklable fernet r m

      by_checks :
          (k : Result String)
          → existing picklable fernet r.idempotency_key m.store ≡ none
          → checks picklable fernet r c ≡ k
          → Taken r m
      by_checks (raise x) e f = inr (inl (x, f, opened r m e f))
      by_checks (ok executor) e f =
          let (v', g) = created picklable fernet r c executor m.store v in
          let x = accepted picklable fernet r c executor in
          let m' = record m { store = create_record picklable fernet r c executor m.store } in
          inr (
            inr (
              executor,
              f,
              subst (Admitted r.task_id x m) (sym (opened r m e f))
                  (route-Admitted r c x m' d v' g),
            ))

      by_key :
          (o : Option TaskRecord)
          → existing picklable fernet r.idempotency_key m.store ≡ o
          → Taken r m
      by_key (some old) e = inl (old, e, opened r m e refl)
      by_key none e = by_checks (checks picklable fernet r c) e refl
