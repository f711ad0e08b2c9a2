-- ===== src/Router/Retry.antt =====
-- router.py: what `retry_task` does with a task that can be retried.
use fastapi_taskflow.Base.{
  ℕ, suc, ◌≡◌, refl, ap, sym, subst, ◌∙◌, ◌⊎◌, inl, inr, Bool, true, false, ◌∷◌, none, some, String,
  if◌then◌else◌, arith, queue_full, http, Result, ok, raise, ◌==◌, ==_refl, string_key,
}
use fastapi_taskflow.Models.{Datetime, TaskConfig, TaskRecord, AuditEntry}
use fastapi_taskflow.Registry.{Func, get_by_name, or_text}
use fastapi_taskflow.Store.{TaskStore, get, create, delete, new_record}
use fastapi_taskflow.Store.Calls.{creates, deletes, step}
use fastapi_taskflow.Store.Records.{IsValid, get-step}
use fastapi_taskflow.Manager.{TaskManager, resolve_executor, is_empty, put_in_queue}
use fastapi_taskflow.Manager.Places.{places, HasDefault, Put, put_in_queue-cases}
use fastapi_taskflow.Manager.Admission.{create-IsValid}
use fastapi_taskflow.Manager.Merged.{any_task}
use fastapi_taskflow.Router.{
  App, run_again, redispatch, redispatch_on, retry_options, retry_task, retry_found, retry_known,
  finish_retry, is_retryable, replace_original,
}

run_again-Put :
    (queue id : String) (r : TaskRecord) (w : ℕ) (m : TaskManager)
    → HasDefault m
    → Put id m (run_again queue id r w m)
run_again-Put queue id r w m d = by_empty (is_empty m.queues) refl
  where
    by_empty :
        (b : Bool)
        → is_empty m.queues ≡ b
        → Put id m (
            if b
            then (record m { started = id ∷ m.started }, ok tt)
            else put_in_queue queue id r.priority w m)
    by_empty true e = inl (refl, ground (arith, ==_refl id), refl)
    by_empty false e = elim d [
      | inl n ↦ absurd (ground arith)
      | inr (q, h) ↦ put_in_queue-cases queue id r.priority w m q h
    ]

module _ (old id : String) (n : (id == old) ≡ false) where
  -- The new run waits in one place more, or it waits nowhere and the exception is `QueueFullError`; its
  -- record is PENDING either way, and the old record is as before.
  abbrev Redispatched : TaskRecord → TaskManager → TaskManager × Result (Unit {0}) → Type 0
  Redispatched x m o =
      (get id o.0.store ≡ some x)
      × (get old o.0.store ≡ get old m.store)
      × IsValid o.0.store
      × (((o.1 ≡ ok tt) × (places id o.0 ≡ suc (places id m)))
          ⊎ ((o.1 ≡ raise queue_full) × (places id o.0 ≡ places id m)))

  Put-Redispatched :
      (x : TaskRecord) (m : TaskManager) (o : TaskManager × Result (Unit {0}))
      → IsValid m.store
      → get id m.store ≡ some x
      → Put id m o
      → Redispatched x m o
  Put-Redispatched x m o v g (inl (e, p, s)) =
      (ap (get id) s ∙ g, ap (get old) s, subst IsValid (sym s) v, inl (e, p))
  Put-Redispatched x m o v g (inr (e, p, s)) =
      (ap (get id) s ∙ g, ap (get old) s, subst IsValid (sym s) v, inr (e, p))

  get-create :
      (r : TaskRecord) (f : Func) (executor : String) (now : Datetime) (s : TaskStore)
      → IsValid s
      → get old (create id f.name r.args r.kwargs (retry_options r executor) now s) ≡ get old s
  unfolding step
  get-create r f executor now s v =
      get-step s v (creates id f.name r.args r.kwargs (retry_options r executor) now) old
      ∙ rw n refl

  from_original :
      (x : TaskRecord) (m m' : TaskManager) (o : TaskManager × Result (Unit {0}))
      → get old m'.store ≡ get old m.store
      → places id m' ≡ places id m
      → Redispatched x m' o
      → Redispatched x m o
  from_original x m m' o e p (g, h, v, inl (k, q)) = (g, h ∙ e, v, inl (k, q ∙ ap suc p))
  from_original x m m' o e p (g, h, v, inr (k, q)) = (g, h ∙ e, v, inr (k, q ∙ p))

  redispatch-cases :
      (r : TaskRecord) (f : Func) (c : TaskConfig) (w : ℕ) (now : Datetime) (m : TaskManager)
      (executor : String)
      → HasDefault m
      → IsValid m.store
      → resolve_executor f c ≡ ok executor
      → Redispatched
          (new_record id f.name r.args r.kwargs (retry_options r executor) now)
          m
          (redispatch r f c id w now m)
  unfolding redispatch
  redispatch-cases r f c w now m executor d v e =
      let x = new_record id f.name r.args r.kwargs (retry_options r executor) now in
      let queue = or_text (some r.queue) "default" in
      let (v', g) =
        create-IsValid id f.name r.args r.kwargs (retry_options r executor) now m.store v in
      let m' = record m {
        store = create id f.name r.args r.kwargs (retry_options r executor) now m.store;
      } in
      subst (Redispatched x m) (ap (λ z. redispatch_on z r f id w now m) (sym e)) (
        from_original x m m' (run_again queue id r w m') (get-create r f executor now m.store v)
          refl
          (Put-Redispatched x m' (run_again queue id r w m') v' g
            (run_again-Put queue id r w m' d)))

  -- The handler has retried `old` as `id`, with the record `x`, or it has failed and left an orphan: a
  -- PENDING record that no run is waiting for.
  abbrev pub Retried : TaskRecord → App → App × Result (Unit {0}) → Type 0
  Retried x app o =
      ((o.1 ≡ ok tt)
        × (get id o.0.manager.store ≡ some x)
        × (places id o.0.manager ≡ suc (places id app.manager))
        × (get old o.0.manager.store
            ≡ (if app.retry_replaces_original then none else get old app.manager.store)))
      ⊎ ((o.1 ≡ raise queue_full)
          × (get id o.0.manager.store ≡ some x)
          × (places id o.0.manager ≡ places id app.manager)
          × (get old o.0.manager.store ≡ get old app.manager.store))

  deleted :
      (s : TaskStore)
      → IsValid s
      → (get id (delete old s).0 ≡ get id s) × (get old (delete old s).0 ≡ none)
  unfolding step
  deleted s v = (
    get-step s v (deletes old) id
        ∙ ground (arith, string_key.same_iff old id, string_key.same_iff id old),
    get-step s v (deletes old) old ∙ rw (==_refl old) refl,
  )

  replaced :
      (x : TaskRecord) (a : AuditEntry) (app app' : App) (b : Bool)
      → app'.retry_replaces_original ≡ b
      → (get id app'.manager.store ≡ some x)
      → IsValid app'.manager.store
      → (get id (replace_original old app').manager.store ≡ some x)
        × (places id (replace_original old app').manager ≡ places id app'.manager)
        × (get old (replace_original old app').manager.store
            ≡ (if b then none else get old app'.manager.store))
  replaced x a app app' true e g v =
      let (h, k) = deleted app'.manager.store v in (rw e (h ∙ g), rw e refl, rw e k)
  replaced x a app app' false e g v = (rw e g, rw e refl, rw e refl)

  finish-Retried :
      (x : TaskRecord) (a : AuditEntry) (app : App) (o : TaskManager × Result (Unit {0}))
      → Redispatched x app.manager o
      → Retried x app (finish_retry old a app o)
  finish-Retried x a app (m, ok _) (g, h, v, inl (k, q)) =
      let app' = record app { manager = m } in
      let (e1, e2, e3) = replaced x a app app' app.retry_replaces_original refl g v in
      inl (refl, e1, e2 ∙ q, e3 ∙ ap (λ z. if app.retry_replaces_original then none else z) h)
  finish-Retried x a app (m, ok _) (g, h, v, inr (k, q)) = absurd (cc k)
  finish-Retried x a app (m, raise e) (g, h, v, inl (k, q)) = absurd (cc k)
  finish-Retried x a app (m, raise e) (g, h, v, inr (k, q)) = inr (k, g, q, h)

  pub retry_task-Retried :
      (r : TaskRecord) (f : Func) (c : TaskConfig) (executor : String) (w : ℕ) (now : Datetime)
      (a : AuditEntry) (app : App)
      → HasDefault app.manager
      → IsValid app.manager.store
      → any_task app.manager.has_scheduler app.cache app.peers old app.manager.store ≡ some r
      → is_retryable r.status ≡ true
      → get_by_name r.func_name app.manager.registry ≡ some (f, c)
      → resolve_executor f c ≡ ok executor
      → Retried
          (new_record id f.name r.args r.kwargs (retry_options r executor) now)
          app
          (retry_task old id w now a app)
  unfolding retry_task
  retry_task-Retried r f c executor w now a app d v found may known e =
      let x = new_record id f.name r.args r.kwargs (retry_options r executor) now in
      let opened =
        ap (λ z. retry_found z old id w now a app) found
        ∙ ap
            (λ z.
              if z
              then retry_known (get_by_name r.func_name app.manager.registry) r old id w now a app
              else (app, raise (http 400)))
            may
        ∙ ap (λ z. retry_known z r old id w now a app) known in
      subst (Retried x app) (sym opened) (
        finish-Retried x a app (redispatch r f c id w now app.manager)
          (redispatch-cases r f c w now app.manager executor d v e))
