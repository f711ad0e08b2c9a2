-- ===== src/Router/Cancel.antt =====
-- router.py: what `cancel_task` does, and the count of `delete_history`.
use fastapi_taskflow.Base.{
  ℕ, ◌≤◌, ◌≡◌, refl, ap, sym, subst, ◌⊎◌, inl, inr, Bool, true, false, [], ◌∷◌, Option, none, some,
  String, arith, http, Result, ok, raise, string_key,
}
use fastapi_taskflow.Dict.{lookup}
use fastapi_taskflow.Models.{
  Datetime, TaskStatus, pending, running, success, failed, interrupted, cancelled, rejected,
  TaskRecord, AuditEntry,
}
use fastapi_taskflow.Store.{Field, get, update, set_attrs}
use fastapi_taskflow.Store.Records.{IsValid, update-found}
use fastapi_taskflow.Manager.Places.{places}
use fastapi_taskflow.Router.{App, cancel_by, audited, cancel_found, cancel_task, delete_history}

module _ (id : String) (now : Datetime) (a : AuditEntry) (app : App) where
  -- The three ways in which a request to cancel the task with the record `r` ends.
  abbrev pub Ends : TaskRecord → App × Result (Unit {0}) → Type 0
  Ends r o =
      ((r.status ≡ pending)
        × (o.1 ≡ ok tt)
        × (get id o.0.manager.store ≡ some (record r { status = cancelled; end_time = some now }))
        × (places id o.0.manager ≡ places id app.manager))
      ⊎ ((r.status ≡ running)
          × (lookup id app.running_tasks ≡ some false)
          × (o.1 ≡ ok tt)
          × (o.0.cancels ≡ id ∷ app.cancels)
          × (o.0.manager ≡ app.manager))
      ⊎ (o ≡ (app, raise (http 400)))

  pending-Ends :
      (r : TaskRecord)
      → r.status ≡ pending
      → IsValid app.manager.store
      → get id app.manager.store ≡ some r
      → Ends r (audited a app (cancel_by pending id now app))
  unfolding set_attrs
  pending-Ends r e v g =
      let u =
        update-found id (Field.status cancelled ∷ Field.end_time now ∷ []) app.manager.store v g in
      by_scheduler app.manager.has_scheduler refl u.1
    where
      by_scheduler :
          (b : Bool)
          → app.manager.has_scheduler ≡ b
          → get id (update id (Field.status cancelled ∷ Field.end_time now ∷ []) app.manager.store)
            ≡ some (record r { status = cancelled; end_time = some now })
          → Ends r (audited a app (cancel_by pending id now app))
      by_scheduler true s h = inl (e, refl, rw s h, rw s refl)
      by_scheduler false s h = inl (e, refl, rw s h, rw s refl)

  running-Ends :
      (r : TaskRecord) (handle : Option Bool)
      → r.status ≡ running
      → lookup id app.running_tasks ≡ handle
      → Ends r (audited a app (cancel_by running id now app))
  running-Ends r none e h = inr (inr (rw h refl))
  running-Ends r (some true) e h = inr (inr (rw h refl))
  running-Ends r (some false) e h = inr (inl (e, h, rw h refl, rw h refl, rw h refl))

  cancel_by-Ends :
      (r : TaskRecord) (st : TaskStatus)
      → r.status ≡ st
      → IsValid app.manager.store
      → get id app.manager.store ≡ some r
      → Ends r (audited a app (cancel_by st id now app))
  cancel_by-Ends r pending e v g = pending-Ends r e v g
  cancel_by-Ends r running e v g = running-Ends r (lookup id app.running_tasks) e refl
  cancel_by-Ends r success e v g = inr (inr refl)
  cancel_by-Ends r failed e v g = inr (inr refl)
  cancel_by-Ends r interrupted e v g = inr (inr refl)
  cancel_by-Ends r cancelled e v g = inr (inr refl)
  cancel_by-Ends r rejected e v g = inr (inr refl)

  pub cancel_task-Ends :
      (r : TaskRecord)
      → IsValid app.manager.store
      → get id app.manager.store ≡ some r
      → Ends r (cancel_task id now a app)
  unfolding cancel_task
  cancel_task-Ends r v g =
      subst (Ends r) (sym (ap (λ z. cancel_found z id now a app) g))
        (cancel_by-Ends r r.status refl v g)

-- The total that `delete_history` reports is the larger of the two counts.
pub delete_history-max :
    (cutoff : Datetime) (n : ℕ) (app : App)
    → let (total, from_store, from_backend) = (delete_history cutoff n app).1 in
      (from_store ≤ total)
      × (from_backend ≤ total)
      × ((total ≡ from_store) ⊎ (total ≡ from_backend))
unfolding delete_history
delete_history-max cutoff n app = ground arith
