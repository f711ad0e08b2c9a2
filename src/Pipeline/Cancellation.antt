-- ===== src/Pipeline/Cancellation.antt =====
-- middleware.py: the `except asyncio.CancelledError` of `LoggingMiddleware`.
use fastapi_taskflow.Base.{
  ℕ, ◌≡◌, refl, ap, ◌∙◌, Bool, true, false, List, [], ◌∷◌, Option, some, String, arith,
}
use fastapi_taskflow.Models.{TaskStatus, pending, running, cancelled, TaskRecord}
use fastapi_taskflow.Store.{TaskStore, Field, get, update, set_attrs}
use fastapi_taskflow.Pipeline.World.{
  Failure, cancelled_error, Outcome, Job, World, done, throw, then_do, fail, await, utc_now,
}
use fastapi_taskflow.Pipeline.Steady.{Live, At, Goes, bind-done, await-At}
use fastapi_taskflow.Pipeline.Middleware.{
  on_cancelled, finalize_cancelled, status_of, is_running, when,
}
use fastapi_taskflow.Pipeline.Finalize.{fields-At, notify-At, flush-At}

-- The status that a cancelled run leaves, by the shutdown flag and `requeue_on_interrupt`.
unfoldable pub ended : Bool → Bool → TaskStatus
ended true true = pending
ended true false = running
ended false requeue = cancelled

module _ (job : Job) (retry_line : ℕ → String) (a k : ℕ) (e : Option Failure)
    (os : List Outcome) where
  abbrev EndsIn : TaskStatus → World → Type 0
  EndsIn s w = (x : TaskRecord) × (x.status ≡ s) × At job.task_id x a k e os w

  ending :
      (r : TaskRecord) (u : World) (stopping requeue : Bool)
      → r.status ≡ running
      → At job.task_id r a k e os u
      → Goes
          (finalize_cancelled job retry_line stopping requeue)
          u
          tt
          (EndsIn (ended stopping requeue))
  unfolding ended set_attrs
  ending r u true true q h =
      let fs = Field.status pending ∷ [] in
      (
        _,
        refl,
        (
          _,
          refl,
          fields-At job retry_line false r a k e os fs (record r { status = pending }) u (λ l. refl)
              h,
        ),
      )
  ending r u true false q h = (u, refl, (r, q, h))
  ending r u false requeue q h =
      let fs = Field.status cancelled ∷ Field.end_time (utc_now u) ∷ [] in
      let x = record r { status = cancelled; end_time = some (utc_now u) } in
      let h1 = fields-At job retry_line false r a k e os fs x u (λ l. refl) h in
      let w1 = record u { store = update job.task_id fs u.store } in
      let (w2, g2, h2) =
        notify-At job retry_line false x a k e os cancelled w1.ctx.attempt w1.ctx.attempt
          job.has_logger w1 h1 in
      let (w3, g3, h3) = flush-At job retry_line false x a k e os job.has_on_success w2 h2 in
      (w3, bind-done _ g2 ∙ g3, (x, refl, h3))

  still-running :
      (r : TaskRecord) (s : TaskStore)
      → Live job.task_id r s
      → r.status ≡ running
      → is_running job retry_line (status_of job retry_line s) ≡ true
  still-running r s l q = ground (arith, l.found)

  pub cancelled-ends :
      (r : TaskRecord) (w : World)
      → r.status ≡ running
      → At job.task_id r a k e os w
      → (u w' : World) × (await w ≡ (done tt, u))
        × (on_cancelled job retry_line w ≡ (throw cancelled_error, w'))
        × (x : TaskRecord) × (get job.task_id w'.store ≡ some x)
        × (x.status ≡ ended u.store.shutting_down job.config.requeue_on_interrupt)
  unfolding on_cancelled
  cancelled-ends r w q h =
      let (u, g, p) = await-At false job.task_id r a k e os w h in
      let (w', g', (x, s, p')) =
        ending r u u.store.shutting_down job.config.requeue_on_interrupt q p in
      let m =
        finalize_cancelled job retry_line u.store.shutting_down job.config.requeue_on_interrupt in
      (
        u,
        w',
        g,
        bind-done _ g
            ∙ ap (λ c. then_do (when c m u) (λ _. fail cancelled_error))
                (still-running r u.store p.live q)
            ∙ bind-done _ g',
        _,
        p'.live.found,
        s,
      )
