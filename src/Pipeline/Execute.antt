-- ===== src/Pipeline/Execute.antt =====
-- executor.py: the whole run of a task, from the call of `execute_task` to the final record.
use fastapi_taskflow.Base.{
  ℕ, suc, ◌≡◌, refl, ap, subst, ◌∙◌, true, false, List, [], ◌∷◌, Option, none, some, String, All,
  count_if, string_key,
}
use fastapi_taskflow.Models.{running, success, TaskRecord}
use fastapi_taskflow.Store.{Field, get, update, set_attrs}
use fastapi_taskflow.Store.Records.{IsValid}
use fastapi_taskflow.Pipeline.World.{Failure, Outcome, raises, Job, World, ◌>>◌, catch, utc_now}
use fastapi_taskflow.Pipeline.Steady.{Steady, At, Goes, bind-done, handle-eq, is_dispatch, is_key}
use fastapi_taskflow.Pipeline.Middleware.{
  retry, logging, idempotency, execute_task, finalize, key_of, with_key, to_cancelled,
}
use fastapi_taskflow.Pipeline.Verdict.{verdict, with_used, retry-At}
use fastapi_taskflow.Pipeline.Finalize.{notify-At, fields-At, Finished, finalize-Finished}

module _ (job : Job) (retry_line : ℕ → String) where
  -- The inner pipeline and what `LoggingMiddleware` does after it.
  inner-Finished :
      (r : TaskRecord) (os : List Outcome) (w : World)
      → r.status ≡ running
      → At job.task_id (with_used r 0) 0 0 none os w
      → Goes
          (catch (retry job retry_line) (to_cancelled job retry_line) >> finalize job retry_line)
          w
          tt
          (Finished job retry_line (verdict (suc job.config.retries) 0 os none))
  inner-Finished r os w st h =
      let (w1, g1, (os1, h1)) = retry-At job retry_line r none os w h in
      let (w2, g2, p2) = finalize-Finished job retry_line r _ _ os1 w1 st h1 in
      (w2, bind-done _ (handle-eq _ g1) ∙ g2, p2)

  pub logging-Finished :
      (r : TaskRecord) (os : List Outcome) (w : World)
      → At job.task_id (with_used r 0) 0 0 none os w
      → Goes
          (logging job retry_line (retry job retry_line))
          w
          tt
          (Finished job retry_line (verdict (suc job.config.retries) 0 os none))
  unfolding logging set_attrs
  logging-Finished r os w h =
      let d = utc_now w in
      let w0 = record w { ctx = record w.ctx { task_start = d; attempt_start = d } } in
      let h0 : At job.task_id (with_used r 0) 0 0 none os w0 = record {
        steady = h.steady;
        live = h.live;
        attempt = h.attempt;
        error = h.error;
        starts = h.starts;
        coming = h.coming;
        flag = h.flag;
        unkeyed = h.unkeyed;
      } in
      let x = record (with_used r 0) { status = running; start_time = some d } in
      let fs = Field.status running ∷ Field.start_time d ∷ [] in
      let h1 = fields-At job retry_line false (with_used r 0) 0 0 none os fs x w0 (λ l. refl) h0 in
      let w1 = record w0 { store = update job.task_id fs w0.store } in
      let (w2, g2, h2) =
        notify-At job retry_line false x 0 0 none os running 0 0 job.has_logger w1 h1 in
      let (w3, g3, p3) = inner-Finished x os w2 refl h2 in (w3, bind-done _ g2 ∙ g3, p3)

  -- Before the run: the record of the task is in the store, with no retry used, the context and the
  -- effects are fresh, and no await is cancelled or lets others touch the record.
  pub record Ready (r : TaskRecord) (w : World) : Type 0 where
    pub valid : IsValid w.store
    pub found : get job.task_id w.store ≡ some (with_used r 0)
    pub steady : All (Steady job.task_id) w.turns
    pub attempt : w.ctx.attempt ≡ 0
    pub error : w.ctx.last_error ≡ none
    pub flag : w.ctx.succeeded ≡ false
    pub starts : count_if is_dispatch w.effects ≡ 0
    pub unkeyed : count_if is_key w.effects ≡ 0

  pub Ready-At :
      (r : TaskRecord) (w : World)
      → Ready r w
      → At job.task_id (with_used r 0) 0 0 none w.outcomes w
  Ready-At r w h = record {
    steady = h.steady;
    live = record { valid = h.valid; logs = r.logs; found = h.found };
    attempt = h.attempt;
    error = h.error;
    starts = h.starts;
    coming = refl;
    flag = h.flag;
    unkeyed = h.unkeyed;
  }

  abbrev pub unregister : World → World
  unregister w = record w { ctx = record w.ctx { registered = false } }

  pub unregister-Finished :
      (v : ℕ × Option Failure) (w : World)
      → Finished job retry_line v w
      → Finished job retry_line v (unregister w)
  unregister-Finished v w p = record {
    starts = p.starts;
    final = p.final;
    found = p.found;
    used = p.used;
    outcome = p.outcome;
    flag = p.flag;
    unkeyed = p.unkeyed;
    steady = p.steady;
  }

  -- `execute_task` of a task without an idempotency key, whose record is in the store with no retry
  -- used, returns while other tasks go on: it starts the task function as often as the outcomes of
  -- the attempts call for, leaves the number of retries on the record, and the record is SUCCESS
  -- when no error is left, and else FAILED with the message and the traceback of the last error.
  pub execute-verdict :
      (r : TaskRecord) (w : World)
      → Ready r w
      → key_of job retry_line (get job.task_id w.store) ≡ none
      → Goes
          (execute_task job retry_line)
          w
          tt
          (Finished job retry_line (verdict (suc job.config.retries) 0 w.outcomes none))
  unfolding execute_task idempotency
  execute-verdict r w h q =
      let (w1, g1, p1) = logging-Finished r w.outcomes w (Ready-At r w h) in
      (
        unregister w1,
        ap
              (λ o.
                let z =
                  with_key job retry_line o job.backend
                    (logging job retry_line (retry job retry_line)) w in
                (z.0, unregister z.1))
              q
            ∙ ap (λ z. (z.0, unregister z.1)) g1,
        unregister-Finished _ w1 p1,
      )

  interrupted_verdict :
      (n : ℕ) (os rest : List Outcome) (f : Failure)
      → os ≡ raises f ∷ rest
      → f.was_interrupted ≡ true
      → verdict (suc n) 0 os none ≡ (0, none)
  unfolding verdict
  interrupted_verdict n os rest f o i = rw (o, i) refl

  -- A task whose first attempt is interrupted in its worker process, so that it never finished, is
  -- recorded as SUCCESS after that one start.
  pub interrupted-succeeds :
      (r : TaskRecord) (w : World) (f : Failure) (rest : List Outcome)
      → Ready r w
      → key_of job retry_line (get job.task_id w.store) ≡ none
      → w.outcomes ≡ raises f ∷ rest
      → f.was_interrupted ≡ true
      → Goes (execute_task job retry_line) w tt (λ w'.
        (count_if is_dispatch w'.effects ≡ 1)
        × (x : TaskRecord) × (get job.task_id w'.store ≡ some x)
        × (x.status ≡ success))
  interrupted-succeeds r w f rest h k o i =
      let (w', g, p) = execute-verdict r w h k in
      let q =
        subst (λ v. Finished job retry_line v w')
          (interrupted_verdict job.config.retries w.outcomes rest f o i) p in
      (w', g, (q.starts, q.final, q.found, q.outcome))
