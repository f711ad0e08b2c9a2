-- ===== src/Pipeline/Attempt.antt =====
-- middleware.py: one attempt of `RetryMiddleware`, and what it does before the next one.
use fastapi_taskflow.Base.{
  ℕ, suc, ◌≡◌, refl, ap, ◌∙◌, Bool, true, false, List, [], ◌∷◌, Option, none, some, String,
  if◌then◌else◌, string_key,
}
use fastapi_taskflow.Models.{Float, TaskRecord}
use fastapi_taskflow.Store.{TaskStore, Field, update, append_log, set_attrs}
use fastapi_taskflow.Store.Calls.{append_logs, step}
use fastapi_taskflow.Store.Records.{update-found}
use fastapi_taskflow.Pipeline.World.{
  Failure, failure, Outcome, raises, dispatched, slept, Job, World, done, utc_now,
}
use fastapi_taskflow.Pipeline.Steady.{
  Live, At, Goes, bind-done, try-then, then-then, At-coming, At-error, await-At, step-Live,
}
use fastapi_taskflow.Pipeline.Middleware.{
  dispatch, one_attempt, next_outcome, after_fault, after_failure, begin,
}

module _ (job : Job) (retry_line : ℕ → String) where
  dispatch-At :
      (r : TaskRecord) (a k : ℕ) (e : Option Failure) (os : List Outcome) (w : World)
      → At job.task_id r a k e os w
      → (w' : World) × (dispatch job retry_line w ≡ next_outcome job retry_line os w')
        × At job.task_id r a (suc k) e os w'
  unfolding dispatch
  dispatch-At r a k e os w h =
      let start = record w {
        effects = dispatched w.ctx.attempt ∷ w.effects;
        ctx = record w.ctx { registered = true };
      } in
      let h' : At job.task_id r a (suc k) e os start = record {
        steady = h.steady;
        live = h.live;
        attempt = h.attempt;
        error = h.error;
        starts = ap suc h.starts;
        coming = h.coming;
        flag = h.flag;
        unkeyed = h.unkeyed;
      } in
      let (w', g, p) = await-At false job.task_id r a (suc k) e os start h' in
      (
        w',
        bind-done (λ _ u. next_outcome job retry_line u.outcomes u) g
            ∙ ap (λ o. next_outcome job retry_line o w') p.coming,
        p,
      )

  -- An attempt of which the outcome is known, from the world after the dispatch on.
  pub returned-At :
      (r : TaskRecord) (a k : ℕ) (e : Option Failure) (os os' : List Outcome) (w : World)
      → ((u : World) → next_outcome job retry_line os u ≡ (done tt, record u { outcomes = os' }))
      → At job.task_id r a k e os w
      → Goes (one_attempt job retry_line) w true (At job.task_id r a (suc k) none os')
  unfolding one_attempt
  returned-At r a k e os os' w o h =
      let (w1, g1, p1) = dispatch-At r a k e os w h in
      let p2 = At-coming job.task_id os' p1 in
      let (w3, g3, p3) =
        await-At false job.task_id r a (suc k) e os' (record w1 { outcomes = os' }) p2 in
      (
        record w3 { ctx = record w3.ctx { last_error = none } },
        try-then _ _ (g1 ∙ o w1) ∙ try-then _ _ g3,
        At-error job.task_id none p3,
      )

  pub raised-At :
      (r : TaskRecord) (a k : ℕ) (e : Option Failure) (f : Failure) (os : List Outcome) (w : World)
      → At job.task_id r a k e (raises f ∷ os) w
      → (b : Bool) → f.was_interrupted ≡ b
      → Goes
          (one_attempt job retry_line)
          w
          b
          (At job.task_id r a (suc k) (if b then e else some f) os)
  unfolding one_attempt
  raised-At r a k e f os w h b i =
      let (w1, g1, p1) = dispatch-At r a k e (raises f ∷ os) w h in
      let p2 = At-coming job.task_id os p1 in
      by_flag b i (record w1 { outcomes = os }) (try-then _ _ g1) p2
    where
      by_flag :
          (b : Bool)
          → f.was_interrupted ≡ b
          → (w2 : World) → one_attempt job retry_line w ≡ after_fault job retry_line (failure f) w2
          → At job.task_id r a (suc k) e os w2
          → Goes
              (one_attempt job retry_line)
              w
              b
              (At job.task_id r a (suc k) (if b then e else some f) os)
      by_flag true i w2 g p = (w2, g ∙ ap (λ c. after_failure job retry_line c f w2) i, p)
      by_flag false i w2 g p =
          let (w3, g3, p3) = await-At false job.task_id r a (suc k) e os w2 p in
          (
            record w3 { ctx = record w3.ctx { last_error = some f } },
            g ∙ ap (λ c. after_failure job retry_line c f w2) i ∙ bind-done _ g3,
            At-error job.task_id (some f) p3,
          )

  used-Live :
      (m : ℕ) (r : TaskRecord) (s : TaskStore)
      → Live job.task_id r s
      → Live job.task_id
          (record r { retries_used = m })
          (update job.task_id (Field.retries_used m ∷ []) s)
  unfolding set_attrs
  used-Live m r s l =
      let (v, e) = update-found job.task_id (Field.retries_used m ∷ []) s l.valid l.found in
      record { valid = v; logs = l.logs; found = e }

  logged-Live :
      (m : String) (r : TaskRecord) (s : TaskStore)
      → Live job.task_id r s
      → Live job.task_id r (append_log job.task_id m s)
  unfolding step
  logged-Live m r s l = step-Live job.task_id r s l (append_logs job.task_id m) tt

  pub begin-At :
      (r : TaskRecord) (delay : Float) (n c k : ℕ) (e : Option Failure) (os : List Outcome)
      (w : World)
      → At job.task_id r c k e os w
      → Goes
          (begin job retry_line (suc n) delay)
          w
          tt
          (At job.task_id (record r { retries_used = suc n }) (suc n) k e os)
  begin-At r delay n c k e os w h =
      let m = suc n in
      let start = record w {
        effects = slept delay ∷ w.effects;
        ctx = record w.ctx { attempt = m };
      } in
      let h' : At job.task_id r m k e os start = record {
        steady = h.steady;
        live = h.live;
        attempt = refl;
        error = h.error;
        starts = h.starts;
        coming = h.coming;
        flag = h.flag;
        unkeyed = h.unkeyed;
      } in
      let (u, g, p) = await-At false job.task_id r m k e os start h' in
      let s =
        append_log job.task_id (retry_line m)
          (update job.task_id (Field.retries_used m ∷ []) u.store) in
      (
        record u { store = s; ctx = record u.ctx { attempt_start = utc_now u } },
        then-then _ _ g,
        record {
          steady = p.steady;
          live =
              logged-Live (retry_line m) (record r { retries_used = m }) _
                (used-Live m r u.store p.live);
          attempt = p.attempt;
          error = p.error;
          starts = p.starts;
          coming = p.coming;
          flag = p.flag;
          unkeyed = p.unkeyed;
        },
      )

  pub begin_first-At :
      (r : TaskRecord) (delay : Float) (c k : ℕ) (e : Option Failure) (os : List Outcome)
      (w : World)
      → At job.task_id r c k e os w
      → Goes (begin job retry_line 0 delay) w tt (At job.task_id r 0 k e os)
  begin_first-At r delay c k e os w h = (
    record w { ctx = record w.ctx { attempt = 0; attempt_start = utc_now w } },
    refl,
    record {
      steady = h.steady;
      live = h.live;
      attempt = refl;
      error = h.error;
      starts = h.starts;
      coming = h.coming;
      flag = h.flag;
      unkeyed = h.unkeyed;
    },
  )
