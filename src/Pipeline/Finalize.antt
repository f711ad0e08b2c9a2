-- ===== src/Pipeline/Finalize.antt =====
-- executor.py: the last step of a run, which writes the final record and tells the observers.
use fastapi_taskflow.Base.{
  ℕ, suc, ◌≡◌, refl, ap, ◌∙◌, Bool, true, false, List, [], ◌∷◌, Option, none, some, String, All,
  arith, count_if, string_key,
}
use fastapi_taskflow.Models.{Datetime, TaskStatus, running, success, failed, TaskRecord}
use fastapi_taskflow.Store.{TaskStore, Field, get, update, set_attrs}
use fastapi_taskflow.Store.Records.{IsValid, update-found}
use fastapi_taskflow.Pipeline.World.{
  Failure, Outcome, lifecycle, on_success, Job, World, ◌>>◌, await, utc_now, emit,
}
use fastapi_taskflow.Pipeline.Steady.{
  Steady, Live, At, Goes, bind-done, await-At, is_dispatch, is_key, Situated,
}
use fastapi_taskflow.Pipeline.Middleware.{
  finalize, finalize_by, mark_failed, status_of, when, is_settled,
}
use fastapi_taskflow.Pipeline.Verdict.{with_used}

module _ (job : Job) (retry_line : ℕ → String) where
  fields-Live :
      (fs : List Field) (r : TaskRecord) (s : TaskStore) (l : List String)
      → IsValid s
      → get job.task_id s ≡ some (record r { logs = l })
      → (x : TaskRecord) → set_attrs fs (record r { logs = l }) ≡ record x { logs = l }
      → Live job.task_id x (update job.task_id fs s)
  fields-Live fs r s l v g x e =
      let (v', g') = update-found job.task_id fs s v g in
      record { valid = v'; logs = l; found = g' ∙ ap some e }

  module _ (b : Bool) (r : TaskRecord) (a k : ℕ) (e : Option Failure) (os : List Outcome) where
    -- Between two steps, as `At`, for a record whose run is being finalised or prepared.
    pub notify-At :
        (s : TaskStatus) (x y : ℕ) (c : Bool) (w : World)
        → Situated b job.task_id r a k e os w
        → Goes (when c (do emit (lifecycle s x y); await)) w tt (Situated b job.task_id r a k e os)
    notify-At s x y false w h = (w, refl, h)
    notify-At s x y true w h =
        await-At b job.task_id r a k e os (record w { effects = lifecycle s x y ∷ w.effects })
          (record {
            steady = h.steady;
            live = h.live;
            attempt = h.attempt;
            error = h.error;
            starts = h.starts;
            coming = h.coming;
            flag = h.flag;
            unkeyed = h.unkeyed;
          })

    pub flush-At :
        (c : Bool) (w : World)
        → Situated b job.task_id r a k e os w
        → Goes (when c (do emit on_success; await)) w tt (Situated b job.task_id r a k e os)
    flush-At false w h = (w, refl, h)
    flush-At true w h =
        await-At b job.task_id r a k e os (record w { effects = on_success ∷ w.effects })
          (record {
            steady = h.steady;
            live = h.live;
            attempt = h.attempt;
            error = h.error;
            starts = h.starts;
            coming = h.coming;
            flag = h.flag;
            unkeyed = h.unkeyed;
          })

    pub fields-At :
        (fs : List Field) (x : TaskRecord) (w : World)
        → ((l : List String) → set_attrs fs (record r { logs = l }) ≡ record x { logs = l })
        → Situated b job.task_id r a k e os w
        → Situated b job.task_id x a k e os (record w { store = update job.task_id fs w.store })
    fields-At fs x w q h = record {
      steady = h.steady;
      live = fields-Live fs r w.store h.live.logs h.live.valid h.live.found x (q h.live.logs);
      attempt = h.attempt;
      error = h.error;
      starts = h.starts;
      coming = h.coming;
      flag = h.flag;
      unkeyed = h.unkeyed;
    }

  -- What the record says when the run is over.
  abbrev pub Final : Option Failure → TaskRecord → Type 0
  Final none x = x.status ≡ success
  Final (some f) x =
      (x.status ≡ failed) × (x.error ≡ some f.message) × (x.stacktrace ≡ some f.traceback)

  abbrev pub is_none : Option Failure → Bool
  is_none none = true
  is_none (some f) = false

  -- What is known of the world when the run is over, by the verdict on its attempts.
  pub record Finished (v : ℕ × Option Failure) (w : World) : Type 0 where
    pub starts : count_if is_dispatch w.effects ≡ suc v.0
    pub final : TaskRecord
    pub found : get job.task_id w.store ≡ some final
    pub used : final.retries_used ≡ v.0
    pub outcome : Final v.1 final
    pub flag : w.ctx.succeeded ≡ is_none v.1
    pub unkeyed : count_if is_key w.effects ≡ 0
    pub steady : All (Steady job.task_id) w.turns

  success-At :
      (r : TaskRecord) (a k : ℕ) (os : List Outcome) (w : World)
      → At job.task_id r a k none os w
      → Goes (finalize job retry_line) w tt (λ w'.
        (d : Datetime) × Situated true job.task_id
          (record r { status = success; end_time = some d })
          a
          k
          none
          os
          w')
  unfolding finalize set_attrs
  success-At r a k os w h =
      let w0 = record w { ctx = record w.ctx { succeeded = true } } in
      let fs = Field.status success ∷ Field.end_time (utc_now w) ∷ [] in
      let x = record r { status = success; end_time = some (utc_now w) } in
      let h0 : Situated true job.task_id r a k none os w0 = record {
        steady = h.steady;
        live = h.live;
        attempt = h.attempt;
        error = h.error;
        starts = h.starts;
        coming = h.coming;
        flag = refl;
        unkeyed = h.unkeyed;
      } in
      let h1 = fields-At true r a k none os fs x w0 (λ l. refl) h0 in
      let w1 = record w0 { store = update job.task_id fs w0.store } in
      let (w2, g2, h2) =
        notify-At true x a k none os success w1.ctx.attempt w1.ctx.attempt job.has_logger w1 h1 in
      let (w3, g3, h3) = flush-At true x a k none os job.has_on_success w2 h2 in
      (w3, ap (λ o. finalize_by job retry_line o w) h.error ∙ bind-done _ g2 ∙ g3, (utc_now w, h3))

  settled_lem :
      (r : TaskRecord) (s : TaskStore)
      → Live job.task_id r s
      → r.status ≡ running
      → is_settled job retry_line (status_of job retry_line s) ≡ false
  settled_lem r s l e = ground (arith, l.found)

  failed-At :
      (r : TaskRecord) (a k : ℕ) (f : Failure) (os : List Outcome) (w : World)
      → r.status ≡ running
      → At job.task_id r a k (some f) os w
      → Goes (finalize job retry_line) w tt (λ w'.
        (d : Datetime) × At job.task_id
          (record r {
            status = failed;
            end_time = some d;
            error = some f.message;
            stacktrace = some f.traceback;
          })
          a
          k
          (some f)
          os
          w')
  unfolding finalize set_attrs
  failed-At r a k f os w st h =
      let fs =
        Field.status failed
        ∷ Field.end_time (utc_now w)
        ∷ Field.error f.message
        ∷ Field.stacktrace (some f.traceback)
        ∷ [] in
      let x = record r {
        status = failed;
        end_time = some (utc_now w);
        error = some f.message;
        stacktrace = some f.traceback;
      } in
      let h1 = fields-At false r a k (some f) os fs x w (λ l. refl) h in
      let w1 = record w { store = update job.task_id fs w.store } in
      let (w2, g2, h2) =
        notify-At false x a k (some f) os failed job.config.retries job.config.retries
          job.has_logger w1 h1 in
      (
        w2,
        ap (λ o. finalize_by job retry_line o w) h.error
            ∙ ap (λ b. mark_failed job retry_line b f w) (settled_lem r w.store h.live st)
            ∙ g2,
        (utc_now w, h2),
      )

  pub finalize-Finished :
      (r : TaskRecord) (a : ℕ) (e : Option Failure) (os : List Outcome) (w : World)
      → r.status ≡ running
      → At job.task_id (with_used r a) a (suc a) e os w
      → Goes (finalize job retry_line) w tt (Finished (a, e))
  finalize-Finished r a none os w st h =
      let (w', g, (d, p)) = success-At (with_used r a) a (suc a) os w h in
      (
        w',
        g,
        record {
          starts = p.starts;
          final = _;
          found = p.live.found;
          used = refl;
          outcome = refl;
          flag = p.flag;
          unkeyed = p.unkeyed;
          steady = p.steady;
        },
      )
  finalize-Finished r a (some f) os w st h =
      let (w', g, (d, p)) = failed-At (with_used r a) a (suc a) f os w st h in
      (
        w',
        g,
        record {
          starts = p.starts;
          final = _;
          found = p.live.found;
          used = refl;
          outcome = (refl, refl, refl);
          flag = p.flag;
          unkeyed = p.unkeyed;
          steady = p.steady;
        },
      )
