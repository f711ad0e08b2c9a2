-- ===== src/Pipeline/Idempotency.antt =====
-- middleware.py: `IdempotencyMiddleware` around the run of a task that has a key and a backend.
use fastapi_taskflow.Base.{
  ℕ, suc, ◌+◌, ◌≡◌, refl, ap, ◌∙◌, Bool, true, false, ◌&&◌, List, [], ◌∷◌, Option, none, some,
  String, if◌then◌else◌, All, arith, count_if, ◌==◌, string_key,
}
use fastapi_taskflow.Models.{success, TaskRecord}
use fastapi_taskflow.Store.{Field, get, update, set_attrs}
use fastapi_taskflow.Store.Calls.{run}
use fastapi_taskflow.Pipeline.World.{
  Failure, Turn, key_recorded, Backend, Job, World, Out, done, M, ◌>>◌, await, utc_now, emit,
}
use fastapi_taskflow.Pipeline.Steady.{Steady, Goes, bind-done, await-At, is_dispatch, is_key}
use fastapi_taskflow.Pipeline.Middleware.{
  retry, logging, execute_task, idempotency, key_of, is_duplicate, skip, record_key, with_key, when,
}
use fastapi_taskflow.Pipeline.Verdict.{verdict, with_used}
use fastapi_taskflow.Pipeline.Finalize.{fields-At, Finished, is_none}
use fastapi_taskflow.Pipeline.Execute.{Ready, Ready-At, logging-Finished, unregister}

module _ (job : Job) (retry_line : ℕ → String) (key : String) (b : Backend) where
  abbrev inner : M (Unit {0})
  inner = logging job retry_line (retry job retry_line)

  -- After the check of the key, by its answer.
  abbrev checked : Bool → M (Unit {0})
  checked dup = if dup then skip job retry_line else (do inner; record_key job retry_line key b)

  -- The run, from what it does after the check.
  abbrev close : Out (Unit {0}) × World → Out (Unit {0}) × World
  close z = (z.0, unregister job retry_line z.1)

  keyed_run :
      (dup : Bool) (w u : World)
      → key_of job retry_line (get job.task_id w.store) ≡ some key
      → job.backend ≡ some b
      → is_duplicate job retry_line b.check_key ≡ dup
      → (do await; checked dup) w ≡ (done tt, u)
      → execute_task job retry_line w ≡ (done tt, unregister job retry_line u)
  unfolding execute_task idempotency
  keyed_run dup w u k c d g =
      ap (λ o. close (with_key job retry_line o job.backend inner w)) k
      ∙ ap (λ o. close (with_key job retry_line (some key) o inner w)) c
      ∙ ap (λ z. close ((do await; checked z) w)) d
      ∙ ap close g

  pub duplicate-skips :
      (r : TaskRecord) (w : World)
      → Ready job retry_line r w
      → key_of job retry_line (get job.task_id w.store) ≡ some key
      → job.backend ≡ some b
      → (other : String) → b.check_key ≡ some (some other)
      → (other == job.task_id) ≡ false
      → Goes (execute_task job retry_line) w tt (λ w'.
        (count_if is_dispatch w'.effects ≡ 0)
        × (count_if is_key w'.effects ≡ 0)
        × (x : TaskRecord) × (get job.task_id w'.store ≡ some x)
        × (x.status ≡ success))
  unfolding set_attrs
  duplicate-skips r w h k c o a n =
      let (u, g, p) =
        await-At false job.task_id (with_used r 0) 0 0 none w.outcomes w
          (Ready-At job retry_line r w h) in
      let d = utc_now u in
      let fs = Field.status success ∷ Field.start_time d ∷ Field.end_time d ∷ [] in
      let x = record (with_used r 0) { status = success; start_time = some d; end_time = some d } in
      let q =
        fields-At job retry_line false (with_used r 0) 0 0 none w.outcomes fs x u (λ l. refl) p in
      (
        _,
        keyed_run true w (record u { store = update job.task_id fs u.store }) k c (rw (a, n) refl)
            (bind-done _ g),
        (q.starts, q.unkeyed, _, q.live.found, refl),
      )

  -- An await changes no effect, and none is cancelled.
  awaited :
      (w : World) → All (Steady job.task_id) w.turns → Goes await w tt (λ u. u.effects ≡ w.effects)
  unfolding await
  awaited w s = by_turns w.turns refl s
    where
      by_turns :
          (ts : List Turn)
          → w.turns ≡ ts
          → All (Steady job.task_id) ts
          → Goes await w tt (λ u. u.effects ≡ w.effects)
      by_turns [] q _ = (w, ground (arith, q), refl)
      by_turns (t ∷ rest) q (h, _) = (
        record w { turns = rest; now = w.now + t.elapsed; store = run t.others w.store },
        rw (q, h.goes_on) refl,
        refl,
      )

  recording :
      (n : ℕ) (w : World)
      → All (Steady job.task_id) w.turns
      → count_if is_dispatch w.effects ≡ suc n
      → count_if is_key w.effects ≡ 0
      → (c : Bool)
      → Goes
          (do await; when c (emit (key_recorded key)))
          w
          tt
          (λ u.
            (count_if is_dispatch u.effects ≡ suc n)
            × (count_if is_key u.effects ≡ (if c then 1 else 0)))
  recording n w s h k c = let (u, g, e) = awaited w s in by_flag u g e c
    where
      by_flag :
          (u : World)
          → await w ≡ (done tt, u)
          → u.effects ≡ w.effects
          → (c : Bool)
          → Goes
              (do await; when c (emit (key_recorded key)))
              w
              tt
              (λ v.
                (count_if is_dispatch v.effects ≡ suc n)
                × (count_if is_key v.effects ≡ (if c then 1 else 0)))
      by_flag u g e true = (_, bind-done _ g, (rw e h, rw e (ap suc k)))
      by_flag u g e false = (_, bind-done _ g, (rw e h, rw e k))

  -- What is left to do after the inner pipeline, by `ctx.succeeded`.
  recorded :
      (v : ℕ × Option Failure) (w : World)
      → Finished job retry_line v w
      → Goes (record_key job retry_line key b) w tt (λ w'.
        (count_if is_dispatch w'.effects ≡ suc v.0)
        × (count_if is_key w'.effects
            ≡ (if is_none job retry_line v.1 && b.can_record then 1 else 0)))
  recorded (n, none) w p =
      let (u, g, q) = recording n w p.steady p.starts p.unkeyed b.can_record in
      (u, ap (λ c. when c (do await; when b.can_record (emit (key_recorded key))) w) p.flag ∙ g, q)
  recorded (n, some f) w p = (
    w,
    ap (λ c. when c (do await; when b.can_record (emit (key_recorded key))) w) p.flag,
    (p.starts, p.unkeyed),
  )

  pub fresh-records-on-success :
      (r : TaskRecord) (w : World)
      → Ready job retry_line r w
      → key_of job retry_line (get job.task_id w.store) ≡ some key
      → job.backend ≡ some b
      → is_duplicate job retry_line b.check_key ≡ false
      → Goes (execute_task job retry_line) w tt (λ w'.
        (count_if is_dispatch w'.effects
          ≡ suc (verdict (suc job.config.retries) 0 w.outcomes none).0)
        × (count_if is_key w'.effects ≡ (
            if is_none job retry_line (verdict (suc job.config.retries) 0 w.outcomes none).1
              && b.can_record
            then 1
            else 0)))
  fresh-records-on-success r w h k c d =
      let (w1, g1, p1) =
        await-At false job.task_id (with_used r 0) 0 0 none w.outcomes w
          (Ready-At job retry_line r w h) in
      let (w2, g2, p2) = logging-Finished job retry_line r w.outcomes w1 p1 in
      let (w3, g3, p3) = recorded _ w2 p2 in
      (_, keyed_run false w w3 k c d (bind-done _ g1 ∙ bind-done _ g2 ∙ g3), p3)
