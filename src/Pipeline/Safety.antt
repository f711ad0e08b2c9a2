-- ===== src/Pipeline/Safety.antt =====
-- middleware.py and executor.py: what holds of every run, whatever other coroutines do to the store
-- meanwhile and wherever the run is cancelled.
use fastapi_taskflow.Base.{
  ℕ, zero, suc, ◌+◌, ◌≤◌, ◌≡◌, refl, Bool, true, false, List, [], ◌∷◌, Option, none, some, String,
  arith, if◌then◌else◌, ◌≢◌, subst,
}
use fastapi_taskflow.Models.{Float, TaskStatus, running, cancelled, success, failed}
use fastapi_taskflow.Store.{get, Field, append_log}
use fastapi_taskflow.Pipeline.World.{
  Failure, Fault, cancelled_error, failure, Outcome, returns, raises, lifecycle, dispatched, slept,
  on_success, Backend, Job, World, Out, done, throw, M, ◌>>=◌, ◌>>◌, pass, catch, fail, await,
  on_store, on_ctx, reading,
}
use fastapi_taskflow.Pipeline.Middleware.{
  when, set_fields, notify, flush_one, next_outcome, dispatch, after_failure, after_fault,
  one_attempt, begin, grow, retry_loop, retry, finalize_cancelled, on_cancelled, status_of,
  is_running, finalize_success, is_settled, mark_failed, finalize_by, finalize, to_cancelled,
  logging, key_of, is_duplicate, skip, record_key, with_key, idempotency, execute_task,
}
use fastapi_taskflow.Pipeline.Within.{
  starts, Allowed, Within, bind-Within, catch-Within, relax, await-Within, free-Within,
  reading-Within, when-Within, pass-Within, cancel-Within, observed-Within, after-Within,
}

module _ (job : Job) (retry_line : ℕ → String) where
  outcome-Within : (os : List Outcome) → Within true 0 (next_outcome job retry_line os)
  outcome-Within [] = free-Within tt _ (λ w. refl)
  outcome-Within (returns ∷ os) = free-Within tt _ (λ w. refl)
  outcome-Within (raises f ∷ os) = record { bound = λ w. omega arith; allowed = λ w. refl }

  dispatch-Within : Within true 1 (dispatch job retry_line)
  unfolding dispatch
  dispatch-Within =
      after-Within 1
        (λ w. record w {
          effects = dispatched w.ctx.attempt ∷ w.effects;
          ctx = record w.ctx { registered = true };
        })
        _ (λ w. omega arith)
        (bind-Within await (λ _. reading (λ w. next_outcome job retry_line w.outcomes)) await-Within
          (λ _.
            reading-Within (λ w. next_outcome job retry_line w.outcomes)
              (λ w. outcome-Within w.outcomes)))

  set_error-Within :
      {A : Type 0} (a : A) (e : Option Failure)
      → Within false 0 (λ w. (done a, record w { ctx = record w.ctx { last_error = e } }))
  set_error-Within a e = free-Within a _ (λ w. refl)

  fault-Within : (e : Fault) → Within false 0 (after_fault job retry_line e)
  fault-Within cancelled_error =
      bind-Within await (λ _. fail cancelled_error) await-Within (λ _. cancel-Within)
  fault-Within (failure f) = by_flag f.was_interrupted
    where
      by_flag : (b : Bool) → Within false 0 (after_failure job retry_line b f)
      by_flag true = free-Within true _ (λ w. refl)
      by_flag false = bind-Within await _ await-Within (λ _. set_error-Within false (some f))

  attempt-Within : Within false 1 (one_attempt job retry_line)
  unfolding one_attempt
  attempt-Within =
      catch-Within {inner = true} {a = 1} {b = 0} _ (after_fault job retry_line)
        (bind-Within {a = 1} {b = 0} (dispatch job retry_line)
          (λ _. do await; on_ctx (λ w c. record c { last_error = none }); λ w. (done true, w))
          dispatch-Within
          (λ _. bind-Within await _ await-Within (λ _. free-Within true _ (λ w. refl))))
        (λ e _. fault-Within e)

  begin-Within : (a : ℕ) (delay : Float) → Within false 0 (begin job retry_line a delay)
  begin-Within zero d = free-Within tt _ (λ w. refl)
  begin-Within (suc n) d = relax (0 + 0) (omega arith) (
      after-Within 0 {n = 0}
        (λ w. record w { effects = slept d ∷ w.effects; ctx = record w.ctx { attempt = suc n } }) _
        (λ w. omega arith)
        (relax (0 + 0) (omega arith) (
          bind-Within {a = 0} {b = 0}
            (do
              await
              set_fields job retry_line (Field.retries_used (suc n) ∷ [])
              on_store (append_log job.task_id (retry_line (suc n))))
            _ (bind-Within {a = 0} {b = 0} await _ await-Within (λ _. free-Within tt _ (λ w. refl)))
            (λ _. free-Within tt _ (λ w. refl)))))

  loop-Within : (left a : ℕ) (d : Float) → Within false left (retry_loop job retry_line left a d)
  unfolding retry_loop
  loop-Within zero a d = pass-Within
  loop-Within (suc left) a d = relax (0 + (1 + left)) (omega arith) (
      bind-Within (begin job retry_line a d) (λ _. one_attempt job retry_line >>= next)
        (begin-Within a d)
        (λ _.
          bind-Within (one_attempt job retry_line) next attempt-Within
            (next-Within (loop-Within left (suc a) (grow job retry_line a d)))))
    where
      next : Bool → M (Unit {0})
      next true = pass
      next false = retry_loop job retry_line left (suc a) (grow job retry_line a d)

      next-Within : Within false left (next false) → (b : Bool) → Within false left (next b)
      next-Within g true = record { bound = λ w. omega arith; allowed = λ w. tt }
      next-Within g false = g

  notify-Within : (s : TaskStatus) (a r : ℕ) → Within false 0 (notify job retry_line s a r)
  notify-Within s a r = observed-Within job.has_logger (lifecycle s a r) refl

  flush-Within : Within false 0 (flush_one job retry_line)
  flush-Within = observed-Within job.has_on_success on_success refl

  -- Fields of the record are written, then observers are told, then the record is flushed.
  closing-Within :
      (f : World → World) (s : TaskStatus) (a r : World → ℕ)
      → ((w : World) → starts (f w) ≡ starts w)
      → Within false 0 (λ w.
        (reading (λ u. notify job retry_line s (a u) (r u)) >> flush_one job retry_line) (f w))
  closing-Within f s a r e =
      after-Within 0 f _ (λ w. ground (arith, e w))
        (bind-Within (reading (λ u. notify job retry_line s (a u) (r u)))
          (λ _. flush_one job retry_line) (reading-Within _ (λ u. notify-Within s (a u) (r u)))
          (λ _. flush-Within))

  ended-Within :
      (stopping requeue : Bool)
      → Within false 0 (finalize_cancelled job retry_line stopping requeue)
  ended-Within true true = free-Within tt _ (λ w. refl)
  ended-Within true false = pass-Within
  ended-Within false b =
      closing-Within _ cancelled (λ w. w.ctx.attempt) (λ w. w.ctx.attempt) (λ w. refl)

  cancelled-Within : Within false 0 (on_cancelled job retry_line)
  unfolding on_cancelled
  cancelled-Within =
      bind-Within {a = 0} {b = 0} await
        (λ _. do
          reading (λ w. when (is_running job retry_line (status_of job retry_line w.store)) (
              finalize_cancelled job retry_line w.store.shutting_down
                job.config.requeue_on_interrupt))
          fail cancelled_error)
        await-Within
        (λ _.
          bind-Within {a = 0} {b = 0} _ (λ _. fail cancelled_error)
            (reading-Within _ (λ w.
              when-Within _ _ (ended-Within w.store.shutting_down job.config.requeue_on_interrupt)))
            (λ _. cancel-Within))

  success-Within : Within false 0 (finalize_success job retry_line)
  success-Within = closing-Within _ success (λ w. w.ctx.attempt) (λ w. w.ctx.attempt) (λ w. refl)

  failed-Within : (b : Bool) (f : Failure) → Within false 0 (mark_failed job retry_line b f)
  failed-Within true f = pass-Within
  failed-Within false f =
      after-Within 0 _ (notify job retry_line failed job.config.retries job.config.retries)
        (λ w. omega arith) (notify-Within failed job.config.retries job.config.retries)

  finalize-Within : Within false 0 (finalize job retry_line)
  unfolding finalize
  finalize-Within = reading-Within _ (λ w. by_error w.ctx.last_error)
    where
      by_error : (e : Option Failure) → Within false 0 (finalize_by job retry_line e)
      by_error none = success-Within
      by_error (some f) =
          reading-Within _
            (λ w. failed-Within (is_settled job retry_line (status_of job retry_line w.store)) f)

  guarded-Within :
      (n : ℕ) (m : M (Unit {0}))
      → Within false n m
      → Within false n (catch m (to_cancelled job retry_line))
  guarded-Within n m g =
      relax (n + 0) (omega arith) (catch-Within m (to_cancelled job retry_line) g by_fault)
    where
      by_fault :
          (e : Fault)
          → Allowed {A = Unit {0}} false (throw e)
          → Within false 0 (to_cancelled job retry_line e)
      by_fault cancelled_error r = cancelled-Within
      by_fault (failure f) r = record { bound = λ w. omega arith; allowed = λ w. r }

  logging-Within :
      (n : ℕ) (m : M (Unit {0})) → Within false n m → Within false n (logging job retry_line m)
  unfolding logging
  logging-Within n m g = relax (0 + (0 + (n + 0))) (omega arith) (
      after-Within 0 _
        (notify job retry_line running 0 0
          >> (catch m (to_cancelled job retry_line) >> finalize job retry_line))
        (λ w. omega arith)
        (bind-Within (notify job retry_line running 0 0)
          (λ _. catch m (to_cancelled job retry_line) >> finalize job retry_line)
          (notify-Within running 0 0)
          (λ _.
            bind-Within (catch m (to_cancelled job retry_line)) (λ _. finalize job retry_line)
              (guarded-Within n m g) (λ _. finalize-Within))))

  record-Within : (key : String) (b : Backend) → Within false 0 (record_key job retry_line key b)
  record-Within key b = reading-Within _ (λ w. when-Within w.ctx.succeeded _ (
      bind-Within {a = 0} {b = 0} await _ await-Within
        (λ _. when-Within b.can_record _ (free-Within tt _ (λ u. refl)))))

  keyed-Within :
      (n : ℕ) (key : Option String) (b : Option Backend) (m : M (Unit {0}))
      → Within false n m
      → Within false n (with_key job retry_line key b m)
  keyed-Within n none b m g = g
  keyed-Within n (some key) none m g = g
  keyed-Within n (some key) (some b) m g = relax (0 + (n + 0)) (omega arith) (
      bind-Within await (λ _. checked (is_duplicate job retry_line b.check_key)) await-Within
        (λ _. by_check (is_duplicate job retry_line b.check_key)))
    where
      checked : Bool → M (Unit {0})
      checked dup = if dup then skip job retry_line else (do m; record_key job retry_line key b)

      by_check : (dup : Bool) → Within false (n + 0) (checked dup)
      by_check true = relax 0 (omega arith) (free-Within tt _ (λ w. refl))
      by_check false = bind-Within m _ g (λ _. record-Within key b)

  not_failure : (o : Out (Unit {0})) → Allowed false o → (f : Failure) → o ≢ throw (failure f)
  not_failure o a f e = let c : false ≡ true = subst (λ z. Allowed false z) e a in cc c

  pub execute-bounded :
      (w : World)
      → (starts (execute_task job retry_line w).1 ≤ starts w + suc job.config.retries)
        × ((f : Failure) → (execute_task job retry_line w).0 ≢ throw (failure f))
  unfolding execute_task idempotency retry
  execute-bounded w =
      let g =
        keyed-Within _ (key_of job retry_line (get job.task_id w.store)) job.backend _
          (logging-Within _ _ (loop-Within (suc job.config.retries) 0 job.config.delay)) in
      (g.bound w, not_failure _ (g.allowed w))
