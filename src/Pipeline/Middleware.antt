-- ===== src/Pipeline/Middleware.antt =====
-- middleware.py and executor.py: the three middlewares, the dispatch step and `execute_task`.
use fastapi_taskflow.Base.{
  ℕ, zero, suc, Bool, true, false, not, List, [], ◌∷◌, Option, none, some, String, if◌then◌else◌,
  ◌==◌, string_key,
}
use fastapi_taskflow.Models.{
  Float, mul, TaskStatus, pending, running, success, failed, cancelled, TaskRecord,
}
use fastapi_taskflow.Store.{TaskStore, Field, update, append_log, get}
use fastapi_taskflow.Pipeline.World.{
  Failure, Fault, cancelled_error, failure, Outcome, returns, raises, lifecycle, dispatched, slept,
  key_recorded, on_success, Backend, Job, done, throw, M, ◌>>=◌, ◌>>◌, pass, catch, fail, await,
  utc_now, emit, on_store, on_ctx, reading,
}

abbrev pub when : Bool → M (Unit {0}) → M (Unit {0})
when true m = m
when false m = pass

module _ (job : Job) (retry_line : ℕ → String) where
  -- `ctx.store.update(ctx.task_id, ...)`
  abbrev pub set_fields : List Field → M (Unit {0})
  set_fields fields = on_store (update job.task_id fields)

  -- `await ctx.logger.on_lifecycle(...)`; the chain of observers lets no exception through.
  abbrev pub notify : TaskStatus → ℕ → ℕ → M (Unit {0})
  notify s attempt retries_used =
      when job.has_logger (do emit (lifecycle s attempt retries_used); await)

  abbrev pub flush_one : M (Unit {0})
  flush_one = when job.has_on_success (do emit on_success; await)

  abbrev pub next_outcome : List Outcome → M (Unit {0})
  next_outcome [] w = (done tt, record w { outcomes = [] })
  next_outcome (returns ∷ os) w = (done tt, record w { outcomes = os })
  next_outcome (raises f ∷ os) w = (throw (failure f), record w { outcomes = os })

  -- `_dispatch_endpoint`: start the function, register its handle, and wait for it.
  unfoldable pub dispatch : M (Unit {0})
  dispatch = do
    reading (λ w. emit (dispatched w.ctx.attempt))
    on_ctx (λ w c. record c { registered = true })
    await
    reading (λ w. next_outcome w.outcomes)

  -- `_drain_pending`
  abbrev pub drain_pending : M (Unit {0})
  drain_pending = await

  -- The `if attempt > 0` of the loop.
  abbrev pub before_retry : ℕ → Float → M (Unit {0})
  before_retry attempt delay = do
    emit (slept delay)
    await
    set_fields (Field.retries_used attempt ∷ [])
    on_store (append_log job.task_id (retry_line attempt))

  -- `except Exception`, by `_was_interrupted`: whether the loop ends here.
  abbrev pub after_failure : Bool → Failure → M Bool
  after_failure true f = λ w. (done true, w)
  after_failure false f = do
    drain_pending
    on_ctx (λ w c. record c { last_error = some f })
    λ w. (done false, w)

  abbrev pub after_fault : Fault → M Bool
  after_fault cancelled_error = do drain_pending; fail cancelled_error
  after_fault (failure f) = after_failure f.was_interrupted f

  -- One attempt: the `try` of the loop.
  unfoldable pub one_attempt : M Bool
  one_attempt =
      catch
        (do
          dispatch
          drain_pending
          on_ctx (λ w c. record c { last_error = none })
          λ w. (done true, w))
        after_fault

  abbrev pub begin : ℕ → Float → M (Unit {0})
  begin attempt delay = do
    on_ctx (λ w c. record c { attempt = attempt })
    elim attempt [ zero ↦ pass | suc n ↦ before_retry (suc n) delay ]
    on_ctx (λ w c. record c { attempt_start = utc_now w })

  -- The delay before the next attempt.
  abbrev pub grow : ℕ → Float → Float
  grow zero delay = delay
  grow (suc n) delay = mul delay job.config.backoff

  -- `for attempt in range(config.retries + 1)`: `left` attempts are left, `attempt` is the next.
  unfoldable pub retry_loop : ℕ → ℕ → Float → M (Unit {0})
  retry_loop zero attempt delay = pass
  retry_loop (suc left) attempt delay = do
    begin attempt delay
    stop ← one_attempt
    elim stop [ true ↦ pass | false ↦ retry_loop left (suc attempt) (grow attempt delay) ]

  -- `RetryMiddleware`
  unfoldable pub retry : M (Unit {0})
  unfolding retry_loop
  retry = retry_loop (suc job.config.retries) 0 job.config.delay

  abbrev pub status_of : TaskStore → Option TaskStatus
  status_of s = elim (get job.task_id s) [ none ↦ none | some r ↦ some r.status ]

  abbrev pub is_running : Option TaskStatus → Bool
  is_running (some running) = true
  is_running _ = false

  -- The status of a run that was cancelled, by the shutdown flag and the configuration.
  abbrev pub finalize_cancelled : Bool → Bool → M (Unit {0})
  finalize_cancelled true true = set_fields (Field.status pending ∷ [])
  finalize_cancelled true false = pass
  finalize_cancelled false b = do
    reading (λ w. set_fields (Field.status cancelled ∷ Field.end_time (utc_now w) ∷ []))
    reading (λ w. notify cancelled w.ctx.attempt w.ctx.attempt)
    flush_one

  -- The `except asyncio.CancelledError` of `LoggingMiddleware`.
  unfoldable pub on_cancelled : M (Unit {0})
  on_cancelled = do
    drain_pending
    reading (λ w.
        when (is_running (status_of w.store))
          (finalize_cancelled w.store.shutting_down job.config.requeue_on_interrupt))
    fail cancelled_error

  abbrev pub finalize_success : M (Unit {0})
  finalize_success = do
    on_ctx (λ w c. record c { succeeded = true })
    reading (λ w. set_fields (Field.status success ∷ Field.end_time (utc_now w) ∷ []))
    reading (λ w. notify success w.ctx.attempt w.ctx.attempt)
    flush_one

  -- `current is not None and current.status != RUNNING`
  abbrev pub is_settled : Option TaskStatus → Bool
  is_settled none = false
  is_settled (some s) = not (is_running (some s))

  abbrev pub mark_failed : Bool → Failure → M (Unit {0})
  mark_failed true f = pass
  mark_failed false f = do
    reading (λ w. set_fields (
        Field.status failed
        ∷ Field.end_time (utc_now w)
        ∷ Field.error f.message
        ∷ Field.stacktrace (some f.traceback)
        ∷ []))
    notify failed job.config.retries job.config.retries

  abbrev pub finalize_failed : Failure → M (Unit {0})
  finalize_failed f = reading λ w. mark_failed (is_settled (status_of w.store)) f

  -- What follows the inner pipeline when it has returned, by `ctx.last_error`.
  abbrev pub finalize_by : Option Failure → M (Unit {0})
  finalize_by none = finalize_success
  finalize_by (some f) = finalize_failed f

  unfoldable pub finalize : M (Unit {0})
  finalize = reading λ w. finalize_by w.ctx.last_error

  abbrev pub to_cancelled : Fault → M (Unit {0})
  to_cancelled cancelled_error = on_cancelled
  to_cancelled (failure f) = fail (failure f)

  -- `LoggingMiddleware`
  unfoldable pub logging : M (Unit {0}) → M (Unit {0})
  logging call_next = do
    on_ctx (λ w c. record c { task_start = utc_now w; attempt_start = utc_now w })
    reading (λ w. set_fields (Field.status running ∷ Field.start_time w.ctx.task_start ∷ []))
    notify running 0 0
    catch call_next to_cancelled
    finalize

  -- The key, if there is a record with a key that is not empty, and a backend.
  abbrev pub key_of : Option TaskRecord → Option String
  key_of none = none
  key_of (some r) = elim r.idempotency_key [
    | none ↦ none
    | some k ↦ if k == "" then none else some k
  ]

  -- `existing_id is not None and existing_id != ctx.task_id`
  abbrev pub is_duplicate : Option (Option String) → Bool
  is_duplicate none = false
  is_duplicate (some none) = false
  is_duplicate (some (some id)) = not (id == job.task_id)

  abbrev pub skip : M (Unit {0})
  skip = reading λ w.
      set_fields
        (Field.status success ∷ Field.start_time (utc_now w) ∷ Field.end_time (utc_now w) ∷ [])

  abbrev pub record_key : String → Backend → M (Unit {0})
  record_key key b =
      reading λ w. when w.ctx.succeeded (do await; when b.can_record (emit (key_recorded key)))

  abbrev pub with_key : Option String → Option Backend → M (Unit {0}) → M (Unit {0})
  with_key (some key) (some b) call_next = do
    await
    if is_duplicate b.check_key then skip else (do call_next; record_key key b)
  with_key (some key) none call_next = call_next
  with_key none b call_next = call_next

  -- `IdempotencyMiddleware`
  unfoldable pub idempotency : Option TaskRecord → M (Unit {0}) → M (Unit {0})
  idempotency r call_next = with_key (key_of r) job.backend call_next

  -- `execute_task`: the record is read, the pipeline runs, and the `finally` drops the handle.
  unfoldable pub execute_task : M (Unit {0})
  unfolding retry logging idempotency
  execute_task w =
      let r = idempotency (get job.task_id w.store) (logging retry) w in
      (r.0, record r.1 { ctx = record r.1.ctx { registered = false } })
