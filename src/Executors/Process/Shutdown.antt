-- ===== src/Executors/Process/Shutdown.antt =====
-- executors/process_executor.py: nothing runs in a pool after `shutdown`.
use fastapi_taskflow.Base.{
  ℕ, ◌≡◌, refl, ap, ◌∙◌, sym, true, false, List, [], ◌∷◌, Option, none, some, arith, nat_key,
  if◌then◌else◌, Bool-cases, inl, inr, subst,
}
use fastapi_taskflow.Dict.{Dict, lookup, erase, lookup-insert}
use fastapi_taskflow.Executors.Process.{
  Pool, closed, ProcessExecutor, Reply, outcome, worker_exception, worker_interrupted,
  broken_executor, cancelled_error, refused, Event, starts, resumes, dies, shuts_down, step, run,
  start, resume, answer, worker_dies, shutdown, close_pool, ensure_pool, break_pool,
  broken_if_alive,
}

-- What a step keeps once `shutdown` was called.
abbrev Stays : ProcessExecutor → ProcessExecutor → Type 0
Stays x y =
    (y.shutdown_called ≡ true)
    × (y.next ≡ x.next)
    × ((p : ℕ) → lookup p x.pools ≡ some closed → lookup p y.pools ≡ some closed)

start-Stays :
    (d : ℕ) (x : ProcessExecutor) → x.shutdown_called ≡ true → start d x ≡ (x, some refused)
unfolding start ensure_pool
start-Stays d x h = rw h refl

reply-Stays : (r : Reply) (x : ProcessExecutor) → x.shutdown_called ≡ true → Stays x (answer r x).0
reply-Stays (outcome v logs) x h = (h, refl, λ p e. e)
reply-Stays (worker_exception exc tb logs) x h = (h, refl, λ p e. e)
reply-Stays (worker_interrupted exc tb logs) x h = (h, refl, λ p e. e)
reply-Stays broken_executor x h = (h, refl, λ p e. e)
reply-Stays cancelled_error x h = (h, refl, λ p e. e)

break-closed :
    (k p : ℕ) (o : Option Pool) (ps : Dict ℕ Pool)
    → lookup k ps ≡ o
    → lookup p ps ≡ some closed
    → lookup p (break_pool k o ps) ≡ some closed
break-closed k p none ps e h = h
break-closed k p (some s) ps e h =
    ground (arith, lookup-insert k p (broken_if_alive s) ps, nat_key.same_iff k p, e, h)

again : (x : ProcessExecutor) → x.shutdown_called ≡ true → shutdown x ≡ x
unfolding shutdown
again x h = ap (λ b. if b then x else close_pool x.pool x) h

step-Stays : (e : Event) (x : ProcessExecutor) → x.shutdown_called ≡ true → Stays x (step e x)
unfolding step resume worker_dies shutdown
step-Stays (starts d) x h = subst (λ z. Stays x z.0) (sym (start-Stays d x h)) (h, refl, λ p e. e)
step-Stays (resumes d r) x h = reply-Stays r (record x { waiting = erase d x.waiting }) h
step-Stays (dies k) x h = (h, refl, λ p e. break-closed k p (lookup k x.pools) x.pools refl e)
step-Stays shuts_down x h = subst (Stays x) (sym (again x h)) (h, refl, λ p e. e)

run-Stays : (es : List Event) (x : ProcessExecutor) → x.shutdown_called ≡ true → Stays x (run es x)
unfolding run
run-Stays [] x h = (h, refl, λ p e. e)
run-Stays (e ∷ es) x h =
    let (s, n, k) = step-Stays e x h in
    let (s', n', k') = run-Stays es (step e x) s in (s', n' ∙ n, λ p c. k' p (k p c))

abbrev Closes : ProcessExecutor → ProcessExecutor → Type 0
Closes x y =
    (y.shutdown_called ≡ true)
    × (y.next ≡ x.next)
    × ((p : ℕ) → x.shutdown_called ≡ false → x.pool ≡ some p → lookup p y.pools ≡ some closed)

closing : (o : Option ℕ) (x : ProcessExecutor) → x.pool ≡ o → Closes x (close_pool o x)
closing none x e = (refl, refl, λ p f g. cc (e, g))
closing (some k) x e = (
  refl,
  refl,
  λ p f g. ground (arith, lookup-insert k p closed x.pools, nat_key.same_iff k p, e, g),
)

shutdown-Closes : (x : ProcessExecutor) → Closes x (shutdown x)
unfolding shutdown
shutdown-Closes x = elim (Bool-cases x.shutdown_called) [
  | inl e ↦ subst (Closes x) (sym (again x e)) (e, refl, λ p f g. cc (e, f))
  | inr e ↦
      subst (Closes x) (sym (ap (λ b. if b then x else close_pool x.pool x) e))
        (closing x.pool x refl)
]

-- After a shutdown, whatever happens then: a dispatch raises before it submits anything, no pool was
-- made, and the pool that was current at the shutdown is closed.
pub shutdown-refuses :
    (es : List Event) (x : ProcessExecutor) (d : ℕ)
    → let y = run es (shutdown x) in
      (start d y ≡ (y, some refused))
      × (y.next ≡ x.next)
      × ((p : ℕ) → x.shutdown_called ≡ false → x.pool ≡ some p → lookup p y.pools ≡ some closed)
shutdown-refuses es x d =
    let (c, n, k) = shutdown-Closes x in
    let (c', n', k') = run-Stays es (shutdown x) c in
    (start-Stays d (run es (shutdown x)) c', n' ∙ n, λ p f g. k' p (k p f g))
