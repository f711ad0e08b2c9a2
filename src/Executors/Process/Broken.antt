-- ===== src/Executors/Process/Broken.antt =====
-- executors/process_executor.py: dispatches on a pool whose worker died.
use fastapi_taskflow.Base.{
  ℕ, ◌≡◌, refl, ap, ◌∙◌, false, List, [], ◌∷◌, Option, none, some, nat_key, if◌then◌else◌, raise,
  runtime_error,
}
use fastapi_taskflow.Dict.{lookup}
use fastapi_taskflow.Executors.Process.{
  alive, broken, ProcessExecutor, broken_executor, Answer, refused, worker_died, start, resume,
  ensure_pool, shutdown, submit, submit_to, in_result, pool_or_new,
}

-- The dispatches that begin one after the other, and what each raises before its await.
abbrev pub start_all : List ℕ → ProcessExecutor → ProcessExecutor × List (Option Answer)
start_all [] x = (x, [])
start_all (d ∷ ds) x = let (y, o) = start d x in let (z, os) = start_all ds y in (z, o ∷ os)

abbrev pub all_refused : List ℕ → List (Option Answer)
all_refused [] = []
all_refused (d ∷ ds) = some refused ∷ all_refused ds

start-broken :
    (d p : ℕ) (x : ProcessExecutor)
    → x.shutdown_called ≡ false
    → x.pool ≡ some p
    → lookup p x.pools ≡ some broken
    → start d x ≡ (x, some refused)
unfolding start ensure_pool
start-broken d p x s e b =
    ap (submit_to d) (
      ap (λ c. if c then (x, raise runtime_error) else in_result (pool_or_new x.pool x)) s
      ∙ ap (λ o. in_result (pool_or_new o x)) e)
    ∙ ap (λ o. submit d p o x) b

-- A pool that broke while no dispatch was waiting is kept: every later dispatch raises before it
-- submits, and leaves the executor as it was.
pub broken-stays :
    (ds : List ℕ) (p : ℕ) (x : ProcessExecutor)
    → x.shutdown_called ≡ false
    → x.pool ≡ some p
    → lookup p x.pools ≡ some broken
    → start_all ds x ≡ (x, all_refused ds)
broken-stays [] p x s e b = refl
broken-stays (d ∷ ds) p x s e b =
    ap (λ z. let r = start_all ds z.0 in (r.0, z.1 ∷ r.1)) (start-broken d p x s e b)
    ∙ ap (λ r. (r.0, some refused ∷ r.1)) (broken-stays ds p x s e b)

-- A dispatch that learns late that its pool broke takes the pool in use from the executor, one that
-- is alive included: the executor has no pool then, and its shutdown leaves that one open.
pub late-break-orphans :
    (d q : ℕ) (x : ProcessExecutor)
    → x.shutdown_called ≡ false
    → x.pool ≡ some q
    → lookup q x.pools ≡ some alive
    → let (y, a, logs) = resume d broken_executor x in
      (a ≡ worker_died) × (y.pool ≡ none) × (lookup q (shutdown y).pools ≡ some alive)
unfolding resume shutdown
late-break-orphans d q x s e l = (refl, refl, rw s l)
