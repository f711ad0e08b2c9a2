-- ===== src/Tests/Runs.antt =====
-- The pipeline at fixed inputs: a task that fails once and then returns, with two retries allowed.
use fastapi_taskflow.Base.{
  ℕ, ◌+◌, ◌≤◌, ◌≡◌, ◌≢◌, refl, true, false, [], ◌∷◌, Option, none, some, String, count_if,
  string_key,
}
use fastapi_taskflow.Dict.{lookup}
use fastapi_taskflow.Models.{default_config, running, success, TaskRecord}
use fastapi_taskflow.Store.{get}
use fastapi_taskflow.Store.Calls.{loop_runs, append_logs}
use fastapi_taskflow.Store.Records.{IsValid}
use fastapi_taskflow.Pipeline.World.{
  Failure, cancelled_error, failure, raises, returns, World, Job, Backend, throw, done, await,
}
use fastapi_taskflow.Pipeline.Middleware.{execute_task, on_cancelled}
use fastapi_taskflow.Pipeline.Steady.{Goes, At, is_key, is_dispatch}
use fastapi_taskflow.Pipeline.Verdict.{verdict}
use fastapi_taskflow.Pipeline.Finalize.{Finished}
use fastapi_taskflow.Pipeline.Execute.{Ready, execute-verdict}
use fastapi_taskflow.Pipeline.Idempotency.{duplicate-skips, fresh-records-on-success}
use fastapi_taskflow.Pipeline.Safety.{execute-bounded}
use fastapi_taskflow.Pipeline.Cancellation.{cancelled-ends, ended}
use fastapi_taskflow.Tests.{one_task, welcome, noon}

abbrev line : ℕ → String
line n = "--- Retry ---"

abbrev timeout : Failure
timeout = record { message = "timeout"; traceback = "Traceback"; was_interrupted = false }

abbrev job : Job
job = record {
  task_id = "t1";
  config = record default_config { retries = 2 };
  backend = none;
  has_on_success = true;
  has_logger = true;
}

abbrev fails_once : World
fails_once = record {
  store = one_task;
  now = 20;
  turns =
      record { elapsed = 1; others = loop_runs ∷ append_logs "t2" "x" ∷ []; cancel = false } ∷ [];
  outcomes = raises timeout ∷ returns ∷ [];
  effects = [];
  ctx = record {
    attempt = 0;
    task_start = noon;
    attempt_start = noon;
    last_error = none;
    succeeded = false;
    registered = false;
  };
}

one_task-IsValid : IsValid one_task
unfolding lookup
one_task-IsValid = record { distinct = (refl, tt); own_id = (refl, tt) }

fails_once-Ready : Ready job line welcome fails_once
unfolding get lookup
fails_once-Ready = record {
  valid = one_task-IsValid;
  found = refl;
  steady = (record { apart = (tt, (tt, tt)); goes_on = refl }, tt);
  attempt = refl;
  error = refl;
  flag = refl;
  starts = refl;
  unkeyed = refl;
}

-- One failure, one success: the second attempt is the last, and no error is left.
verdict_test : verdict 3 0 (raises timeout ∷ returns ∷ []) none ≡ (1, none)
unfolding verdict
verdict_test = refl

execute-verdict_example :
    Goes
      (execute_task job line)
      fails_once
      tt
      (Finished job line (verdict 3 0 fails_once.outcomes none))
unfolding get lookup
execute-verdict_example = execute-verdict job line welcome fails_once fails_once-Ready refl

execute-bounded_example :
    (count_if is_dispatch (execute_task job line fails_once).1.effects ≤ 0 + 3)
    × ((f : Failure) → (execute_task job line fails_once).0 ≢ throw (failure f))
execute-bounded_example = execute-bounded job line fails_once

-- A running task, cancelled while the store is not shutting down.
abbrev started : TaskRecord
started = record welcome { status = running }

abbrev cancelled_run : World
cancelled_run = record fails_once { store = record one_task { tasks = ("t1", started) ∷ [] } }

cancelled_run-At : At "t1" started 0 0 none cancelled_run.outcomes cancelled_run
unfolding get lookup
cancelled_run-At = record {
  steady = fails_once-Ready.steady;
  live = record {
    valid = record { distinct = (refl, tt); own_id = (refl, tt) };
    logs = [];
    found = refl;
  };
  attempt = refl;
  error = refl;
  starts = refl;
  coming = refl;
  flag = refl;
  unkeyed = refl;
}

cancelled-ends_example :
    (u w' : World) × (await cancelled_run ≡ (done tt, u))
    × (on_cancelled job line cancelled_run ≡ (throw cancelled_error, w'))
    × (x : TaskRecord) × (get "t1" w'.store ≡ some x)
    × (x.status ≡ ended u.store.shutting_down false)
cancelled-ends_example =
    cancelled-ends job line 0 0 none cancelled_run.outcomes started cancelled_run refl
      cancelled_run-At

-- A task with an idempotency key, and a backend that knows the key of another task, or none.
abbrev keyed : TaskRecord
keyed = record welcome { idempotency_key = some "signup-7" }

abbrev keyed_run : World
keyed_run = record fails_once { store = record one_task { tasks = ("t1", keyed) ∷ [] } }

keyed_run-Ready : (b : Option Backend) → Ready (record job { backend = b }) line keyed keyed_run
unfolding get lookup
keyed_run-Ready b = record {
  valid = record { distinct = (refl, tt); own_id = (refl, tt) };
  found = refl;
  steady = fails_once-Ready.steady;
  attempt = refl;
  error = refl;
  flag = refl;
  starts = refl;
  unkeyed = refl;
}

abbrev seen : Backend
seen = record { check_key = some (some "t0"); can_record = true }

abbrev unseen : Backend
unseen = record { check_key = some none; can_record = true }

duplicate-skips_example :
    Goes (execute_task (record job { backend = some seen }) line) keyed_run tt (λ w'.
      (count_if is_dispatch w'.effects ≡ 0)
      × (count_if is_key w'.effects ≡ 0)
      × (x : TaskRecord) × (get "t1" w'.store ≡ some x)
      × (x.status ≡ success))
unfolding get lookup
duplicate-skips_example =
    duplicate-skips (record job { backend = some seen }) line "signup-7" seen keyed keyed_run
      (keyed_run-Ready (some seen)) refl refl "t0" refl refl

fresh-records-on-success_example :
    Goes
      (execute_task (record job { backend = some unseen }) line)
      keyed_run
      tt
      (λ w'. (count_if is_dispatch w'.effects ≡ 2) × (count_if is_key w'.effects ≡ 1))
unfolding get lookup verdict
fresh-records-on-success_example =
    fresh-records-on-success (record job { backend = some unseen }) line "signup-7" unseen keyed
      keyed_run (keyed_run-Ready (some unseen)) refl refl refl

-- A worker that is interrupted during the first attempt.
abbrev interrupted_run : World
interrupted_run = record fails_once {
  outcomes = raises (record timeout { was_interrupted = true }) ∷ [];
}

interrupted_run-Ready : Ready job line welcome interrupted_run
unfolding get lookup
interrupted_run-Ready = record {
  valid = one_task-IsValid;
  found = refl;
  steady = fails_once-Ready.steady;
  attempt = refl;
  error = refl;
  flag = refl;
  starts = refl;
  unkeyed = refl;
}
