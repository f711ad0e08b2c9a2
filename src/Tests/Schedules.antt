-- ===== src/Tests/Schedules.antt =====
-- The periodic scheduler at fixed inputs.
use fastapi_taskflow.Base.{
  ℕ, ◌+◌, ◌≡◌, refl, Bool, true, false, arith, List, [], ◌∷◌, none, some, String, ok, queue_full,
}
use fastapi_taskflow.Dict.{lookup}
use fastapi_taskflow.Models.{ScheduledOnce, default_config}
use fastapi_taskflow.Registry.{Func}
use fastapi_taskflow.TaskQueue.{TaskQueue, item_of, idle}
use fastapi_taskflow.Manager.{TaskManager, resolve_executor, get_queue}
use fastapi_taskflow.Periodic.{
  PeriodicScheduler, ScheduledEntry, locking, ended, init, Schedule, Fresh, entry_of,
  cancel_one_off, add_one_off, start, answer, Event, schedules, starts, registers, rounds, answers,
  run,
}
use fastapi_taskflow.Periodic.Armed.{Agrees}
use fastapi_taskflow.Periodic.Calls.{IsArmed}
use fastapi_taskflow.Periodic.OneOff.{run-init-IsArmed, run-init-Agrees}
use fastapi_taskflow.Periodic.Quiet.{firings}
use fastapi_taskflow.Periodic.Cancelled.{cancelled-stays-quiet}
use fastapi_taskflow.Periodic.Failing.{full-queue-ends-loop}
use fastapi_taskflow.Tests.{noon, send_email, manager}

-- A calendar whose slots are an hour apart.
abbrev pub hourly : String → ℕ → String → ℕ
hourly cron from_time timezone = from_time + 3600

abbrev pub auction : ScheduledOnce
auction = record {
  run_key = "close";
  func_name = "send_email";
  fire_at = noon;
  args = [];
  kwargs = [];
  encrypted_payload = none;
  queue = "default";
  priority = none;
  idempotency_key = none;
  tags = [];
  created_at = noon;
}

abbrev pub later_auction : ScheduledOnce
later_auction = record auction { fire_at = record { at = 40; aware = true } }

abbrev every_minute : Schedule
every_minute = record {
  func = send_email;
  config = default_config;
  every = some 60;
  cron = none;
  run_on_startup = true;
  timezone = "UTC";
}

abbrev any_func : String → Func → Bool
any_func executor f = true

abbrev pub fresh : Fresh
fresh = record { task_id = "t9"; wrapped = 9; now = noon }

-- A one-off is scheduled, moved, and the loop goes on over its old entry.
abbrev moves : List Event
moves =
    registers any_func 0 every_minute
    ∷ starts 0
    ∷ schedules 100 auction
    ∷ schedules 100 later_auction
    ∷ rounds fresh 20
    ∷ answers fresh (ok true)
    ∷ rounds fresh 20
    ∷ []

abbrev moved : PeriodicScheduler
moved = run hourly moves (init manager true)

run-init-Agrees_example : Agrees moved.heap moved.one_offs
run-init-Agrees_example = run-init-Agrees hourly manager true moves refl

abbrev afterwards : List Event
afterwards = rounds fresh 50 ∷ answers fresh (ok true) ∷ rounds fresh 90 ∷ []

cancelled-stays-quiet_example :
    firings "close" (run hourly afterwards (cancel_one_off "close" moved)).taken
    ≡ firings "close" moved.taken
cancelled-stays-quiet_example =
    cancelled-stays-quiet hourly manager true moves refl "close" afterwards (tt, (tt, (tt, tt)))

abbrev full_queue : TaskQueue
full_queue = record {
  name = "default";
  config = record { concurrency = none; max_size = some 1 };
  heap = item_of "t1" none 1 1 ∷ [];
  seq = 1;
  has_work = true;
  sem = none;
  rejected_count = 0;
  drainer = idle;
  running = [];
}

abbrev busy : TaskManager
busy = record manager { queues = ("default", full_queue) ∷ [] }

abbrev tick : ScheduledEntry
tick = entry_of 0 0 every_minute default_config

abbrev waiting : PeriodicScheduler
waiting = record {
  manager = busy;
  entries = tick ∷ [];
  heap = [];
  one_offs = [];
  has_backend = true;
  wake = false;
  started = true;
  next_id = 1;
  place = locking tick;
  taken = [];
}

full-queue-ends-loop_example :
    ((run hourly afterwards (answer fresh (ok true) waiting)).place ≡ ended queue_full)
    × ((run hourly afterwards (answer fresh (ok true) waiting)).taken ≡ [])
unfolding resolve_executor get_queue lookup
full-queue-ends-loop_example =
    full-queue-ends-loop hourly waiting fresh tick "async" "default" full_queue 1 afterwards refl
      refl refl refl refl (omega arith) (tt, (tt, (tt, tt)))

abbrev empty : PeriodicScheduler
empty = init manager true

empty-IsArmed : IsArmed empty
unfolding run
empty-IsArmed = run-init-IsArmed hourly manager true []

abbrev forgotten : PeriodicScheduler
forgotten = (start hourly 0 (add_one_off auction empty)).0
