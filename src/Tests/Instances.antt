-- ===== src/Tests/Instances.antt =====
-- Two instances on one table of one-offs.
use fastapi_taskflow.Base.{
  string_key, ◌+◌, ◌≤◌, ◌≡◌, refl, Bool, true, false, List, [], ◌∷◌, none, some, String,
}
use fastapi_taskflow.Dict.{Dict, lookup, insert, erase}
use fastapi_taskflow.Models.{Obj, default_config}
use fastapi_taskflow.Manager.{resolve_executor}
use fastapi_taskflow.Periodic.{
  round, refill, schedule_within, cancel_one_off, schedules, refills, rounds, PeriodicScheduler,
  ScheduledEntry, init, start, one_off, fire_once, first_runs, add_one_off, push_entry,
}
use fastapi_taskflow.Registry.{get_by_name, get_config}
use fastapi_taskflow.Periodic.Schedules.{OnceCall, schedule_once, cancel_scheduled}
use fastapi_taskflow.Periodic.Withdrawn.{Withdrawn, schedule_once-cancel_scheduled}
use fastapi_taskflow.Periodic.Shared.{
  System, Step, saves, acts, act, claims, step, row, firings, schedulings, firings-schedulings,
}
use fastapi_taskflow.Periodic.Moved.{manager_of, stale-fires}
use fastapi_taskflow.Tests.{manager, noon, send_email}
use fastapi_taskflow.Tests.Backends.{empty_db}
use fastapi_taskflow.Tests.Managers.{request}
use fastapi_taskflow.Tests.Schedules.{hourly, auction, later_auction, fresh}

abbrev instance_one : PeriodicScheduler
instance_one = (start hourly 0 (init manager true)).0

abbrev armed_entry : ScheduledEntry
armed_entry = one_off 0 send_email default_config auction

-- It has the old deadline of the auction armed, the other instance nothing.
abbrev instance_two : PeriodicScheduler
instance_two = record instance_one {
  heap = armed_entry ∷ [];
  one_offs = ("close", armed_entry) ∷ [];
}

abbrev both : System
both = record { db = empty_db; instances = ("one", instance_one) ∷ ("two", instance_two) ∷ [] }

abbrev auction_steps : List Step
auction_steps =
    saves auction
    ∷ acts "one" (schedules 100 auction)
    ∷ acts "two" (refills (auction ∷ []))
    ∷ acts "one" (rounds fresh 20)
    ∷ acts "two" (rounds fresh 20)
    ∷ claims "two" fresh
    ∷ claims "one" fresh
    ∷ []

firings-schedulings_example : firings hourly "close" auction_steps both ≤ 0 + 1
unfolding schedulings lookup
firings-schedulings_example = firings-schedulings hourly "close" auction_steps both

-- The race of that run has a winner.
once_fired : firings hourly "close" auction_steps both ≡ 1
unfolding firings step lookup insert start first_runs init add_one_off get_by_name push_entry erase
    act round refill schedule_within cancel_one_off
once_fired = refl

-- The auction moves from 12 to 40 on one instance, and the other one goes on at 20.
abbrev after_move : System
after_move = step hourly (claims "two" fresh) (
    step hourly (acts "two" (rounds fresh 20)) (
      step hourly (acts "one" (schedules 100 later_auction))
        (step hourly (saves later_auction) both)))

stale-fires_example :
    (row "close" after_move ≡ false)
    × (manager_of (lookup "two" after_move.instances) ≡ some (fire_once fresh auction manager).0)
unfolding start first_runs init lookup
stale-fires_example =
    stale-fires hourly fresh 20 100 armed_entry auction later_auction [] "one" "two" instance_two
      both refl refl refl refl refl refl refl refl refl

abbrev once_call : OnceCall
once_call = record { request = request; run_at = noon; run_key = "close" }

abbrev picks : List Obj → Dict String Obj → Bool
picks xs d = true

schedule_once-cancel_scheduled_example : Withdrawn "close" (
    cancel_scheduled
      (some true)
      "close"
      (schedule_once picks none (some true) 100 once_call manager (some instance_one) empty_db).0
      (schedule_once picks none (some true) 100 once_call manager (some instance_one) empty_db).1)
unfolding schedule_once resolve_executor get_config lookup
schedule_once-cancel_scheduled_example =
    schedule_once-cancel_scheduled picks none (some true) 100 once_call manager (some instance_one)
      empty_db refl
