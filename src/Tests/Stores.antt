-- ===== src/Tests/Stores.antt =====
-- The store and the models at fixed inputs.
use fastapi_taskflow.Base.{◌≡◌, refl, List, [], ◌∷◌, some}
use fastapi_taskflow.Dict.{lookup}
use fastapi_taskflow.Models.{running, success}
use fastapi_taskflow.Models.Json.{to_dict, from_dict}
use fastapi_taskflow.Models.RoundTrip.{displayed, from_dict-to_dict}
use fastapi_taskflow.Base.{ok}
use fastapi_taskflow.Store.{TaskStore, Field, sentinel, notify_shutdown}
use fastapi_taskflow.Store.Calls.{Call, updates, loop_runs, deletes, step, run}
use fastapi_taskflow.Store.Records.{IsValid, get-step, view, expected}
use fastapi_taskflow.Store.Sse.{shutdown-reaches-client, queue_of}
use fastapi_taskflow.Tests.{one_task, welcome, noon}

from_dict-to_dict_example : from_dict (to_dict welcome) ≡ ok (displayed welcome)
from_dict-to_dict_example = from_dict-to_dict welcome

one_task-IsValid : IsValid one_task
unfolding lookup
one_task-IsValid = record { distinct = (refl, tt); own_id = (refl, tt) }

abbrev history : List Call
history = updates "t1" (Field.status running ∷ []) ∷ loop_runs ∷ deletes "t1" ∷ []

get-step_example :
    view (step (updates "t1" (Field.status running ∷ [])) one_task) "t1"
    ≡ expected (updates "t1" (Field.status running ∷ [])) (view one_task) "t1"
get-step_example =
    get-step one_task one_task-IsValid (updates "t1" (Field.status running ∷ [])) "t1"

-- One record that ended before the cutoff, one that did not.
abbrev old_task : TaskStore
old_task = record one_task {
  tasks =
      ("t0", record welcome { task_id = "t0"; status = success; end_time = some noon })
      ∷ ("t1", welcome)
      ∷ [];
}

shutdown-reaches-client_example :
    queue_of 3 (run history (notify_shutdown one_task)) ≡ some (some sentinel)
unfolding lookup
shutdown-reaches-client_example =
    shutdown-reaches-client 3 one_task history refl (tt, (tt, (tt, tt)))
