-- ===== src/Tests.antt =====
-- Runs of the definitions at fixed inputs, and each theorem at one of them.
pub mod Stores
pub mod Queues
pub mod Runs
pub mod Managers
pub mod Backends
pub mod Schedules
pub mod Sessions
pub mod Lifecycles
pub mod Servers
pub mod Workers
pub mod Clusters
pub mod Instances
use fastapi_taskflow.Base.{ℕ, Bool, true, false, List, [], ◌∷◌, Option, none, some, String}
use fastapi_taskflow.Models.{Datetime, TaskStatus, pending, TaskRecord, default_config}
use fastapi_taskflow.Registry.{Func}
use fastapi_taskflow.TaskQueue.{init}
use fastapi_taskflow.Manager.{TaskManager}
use fastapi_taskflow.Store.{TaskStore, new_record, default_options}

abbrev pub noon : Datetime
noon = record { at = 12; aware = true }

abbrev pub welcome : TaskRecord
welcome = new_record "t1" "send_email" (7 ∷ []) [] default_options noon

abbrev pub one_task : TaskStore
one_task = record {
  tasks = ("t1", welcome) ∷ [];
  shutting_down = false;
  queues = (3, none) ∷ [];
  scheduled = 0;
}

abbrev pub send_email : Func
send_email = record { id = 1; name = "send_email"; is_coroutine = true }

-- A manager with one named queue that takes one task.
abbrev pub manager : TaskManager
manager = record {
  store = one_task;
  registry = record { by_id = (1, default_config) ∷ []; by_name = ("send_email", send_email) ∷ [] };
  queues = ("default", init "default" (record { concurrency = none; max_size = some 1 })) ∷ [];
  priority_queue = [];
  priority_seq = 0;
  started = [];
  background = [];
  has_scheduler = true;
  requeue_pending = false;
}
