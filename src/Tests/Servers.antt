-- ===== src/Tests/Servers.antt =====
-- The Redis backend at fixed inputs.
use fastapi_taskflow.Base.{◌≡◌, refl, [], ◌∷◌, some, or_else, arith}
use fastapi_taskflow.Manager.Merged.{find_task, last_with}
use fastapi_taskflow.Backend.Redis.{Redis, save, load}
use fastapi_taskflow.Backend.Redis.Loads.{opt_kept, load-save_redis}
use fastapi_taskflow.Tests.{welcome}
use fastapi_taskflow.Tests.Backends.{json}

abbrev empty_server : Redis
empty_server = record {
  hashes = [];
  index = [];
  pendings = [];
  pending_index = [];
  scheduled = [];
  scheduled_index = [];
  idempotency_keys = [];
  schedule_locks = [];
  metadata = [];
}

load-save_redis_example :
    find_task "t1" (load 5 (save json (some 60) 5 (welcome ∷ []) empty_server))
    ≡ or_else
        (opt_kept json (some 60) 5 (last_with "t1" (welcome ∷ [])))
        (find_task "t1" (load 5 empty_server))
load-save_redis_example =
    load-save_redis json (some 60) 5 (welcome ∷ []) empty_server "t1" tt (omega arith) refl
