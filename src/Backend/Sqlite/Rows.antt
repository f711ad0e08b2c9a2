-- ===== src/Backend/Sqlite/Rows.antt =====
-- backends/sqlite.py: the tables, and what `SqliteBackend` writes of tasks.
use fastapi_taskflow.Base.{ℕ, List, [], ◌∷◌, map, Option, none, some, String, string_key}
use fastapi_taskflow.Base.Int.{ℤ}
use fastapi_taskflow.Dict.{Dict, insert}
use fastapi_taskflow.Models.{Obj, Bytes, Datetime, TaskStatus, TaskRecord, duration, ScheduledOnce}

-- A row of `task_snapshots`.
pub record Row : Type 0 where
  pub task_id : String
  pub func_name : String
  pub status : TaskStatus
  pub created_at : Datetime
  pub start_time : Option Datetime
  pub end_time : Option Datetime
  pub duration : Option ℤ
  pub retries_used : ℕ
  pub error : Option String
  pub snapshotted_at : ℕ
  pub args : List Obj
  pub kwargs : Dict String Obj
  pub logs : List String
  pub stacktrace : Option String
  pub encrypted_payload : Option Bytes
  pub source : Option String
  pub priority : Option ℤ
  pub executor : Option String
  pub queue : Option String

-- A row of `task_pending_requeue`.
pub record PendingRow : Type 0 where
  pub task_id : String
  pub func_name : String
  pub created_at : Datetime
  pub retries_used : ℕ
  pub args : List Obj
  pub kwargs : Dict String Obj
  pub encrypted_payload : Option Bytes
  pub queue : Option String

pub record Sqlite : Type 0 where
  pub snapshots : Dict String Row
  pub pendings : Dict String PendingRow
  pub idempotency_keys : Dict String String
  -- `expires_at` by lock key.
  pub schedule_locks : Dict String ℕ
  pub metadata : Dict String String
  pub scheduled_once : Dict String ScheduledOnce

-- `payload.decode() if payload else None`, and back.
abbrev pub some_bytes : Option Bytes → Option Bytes
some_bytes none = none
some_bytes (some []) = none
some_bytes (some (b ∷ bs)) = some (b ∷ bs)

module _ (reload : Obj → Obj) where
  abbrev pub reload_values : Dict String Obj → Dict String Obj
  reload_values [] = []
  reload_values (p ∷ m) = (p.0, reload p.1) ∷ reload_values m

  unfoldable pub to_row : ℕ → TaskRecord → Row
  to_row now t = record {
    task_id = t.task_id;
    func_name = t.func_name;
    status = t.status;
    created_at = t.created_at;
    start_time = t.start_time;
    end_time = t.end_time;
    duration = duration t;
    retries_used = t.retries_used;
    error = t.error;
    snapshotted_at = now;
    args = map reload t.args;
    kwargs = reload_values t.kwargs;
    logs = t.logs;
    stacktrace = t.stacktrace;
    encrypted_payload = some_bytes t.encrypted_payload;
    source = some t.source;
    priority = t.priority;
    executor = t.executor;
    queue = some t.queue;
  }

  unfoldable pub to_pending_row : TaskRecord → PendingRow
  to_pending_row t = record {
    task_id = t.task_id;
    func_name = t.func_name;
    created_at = t.created_at;
    retries_used = t.retries_used;
    args = map reload t.args;
    kwargs = reload_values t.kwargs;
    encrypted_payload = some_bytes t.encrypted_payload;
    queue = some t.queue;
  }

  -- `_save_sync`
  unfoldable pub save : ℕ → List TaskRecord → Sqlite → Sqlite
  unfolding to_row
  save now [] db = db
  save now (t ∷ ts) db =
      save now ts (record db { snapshots = insert t.task_id (to_row now t) db.snapshots })

  abbrev pub put_pendings : List TaskRecord → Dict String PendingRow → Dict String PendingRow
  put_pendings [] m = m
  put_pendings (t ∷ ts) m = put_pendings ts (insert t.task_id (to_pending_row t) m)

  -- `_save_pending_sync`: the table is emptied first.
  unfoldable pub save_pending : List TaskRecord → Sqlite → Sqlite
  unfolding to_pending_row
  save_pending ts db = record db { pendings = put_pendings ts [] }
