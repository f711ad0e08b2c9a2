-- ===== src/Backend/Sqlite.antt =====
-- backends/sqlite.py: the tables and the statements of `SqliteBackend`, one per method. A statement
-- runs in a transaction, so it is one step on the database.
--   A table is a dictionary by its primary key. Times are numbers: the ISO texts of one column have
--   one form, and compare as the times do. `reload` is what JSON gives back for an argument
--   (`json.loads(json.dumps(x, default=repr))`); statuses are kept as such (`parse_status-value`).
pub mod Rows
pub use fastapi_taskflow.Backend.Sqlite.Rows.{
  Row, PendingRow, Sqlite, some_bytes, reload_values, put_pendings,
}
unfoldable pub use fastapi_taskflow.Backend.Sqlite.Rows.{to_row, to_pending_row, save, save_pending}
use fastapi_taskflow.Base.{
  ℕ, ◌+◌, Bool, true, false, ◌&&◌, List, [], ◌∷◌, map, Option, none, some, String, if◌then◌else◌,
  ltb, leb, is_some, string_key,
}
use fastapi_taskflow.Base.Int.{ℤ}
use fastapi_taskflow.Dict.{Dict, lookup, insert, erase}
use fastapi_taskflow.Models.{
  Obj, Bytes, Datetime, TaskStatus, pending, success, failed, interrupted, TaskRecord, duration,
  ScheduledOnce,
}
use fastapi_taskflow.Registry.{or_text}
use fastapi_taskflow.Backend.{in_ids}

-- The record of a row, as `_load_sync` builds it.
unfoldable pub of_row : Row → TaskRecord
of_row d = record {
  task_id = d.task_id;
  func_name = d.func_name;
  status = d.status;
  args = d.args;
  kwargs = d.kwargs;
  created_at = d.created_at;
  start_time = d.start_time;
  end_time = d.end_time;
  retries_used = d.retries_used;
  error = d.error;
  logs = d.logs;
  stacktrace = d.stacktrace;
  idempotency_key = none;
  tags = [];
  encrypted_payload = some_bytes d.encrypted_payload;
  source = or_text d.source "manual";
  priority = d.priority;
  executor = d.executor;
  queue = or_text d.queue "default";
}

-- `_load_pending_sync`
unfoldable pub of_pending_row : PendingRow → TaskRecord
of_pending_row d = record {
  task_id = d.task_id;
  func_name = d.func_name;
  status = pending;
  args = d.args;
  kwargs = d.kwargs;
  created_at = d.created_at;
  start_time = none;
  end_time = none;
  retries_used = d.retries_used;
  error = none;
  logs = [];
  stacktrace = none;
  idempotency_key = none;
  tags = [];
  encrypted_payload = some_bytes d.encrypted_payload;
  source = "manual";
  priority = none;
  executor = none;
  queue = or_text d.queue "default";
}

unfoldable pub load : Sqlite → List TaskRecord
unfolding of_row
load db = map (λ p. of_row p.1) db.snapshots

unfoldable pub load_pending : Sqlite → List TaskRecord
unfolding of_pending_row
load_pending db = map (λ p. of_pending_row p.1) db.pendings

unfoldable pub clear_pending : Sqlite → Sqlite
clear_pending db = record db { pendings = [] }

-- `_claim_pending_sync`: the row is deleted, and the answer is whether there was one.
unfoldable pub claim_pending : String → Sqlite → Sqlite × Bool
claim_pending id db =
    (record db { pendings = erase id db.pendings }, is_some (lookup id db.pendings))

-- `_save_scheduled_sync`, `_delete_scheduled_sync` (which is also `claim_scheduled`), `_load_due_sync`.
unfoldable pub save_scheduled : ScheduledOnce → Sqlite → Sqlite
save_scheduled e db = record db { scheduled_once = insert e.run_key e db.scheduled_once }

unfoldable pub delete_scheduled : String → Sqlite → Sqlite × Bool
delete_scheduled k db =
    (record db { scheduled_once = erase k db.scheduled_once }, is_some (lookup k db.scheduled_once))

abbrev by_fire_at : ScheduledOnce → List ScheduledOnce → List ScheduledOnce
by_fire_at e [] = e ∷ []
by_fire_at e (x ∷ xs) = if leb e.fire_at.at x.fire_at.at then e ∷ x ∷ xs else x ∷ by_fire_at e xs

abbrev due : ℕ → Dict String ScheduledOnce → List ScheduledOnce
due before [] = []
due before (p ∷ m) =
    if leb p.1.fire_at.at before then by_fire_at p.1 (due before m) else due before m

unfoldable pub load_due : ℕ → Sqlite → List ScheduledOnce
load_due before db = due before db.scheduled_once

unfoldable pub check_idempotency_key : String → Sqlite → Option String
check_idempotency_key key db = lookup key db.idempotency_keys

-- `INSERT OR IGNORE`
unfoldable pub record_idempotency_key : String → String → Sqlite → Sqlite
record_idempotency_key key task_id db =
    if is_some (lookup key db.idempotency_keys)
    then db
    else record db { idempotency_keys = insert key task_id db.idempotency_keys }

abbrev pub drop_rows : (Row → Bool) → Dict String Row → Dict String Row
drop_rows p [] = []
drop_rows p (e ∷ m) = if p e.1 then drop_rows p m else e ∷ drop_rows p m

abbrev count_rows : (Row → Bool) → Dict String Row → ℕ
count_rows p [] = 0
count_rows p (e ∷ m) = if p e.1 then 1 + count_rows p m else count_rows p m

unfoldable pub delete_records : List String → Sqlite → Sqlite × ℕ
delete_records ids db =
    let p : Row → Bool = λ d. in_ids d.task_id ids in
    (record db { snapshots = drop_rows p db.snapshots }, count_rows p db.snapshots)

abbrev pub is_old_status : TaskStatus → Bool
is_old_status success = true
is_old_status failed = true
is_old_status interrupted = true
is_old_status _ = false

abbrev pub row_is_old : ℕ → Row → Bool
row_is_old cutoff d = elim d.end_time [
  | none ↦ false
  | some e ↦ ltb e.at cutoff && is_old_status d.status
]

-- `_delete_before_sync`
unfoldable pub delete_before : ℕ → Sqlite → Sqlite × ℕ
delete_before cutoff db = (
  record db { snapshots = drop_rows (row_is_old cutoff) db.snapshots },
  count_rows (row_is_old cutoff) db.snapshots,
)

abbrev is_success : TaskStatus → Bool
is_success success = true
is_success _ = false

abbrev completed : List String → Dict String Row → List String
completed ids [] = []
completed ids (p ∷ m) =
    if in_ids p.1.task_id ids && is_success p.1.status
    then p.1.task_id ∷ completed ids m
    else completed ids m

unfoldable pub completed_ids : List String → Sqlite → List String
completed_ids ids db = completed ids db.snapshots

abbrev pub free : Option ℕ → ℕ → Bool
free none now = true
free (some e) now = leb e now

-- `_acquire_schedule_lock_sync`: an expired lock is deleted, and the new one inserted if none is left.
unfoldable pub acquire_schedule_lock : String → ℕ → ℕ → Sqlite → Sqlite × Bool
acquire_schedule_lock key ttl now db =
    if free (lookup key db.schedule_locks) now
    then (record db { schedule_locks = insert key (now + ttl) (erase key db.schedule_locks) }, true)
    else (db, false)

unfoldable pub save_metadata : String → String → Sqlite → Sqlite
save_metadata k v db = record db { metadata = insert k v db.metadata }

unfoldable pub load_metadata : String → Sqlite → Option String
load_metadata k db = lookup k db.metadata
