-- ===== src/Backend/Redis/Written.antt =====
-- backends/redis.py: what `RedisBackend` writes.
use fastapi_taskflow.Base.{
  ℕ, ◌+◌, Bool, false, List, [], ◌∷◌, map, Option, none, some, String, if◌then◌else◌, leb, ◌==◌,
  string_key,
}
use fastapi_taskflow.Base.Int.{ℤ}
use fastapi_taskflow.Dict.{Dict, lookup, insert, erase}
use fastapi_taskflow.Models.{Obj, Bytes, Datetime, TaskStatus, TaskRecord, duration, ScheduledOnce}
use fastapi_taskflow.Backend.Sqlite.{some_bytes, reload_values}

-- `x or ""` when written, `x or None` when read.
abbrev pub some_text : Option String → Option String
some_text none = none
some_text (some s) = if s == "" then none else some s

-- The mapping of `_record_to_mapping`.
pub record Hash : Type 0 where
  pub task_id : String
  pub func_name : String
  pub status : TaskStatus
  pub created_at : Datetime
  pub start_time : Option Datetime
  pub end_time : Option Datetime
  pub duration : Option ℤ
  pub retries_used : ℕ
  pub error : Option String
  pub args : List Obj
  pub kwargs : Dict String Obj
  pub logs : List String
  pub stacktrace : Option String
  pub encrypted_payload : Option Bytes
  pub source : String
  pub priority : Option ℤ
  pub executor : Option String
  pub queue : String

-- A hash of the history under its key, with the end of its life.
pub record Stored : Type 0 where
  pub hash : Hash
  pub expires_at : Option ℕ

-- The mapping of `save_pending`.
pub record PendingHash : Type 0 where
  pub task_id : String
  pub func_name : String
  pub created_at : Datetime
  pub retries_used : ℕ
  pub args : List Obj
  pub kwargs : Dict String Obj
  pub encrypted_payload : Option Bytes
  pub queue : String

abbrev pub Members : Type 0
Members = Dict String (Unit {0})

pub record Redis : Type 0 where
  pub hashes : Dict String Stored
  pub index : Members
  pub pendings : Dict String PendingHash
  pub pending_index : Members
  pub scheduled : Dict String ScheduledOnce
  -- The sorted set of the one-offs, with its scores.
  pub scheduled_index : Dict String ℕ
  pub idempotency_keys : Dict String String
  pub schedule_locks : Dict String ℕ
  pub metadata : Dict String String

abbrev pub is_over : Option ℕ → ℕ → Bool
is_over none now = false
is_over (some e) now = leb e now

abbrev pub if_live : ℕ → Option Stored → Option Stored
if_live now none = none
if_live now (some x) = if is_over x.expires_at now then none else some x

abbrev pub hash_of : Option Stored → Option Hash
hash_of none = none
hash_of (some x) = some x.hash

-- `HGETALL` of a key of the history.
unfoldable pub hgetall : ℕ → String → Redis → Option Hash
hgetall now id db = hash_of (if_live now (lookup id db.hashes))

-- `HSET`, which keeps the end of life of a key that is there.
abbrev pub kept_expiry : Option Stored → Option ℕ
kept_expiry none = none
kept_expiry (some x) = x.expires_at

-- `EXPIRE`, sent when the backend has a time to live.
abbrev pub expire : Option ℕ → ℕ → Option ℕ → Option ℕ
expire none now e = e
expire (some ttl) now e = some (now + ttl)

-- `DEL` of the hashes that an index names.
abbrev pub delete_named : Members → Dict String PendingHash → Dict String PendingHash
delete_named [] m = m
delete_named (k ∷ ks) m = delete_named ks (erase k.0 m)

module _ (reload : Obj → Obj) where
  unfoldable pub record_to_mapping : TaskRecord → Hash
  record_to_mapping t = record {
    task_id = t.task_id;
    func_name = t.func_name;
    status = t.status;
    created_at = t.created_at;
    start_time = t.start_time;
    end_time = t.end_time;
    duration = duration t;
    retries_used = t.retries_used;
    error = some_text t.error;
    args = map reload t.args;
    kwargs = reload_values reload t.kwargs;
    logs = t.logs;
    stacktrace = some_text t.stacktrace;
    encrypted_payload = some_bytes t.encrypted_payload;
    source = t.source;
    priority = t.priority;
    executor = some_text t.executor;
    queue = t.queue;
  }

  -- `save`, for a backend with the time to live `ttl`.
  unfoldable pub save : Option ℕ → ℕ → List TaskRecord → Redis → Redis
  unfolding record_to_mapping
  save ttl now [] db = db
  save ttl now (t ∷ ts) db =
      let e = expire ttl now (kept_expiry (if_live now (lookup t.task_id db.hashes))) in
      save ttl now ts (record db {
        hashes = insert t.task_id (record { hash = record_to_mapping t; expires_at = e }) db.hashes;
        index = insert t.task_id tt db.index;
      })

  unfoldable pub pending_mapping : TaskRecord → PendingHash
  pending_mapping t = record {
    task_id = t.task_id;
    func_name = t.func_name;
    created_at = t.created_at;
    retries_used = t.retries_used;
    args = map reload t.args;
    kwargs = reload_values reload t.kwargs;
    encrypted_payload = some_bytes t.encrypted_payload;
    queue = t.queue;
  }

  abbrev pub put_pendings : List TaskRecord → Dict String PendingHash → Dict String PendingHash
  put_pendings [] m = m
  put_pendings (t ∷ ts) m = put_pendings ts (insert t.task_id (pending_mapping t) m)

  abbrev pub put_ids : List TaskRecord → Members → Members
  put_ids [] m = m
  put_ids (t ∷ ts) m = put_ids ts (insert t.task_id tt m)

  unfoldable pub save_pending : List TaskRecord → Redis → Redis
  unfolding pending_mapping
  save_pending ts db = record db {
    pendings = put_pendings ts (delete_named db.pending_index db.pendings);
    pending_index = put_ids ts [];
  }

  unfoldable pub save_scheduled : ScheduledOnce → Redis → Redis
  save_scheduled e db = record db {
    scheduled =
        insert e.run_key
          (record e {
            args = map reload e.args;
            kwargs = reload_values reload e.kwargs;
            encrypted_payload = some_bytes e.encrypted_payload;
            idempotency_key = some_text e.idempotency_key;
          })
          (erase e.run_key db.scheduled);
    scheduled_index = insert e.run_key e.fire_at.at db.scheduled_index;
  }
