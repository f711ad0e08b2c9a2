-- ===== src/Backend/Redis.antt =====
-- backends/redis.py: the keys that `RedisBackend` writes and one function per method.
--   A method sends one pipeline, and is one step on the server. Hashes and strings are dictionaries
--   by what the key is made of, sets are dictionaries without values. A hash holds texts: an empty
--   one is `none` where the code reads it back as `None`. Times are numbers, as in the SQLite model.
--   A key whose time to live is over is not there.
pub mod Loads
pub mod Pendings
pub mod Written
pub use fastapi_taskflow.Backend.Redis.Written.{
  some_text, Hash, Stored, PendingHash, Members, Redis, is_over, if_live, hash_of, kept_expiry,
  expire, delete_named, put_pendings, put_ids,
}
unfoldable pub use fastapi_taskflow.Backend.Redis.Written.{
  hgetall, record_to_mapping, save, pending_mapping, save_pending, save_scheduled,
}
use fastapi_taskflow.Base.{
  ℕ, ◌+◌, Bool, true, false, not, ◌&&◌, ◌||◌, List, [], ◌∷◌, map, Option, none, some, String,
  if◌then◌else◌, ltb, leb, is_some, length, ◌==◌, string_key,
}
use fastapi_taskflow.Base.Int.{ℤ}
use fastapi_taskflow.Dict.{Dict, lookup, insert, erase}
use fastapi_taskflow.Models.{
  Obj, Bytes, Datetime, TaskStatus, pending, success, failed, interrupted, TaskRecord, duration,
  ScheduledOnce,
}
use fastapi_taskflow.Registry.{or_text}
use fastapi_taskflow.Backend.Sqlite.{some_bytes, reload_values, is_old_status}

-- `_mapping_to_record`
unfoldable pub mapping_to_record : Hash → TaskRecord
mapping_to_record d = record {
  task_id = d.task_id;
  func_name = d.func_name;
  status = d.status;
  args = d.args;
  kwargs = d.kwargs;
  created_at = d.created_at;
  start_time = d.start_time;
  end_time = d.end_time;
  retries_used = d.retries_used;
  error = some_text d.error;
  logs = d.logs;
  stacktrace = some_text d.stacktrace;
  idempotency_key = none;
  tags = [];
  encrypted_payload = some_bytes d.encrypted_payload;
  source = or_text (some d.source) "manual";
  priority = d.priority;
  executor = some_text d.executor;
  queue = or_text (some d.queue) "default";
}

-- The record that `load_pending` makes of a hash.
unfoldable pub of_pending : PendingHash → TaskRecord
of_pending d = record {
  task_id = d.task_id;
  func_name = d.func_name;
  status = pending;
  args = d.args;
  kwargs = d.kwargs;
  created_at = d.created_at;
  start_time = none;
  end_time = none;
  retries_used = d.retries_used;
  error = none;
  logs = [];
  stacktrace = none;
  idempotency_key = none;
  tags = [];
  encrypted_payload = some_bytes d.encrypted_payload;
  source = "manual";
  priority = none;
  executor = none;
  queue = or_text (some d.queue) "default";
}

-- `if mapping.get("task_id"): records.append(...)`
abbrev pub append_named : Option TaskRecord → List TaskRecord → List TaskRecord
append_named none rs = rs
append_named (some r) rs = if r.task_id == "" then rs else r ∷ rs

abbrev pub opt_record : Option Hash → Option TaskRecord
opt_record none = none
opt_record (some d) = some (mapping_to_record d)

abbrev pub opt_pending : Option PendingHash → Option TaskRecord
opt_pending none = none
opt_pending (some d) = some (of_pending d)

-- The records of the members of an index, as the look-up `get` finds them.
unfoldable pub gather : (String → Option TaskRecord) → Members → List TaskRecord
gather get [] = []
gather get (k ∷ ks) = append_named (get k.0) (gather get ks)

unfoldable pub load : ℕ → Redis → List TaskRecord
unfolding hgetall mapping_to_record gather
load now db = gather (λ id. opt_record (hgetall now id db)) db.index

unfoldable pub load_pending : Redis → List TaskRecord
unfolding of_pending gather
load_pending db = gather (λ id. opt_pending (lookup id db.pendings)) db.pending_index

unfoldable pub clear_pending : Redis → Redis
clear_pending db = record db {
  pendings = delete_named db.pending_index db.pendings;
  pending_index = [];
}

-- `DEL` and `SREM` in one pipeline; the answer is whether the hash was there.
unfoldable pub claim_pending : String → Redis → Redis × Bool
claim_pending id db = (
  record db { pendings = erase id db.pendings; pending_index = erase id db.pending_index },
  is_some (lookup id db.pendings),
)

unfoldable pub delete_scheduled : String → Redis → Redis × Bool
delete_scheduled k db = (
  record db { scheduled = erase k db.scheduled; scheduled_index = erase k db.scheduled_index },
  is_some (lookup k db.scheduled),
)

unfoldable pub claim_scheduled : String → Redis → Redis × Bool
unfolding delete_scheduled
claim_scheduled k db = delete_scheduled k db

unfoldable pub check_idempotency_key : String → Redis → Option String
check_idempotency_key key db = lookup key db.idempotency_keys

-- `SET NX`
unfoldable pub record_idempotency_key : String → String → Redis → Redis
record_idempotency_key key task_id db =
    if is_some (lookup key db.idempotency_keys)
    then db
    else record db { idempotency_keys = insert key task_id db.idempotency_keys }

-- `_mapping_to_scheduled`
abbrev pub of_scheduled : ScheduledOnce → ScheduledOnce
of_scheduled e = record e { queue = or_text (some e.queue) "default" }

-- `ZRANGEBYSCORE`: the members up to a score, in the order of the scores (the ties are in the
-- order of their keys on the server).
abbrev pub by_score : String × ℕ → List (String × ℕ) → List (String × ℕ)
by_score p [] = p ∷ []
by_score p (q ∷ qs) = if leb p.1 q.1 then p ∷ q ∷ qs else q ∷ by_score p qs

unfoldable pub up_to : ℕ → Dict String ℕ → List (String × ℕ)
up_to before [] = []
up_to before (p ∷ m) = if leb p.1 before then by_score p (up_to before m) else up_to before m

abbrev pub add_due :
    String
    → Option ScheduledOnce
    → List ScheduledOnce × List String
    → List ScheduledOnce × List String
add_due k none (es, stale) = (es, k ∷ stale)
add_due k (some e) (es, stale) = (of_scheduled e ∷ es, stale)

unfoldable pub split_due :
    Dict String ScheduledOnce → List (String × ℕ) → List ScheduledOnce × List String
split_due m [] = ([], [])
split_due m (p ∷ ps) = add_due p.0 (lookup p.0 m) (split_due m ps)

abbrev pub zrem : List String → Dict String ℕ → Dict String ℕ
zrem [] m = m
zrem (k ∷ ks) m = zrem ks (erase k m)

-- `load_due`, which drops members of the index without a hash.
unfoldable pub load_due : ℕ → Redis → Redis × List ScheduledOnce
unfolding up_to split_due
load_due before db =
    let (es, stale) = split_due db.scheduled (up_to before db.scheduled_index) in
    (record db { scheduled_index = zrem stale db.scheduled_index }, es)

abbrev pub hash_is_old : ℕ → Option Hash → Bool
hash_is_old cutoff none = false
hash_is_old cutoff (some d) = elim d.end_time [
  | none ↦ false
  | some e ↦ ltb e.at cutoff && is_old_status d.status
]

abbrev pub old_members : ℕ → ℕ → Redis → Members → List String
old_members cutoff now db [] = []
old_members cutoff now db (k ∷ ks) =
    if hash_is_old cutoff (hash_of (if_live now (lookup k.0 db.hashes)))
    then k.0 ∷ old_members cutoff now db ks
    else old_members cutoff now db ks

-- `DEL` and `SREM` for each id.
unfoldable pub delete_records : List String → Redis → Redis
delete_records [] db = db
delete_records (k ∷ ks) db =
    delete_records ks (record db { hashes = erase k db.hashes; index = erase k db.index })

unfoldable pub delete_before : ℕ → ℕ → Redis → Redis × ℕ
unfolding delete_records
delete_before cutoff now db =
    let ids = old_members cutoff now db db.index in (delete_records ids db, length ids)

abbrev pub is_success : Option Hash → Bool
is_success none = false
is_success (some d) = elim d.status [ success ↦ true | _ ↦ false ]

unfoldable pub completed_ids : ℕ → List String → Redis → List String
unfolding hgetall
completed_ids now [] db = []
completed_ids now (k ∷ ks) db =
    if is_success (hgetall now k db) then k ∷ completed_ids now ks db else completed_ids now ks db

-- `SET NX EX`
unfoldable pub acquire_schedule_lock : String → ℕ → ℕ → Redis → Redis × Bool
acquire_schedule_lock key ttl now db =
    if is_over (lookup key db.schedule_locks) now || not (is_some (lookup key db.schedule_locks))
    then (record db { schedule_locks = insert key (now + ttl) db.schedule_locks }, true)
    else (db, false)

unfoldable pub save_metadata : String → String → Redis → Redis
save_metadata k v db = record db { metadata = insert k v db.metadata }

unfoldable pub load_metadata : String → Redis → Option String
load_metadata k db = lookup k db.metadata
