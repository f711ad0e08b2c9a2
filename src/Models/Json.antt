-- ===== src/Models/Json.antt =====
-- models.py: `to_dict` and `from_dict`, over the JSON values that they use. An ISO text stands for
-- its datetime, and `from_dict` is modelled on values of the type that its field wants.
use fastapi_taskflow.Base.{
  ℕ, List, [], ◌∷◌, Option, none, some, String, if◌then◌else◌, key_error, value_error, type_error,
  Result, ok, raise, ◌>>=◌, ok_or, ◌==◌, string_key,
}
use fastapi_taskflow.Base.Int.{ℤ}
use fastapi_taskflow.Dict.{Dict, lookup}
use fastapi_taskflow.Models.{
  TaskStatus, pending, running, success, failed, interrupted, cancelled, rejected, TaskRecord,
  Datetime, to_utc, duration,
}

pub data Json : Type 0 where
  null : Json
  num : ℕ → Json
  int : ℤ → Json
  str : String → Json
  iso : Datetime → Json
  texts : List String → Json
  labels : Dict String String → Json

-- `status.value`
unfoldable pub value : TaskStatus → String
value pending = "pending"
value running = "running"
value success = "success"
value failed = "failed"
value interrupted = "interrupted"
value cancelled = "cancelled"
value rejected = "rejected"

-- `TaskStatus(s)`
unfoldable pub parse_status : String → Result TaskStatus
parse_status s =
    if s == "pending"
    then ok pending
    else if s == "running"
    then ok running
    else if s == "success"
    then ok success
    else if s == "failed"
    then ok failed
    else if s == "interrupted"
    then ok interrupted
    else if s == "cancelled"
    then ok cancelled
    else if s == "rejected"
    then ok rejected
    else raise value_error

unfoldable pub iso_utc : Option Datetime → Json
iso_utc none = null
iso_utc (some dt) = if dt.aware then iso dt else iso (to_utc dt)

abbrev pub opt_str : Option String → Json
opt_str none = null
opt_str (some s) = str s

abbrev pub opt_int : Option ℤ → Json
opt_int none = null
opt_int (some i) = int i

unfoldable pub to_dict : TaskRecord → Dict String Json
unfolding iso_utc duration to_utc
to_dict r =
    ("task_id", str r.task_id)
    ∷ ("func_name", str r.func_name)
    ∷ ("status", str (value r.status))
    ∷ ("created_at", iso_utc (some r.created_at))
    ∷ ("start_time", iso_utc r.start_time)
    ∷ ("end_time", iso_utc r.end_time)
    ∷ ("duration", opt_int (duration r))
    ∷ ("retries_used", num r.retries_used)
    ∷ ("error", opt_str r.error)
    ∷ ("logs", texts r.logs)
    ∷ ("stacktrace", opt_str r.stacktrace)
    ∷ ("tags", labels r.tags)
    ∷ ("source", str r.source)
    ∷ ("priority", opt_int r.priority)
    ∷ ("executor", opt_str r.executor)
    ∷ ("queue", str r.queue)
    ∷ []

-- `data[k]`
abbrev pub need : String → Dict String Json → Result Json
need k d = ok_or (key_error k) (lookup k d)

abbrev pub as_str : Json → Result String
as_str (str s) = ok s
as_str _ = raise type_error

abbrev pub as_opt_str : Option Json → Result (Option String)
as_opt_str none = ok none
as_opt_str (some null) = ok none
as_opt_str (some (str s)) = ok (some s)
as_opt_str (some _) = raise type_error

abbrev pub as_opt_int : Option Json → Result (Option ℤ)
as_opt_int none = ok none
as_opt_int (some null) = ok none
as_opt_int (some (int i)) = ok (some i)
as_opt_int (some _) = raise type_error

-- `datetime.fromisoformat(v)`
abbrev pub as_time : Json → Result Datetime
as_time (iso dt) = ok dt
as_time (str s) = raise value_error
as_time _ = raise type_error

-- `_dt(v)`: a falsy value is no time.
abbrev pub as_opt_time : Option Json → Result (Option Datetime)
as_opt_time none = ok none
as_opt_time (some null) = ok none
as_opt_time (some (iso dt)) = ok (some dt)
as_opt_time (some (str s)) = if s == "" then ok none else raise value_error
as_opt_time (some _) = raise type_error

abbrev pub as_str_or : String → Option Json → Result String
as_str_or d none = ok d
as_str_or d (some (str s)) = ok s
as_str_or d (some _) = raise type_error

abbrev pub as_num_or : ℕ → Option Json → Result ℕ
as_num_or d none = ok d
as_num_or d (some (num n)) = ok n
as_num_or d (some _) = raise type_error

abbrev pub as_texts : Option Json → Result (List String)
as_texts none = ok []
as_texts (some (texts l)) = ok l
as_texts (some _) = raise type_error

abbrev pub as_labels : Option Json → Result (Dict String String)
as_labels none = ok []
as_labels (some (labels l)) = ok l
as_labels (some _) = raise type_error

unfoldable pub from_dict : Dict String Json → Result TaskRecord
unfolding lookup parse_status
from_dict d = do
  task_id ← need "task_id" d >>= as_str
  func_name ← need "func_name" d >>= as_str
  status ← need "status" d >>= as_str >>= parse_status
  created_at ← need "created_at" d >>= as_time
  start_time ← as_opt_time (lookup "start_time" d)
  end_time ← as_opt_time (lookup "end_time" d)
  retries_used ← as_num_or 0 (lookup "retries_used" d)
  error ← as_opt_str (lookup "error" d)
  logs ← as_texts (lookup "logs" d)
  stacktrace ← as_opt_str (lookup "stacktrace" d)
  tags ← as_labels (lookup "tags" d)
  source ← as_str_or "manual" (lookup "source" d)
  priority ← as_opt_int (lookup "priority" d)
  executor ← as_opt_str (lookup "executor" d)
  queue ← as_str_or "default" (lookup "queue" d)
  ok (record {
    task_id = task_id;
    func_name = func_name;
    status = status;
    args = [];
    kwargs = [];
    created_at = created_at;
    start_time = start_time;
    end_time = end_time;
    retries_used = retries_used;
    error = error;
    logs = logs;
    stacktrace = stacktrace;
    idempotency_key = none;
    tags = tags;
    encrypted_payload = none;
    source = source;
    priority = priority;
    executor = executor;
    queue = queue;
  })
