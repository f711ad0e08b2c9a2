-- ===== src/Store.antt =====
-- store.py: `TaskStore`. Each method runs under its lock, so it is one step on the store. The queues
-- of the SSE clients (asyncio queues of size one) are slots that hold one message or none.
--   `_notify_change` schedules `_fan_out` on the event loop: `scheduled` counts the calls that wait.
pub mod Calls
pub mod Records
pub mod Retention
pub mod Sse
use fastapi_taskflow.Base.{
  ℕ, suc, ◌-◌, ◌≡◌, Bool, true, false, not, ◌&&◌, ◌||◌, List, [], ◌∷◌, ◌++◌, map, Option, none,
  some, String, if◌then◌else◌, ltb, is_some, or_default, length, keep, ◌==◌, string_key, nat_key,
}
use fastapi_taskflow.Base.Int.{ℤ}
use fastapi_taskflow.Dict.{Dict, lookup, insert, erase, erase_all}
use fastapi_taskflow.Models.{
  Obj, Bytes, Datetime, to_naive, TaskStatus, pending, running, success, failed, interrupted,
  cancelled, rejected, TaskRecord,
}

-- What a client's queue may hold: "change", or the sentinel `None`.
pub data Message : Type 0 where
  change sentinel : Message

pub record TaskStore : Type 0 where
  pub tasks : Dict String TaskRecord
  pub shutting_down : Bool
  pub queues : Dict ℕ (Option Message)
  pub scheduled : ℕ

unfoldable pub init : TaskStore
init = record { tasks = []; shutting_down = false; queues = []; scheduled = 0 }

-- The client is known by a number; `Queue(maxsize=1)` starts empty.
unfoldable pub add_subscriber : ℕ → TaskStore → TaskStore
add_subscriber q s = record s { queues = insert q none s.queues }

unfoldable pub remove_subscriber : ℕ → TaskStore → TaskStore
remove_subscriber q s = record s { queues = erase q s.queues }

-- `q.put_nowait(m)`: a full queue drops the message (`QueueFull` is swallowed).
abbrev pub put_nowait : Message → Option Message → Option Message
put_nowait m none = some m
put_nowait m (some w) = some w

-- `q.get_nowait()`, with `QueueEmpty` swallowed.
abbrev pub get_nowait : Option Message → Option Message
get_nowait slot = none

abbrev pub each_queue :
    (Option Message → Option Message) → Dict ℕ (Option Message) → Dict ℕ (Option Message)
each_queue f [] = []
each_queue f (p ∷ qs) = (p.0, f p.1) ∷ each_queue f qs

unfoldable pub fan_out : TaskStore → TaskStore
fan_out s = record s { queues = each_queue (put_nowait change) s.queues }

unfoldable pub notify_shutdown : TaskStore → TaskStore
notify_shutdown s = record s {
  shutting_down = true;
  queues = each_queue (λ slot. put_nowait sentinel (get_nowait slot)) s.queues;
}

unfoldable pub notify_change : TaskStore → TaskStore
notify_change s = record s { scheduled = suc s.scheduled }

-- The loop runs one scheduled call.
unfoldable pub run_scheduled : TaskStore → TaskStore
unfolding fan_out
run_scheduled s =
    if ltb 0 s.scheduled then fan_out (record s { scheduled = s.scheduled - 1 }) else s

-- `await q.get()` of a client whose queue is not empty.
unfoldable pub consume : ℕ → TaskStore → TaskStore
consume q s = record s {
  queues = if is_some (lookup q s.queues) then insert q none s.queues else s.queues;
}

-- The keyword arguments of `create`.
pub record Options : Type 0 where
  pub idempotency_key : Option String
  pub tags : Option (Dict String String)
  pub encrypted_payload : Option Bytes
  pub source : String
  pub priority : Option ℤ
  pub executor : Option String
  pub queue : String

abbrev pub default_options : Options
default_options = record {
  idempotency_key = none;
  tags = none;
  encrypted_payload = none;
  source = "manual";
  priority = none;
  executor = none;
  queue = "default";
}

-- The record of `create`; `created_at` is the time of the call.
abbrev pub new_record :
    String → String → List Obj → Dict String Obj → Options → Datetime → TaskRecord
new_record task_id func_name args kwargs o now = record {
  task_id = task_id;
  func_name = func_name;
  status = pending;
  args = args;
  kwargs = kwargs;
  created_at = now;
  start_time = none;
  end_time = none;
  retries_used = 0;
  error = none;
  logs = [];
  stacktrace = none;
  idempotency_key = o.idempotency_key;
  tags = or_default o.tags [];
  encrypted_payload = o.encrypted_payload;
  source = o.source;
  priority = o.priority;
  executor = o.executor;
  queue = o.queue;
}

unfoldable pub create :
    String → String → List Obj → Dict String Obj → Options → Datetime → TaskStore → TaskStore
unfolding notify_change
create task_id func_name args kwargs o now s =
    notify_change
      (record s { tasks = insert task_id (new_record task_id func_name args kwargs o now) s.tasks })

abbrev is_dead : TaskStatus → Bool
is_dead failed = true
is_dead interrupted = true
is_dead _ = false

abbrev has_key : String → Option String → Bool
has_key key none = false
has_key key (some k) = k == key

-- The loop of `find_by_idempotency_key`.
unfoldable pub find_key : String → Dict String TaskRecord → Option TaskRecord
find_key key [] = none
find_key key (p ∷ m) =
    if has_key key p.1.idempotency_key && not (is_dead p.1.status) then some p.1 else find_key key m

unfoldable pub find_by_idempotency_key : String → TaskStore → Option TaskRecord
unfolding find_key
find_by_idempotency_key key s = find_key key s.tasks

-- The fields that callers of `update` set.
pub data Field : Type 0 where
  status : TaskStatus → Field
  start_time : Datetime → Field
  end_time : Datetime → Field
  retries_used : ℕ → Field
  error : String → Field
  stacktrace : Option String → Field
  executor : String → Field

unfoldable pub set_attr : Field → TaskRecord → TaskRecord
set_attr (Field.status v) r = record r { status = v }
set_attr (Field.start_time v) r = record r { start_time = some v }
set_attr (Field.end_time v) r = record r { end_time = some v }
set_attr (Field.retries_used v) r = record r { retries_used = v }
set_attr (Field.error v) r = record r { error = some v }
set_attr (Field.stacktrace v) r = record r { stacktrace = v }
set_attr (Field.executor v) r = record r { executor = some v }

unfoldable pub set_attrs : List Field → TaskRecord → TaskRecord
unfolding set_attr
set_attrs [] r = r
set_attrs (f ∷ fs) r = set_attrs fs (set_attr f r)

unfoldable pub update : String → List Field → TaskStore → TaskStore
unfolding notify_change
update task_id fields s = elim (lookup task_id s.tasks) [
  | none ↦ s
  | some r ↦ notify_change (record s { tasks = insert task_id (set_attrs fields r) s.tasks })
]

unfoldable pub append_log : String → String → TaskStore → TaskStore
unfolding notify_change
append_log task_id message s = elim (lookup task_id s.tasks) [
  | none ↦ s
  | some r ↦
      notify_change
        (record s { tasks = insert task_id (record r { logs = r.logs ++ message ∷ [] }) s.tasks })
]

unfoldable pub restore : TaskRecord → TaskStore → TaskStore
restore r s =
    if is_some (lookup r.task_id s.tasks)
    then s
    else record s { tasks = insert r.task_id r s.tasks }

unfoldable pub get : String → TaskStore → Option TaskRecord
get task_id s = lookup task_id s.tasks

-- `store.list()`
unfoldable pub records : TaskStore → List TaskRecord
records s = map (λ p. p.1) s.tasks

unfoldable pub delete : String → TaskStore → TaskStore × Bool
delete task_id s =
    if is_some (lookup task_id s.tasks)
    then (record s { tasks = erase task_id s.tasks }, true)
    else (s, false)

abbrev pub is_terminal : TaskStatus → Bool
is_terminal pending = false
is_terminal running = false
is_terminal success = true
is_terminal failed = true
is_terminal interrupted = true
is_terminal cancelled = true
is_terminal rejected = true

-- `end is not None and end < cutoff`, both sides naive.
abbrev pub ended_before : Datetime → Option Datetime → Bool
ended_before cutoff none = false
ended_before cutoff (some e) = ltb e.at cutoff.at

abbrev pub strip : Datetime → Datetime
strip dt = if dt.aware then to_naive dt else dt

abbrev pub opt_strip : Option Datetime → Option Datetime
opt_strip none = none
opt_strip (some dt) = some (strip dt)

abbrev pub is_expired : Datetime → TaskRecord → Bool
is_expired cutoff r = is_terminal r.status && ended_before (strip cutoff) (opt_strip r.end_time)

-- The loop that collects the ids of the records to remove.
abbrev pub pick : (TaskRecord → Bool) → Dict String TaskRecord → List String
pick p [] = []
pick p (e ∷ m) = if p e.1 then e.0 ∷ pick p m else pick p m

unfoldable pub delete_completed_before : Datetime → TaskStore → TaskStore × ℕ
unfolding to_naive
delete_completed_before cutoff s =
    let ids = pick (is_expired cutoff) s.tasks in
    (record s { tasks = erase_all ids s.tasks }, length ids)

unfoldable pub clear : TaskStore → TaskStore
clear s = record s { tasks = [] }
