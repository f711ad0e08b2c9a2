-- ===== src/Store/Calls.antt =====
-- store.py: the methods of the store as one type of calls, so that a history is a list of them.
use fastapi_taskflow.Base.{ℕ, List, [], ◌∷◌, String}
use fastapi_taskflow.Dict.{Dict}
use fastapi_taskflow.Models.{Obj, Datetime, TaskRecord}
use fastapi_taskflow.Store.{
  TaskStore, Options, Field, add_subscriber, remove_subscriber, run_scheduled, notify_shutdown,
  consume, create, update, append_log, restore, delete, delete_completed_before, clear,
}

pub data Call : Type 0 where
  creates : String → String → List Obj → Dict String Obj → Options → Datetime → Call
  updates : String → List Field → Call
  append_logs : String → String → Call
  restores : TaskRecord → Call
  deletes : String → Call
  prunes : Datetime → Call
  clears : Call
  subscribes : ℕ → Call
  unsubscribes : ℕ → Call
  loop_runs : Call
  shuts_down : Call
  consumes : ℕ → Call

unfoldable pub step : Call → TaskStore → TaskStore
step (creates k f args kwargs o now) s = create k f args kwargs o now s
step (updates k fs) s = update k fs s
step (append_logs k m) s = append_log k m s
step (restores r) s = restore r s
step (deletes k) s = (delete k s).0
step (prunes cutoff) s = (delete_completed_before cutoff s).0
step clears s = clear s
step (subscribes q) s = add_subscriber q s
step (unsubscribes q) s = remove_subscriber q s
step loop_runs s = run_scheduled s
step shuts_down s = notify_shutdown s
step (consumes q) s = consume q s

unfoldable pub run : List Call → TaskStore → TaskStore
run [] s = s
run (c ∷ cs) s = run cs (step c s)
