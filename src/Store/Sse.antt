-- ===== src/Store/Sse.antt =====
-- store.py: the queues of the SSE clients, under any interleaving of the store's calls.
use fastapi_taskflow.Base.{
  ℕ, ◌≡◌, ◌≢◌, refl, List, [], ◌∷◌, Option, none, some, arith, nat_key, string_key, All, String,
}
use fastapi_taskflow.Dict.{Dict, lookup, lookup-insert, lookup-erase}
use fastapi_taskflow.Models.{TaskRecord}
use fastapi_taskflow.Store.{
  TaskStore, Message, change, sentinel, put_nowait, each_queue, fan_out, notify_shutdown,
  run_scheduled, add_subscriber, remove_subscriber, consume, create, update, append_log, restore,
  delete, delete_completed_before, clear, Field,
}
use fastapi_taskflow.Store.Calls.{
  Call, creates, updates, append_logs, restores, deletes, prunes, clears, subscribes, unsubscribes,
  loop_runs, shuts_down, consumes, step, run,
}

abbrev Slot : Type 0
Slot = Option Message

abbrev on_slot : (Slot → Slot) → Option Slot → Option Slot
on_slot f none = none
on_slot f (some v) = some (f v)

lookup-each_queue :
    (f : Slot → Slot) (qs : Dict ℕ Slot) (q : ℕ)
    → lookup q (each_queue f qs) ≡ on_slot f (lookup q qs)
unfolding lookup
lookup-each_queue f [] q = refl
lookup-each_queue f (p ∷ qs) q = ground (arith, lookup-each_queue f qs q)

-- A call that the client `q` does not make itself.
abbrev pub ByOthers : ℕ → Call → Type 0
ByOthers q (subscribes p) = p ≢ q
ByOthers q (unsubscribes p) = p ≢ q
ByOthers q (consumes p) = p ≢ q
ByOthers q _ = Unit

-- The queue of client `q`.
abbrev pub queue_of : ℕ → TaskStore → Option (Option Message)
queue_of q s = lookup q s.queues

queue_of-update :
    (q : ℕ) (k : String) (fs : List Field) (s : TaskStore)
    → queue_of q (update k fs s) ≡ queue_of q s
unfolding update
queue_of-update q k fs s = ground arith

queue_of-append_log :
    (q : ℕ) (k m : String) (s : TaskStore) → queue_of q (append_log k m s) ≡ queue_of q s
unfolding append_log
queue_of-append_log q k m s = ground arith

step-sentinel :
    (q : ℕ) (c : Call) (s : TaskStore)
    → ByOthers q c
    → queue_of q s ≡ some (some sentinel)
    → queue_of q (step c s) ≡ some (some sentinel)
unfolding step create restore delete delete_completed_before clear add_subscriber remove_subscriber
    consume run_scheduled fan_out notify_shutdown
step-sentinel q (creates k f args kwargs o now) s b h = h
step-sentinel q (updates k fs) s b h = rw (queue_of-update q k fs s) h
step-sentinel q (append_logs k m) s b h = rw (queue_of-append_log q k m s) h
step-sentinel q (restores r) s b h = ground arith
step-sentinel q (deletes k) s b h = ground arith
step-sentinel q (prunes cutoff) s b h = h
step-sentinel q clears s b h = h
step-sentinel q (subscribes p) s b h = ground (arith, lookup-insert p q none s.queues)
step-sentinel q (unsubscribes p) s b h = ground (arith, lookup-erase p q s.queues)
step-sentinel q loop_runs s b h = ground (arith, lookup-each_queue (put_nowait change) s.queues q)
step-sentinel q shuts_down s b h =
    ground (arith, lookup-each_queue (λ (slot : Slot). some sentinel) s.queues q)
step-sentinel q (consumes p) s b h = ground (arith, lookup-insert p q none s.queues)

run-sentinel :
    (q : ℕ) (cs : List Call) (s : TaskStore)
    → All (ByOthers q) cs
    → queue_of q s ≡ some (some sentinel)
    → queue_of q (run cs s) ≡ some (some sentinel)
unfolding run
run-sentinel q [] s b h = h
run-sentinel q (c ∷ cs) s b h = run-sentinel q cs (step c s) b.1 (step-sentinel q c s b.0 h)

notify_shutdown-sentinel :
    (q : ℕ) (s : TaskStore) {slot : Option Message}
    → queue_of q s ≡ some slot
    → queue_of q (notify_shutdown s) ≡ some (some sentinel)
unfolding notify_shutdown
notify_shutdown-sentinel q s h =
    ground (arith, lookup-each_queue (λ (slot : Slot). some sentinel) s.queues q)

-- A client that is connected at shutdown finds the sentinel in its queue, whatever stood there, and
-- no later call of others (task updates, scheduled fan-outs, other clients) replaces it.
pub shutdown-reaches-client :
    (q : ℕ) (s : TaskStore) (cs : List Call) {slot : Option Message}
    → queue_of q s ≡ some slot
    → All (ByOthers q) cs
    → queue_of q (run cs (notify_shutdown s)) ≡ some (some sentinel)
shutdown-reaches-client q s cs h b =
    run-sentinel q cs (notify_shutdown s) b (notify_shutdown-sentinel q s h)

-- A write that notifies leaves a fan-out on the loop, and when the loop runs it every connected
-- client's queue holds a message: what it held before, or "change".
pub notified-client-wakes :
    (q : ℕ) (k m : String) (s : TaskStore) {r : TaskRecord} {slot : Option Message}
    → lookup k s.tasks ≡ some r
    → queue_of q s ≡ some slot
    → queue_of q (run_scheduled (append_log k m s)) ≡ some (put_nowait change slot)
unfolding append_log run_scheduled fan_out
notified-client-wakes q k m s h e = ground (arith, lookup-each_queue (put_nowait change) s.queues q)
