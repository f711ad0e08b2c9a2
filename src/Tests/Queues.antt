-- ===== src/Tests/Queues.antt =====
-- The named queues at fixed inputs.
use fastapi_taskflow.Base.{
  ◌+◌, ◌<◌, ◌≡◌, refl, ◌++◌, true, List, [], ◌∷◌, none, some, length, All, arith, replicate,
  count_if, eqb,
}
use fastapi_taskflow.Base.Int.{pos, neg}
use fastapi_taskflow.Models.{QueueConfig}
use fastapi_taskflow.TaskQueue.{
  Item, TaskQueue, blocked, stale, init, enqueue, item_of, Event, enqueues, drains, finishes,
  updates, drain, update_queue_config, step, run, heappush, less,
}
use fastapi_taskflow.TaskQueue.Order.{drain-takes-first, Precedes, in_hand}
use fastapi_taskflow.TaskQueue.Limits.{run-init-limits, AtMost, Slots}
use fastapi_taskflow.TaskQueue.Reconfigure.{update-overcommits, update-strands-drainer}
use fastapi_taskflow.TaskQueue.Account.{held, all_taken, all_ended, held-account}

abbrev narrow : QueueConfig
narrow = record { concurrency = some 1; max_size = some 4 }

abbrev busy : List Event
busy =
    enqueues "low" none 1
    ∷ enqueues "high" (some (pos 9)) 2
    ∷ enqueues "other" (some (pos 9)) 3
    ∷ []

run-init-limits_example :
    let q = run (busy ++ drains ∷ drains ∷ finishes 0 ∷ []) (init "default" narrow) in
    AtMost (some 4) (length q.heap)
    × AtMost (some 1) (length q.running)
    × Slots (some 1) q.sem (length q.running)
run-init-limits_example =
    run-init-limits "default" narrow (busy ++ drains ∷ drains ∷ finishes 0 ∷ [])
      (tt, (tt, (tt, (tt, (tt, (tt, tt))))))

held-account_example :
    count_if (λ x. eqb x.wrapped 2) (held (run busy (init "default" narrow)))
      + count_if (λ x. eqb x.wrapped 2) (all_ended busy (init "default" narrow))
    ≡ count_if (λ x. eqb x.wrapped 2) (all_taken busy (init "default" narrow))
held-account_example = held-account (λ x. eqb x.wrapped 2) "default" narrow busy

-- The highest priority first, and in the order of arrival.
abbrev first : Item
first = item_of "high" (some (pos 9)) 2 2

abbrev second : Item
second = item_of "other" (some (pos 9)) 3 3

abbrev last : Item
last = item_of "low" none 1 1

abbrev loaded : TaskQueue
loaded = record (init "default" narrow) {
  heap = first ∷ second ∷ last ∷ [];
  seq = 3;
  has_work = true;
}

loaded_test : run busy (init "default" narrow) ≡ loaded
unfolding run step enqueue heappush less init neg
loaded_test = refl

drain-takes-first_example :
    (in_hand (drain loaded).drainer ++ (drain loaded).running ≡ first ∷ [])
    × ((drain loaded).heap ≡ second ∷ last ∷ [])
    × All (Precedes first) (second ∷ last ∷ [])
unfolding init
drain-takes-first_example =
    drain-takes-first "default" narrow busy loaded_test first (second ∷ last ∷ []) refl refl refl

-- One task runs, the only permit is taken, and the limit is set to 1 again.
abbrev one_running : TaskQueue
one_running = record loaded { running = first ∷ []; heap = second ∷ last ∷ []; sem = some 0 }

update-overcommits_example :
    let after = run (replicate 1 drains) (update_queue_config (some 1) none one_running) in
    (length after.running ≡ 2) × (1 < length after.running)
unfolding init
update-overcommits_example =
    update-overcommits 1 none one_running refl refl (omega arith) (omega arith)

abbrev waiting : TaskQueue
waiting = record one_running { drainer = blocked second; heap = last ∷ [] }

update-strands-drainer_example :
    (run
      (finishes 0 ∷ drains ∷ updates (some 5) none ∷ drains ∷ [])
      (update_queue_config (some 1) none waiting)).drainer
    ≡ stale second 0
unfolding init
update-strands-drainer_example =
    update-strands-drainer second 1 (some 1) none
      (finishes 0 ∷ drains ∷ updates (some 5) none ∷ drains ∷ []) waiting refl refl refl
      (omega arith)
