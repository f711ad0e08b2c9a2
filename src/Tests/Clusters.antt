-- ===== src/Tests/Clusters.antt =====
-- The registry of instances and the fan-out at fixed inputs.
use fastapi_taskflow.Base.{ℕ, ◌≡◌, refl, true, false, List, [], ◌∷◌, some, map, or_else, arith}
use fastapi_taskflow.Dict.{lookup}
use fastapi_taskflow.Store.{get}
use fastapi_taskflow.Manager.Merged.{Cache, merged_list, find_task, last_with}
use fastapi_taskflow.Cluster.{Entry, init, reads, writes, run, Peer, peers}
use fastapi_taskflow.Cluster.Peers.{is_seen, dead-unseen}
use fastapi_taskflow.Cluster.FanOut.{
  Reply, body, peer_tasks, gather_peer_records, Asked, shown, merged_list-peers,
}
use fastapi_taskflow.Tests.{one_task}

abbrev entry : ℕ → Entry
entry t = record { url = 104 ∷ 47 ∷ []; tasks_prefix = []; last_seen = t }

-- A stale copy of another instance brings the entry of a dead one back.
dead-unseen_example :
    is_seen "a" (
      peers "b" 90 101
        (run
          (reads "a" true
            ∷ writes "a" (entry 10) true
            ∷ reads "b" true
            ∷ writes "b" (entry 99) true
            ∷ [])
          init).entries)
    ≡ false
dead-unseen_example =
    dead-unseen "a" 10 "b" 90 101
      (reads "a" true
        ∷ writes "a" (entry 10) true
        ∷ reads "b" true
        ∷ writes "b" (entry 99) true
        ∷ [])
      (tt, ((λ e. omega arith), (tt, ((λ e. cc e), tt)))) (omega arith)

abbrev peer : Peer
peer = record { instance_id = "b"; url = 104 ∷ 47 ∷ []; tasks_prefix = [] }

abbrev http_get : List ℕ → Reply
http_get url = body (peer_tasks one_task)

abbrev asked : List Asked
asked = (peer, some one_task) ∷ []

abbrev cache : Cache
cache = record { backend = []; read_at = 0 }

merged_list-peers_example :
    find_task "t1"
      (merged_list true cache (gather_peer_records http_get (map (λ q. q.0) asked)) one_task)
    ≡ or_else
        (get "t1" one_task)
        (or_else (last_with "t1" (shown asked)) (last_with "t1" cache.backend))
unfolding lookup
merged_list-peers_example =
    merged_list-peers http_get cache asked one_task "t1"
      (record { distinct = (refl, tt); own_id = (refl, tt) }) (refl, tt)
