-- ===== src/TaskQueue/Reconfigure.antt =====
-- manager.py: what `update_queue_config` does to a queue with running tasks.
use fastapi_taskflow.Base.{
  ℕ, zero, suc, ◌+◌, ◌<◌, ◌≤◌, ◌≡◌, refl, ap, true, List, [], ◌∷◌, Option, none, some, arith,
  length, or_default, replicate, ◌∙◌,
}
use fastapi_taskflow.TaskQueue.{
  Item, TaskQueue, idle, blocked, stale, enqueue, drain, finish, update_queue_config, Event,
  enqueues, drains, finishes, updates, step, run,
}

drain-starts-one :
    (free : ℕ) (x : Item) (rest : List Item) (q : TaskQueue)
    → q.drainer ≡ idle
    → q.has_work ≡ true
    → q.sem ≡ some (suc free)
    → q.heap ≡ x ∷ rest
    → drain q ≡ record q { heap = rest; sem = some free; running = x ∷ q.running }
unfolding drain
drain-starts-one free x rest q d h s e = ground arith

-- With enough waiting tasks, the drainer starts one for each free permit.
drains-start :
    (free : ℕ) (hs : List Item) (q : TaskQueue)
    → q.heap ≡ hs
    → q.drainer ≡ idle
    → q.has_work ≡ true
    → q.sem ≡ some free
    → free ≤ length hs
    → length (run (replicate free drains) q).running ≡ free + length q.running
unfolding run step
drains-start zero hs q e d h s l = omega arith
drains-start (suc free) [] q e d h s l = absurd (omega arith)
drains-start (suc free) (x ∷ rest) q e d h s l =
    let q' = record q { heap = rest; sem = some free; running = x ∷ q.running } in
    ap (λ r. length (run (replicate free drains) r).running)
      (drain-starts-one free x rest q d h s e)
    ∙ omega (arith, drains-start free rest q' refl d h refl (omega arith))

-- Reconfiguring replaces the semaphore by a fresh one and forgets the tasks that run: if `c` tasks
-- wait, and the drainer is free to take them, it starts all `c`, beside those that ran before. With
-- any task running at the time of the call the limit `c` is exceeded.
pub update-overcommits :
    (c : ℕ) (m : Option ℕ) (q : TaskQueue)
    → q.drainer ≡ idle
    → q.has_work ≡ true
    → c ≤ length q.heap
    → 0 < length q.running
    → let after = run (replicate c drains) (update_queue_config (some c) m q) in
      (length after.running ≡ c + length q.running) × (c < length after.running)
unfolding update_queue_config
update-overcommits c m q d h l r =
    let q' = update_queue_config (some c) m q in
    let e = drains-start c q.heap q' refl (ground arith) h refl l in (e, omega arith)

stale-step :
    (x : Item) (e : Event) (q : TaskQueue) → q.drainer ≡ stale x 0 → (step e q).drainer ≡ stale x 0
unfolding step enqueue drain finish update_queue_config
stale-step x (enqueues t p w) q d = ground arith
stale-step x drains q d = ground arith
stale-step x (finishes i) q d = ground arith
stale-step x (updates none m) q d = ground arith
stale-step x (updates (some c) m) q d = ground arith

stale-run :
    (x : Item) (es : List Event) (q : TaskQueue)
    → q.drainer ≡ stale x 0
    → (run es q).drainer ≡ stale x 0
unfolding run
stale-run x [] q d = d
stale-run x (e ∷ es) q d = stale-run x es (step e q) (stale-step x e q d)

-- If the drainer waits for a permit when the limit is lowered, kept or removed, it never gets one:
-- whatever happens afterwards, ends of tasks and further updates included, it goes on waiting with
-- the item in its hand.
pub update-strands-drainer :
    (x : Item) (old : ℕ) (c m : Option ℕ) (es : List Event) (q : TaskQueue)
    → q.config.concurrency ≡ some old
    → q.sem ≡ some 0
    → q.drainer ≡ blocked x
    → or_default c 0 ≤ old
    → (run es (update_queue_config c m q)).drainer ≡ stale x 0
unfolding update_queue_config
update-strands-drainer x old none m es q o s d l =
    stale-run x es (update_queue_config none m q) (ground arith)
update-strands-drainer x old (some c) m es q o s d l =
    stale-run x es (update_queue_config (some c) m q) (ground arith)
