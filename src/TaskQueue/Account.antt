-- ===== src/TaskQueue/Account.antt =====
-- manager.py: the account of all tasks of a queue over any history.
use fastapi_taskflow.Base.{
  ℕ, zero, suc, ◌+◌, ◌≤◌, ◌≡◌, refl, Bool, List, [], ◌∷◌, ◌++◌, none, some, String, if◌then◌else◌,
  arith, length, count_if, count_if-append,
}
use fastapi_taskflow.Models.{QueueConfig}
use fastapi_taskflow.TaskQueue.{
  Item, heappush, TaskQueue, enqueue, is_full, item_of, drain, finish, remove_nth,
  update_queue_config, Event, enqueues, drains, finishes, updates, step, run, init,
}
use fastapi_taskflow.TaskQueue.Order.{in_hand}

-- All tasks that the queue has taken and that have not ended.
abbrev pub held : TaskQueue → List Item
held q = q.heap ++ in_hand q.drainer ++ q.running

abbrev nth : ℕ → List Item → List Item
nth i [] = []
nth zero (x ∷ xs) = x ∷ []
nth (suc i) (x ∷ xs) = nth i xs

-- The task that an event adds, and the one that it ends.
abbrev taken : Event → TaskQueue → List Item
taken (enqueues t p w) q =
    if is_full q.config.max_size (length q.heap) then [] else item_of t p w (q.seq + 1) ∷ []
taken _ q = []

abbrev ended : Event → TaskQueue → List Item
ended (finishes i) q = nth i q.running
ended _ q = []

unfoldable pub all_taken : List Event → TaskQueue → List Item
all_taken [] q = []
all_taken (e ∷ es) q = taken e q ++ all_taken es (step e q)

unfoldable pub all_ended : List Event → TaskQueue → List Item
all_ended [] q = []
all_ended (e ∷ es) q = ended e q ++ all_ended es (step e q)

nth_past : (i : ℕ) (xs : List Item) → length xs ≤ i → nth i xs ≡ []
nth_past i [] h = refl
nth_past zero (x ∷ xs) h = absurd (omega arith)
nth_past (suc i) (x ∷ xs) h = nth_past i xs (omega arith)

module _ (p : Item → Bool) where
  pub count-heappush :
      (x : Item) (ys : List Item) → count_if p (heappush x ys) ≡ count_if p (x ∷ ys)
  unfolding heappush
  count-heappush x [] = refl
  count-heappush x (y ∷ ys) = ground (arith, count-heappush x ys)

  count-remove_nth :
      (i : ℕ) (xs : List Item)
      → count_if p (remove_nth i xs) + count_if p (nth i xs) ≡ count_if p xs
  count-remove_nth i [] = omega arith
  count-remove_nth zero (x ∷ xs) = ground arith
  count-remove_nth (suc i) (x ∷ xs) = ground (arith, count-remove_nth i xs)

  tally : TaskQueue → ℕ
  tally q = count_if p q.heap + count_if p (in_hand q.drainer) + count_if p q.running

  count-held : (q : TaskQueue) → count_if p (held q) ≡ tally q
  unfolding tally
  count-held q = omega (
    arith,
    count_if-append p (q.heap ++ in_hand q.drainer) q.running,
    count_if-append p q.heap (in_hand q.drainer),
  )

  tally-drain : (q : TaskQueue) → tally (drain q) ≡ tally q
  unfolding tally drain
  tally-drain q = ground arith

  tally-step :
      (e : Event) (q : TaskQueue)
      → tally (step e q) + count_if p (ended e q) ≡ tally q + count_if p (taken e q)
  unfolding tally step enqueue finish update_queue_config
  tally-step (enqueues t pr w) q =
      ground (arith, count-heappush (item_of t pr w (q.seq + 1)) q.heap)
  tally-step drains q = omega (arith, tally-drain q)
  tally-step (finishes i) q = ground (arith, count-remove_nth i q.running, nth_past i q.running)
  tally-step (updates none m) q = ground arith
  tally-step (updates (some c) m) q = ground arith

  tally-run :
      (es : List Event) (q : TaskQueue)
      → tally (run es q) + count_if p (all_ended es q) ≡ tally q + count_if p (all_taken es q)
  unfolding run all_ended all_taken
  tally-run [] q = omega arith
  tally-run (e ∷ es) q = omega (
    arith,
    tally-run es (step e q),
    tally-step e q,
    count_if-append p (ended e q) (all_ended es (step e q)),
    count_if-append p (taken e q) (all_taken es (step e q)),
  )

  -- Over any history, reconfigurations included, the tasks in the queue and the ones that have ended
  -- are exactly the ones that were accepted: for every property of tasks, as many on each side.
  pub held-account :
      (name : String) (c : QueueConfig) (es : List Event)
      → let q = init name c in
        count_if p (held (run es q)) + count_if p (all_ended es q) ≡ count_if p (all_taken es q)
  unfolding init tally
  held-account name c es =
      omega (arith, count-held (run es (init name c)), tally-run es (init name c))
