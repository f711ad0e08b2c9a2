-- ===== src/Snapshot/Cycle.antt =====
-- snapshot.py: the background loop `_run`, with its counter of rounds for the retention.
use fastapi_taskflow.Base.{
  ℕ, suc, ◌+◌, ◌*◌, ◌/◌, ◌%◌, ◌<◌, ◌≤◌, ◌≡◌, Bool, true, false, List, [], ◌∷◌, if◌then◌else◌, leb,
  ltb, eqb, max, length, arith, Bool-cases, inl, inr, leb→le,
}
use native.Mathlib.Nat.{le-max_left}
use fastapi_taskflow.Models.{Datetime}
use fastapi_taskflow.Store.{TaskStore}
use fastapi_taskflow.Backend.{SnapshotBackend}
use fastapi_taskflow.Snapshot.{flush, prune}

-- `round(a / b)`, where halves go to the even neighbour.
abbrev pub round_half : Bool → ℕ → ℕ
round_half true q = q
round_half false q = q + 1

abbrev pub rounded : ℕ → ℕ → ℕ
rounded a b =
    if ltb (a % b * 2) b
    then a / b
    else if ltb b (a % b * 2)
    then a / b + 1
    else round_half (eqb (a / b % 2) 0) (a / b)

-- `_retention_every`, for an interval of whole seconds.
unfoldable pub retention_every : ℕ → ℕ
retention_every interval = max 1 (rounded 21600 (max interval 1))

every-pos : (interval : ℕ) → 0 < retention_every interval
unfolding retention_every
every-pos interval = omega (arith, le-max_left 1 (rounded 21600 (max interval 1)))

-- One round: whether the backend raises in the flush and in the pruning, and the cutoff of the latter.
pub record Round : Type 0 where
  pub flush_raises : Bool
  pub prune_raises : Bool
  pub cutoff : Datetime

module _ {DB : Type 0} (B : SnapshotBackend DB) (delete_before : Datetime → DB → DB × ℕ) where
  pub record Cycle : Type 0 where
    pub store : TaskStore
    pub db : DB
    -- `_retention_counter`, and how often the pruning was begun.
    pub counter : ℕ
    pub prunings : ℕ

  -- An exception of the pruning comes from the backend: the store is pruned by then.
  abbrev pub pruned : Round → Cycle → Cycle
  pruned r x =
      let o = prune B (delete_before r.cutoff) r.cutoff x.store x.db in
      record x {
        store = o.0;
        db = if r.prune_raises then x.db else o.1;
        counter = 0;
        prunings = suc x.prunings;
      }

  abbrev pub flushed : Round → Cycle → Cycle
  flushed r x = if r.flush_raises then x else record x { db = (flush B x.store x.db).0 }

  abbrev pub counted_round : ℕ → Round → Cycle → Cycle
  counted_round every r x = if leb every x.counter then pruned r x else x

  -- What one turn of the loop does after its sleep.
  unfoldable pub cycle : Bool → ℕ → Round → Cycle → Cycle
  unfolding flush prune
  cycle retention every r x =
      let y = flushed r x in
      if retention then counted_round every r (record y { counter = suc y.counter }) else y

  unfoldable pub run : Bool → ℕ → List Round → Cycle → Cycle
  unfolding cycle
  run retention every [] x = x
  run retention every (r ∷ rs) x = run retention every rs (cycle retention every r x)

  -- The rounds since some start are accounted for.
  abbrev Counted : ℕ → ℕ → Cycle → Type 0
  Counted every n x = (x.prunings * every + x.counter ≡ n) × (x.counter < every)

  round-Counted :
      (every n : ℕ) (r : Round) (y : Cycle)
      → y.prunings * every + y.counter ≡ n
      → y.counter ≤ every
      → 0 < every
      → Counted every n (counted_round every r y)
  round-Counted every n r y e l p = elim (Bool-cases (leb every y.counter)) [
    | inl h ↦ rw h (ground (arith, leb→le every y.counter h, e, l), p)
    | inr h ↦ rw h (e, ground (arith, h, l))
  ]

  flushed-same :
      (r : Round) (x : Cycle)
      → ((flushed r x).counter ≡ x.counter) × ((flushed r x).prunings ≡ x.prunings)
  flushed-same r x = ground arith

  cycle-Counted :
      (every n : ℕ) (r : Round) (x : Cycle)
      → Counted every n x
      → Counted every (suc n) (cycle true every r x)
  unfolding cycle
  cycle-Counted every n r x c =
      let (s, q) = flushed-same r x in
      round-Counted every (suc n) r _ (rw s (rw q (omega (arith, c.0)))) (rw s (omega (arith, c.1)))
        (omega (arith, c.1))

  run-Counted :
      (every n : ℕ) (rs : List Round) (x : Cycle)
      → Counted every n x
      → Counted every (n + length rs) (run true every rs x)
  unfolding run
  run-Counted every n [] x c = (omega (arith, c.0), c.1)
  run-Counted every n (r ∷ rs) x c =
      let (e, l) =
        run-Counted every (suc n) rs (cycle true every r x) (cycle-Counted every n r x c) in
      (omega (arith, e), l)

  -- The loop prunes once in every `_retention_every` rounds, whatever flushes and prunings fail: the
  -- rounds since a start with the counter at 0 are so many times that number and the counter.
  pub run-prunings :
      (interval : ℕ) (rs : List Round) (x : Cycle)
      → x.counter ≡ 0
      → x.prunings ≡ 0
      → let y = run true (retention_every interval) rs x in
        (y.prunings * retention_every interval + y.counter ≡ length rs)
        × (y.counter < retention_every interval)
  run-prunings interval rs x c p =
      let (e, l) =
        run-Counted (retention_every interval) 0 rs x
          (rw c (rw p (omega arith)), rw c (every-pos interval)) in
      (omega (arith, e), l)
