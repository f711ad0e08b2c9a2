-- ===== src/Periodic/Quiet.antt =====
-- periodic.py: a scheduler without an entry under a key, through the calls of others.
use fastapi_taskflow.Base.{
  ℕ, ◌≡◌, Bool, true, false, List, [], ◌∷◌, Option, none, some, String, if◌then◌else◌, Result,
  arith, All, count_if, inl, inr, Option-cases, string_key, ◌==◌,
}
use fastapi_taskflow.Dict.{lookup, lookup-insert, lookup-erase}
use fastapi_taskflow.Models.{TaskConfig, ScheduledOnce}
use fastapi_taskflow.Registry.{Func, get_by_name}
use fastapi_taskflow.Manager.{TaskManager}
use fastapi_taskflow.Periodic.{
  ScheduledEntry, PeriodicScheduler, Fresh, one_off, cancel_one_off, arm, add_one_off, is_armed,
  refill, Schedule, schedule, add_entry, close, start_with, stop, fire_from, answer, Event,
  schedules, starts, stops, cancels, registers, others, refills, rounds, answers,
}

-- How often the firing of a one-off of the key began.
abbrev pub firings : String → List String → ℕ
firings key taken = count_if (λ k. k == key) taken

abbrev pub OtherKey : String → ScheduledOnce → Type 0
OtherKey key o = (o.run_key == key) ≡ false

-- The event schedules nothing under the key.
abbrev pub Leaves : String → Event → Type 0
Leaves key (schedules end o) = OtherKey key o
Leaves key (refills os) = All (OtherKey key) os
Leaves key (starts now) = Unit
Leaves key stops = Unit
Leaves key (cancels k) = Unit
Leaves key (registers valid now s) = Unit
Leaves key (others m) = Unit
Leaves key (rounds t now) = Unit
Leaves key (answers t a) = Unit

-- Nothing is armed under the key, and its firing began `n` times.
pub record Quiet (key : String) (n : ℕ) (p : PeriodicScheduler) : Type 0 where
  pub unnamed : lookup key p.one_offs ≡ none
  pub count : firings key p.taken ≡ n

-- What leaves both alone.
abbrev Same : PeriodicScheduler → PeriodicScheduler → Type 0
Same p q = (q.one_offs ≡ p.one_offs) × (q.taken ≡ p.taken)

pub schedule-Same :
    (valid : String → Func → Bool) (now : ℕ) (s : Schedule) (p : PeriodicScheduler)
    → Same p (schedule valid now s p).0
unfolding schedule add_entry
schedule-Same valid now s p = ground arith

pub cancel-taken :
    (key : String) (p : PeriodicScheduler)
    → firings key (cancel_one_off key p).taken ≡ firings key p.taken
unfolding cancel_one_off
cancel-taken key p = ground arith

pub start-Same :
    (r : Result (List ScheduledEntry)) (p : PeriodicScheduler) → Same p (start_with r p).0
start-Same r p = ground arith

pub stop-Same : (p : PeriodicScheduler) → Same p (stop p)
unfolding stop
stop-Same p = ground arith

pub close-Same :
    (x : Option ScheduledEntry) (o : TaskManager × Result (Unit {0})) (p : PeriodicScheduler)
    → Same p (close x o p)
close-Same x o p = ground arith

pub answer-Same : (t : Fresh) (a : Result Bool) (p : PeriodicScheduler) → Same p (answer t a p)
unfolding answer
answer-Same t a p = ground arith

pub fire-Same :
    (t : Fresh) (x : ScheduledEntry) (r : Result ℕ) (p : PeriodicScheduler)
    → Same p (fire_from t x r p)
fire-Same t x r p = ground arith

module _ (key : String) (n : ℕ) where
  pub Same-Quiet : {p q : PeriodicScheduler} → Same p q → Quiet key n p → Quiet key n q
  Same-Quiet s v = record { unnamed = rw s.0 v.unnamed; count = rw s.1 v.count }

  pub if-Quiet :
      (b : Bool) {p q : PeriodicScheduler}
      → Quiet key n p
      → Quiet key n q
      → Quiet key n (if b then p else q)
  if-Quiet true v w = v
  if-Quiet false v w = w

  pub cancel-Quiet :
      (j : String) (p : PeriodicScheduler) → Quiet key n p → Quiet key n (cancel_one_off j p)
  unfolding cancel_one_off
  cancel-Quiet j p v = elim (Option-cases (lookup j p.one_offs)) [
    | inl e ↦ rw (e, cancel_one_off) v
    | inr (x, e) ↦
        rw (e, cancel_one_off)
          (record {
            unnamed = ground (arith, lookup-erase j key p.one_offs, v.unnamed);
            count = v.count;
          })
  ]

  arm-Quiet :
      (r : Option (Func × TaskConfig)) (o : ScheduledOnce) (p : PeriodicScheduler)
      → OtherKey key o
      → Quiet key n p
      → Quiet key n (arm r o p)
  arm-Quiet none o p h v = v
  arm-Quiet (some (f, c)) o p h v =
      let q = cancel_one_off o.run_key p in
      let w = cancel-Quiet o.run_key p v in
      record {
        unnamed =
            ground (
              arith,
              h,
              w.unnamed,
              lookup-insert o.run_key key (one_off q.next_id f c o) q.one_offs,
            );
        count = w.count;
      }

  pub add-Quiet :
      (o : ScheduledOnce) (p : PeriodicScheduler)
      → OtherKey key o
      → Quiet key n p
      → Quiet key n (add_one_off o p)
  unfolding add_one_off
  add-Quiet o p = arm-Quiet (get_by_name o.func_name p.manager.registry) o p

  pub refill-Quiet :
      (os : List ScheduledOnce) (p : PeriodicScheduler)
      → All (OtherKey key) os
      → Quiet key n p
      → Quiet key n (refill os p)
  unfolding refill
  refill-Quiet [] p h v = v
  refill-Quiet (o ∷ os) p h v =
      refill-Quiet os _ h.1
        (if-Quiet (is_armed (lookup o.run_key p.one_offs) o) v (add-Quiet o p h.0 v))
