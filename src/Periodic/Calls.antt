-- ===== src/Periodic/Calls.antt =====
-- periodic.py and manager.py: the calls of others, and the answers of the backend, against `_one_offs`.
use fastapi_taskflow.Base.{
  ℕ, ◌≡◌, refl, Bool, true, false, List, [], ◌∷◌, Option, none, some, String, if◌then◌else◌, leb,
  Result, ok, raise, ◌>>=◌, arith, All, All-append, Bool-cases, inl, inr, Option-cases, string_key,
  ==_refl,
}
use fastapi_taskflow.Dict.{Dict, lookup, lookup-erase}
use fastapi_taskflow.Models.{TaskConfig, ScheduledOnce}
use fastapi_taskflow.Registry.{Func, get_by_name}
use fastapi_taskflow.Manager.{TaskManager}
use fastapi_taskflow.Periodic.{
  ScheduledEntry, PeriodicScheduler, Place, stopped, sleeping, locking, claiming, ended, Fresh,
  heapify, cancel_one_off, arm, add_one_off, is_armed, refill, schedule_within, Schedule, schedule,
  schedule_entry, fire, fire_once, close, start_with, stop, add_entry, on_lock, on_claim, answer,
}
use fastapi_taskflow.Periodic.Armed.{Agrees, tombstone-Agrees, push-Agrees, arm-Agrees}

abbrev pub IsRecurring : ScheduledEntry → Type 0
IsRecurring x = x.once ≡ none

abbrev pub InHand : Place → Type 0
InHand stopped = Unit
InHand sleeping = Unit
InHand (locking x) = IsRecurring x
InHand (claiming o) = Unit
InHand (ended e) = Unit

-- The heap agrees with `_one_offs`; the registered entries, and the one whose lock the loop waits
-- for, are recurring.
pub record IsArmed (p : PeriodicScheduler) : Type 0 where
  pub agrees : Agrees p.heap p.one_offs
  pub recurring : All IsRecurring p.entries
  pub in_hand : InHand p.place

pub cancel-IsArmed :
    (key : String) (p : PeriodicScheduler) → IsArmed p → IsArmed (cancel_one_off key p)
unfolding cancel_one_off
cancel-IsArmed key p v = elim (Option-cases (lookup key p.one_offs)) [
  | inl e ↦ rw (e, cancel_one_off) v
  | inr (x, e) ↦
      rw (e, cancel_one_off)
        (record {
          agrees = tombstone-Agrees v.agrees key x e;
          recurring = v.recurring;
          in_hand = v.in_hand;
        })
]

-- After the cancellation the key has no name.
pub cancel-unnamed :
    (key : String) (p : PeriodicScheduler) → lookup key (cancel_one_off key p).one_offs ≡ none
unfolding cancel_one_off
cancel-unnamed key p = elim (Option-cases (lookup key p.one_offs)) [
  | inl e ↦ ground (arith, e)
  | inr (x, e) ↦ ground (arith, e, lookup-erase key key p.one_offs, ==_refl key)
]

arm-IsArmed :
    (r : Option (Func × TaskConfig)) (o : ScheduledOnce) (p : PeriodicScheduler)
    → IsArmed p
    → IsArmed (arm r o p)
arm-IsArmed none o p v = v
arm-IsArmed (some (f, c)) o p v =
    let w = cancel-IsArmed o.run_key p v in
    record {
      agrees = arm-Agrees w.agrees _ f c o (cancel-unnamed o.run_key p);
      recurring = w.recurring;
      in_hand = w.in_hand;
    }

add-IsArmed : (o : ScheduledOnce) (p : PeriodicScheduler) → IsArmed p → IsArmed (add_one_off o p)
unfolding add_one_off
add-IsArmed o p v = arm-IsArmed (get_by_name o.func_name p.manager.registry) o p v

pub if-IsArmed :
    (b : Bool) {p q : PeriodicScheduler} → IsArmed p → IsArmed q → IsArmed (if b then p else q)
if-IsArmed true v w = v
if-IsArmed false v w = w

pub refill-IsArmed :
    (os : List ScheduledOnce) (p : PeriodicScheduler) → IsArmed p → IsArmed (refill os p)
unfolding refill
refill-IsArmed [] p v = v
refill-IsArmed (o ∷ os) p v =
    refill-IsArmed os _
      (if-IsArmed (is_armed (lookup o.run_key p.one_offs) o) v (add-IsArmed o p v))

pub within-IsArmed :
    (end : ℕ) (o : ScheduledOnce) (p : PeriodicScheduler)
    → IsArmed p
    → IsArmed (schedule_within end o p)
unfolding schedule_within
within-IsArmed end o p v =
    if-IsArmed p.has_backend
      (if-IsArmed (leb o.fire_at.at end) (add-IsArmed o p v) (cancel-IsArmed o.run_key p v)) v

add_entry-IsArmed :
    (x : ScheduledEntry) (p : PeriodicScheduler)
    → IsRecurring x
    → IsArmed p
    → IsArmed (add_entry x p)
unfolding add_entry
add_entry-IsArmed x p h v = record {
  agrees = push-Agrees v.agrees x h;
  recurring = All-append IsRecurring p.entries _ v.recurring (h, tt);
  in_hand = v.in_hand;
}

entry-IsArmed :
    (now : ℕ) (s : Schedule) (p : PeriodicScheduler) → IsArmed p → IsArmed (schedule_entry now s p)
entry-IsArmed now s p v = elim (Bool-cases p.started) [
  | inl e ↦ rw e (
      add_entry-IsArmed _ _ refl
        (record { agrees = v.agrees; recurring = v.recurring; in_hand = v.in_hand }))
  | inr e ↦ rw e (record {
    agrees = v.agrees;
    recurring = All-append IsRecurring p.entries _ v.recurring (refl, tt);
    in_hand = v.in_hand;
  })
]

pub schedule-IsArmed :
    (valid : String → Func → Bool) (now : ℕ) (s : Schedule) (p : PeriodicScheduler)
    → IsArmed p
    → IsArmed (schedule valid now s p).0
unfolding schedule
schedule-IsArmed valid now s p v = ground (arith, entry-IsArmed now s p v)

-- What a firing does to the scheduler keeps it armed.
pub resting :
    (q : Place) (m : TaskManager) (p : PeriodicScheduler)
    → InHand q
    → IsArmed p
    → IsArmed (record p { manager = m; place = q })
resting q m p h v = record { agrees = v.agrees; recurring = v.recurring; in_hand = h }

pub close_one_off-IsArmed :
    (o : TaskManager × Result (Unit {0})) (p : PeriodicScheduler)
    → IsArmed p
    → IsArmed (close none o p)
close_one_off-IsArmed (m, raise e) p v = resting (ended e) m p tt v
close_one_off-IsArmed (m, ok _) p v = resting sleeping m p tt v

pub close-IsArmed :
    (x : ScheduledEntry) (o : TaskManager × Result (Unit {0})) (p : PeriodicScheduler)
    → IsRecurring x
    → IsArmed p
    → IsArmed (close (some x) o p)
close-IsArmed x (m, raise e) p h v = resting (ended e) m p tt v
close-IsArmed x (m, ok _) p h v = record {
  agrees = push-Agrees v.agrees x h;
  recurring = v.recurring;
  in_hand = tt;
}

pub heapify-Agrees :
    (xs : List ScheduledEntry) (d : Dict String ScheduledEntry)
    → All IsRecurring xs
    → Agrees (heapify xs) d
heapify-Agrees [] d a = record { named = λ k. tt; single = λ k. omega arith }
heapify-Agrees (x ∷ xs) d a = push-Agrees (heapify-Agrees xs d a.1) x a.0

abbrev pub Runs : Result (List ScheduledEntry) → Type 0
Runs (ok xs) = All IsRecurring xs
Runs (raise e) = Unit

pub Runs-bind :
    (x : ScheduledEntry) (r : Result ℕ) (q : Result (List ScheduledEntry))
    → IsRecurring x
    → Runs q
    → Runs (r >>= λ n. q >>= λ ys. ok (record x { next_run = n } ∷ ys))
Runs-bind x (raise e) q h a = tt
Runs-bind x (ok n) (raise e) h a = tt
Runs-bind x (ok n) (ok ys) h a = (h, a)

pub start_with-IsArmed :
    (r : Result (List ScheduledEntry)) (p : PeriodicScheduler)
    → Runs r
    → IsArmed p
    → IsArmed (start_with r p).0
start_with-IsArmed (ok xs) p a v = record {
  agrees = heapify-Agrees xs p.one_offs a;
  recurring = a;
  in_hand = tt;
}
start_with-IsArmed (raise e) p a v = v

lock-IsArmed :
    (t : Fresh) (x : ScheduledEntry) (a : Result Bool) (p : PeriodicScheduler)
    → IsRecurring x
    → IsArmed p
    → IsArmed (on_lock t x a p)
lock-IsArmed t x (raise e) p h v = resting (ended e) p.manager p tt v
lock-IsArmed t x (ok false) p h v = close-IsArmed x (p.manager, ok tt) p h v
lock-IsArmed t x (ok true) p h v = close-IsArmed x (fire t x p.manager) p h v

claim-IsArmed :
    (t : Fresh) (o : ScheduledOnce) (a : Result Bool) (p : PeriodicScheduler)
    → IsArmed p
    → IsArmed (on_claim t o a p)
claim-IsArmed t o (raise e) p v = resting sleeping p.manager p tt v
claim-IsArmed t o (ok false) p v = resting sleeping p.manager p tt v
claim-IsArmed t o (ok true) p v = close_one_off-IsArmed (fire_once t o p.manager) p v

pub answer-IsArmed :
    (t : Fresh) (a : Result Bool) (p : PeriodicScheduler) (q : Place)
    → p.place ≡ q
    → IsArmed p
    → IsArmed (answer t a p)
unfolding answer
answer-IsArmed t a p stopped e v = rw (e, answer) v
answer-IsArmed t a p sleeping e v = rw (e, answer) v
answer-IsArmed t a p (locking x) e v = rw (e, answer) (lock-IsArmed t x a p (rw e at v.in_hand) v)
answer-IsArmed t a p (claiming o) e v = rw (e, answer) (claim-IsArmed t o a p v)
answer-IsArmed t a p (ended x) e v = rw (e, answer) v

pub stop-IsArmed : (p : PeriodicScheduler) → IsArmed p → IsArmed (stop p)
unfolding stop
stop-IsArmed p v =
    if-IsArmed p.started (record { agrees = v.agrees; recurring = v.recurring; in_hand = tt }) v
