-- ===== src/Periodic/OneOff.antt =====
-- periodic.py: `PeriodicScheduler` never holds two live entries of one run key.
use fastapi_taskflow.Base.{
  ℕ, ◌≡◌, refl, Bool, false, List, [], ◌∷◌, Option, none, some, String, leb, Result, ok, raise,
  arith, All, Bool-cases, inl, inr, string_key,
}
use fastapi_taskflow.Dict.{erase}
use fastapi_taskflow.Models.{ScheduledOnce}
use fastapi_taskflow.Manager.{TaskManager}
use fastapi_taskflow.Periodic.{
  ScheduledEntry, init, PeriodicScheduler, Place, stopped, sleeping, locking, claiming, ended,
  Fresh, fire, fire_once, compute_next, first_runs, start, fire_from, fire_once_from, surface,
  pop_due, round, Event, schedules, starts, stops, cancels, registers, others, refills, rounds,
  answers, if_sleeping, step, run,
}
use fastapi_taskflow.Periodic.Armed.{Agrees, pop-Agrees, take-Agrees}
use fastapi_taskflow.Periodic.Calls.{
  IsRecurring, IsArmed, Runs, cancel-IsArmed, if-IsArmed, refill-IsArmed, within-IsArmed,
  schedule-IsArmed, resting, close_one_off-IsArmed, close-IsArmed, Runs-bind, start_with-IsArmed,
  answer-IsArmed, stop-IsArmed,
}

module _ (next_cron : String → ℕ → String → ℕ) where
  pub first_runs-Runs :
      (now : ℕ) (xs : List ScheduledEntry) → All IsRecurring xs → Runs (first_runs next_cron now xs)
  unfolding first_runs
  first_runs-Runs now [] a = tt
  first_runs-Runs now (x ∷ xs) a = Runs-bind x _ _ a.0 (first_runs-Runs now xs a.1)

  fire-IsArmed :
      (t : Fresh) (x : ScheduledEntry) (r : Result ℕ) (p : PeriodicScheduler)
      → IsRecurring x
      → IsArmed p
      → IsArmed (fire_from t x r p)
  fire-IsArmed t x (raise e) p h v = resting (ended e) p.manager p tt v
  fire-IsArmed t x (ok n) p h v =
      if-IsArmed p.has_backend (resting (locking (record x { next_run = n })) p.manager p h v) (
        close-IsArmed (record x { next_run = n }) (fire t (record x { next_run = n }) p.manager) p h
          v)

  fire_once-IsArmed :
      (t : Fresh) (o : ScheduledOnce) (p : PeriodicScheduler)
      → Agrees p.heap (erase o.run_key p.one_offs)
      → IsArmed p
      → IsArmed (fire_once_from t o p)
  fire_once-IsArmed t o p a v =
      let q = record p { one_offs = erase o.run_key p.one_offs; taken = o.run_key ∷ p.taken } in
      let w : IsArmed q = record { agrees = a; recurring = v.recurring; in_hand = v.in_hand } in
      if-IsArmed p.has_backend (resting (claiming o) q.manager q tt w)
        (close_one_off-IsArmed (fire_once t o q.manager) q w)

  surface-IsArmed :
      (t : Fresh) (now : ℕ) (x : ScheduledEntry) (p : PeriodicScheduler)
      → Agrees (x ∷ p.heap) p.one_offs
      → IsArmed p
      → (o : Option ScheduledOnce) → x.once ≡ o
      → IsArmed (surface next_cron t now x p)
  surface-IsArmed t now x p a v o h = elim (Bool-cases x.cancelled) [
    | inl c ↦ rw c v
    | inr c ↦ rw c (by_kind o h c)
  ]
    where
      by_kind :
          (o : Option ScheduledOnce)
          → x.once ≡ o
          → x.cancelled ≡ false
          → IsArmed (elim x.once [
            | none ↦ fire_from t x (compute_next next_cron x now) p
            | some o ↦ fire_once_from t o p
          ])
      by_kind none h c = rw h (fire-IsArmed t x (compute_next next_cron x now) p h v)
      by_kind (some o) h c = rw h (fire_once-IsArmed t o p (take-Agrees x a o h c) v)

  pop-IsArmed :
      (t : Fresh) (now : ℕ) (hs : List ScheduledEntry) (p : PeriodicScheduler)
      → p.heap ≡ hs
      → IsArmed p
      → IsArmed (pop_due next_cron t now hs p)
  pop-IsArmed t now [] p e v = v
  pop-IsArmed t now (x ∷ rest) p e v =
      let a : Agrees (x ∷ rest) p.one_offs = rw e at v.agrees in
      let w : IsArmed (record p { heap = rest }) = record {
        agrees = pop-Agrees x a;
        recurring = v.recurring;
        in_hand = v.in_hand;
      } in
      if-IsArmed (leb x.next_run now)
        (surface-IsArmed t now x (record p { heap = rest }) a w x.once refl) v

  round-IsArmed :
      (t : Fresh) (now : ℕ) (p : PeriodicScheduler) (q : Place)
      → p.place ≡ q
      → IsArmed p
      → IsArmed (round next_cron t now p)
  unfolding round
  round-IsArmed t now p stopped e v = rw (e, round) v
  round-IsArmed t now p sleeping e v = rw (e, round) (pop-IsArmed t now p.heap p refl v)
  round-IsArmed t now p (locking x) e v = rw (e, round) v
  round-IsArmed t now p (claiming o) e v = rw (e, round) v
  round-IsArmed t now p (ended x) e v = rw (e, round) v

  if_sleeping-IsArmed :
      (q : Place) {p r : PeriodicScheduler} → IsArmed r → IsArmed p → IsArmed (if_sleeping q r p)
  if_sleeping-IsArmed stopped w v = v
  if_sleeping-IsArmed sleeping w v = w
  if_sleeping-IsArmed (locking x) w v = v
  if_sleeping-IsArmed (claiming o) w v = v
  if_sleeping-IsArmed (ended e) w v = v

  pub step-IsArmed : (e : Event) (p : PeriodicScheduler) → IsArmed p → IsArmed (step next_cron e p)
  unfolding step start
  step-IsArmed (schedules end o) p v = within-IsArmed end o p v
  step-IsArmed (starts now) p v =
      start_with-IsArmed _ p (first_runs-Runs now p.entries v.recurring) v
  step-IsArmed stops p v = stop-IsArmed p v
  step-IsArmed (cancels key) p v = cancel-IsArmed key p v
  step-IsArmed (registers valid now s) p v = schedule-IsArmed valid now s p v
  step-IsArmed (others m) p v = resting p.place m p v.in_hand v
  step-IsArmed (refills os) p v =
      if_sleeping-IsArmed p.place (if-IsArmed p.has_backend (refill-IsArmed os p v) v) v
  step-IsArmed (rounds t now) p v = round-IsArmed t now p p.place refl v
  step-IsArmed (answers t a) p v = answer-IsArmed t a p p.place refl v

  pub run-IsArmed :
      (es : List Event) (p : PeriodicScheduler) → IsArmed p → IsArmed (run next_cron es p)
  unfolding run
  run-IsArmed [] p v = v
  run-IsArmed (e ∷ es) p v = run-IsArmed es (step next_cron e p) (step-IsArmed e p v)

  pub run-init-IsArmed :
      (m : TaskManager) (b : Bool) (es : List Event) → IsArmed (run next_cron es (init m b))
  unfolding init
  run-init-IsArmed m b es = run-IsArmed es (init m b) (record {
    agrees = record { named = λ k. tt; single = λ k. omega arith };
    recurring = tt;
    in_hand = tt;
  })

  -- After any history of a scheduler since its creation, an entry of the heap that would fire a
  -- one-off is the one that `_one_offs` names for its key, and no key has two such entries, however
  -- often it was scheduled, moved and cancelled.
  pub run-init-Agrees :
      (m : TaskManager) (b : Bool) (es : List Event) {p : PeriodicScheduler}
      → run next_cron es (init m b) ≡ p
      → Agrees p.heap p.one_offs
  run-init-Agrees m b es e = let v = run-init-IsArmed m b es in rw e at v.agrees
