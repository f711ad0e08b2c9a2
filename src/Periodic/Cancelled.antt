-- ===== src/Periodic/Cancelled.antt =====
-- periodic.py: a one-off whose key was cancelled, and not scheduled again, is not fired.
use fastapi_taskflow.Base.{
  ℕ, ◌≡◌, refl, Bool, false, List, [], ◌∷◌, Option, none, some, String, leb, arith, All, Bool-cases,
  inl, inr, string_key,
}
use fastapi_taskflow.Dict.{Dict, lookup, erase, lookup-erase}
use fastapi_taskflow.Models.{ScheduledOnce}
use fastapi_taskflow.Manager.{TaskManager}
use fastapi_taskflow.Periodic.{
  init, ScheduledEntry, PeriodicScheduler, Place, stopped, sleeping, locking, claiming, ended,
  Fresh, cancel_one_off, schedule_within, fire_once, compute_next, start, fire_from, fire_once_from,
  surface, pop_due, round, Event, schedules, starts, stops, cancels, registers, others, refills,
  rounds, answers, if_sleeping, step, run,
}
use fastapi_taskflow.Periodic.Armed.{Named}
use fastapi_taskflow.Periodic.Calls.{IsArmed, cancel-IsArmed, cancel-unnamed}
use fastapi_taskflow.Periodic.OneOff.{step-IsArmed, run-init-IsArmed}
use fastapi_taskflow.Periodic.Quiet.{
  firings, OtherKey, Leaves, Quiet, schedule-Same, cancel-taken, start-Same, stop-Same, close-Same,
  answer-Same, fire-Same, Same-Quiet, if-Quiet, cancel-Quiet, add-Quiet, refill-Quiet,
}

module _ (key : String) (n : ℕ) where
  -- An entry that fires another key.
  take-Quiet :
      (t : Fresh) (o : ScheduledOnce) (p : PeriodicScheduler)
      → OtherKey key o
      → Quiet key n p
      → Quiet key n (fire_once_from t o p)
  take-Quiet t o p h v =
      let q = record p { one_offs = erase o.run_key p.one_offs; taken = o.run_key ∷ p.taken } in
      let w : Quiet key n q = record {
        unnamed = ground (arith, h, lookup-erase o.run_key key p.one_offs, v.unnamed);
        count = ground (arith, h, v.count);
      } in
      if-Quiet key n p.has_backend (Same-Quiet key n (refl, refl) w)
        (Same-Quiet key n (close-Same none (fire_once t o q.manager) q) w)

  other :
      (x : ScheduledEntry) (o : ScheduledOnce) (d : Dict String ScheduledEntry)
      → Named d key x
      → lookup key d ≡ none
      → x.once ≡ some o
      → x.cancelled ≡ false
      → OtherKey key o
  other x o d m u e c = ground (arith, e, c, m, u)

  module _ (next_cron : String → ℕ → String → ℕ) where
    surface-Quiet :
        (t : Fresh) (now : ℕ) (x : ScheduledEntry) (p : PeriodicScheduler)
        → Named p.one_offs key x
        → Quiet key n p
        → (o : Option ScheduledOnce) → x.once ≡ o
        → Quiet key n (surface next_cron t now x p)
    surface-Quiet t now x p m v o h = elim (Bool-cases x.cancelled) [
      | inl c ↦ rw c v
      | inr c ↦ rw c (by_kind o h c)
    ]
      where
        by_kind :
            (o : Option ScheduledOnce)
            → x.once ≡ o
            → x.cancelled ≡ false
            → Quiet key n (elim x.once [
              | none ↦ fire_from t x (compute_next next_cron x now) p
              | some o ↦ fire_once_from t o p
            ])
        by_kind none h c =
            rw h (Same-Quiet key n (fire-Same t x (compute_next next_cron x now) p) v)
        by_kind (some o) h c = rw h (take-Quiet t o p (other x o p.one_offs m v.unnamed h c) v)

    pop-Quiet :
        (t : Fresh) (now : ℕ) (hs : List ScheduledEntry) (p : PeriodicScheduler)
        → All (Named p.one_offs key) hs
        → Quiet key n p
        → Quiet key n (pop_due next_cron t now hs p)
    pop-Quiet t now [] p a v = v
    pop-Quiet t now (x ∷ rest) p a v =
        if-Quiet key n (leb x.next_run now)
          (surface-Quiet t now x (record p { heap = rest }) a.0 (Same-Quiet key n (refl, refl) v)
            x.once refl)
          v

    round-Quiet :
        (t : Fresh) (now : ℕ) (p : PeriodicScheduler) (q : Place)
        → p.place ≡ q
        → IsArmed p
        → Quiet key n p
        → Quiet key n (round next_cron t now p)
    unfolding round
    round-Quiet t now p stopped e a v = rw (e, round) v
    round-Quiet t now p sleeping e a v =
        rw (e, round) (pop-Quiet t now p.heap p (a.agrees.named key) v)
    round-Quiet t now p (locking x) e a v = rw (e, round) v
    round-Quiet t now p (claiming o) e a v = rw (e, round) v
    round-Quiet t now p (ended x) e a v = rw (e, round) v

    if_sleeping-Quiet :
        (q : Place) {p r : PeriodicScheduler}
        → Quiet key n r
        → Quiet key n p
        → Quiet key n (if_sleeping q r p)
    if_sleeping-Quiet q w v = ground (arith, w, v)

    step-Quiet :
        (e : Event) (p : PeriodicScheduler)
        → Leaves key e
        → IsArmed p
        → Quiet key n p
        → Quiet key n (step next_cron e p)
    unfolding step start schedule_within
    step-Quiet (schedules end o) p h a v =
        if-Quiet key n p.has_backend
          (if-Quiet key n (leb o.fire_at.at end) (add-Quiet key n o p h v)
            (cancel-Quiet key n o.run_key p v))
          v
    step-Quiet (starts now) p h a v = Same-Quiet key n (start-Same _ p) v
    step-Quiet stops p h a v = Same-Quiet key n (stop-Same p) v
    step-Quiet (cancels k) p h a v = cancel-Quiet key n k p v
    step-Quiet (registers valid now s) p h a v = Same-Quiet key n (schedule-Same valid now s p) v
    step-Quiet (others m) p h a v = Same-Quiet key n (refl, refl) v
    step-Quiet (refills os) p h a v =
        if_sleeping-Quiet p.place (if-Quiet key n p.has_backend (refill-Quiet key n os p h v) v) v
    step-Quiet (rounds t now) p h a v = round-Quiet t now p p.place refl a v
    step-Quiet (answers t b) p h a v = Same-Quiet key n (answer-Same t b p) v

    run-Quiet :
        (es : List Event) (p : PeriodicScheduler)
        → All (Leaves key) es
        → IsArmed p
        → Quiet key n p
        → Quiet key n (run next_cron es p)
    unfolding run
    run-Quiet [] p h a v = v
    run-Quiet (e ∷ es) p h a v =
        run-Quiet es (step next_cron e p) h.1 (step-IsArmed next_cron e p a)
          (step-Quiet e p h.0 a v)

-- Once a one-off is cancelled, in any state that a scheduler comes to, no firing of its key begins
-- in any later history in which the key is not scheduled again, nor refilled from the backend.
pub cancelled-stays-quiet :
    (next_cron : String → ℕ → String → ℕ) (m : TaskManager) (b : Bool) (es : List Event)
    {p : PeriodicScheduler}
    → run next_cron es (init m b) ≡ p
    → (key : String) (later : List Event) → All (Leaves key) later
    → firings key (run next_cron later (cancel_one_off key p)).taken ≡ firings key p.taken
cancelled-stays-quiet next_cron m b es {p} r key later h =
    let a : IsArmed p = rw r at (run-init-IsArmed next_cron m b es) in
    let c = cancel-IsArmed key p a in
    (run-Quiet key (firings key p.taken) next_cron later (cancel_one_off key p) h c
      (record { unnamed = cancel-unnamed key p; count = cancel-taken key p })).count
