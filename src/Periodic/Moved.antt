-- ===== src/Periodic/Moved.antt =====
-- periodic.py and manager.py: a deadline that one instance moves while another has the entry armed.
use fastapi_taskflow.Base.{
  ℕ, ◌≡◌, refl, ap, ◌∙◌, Bool, true, false, List, ◌∷◌, Option, none, some, String, is_some, leb,
  Result, ok, raise, ◌==◌, string_key, ==_refl,
}
use fastapi_taskflow.Dict.{Dict, lookup, erase, lookup-insert, lookup-erase}
use fastapi_taskflow.Models.{ScheduledOnce}
use fastapi_taskflow.Manager.{TaskManager}
use fastapi_taskflow.Backend.Sqlite.{Sqlite, save_scheduled, delete_scheduled}
use fastapi_taskflow.Periodic.{
  schedules, rounds, ScheduledEntry, PeriodicScheduler, stopped, sleeping, locking, claiming, ended,
  Fresh, round, answer, on_claim, on_lock, close, fire_once,
}
use fastapi_taskflow.Periodic.Shared.{
  System, saves, acts, act, claims, change, on, claim_at, place_of, step, row,
}

abbrev pub manager_of : Option PeriodicScheduler → Option TaskManager
manager_of none = none
manager_of (some p) = some p.manager

close-manager :
    (o : TaskManager × Result (Unit {0})) (p : PeriodicScheduler) → (close none o p).manager ≡ o.0
close-manager (m, ok u) p = refl
close-manager (m, raise e) p = refl

answer-claiming :
    (t : Fresh) (o : ScheduledOnce) (b : Result Bool) (p : PeriodicScheduler)
    → p.place ≡ claiming o
    → answer t b p ≡ on_claim t o b p
unfolding answer
answer-claiming t o b p e =
    ap
      (λ z. elim z [
        | stopped ↦ p
        | sleeping ↦ p
        | locking x ↦ on_lock t x b p
        | claiming o ↦ on_claim t o b p
        | ended e ↦ p
      ])
      e

answer-manager :
    (t : Fresh) (o : ScheduledOnce) (b : Bool) (p : PeriodicScheduler)
    → p.place ≡ claiming o
    → b ≡ true
    → (answer t (ok b) p).manager ≡ (fire_once t o p.manager).0
answer-manager t o b p e h =
    ap (λ z. z.manager) (answer-claiming t o (ok b) p e)
    ∙ ap (λ z. (on_claim t o (ok z) p).manager) h
    ∙ close-manager (fire_once t o p.manager) p

lookup-on :
    (f : PeriodicScheduler → PeriodicScheduler) (i : String) (p : PeriodicScheduler)
    (ps : Dict String PeriodicScheduler)
    → lookup i ps ≡ some p
    → lookup i (on f i (lookup i ps) ps) ≡ some (f p)
lookup-on f i p ps e =
    ap (λ z. lookup i (on f i z ps)) e ∙ lookup-insert i i (f p) ps ∙ rw (==_refl i) refl

erased-row :
    (key : String) (rows : Dict String ScheduledOnce)
    → is_some (lookup key (erase key rows)) ≡ false
erased-row key rows = rw (lookup-erase key key rows) (rw (==_refl key) refl)

claim_at-claiming :
    (o : ScheduledOnce) (i : String) (t : Fresh) (p : PeriodicScheduler) (x : System)
    → p.place ≡ claiming o
    → lookup i x.instances ≡ some p
    → is_some (lookup o.run_key x.db.scheduled_once) ≡ true
    → (row o.run_key (claim_at (claiming o) i t x) ≡ false)
      × (manager_of (lookup i (claim_at (claiming o) i t x).instances)
          ≡ some (fire_once t o p.manager).0)
unfolding delete_scheduled
claim_at-claiming o i t p x k l r = (
  erased-row o.run_key x.db.scheduled_once,
  ap manager_of (lookup-on (answer t (ok (delete_scheduled o.run_key x.db).1)) i p x.instances l)
      ∙ ap some (answer-manager t o (delete_scheduled o.run_key x.db).1 p k r),
)

lookup-on-other :
    (f : PeriodicScheduler → PeriodicScheduler) (a b : String) (r : Option PeriodicScheduler)
    (ps : Dict String PeriodicScheduler)
    → (a == b) ≡ false
    → lookup b (on f a r ps) ≡ lookup b ps
lookup-on-other f a b none ps n = refl
lookup-on-other f a b (some q) ps n = rw (lookup-insert a b (f q) ps) (rw n refl)

saved-row :
    (new : ScheduledOnce) (key : String) (db : Sqlite)
    → new.run_key ≡ key
    → is_some (lookup key (save_scheduled new db).scheduled_once) ≡ true
unfolding save_scheduled
saved-row new key db e =
    rw (lookup-insert new.run_key key new db.scheduled_once) (rw e (rw (==_refl key) refl))

module _ (next_cron : String → ℕ → String → ℕ) where
  popped :
      (t : Fresh) (now : ℕ) (x : ScheduledEntry) (o : ScheduledOnce) (rest : List ScheduledEntry)
      (p : PeriodicScheduler)
      → p.place ≡ sleeping
      → p.heap ≡ x ∷ rest
      → leb x.next_run now ≡ true
      → x.cancelled ≡ false
      → x.once ≡ some o
      → p.has_backend ≡ true
      → ((round next_cron t now p).place ≡ claiming o)
        × ((round next_cron t now p).manager ≡ p.manager)
  unfolding round
  popped t now x o rest p s h d c k b = rw s (rw h (rw d (rw c (rw k (rw b (refl, refl))))))

  fired :
      (t : Fresh) (o : ScheduledOnce) (b : String) (p : PeriodicScheduler) (now : ℕ) (y : System)
      → lookup b y.instances ≡ some p
      → (round next_cron t now p).place ≡ claiming o
      → (round next_cron t now p).manager ≡ p.manager
      → is_some (lookup o.run_key y.db.scheduled_once) ≡ true
      → (row o.run_key (step next_cron (claims b t) (step next_cron (acts b (rounds t now)) y))
          ≡ false)
        × (manager_of (
              lookup b
                (step next_cron (claims b t) (step next_cron (acts b (rounds t now)) y)).instances)
            ≡ some (fire_once t o p.manager).0)
  unfolding step act
  fired t o b p now y l pl m r =
      let q = round next_cron t now p in
      let y2 = change (act next_cron (rounds t now)) b y in
      let l2 = lookup-on (act next_cron (rounds t now)) b p y.instances l in
      let e = ap (λ z. claim_at z b t y2) (ap place_of l2 ∙ pl) in
      let c = claim_at-claiming o b t q y2 pl l2 r in
      (
        ap (row o.run_key) e ∙ c.0,
        ap (λ z. manager_of (lookup b z.instances)) e ∙ c.1 ∙ ap (λ z. some (fire_once t o z).0) m,
      )

  -- An instance that sleeps has a one-off due at the head of its heap. Another instance schedules
  -- its key again, for any time and with any arguments: it saves the row and arms it. The first
  -- instance pops the old entry, wins the claim, fires the old one-off with its old arguments, and
  -- the new row is gone.
  pub stale-fires :
      (t : Fresh) (now horizon_end : ℕ) (x : ScheduledEntry) (old new : ScheduledOnce)
      (rest : List ScheduledEntry) (a b : String) (p : PeriodicScheduler) (y : System)
      → lookup b y.instances ≡ some p
      → (a == b) ≡ false
      → new.run_key ≡ old.run_key
      → p.place ≡ sleeping
      → p.heap ≡ x ∷ rest
      → leb x.next_run now ≡ true
      → x.cancelled ≡ false
      → x.once ≡ some old
      → p.has_backend ≡ true
      → (row old.run_key (
            step next_cron (claims b t) (
              step next_cron (acts b (rounds t now)) (
                step next_cron
                  (acts a (schedules horizon_end new))
                  (step next_cron (saves new) y))))
          ≡ false)
        × (manager_of (
              lookup b
                (step next_cron (claims b t) (
                  step next_cron (acts b (rounds t now)) (
                    step next_cron
                      (acts a (schedules horizon_end new))
                      (step next_cron (saves new) y)))).instances)
            ≡ some (fire_once t old p.manager).0)
  unfolding step act
  stale-fires t now horizon_end x old new rest a b p y l n k s h d c e w =
      let u = popped t now x old rest p s h d c e w in
      fired t old b p now
        (step next_cron (acts a (schedules horizon_end new)) (step next_cron (saves new) y))
        (lookup-on-other (act next_cron (schedules horizon_end new)) a b (lookup a y.instances)
            y.instances n
          ∙ l)
        u.0 u.1 (saved-row new old.run_key y.db k)
