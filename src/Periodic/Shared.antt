-- ===== src/Periodic/Shared.antt =====
-- periodic.py and manager.py: one-offs of several instances on one table.
--   An instance is its periodic scheduler. Between a round that pops an entry and the claim of it,
--   as between any two steps, the others act.
use fastapi_taskflow.Base.{
  Exn, Result, raise, ℕ, ◌+◌, ◌≤◌, Bool, false, List, [], ◌∷◌, Option, none, some, String,
  if◌then◌else◌, is_some, ok, arith, ◌==◌, string_key,
}
use fastapi_taskflow.Dict.{Dict, lookup, insert, lookup-insert, lookup-erase}
use fastapi_taskflow.Models.{ScheduledOnce}
use fastapi_taskflow.Backend.Sqlite.{Sqlite, save_scheduled, delete_scheduled}
use fastapi_taskflow.Periodic.{
  PeriodicScheduler, Place, stopped, sleeping, locking, claiming, ended, Fresh, Event, answers,
  answer,
}
use fastapi_taskflow.Periodic

pub record System : Type 0 where
  pub db : Sqlite
  pub instances : Dict String PeriodicScheduler

-- The steps: a call of `schedule_once` saves a row and one of `cancel_scheduled` deletes one, and
-- both go on in the scheduler of their instance, as do the steps of its loop. Others act between.
-- The backend answers a claim, or raises, or answers for a lock.
pub data Step : Type 0 where
  saves : ScheduledOnce → Step
  deletes : String → Step
  acts : String → Event → Step
  claims : String → Fresh → Step
  misses : String → Fresh → Exn → Step
  locks : String → Fresh → Result Bool → Step

abbrev pub on :
    (PeriodicScheduler → PeriodicScheduler)
    → String
    → Option PeriodicScheduler
    → Dict String PeriodicScheduler
    → Dict String PeriodicScheduler
on f i none ps = ps
on f i (some p) ps = insert i (f p) ps

abbrev pub change : (PeriodicScheduler → PeriodicScheduler) → String → System → System
change f i x = record x { instances = on f i (lookup i x.instances) x.instances }

-- The claim of the entry in hand: the row is deleted, and the loop goes on with the answer.
abbrev pub claim_at : Place → String → Fresh → System → System
claim_at (claiming o) i t x =
    let (db, claimed) = delete_scheduled o.run_key x.db in
    change (answer t (ok claimed)) i (record x { db = db })
claim_at _ i t x = x

abbrev pub if_claiming : Place → PeriodicScheduler → PeriodicScheduler → PeriodicScheduler
if_claiming (claiming o) q p = q
if_claiming _ q p = p

abbrev pub if_locking : Place → PeriodicScheduler → PeriodicScheduler → PeriodicScheduler
if_locking (locking y) q p = q
if_locking _ q p = p

abbrev pub place_of : Option PeriodicScheduler → Place
place_of none = stopped
place_of (some p) = p.place

-- Whether the step wins the claim of the key.
abbrev pub wins_at : String → Place → Sqlite → Bool
wins_at key (claiming o) db = if o.run_key == key then (delete_scheduled o.run_key db).1 else false
wins_at key _ db = false

abbrev pub wins : String → Step → System → Bool
wins key (claims i t) x = wins_at key (place_of (lookup i x.instances)) x.db
wins key _ x = false

abbrev pub saves_key : String → Step → Bool
saves_key key (saves o) = o.run_key == key
saves_key key _ = false

abbrev one : Bool → ℕ
one b = if b then 1 else 0

unfoldable pub schedulings : String → List Step → ℕ
schedulings key [] = 0
schedulings key (s ∷ ss) = one (saves_key key s) + schedulings key ss

abbrev pub row : String → System → Bool
row key x = is_some (lookup key x.db.scheduled_once)

claim-row :
    (key i : String) (t : Fresh) (p : Place) (x : System)
    → one (wins_at key p x.db) + one (row key (claim_at p i t x)) ≤ one (row key x)
unfolding delete_scheduled
claim-row key i t (claiming o) x =
    ground
      (arith, lookup-erase o.run_key key x.db.scheduled_once, string_key.same_iff o.run_key key)
claim-row key i t stopped x = ground arith
claim-row key i t sleeping x = ground arith
claim-row key i t (locking y) x = ground arith
claim-row key i t (ended e) x = ground arith

module _ (next_cron : String → ℕ → String → ℕ) where
  -- Any event of a scheduler but an answer, which comes from the table.
  unfoldable pub act : Event → PeriodicScheduler → PeriodicScheduler
  unfolding fastapi_taskflow.Periodic.step
  act (answers t a) p = p
  act e p = fastapi_taskflow.Periodic.step next_cron e p

  unfoldable pub step : Step → System → System
  unfolding save_scheduled delete_scheduled answer
  step (saves o) x = record x { db = save_scheduled o x.db }
  step (deletes key) x = record x { db = (delete_scheduled key x.db).0 }
  step (acts i e) x = change (act e) i x
  step (claims i t) x = claim_at (place_of (lookup i x.instances)) i t x
  step (misses i t e) x = change (λ p. if_claiming p.place (answer t (raise e) p) p) i x
  step (locks i t a) x = change (λ p. if_locking p.place (answer t a p) p) i x

  -- How often the key fires, and how often it is scheduled.
  unfoldable pub firings : String → List Step → System → ℕ
  firings key [] x = 0
  firings key (s ∷ ss) x = one (wins key s x) + firings key ss (step s x)

  step-row :
      (key : String) (s : Step) (x : System)
      → one (wins key s x) + one (row key (step s x)) ≤ one (row key x) + one (saves_key key s)
  unfolding step save_scheduled delete_scheduled
  step-row key (saves o) x = ground (arith, lookup-insert o.run_key key o x.db.scheduled_once)
  step-row key (deletes k) x = ground (arith, lookup-erase k key x.db.scheduled_once)
  step-row key (acts i e) x = ground arith
  step-row key (claims i t) x = omega (arith, claim-row key i t (place_of (lookup i x.instances)) x)
  step-row key (misses i t e) x = ground arith
  step-row key (locks i t a) x = ground arith

  pub firings-schedulings :
      (key : String) (ss : List Step) (x : System)
      → firings key ss x ≤ (if row key x then 1 else 0) + schedulings key ss
  unfolding firings schedulings
  firings-schedulings key [] x = ground arith
  firings-schedulings key (s ∷ ss) x =
      omega (arith, step-row key s x, firings-schedulings key ss (step s x))
