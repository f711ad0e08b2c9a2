-- ===== src/Periodic/Withdrawn.antt =====
-- manager.py: a one-off that `schedule_once` accepted and `cancel_scheduled` withdraws.
use fastapi_taskflow.Base.{
  ℕ, ◌≡◌, refl, sym, ap, subst, Bool, true, List, Option, none, some, String, Result, ok, raise,
  arith, string_key, ==_refl,
}
use fastapi_taskflow.Dict.{Dict, lookup, insert, erase, lookup-insert, lookup-erase}
use fastapi_taskflow.Models.{Obj, Bytes, ScheduledOnce}
use fastapi_taskflow.Manager.{TaskManager, resolve_executor}
use fastapi_taskflow.Backend.Sqlite.{Sqlite, save_scheduled, delete_scheduled}
use fastapi_taskflow.Periodic.{PeriodicScheduler, ScheduledEntry, cancel_one_off}
use fastapi_taskflow.Periodic.Schedules.{
  OnceCall, checked_entry, require_scheduled_once, save_and_arm, schedule_once, delete_and_disarm,
  disarm, arm_within, cancel_scheduled,
}

-- What the scheduler holds under the key.
abbrev pub armed : String → Option PeriodicScheduler → Option ScheduledEntry
armed key none = none
armed key (some p) = lookup key p.one_offs

armed-disarm : (key : String) (p : Option PeriodicScheduler) → armed key (disarm key p) ≡ none
unfolding cancel_one_off
armed-disarm key none = refl
armed-disarm key (some p) = ground (arith, lookup-erase key key p.one_offs, ==_refl key)

-- The key has neither a row nor an entry, and the caller hears that there was a row.
abbrev pub Withdrawn : String → Option PeriodicScheduler × Sqlite × Result Bool → Type 0
Withdrawn key (p, db, r) =
    (r ≡ ok true) × (lookup key db.scheduled_once ≡ none) × (armed key p ≡ none)

erased : (key : String) (rows : Dict String ScheduledOnce) → lookup key (erase key rows) ≡ none
erased key rows = rw (lookup-erase key key rows) (rw (==_refl key) refl)

saved-Withdrawn :
    (horizon_end : ℕ) (o : ScheduledOnce) (p : Option PeriodicScheduler) (db : Sqlite)
    → Withdrawn o.run_key
        (delete_and_disarm (ok tt) o.run_key (arm_within horizon_end o p) (save_scheduled o db))
unfolding save_scheduled delete_scheduled
saved-Withdrawn horizon_end o p db = (
  ap ok (rw (lookup-insert o.run_key o.run_key o db.scheduled_once) (rw (==_refl o.run_key) refl)),
  erased o.run_key (insert o.run_key o db.scheduled_once),
  armed-disarm o.run_key (arm_within horizon_end o p),
)

module _ (picklable : List Obj → Dict String Obj → Bool)
    (fernet : Option (List Obj → Dict String Obj → Bytes)) where
  checked_sound :
      (b : Option Bool) (c : OnceCall) (m : TaskManager) (o : ScheduledOnce)
      → checked_entry picklable fernet b c m ≡ ok o
      → (require_scheduled_once b ≡ ok tt) × (o.run_key ≡ c.run_key)
  unfolding resolve_executor
  checked_sound b c m o e = ground arith

  saved_or_raised-Withdrawn :
      (r : Result ScheduledOnce) (b : Option Bool) (horizon_end : ℕ) (c : OnceCall)
      (m : TaskManager) (p : Option PeriodicScheduler) (db : Sqlite)
      → checked_entry picklable fernet b c m ≡ r
      → (save_and_arm horizon_end r p db).2 ≡ ok tt
      → Withdrawn c.run_key (
          delete_and_disarm
            (require_scheduled_once b)
            c.run_key
            (save_and_arm horizon_end r p db).0
            (save_and_arm horizon_end r p db).1)
  saved_or_raised-Withdrawn (raise x) b horizon_end c m p db e h = absurd (ground (arith, h))
  saved_or_raised-Withdrawn (ok o) b horizon_end c m p db e h =
      let s = checked_sound b c m o e in
      subst
        (λ k. Withdrawn k (
          delete_and_disarm (require_scheduled_once b) k (arm_within horizon_end o p)
            (save_scheduled o db)))
        s.1
        (subst
          (λ r.
            Withdrawn o.run_key
              (delete_and_disarm r o.run_key (arm_within horizon_end o p) (save_scheduled o db)))
          (sym s.0) (saved-Withdrawn horizon_end o p db))

  pub schedule_once-cancel_scheduled :
      (b : Option Bool) (horizon_end : ℕ) (c : OnceCall) (m : TaskManager)
      (p : Option PeriodicScheduler) (db : Sqlite)
      → (schedule_once picklable fernet b horizon_end c m p db).2 ≡ ok tt
      → Withdrawn c.run_key (
          cancel_scheduled b c.run_key
            (schedule_once picklable fernet b horizon_end c m p db).0
            (schedule_once picklable fernet b horizon_end c m p db).1)
  unfolding schedule_once cancel_scheduled
  schedule_once-cancel_scheduled b horizon_end c m p db h =
      saved_or_raised-Withdrawn (checked_entry picklable fernet b c m) b horizon_end c m p db refl h
