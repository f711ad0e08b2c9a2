-- ===== src/Backend/Locks.antt =====
-- backends/sqlite.py: the locks by which one instance runs a scheduled task.
use fastapi_taskflow.Base.{
  ℕ, ◌+◌, ◌<◌, ◌≡◌, true, false, List, [], ◌∷◌, some, String, All, ==_refl, string_key, arith,
}
use fastapi_taskflow.Dict.{lookup, erase, lookup-insert, lookup-erase}
use fastapi_taskflow.Backend.Sqlite.{Sqlite, acquire_schedule_lock}

-- A call of `acquire_schedule_lock`.
pub record Attempt : Type 0 where
  pub key : String
  pub ttl : ℕ
  pub now : ℕ

unfoldable pub attempts : List Attempt → Sqlite → Sqlite
attempts [] db = db
attempts (t ∷ ts) db = attempts ts (acquire_schedule_lock t.key t.ttl t.now db).0

abbrev Before : ℕ → Attempt → Type 0
Before e t = t.now < e

held-step :
    (key : String) (e : ℕ) (t : Attempt) (db : Sqlite)
    → lookup key db.schedule_locks ≡ some e
    → t.now < e
    → lookup key (acquire_schedule_lock t.key t.ttl t.now db).0.schedule_locks ≡ some e
unfolding acquire_schedule_lock
held-step key e t db h l = ground (
  arith,
  string_key.same_iff t.key key,
  lookup-insert t.key key (t.now + t.ttl) (erase t.key db.schedule_locks),
  lookup-erase t.key key db.schedule_locks,
)

held-attempts :
    (key : String) (e : ℕ) (ts : List Attempt) (db : Sqlite)
    → lookup key db.schedule_locks ≡ some e
    → All (Before e) ts
    → lookup key (attempts ts db).schedule_locks ≡ some e
unfolding attempts
held-attempts key e [] db h a = h
held-attempts key e (t ∷ ts) db h a = held-attempts key e ts _ (held-step key e t db h a.0) a.1

taken :
    (key : String) (ttl now : ℕ) (db : Sqlite)
    → (acquire_schedule_lock key ttl now db).1 ≡ true
    → lookup key (acquire_schedule_lock key ttl now db).0.schedule_locks ≡ some (now + ttl)
unfolding acquire_schedule_lock
taken key ttl now db h =
    ground (arith, ==_refl key, lookup-insert key key (now + ttl) (erase key db.schedule_locks))

refused :
    (key : String) (e ttl now : ℕ) (db : Sqlite)
    → lookup key db.schedule_locks ≡ some e
    → now < e
    → (acquire_schedule_lock key ttl now db).1 ≡ false
unfolding acquire_schedule_lock
refused key e ttl now db h l = ground arith

-- A lock is exclusive: once a call has acquired it, no call before its expiry acquires it again,
-- whatever calls on this and other keys, all before the expiry, come between.
pub lock-exclusive :
    (key : String) (ttl now : ℕ) (db : Sqlite) (ts : List Attempt) (ttl' now' : ℕ)
    → (acquire_schedule_lock key ttl now db).1 ≡ true
    → All (Before (now + ttl)) ts
    → now' < now + ttl
    → (acquire_schedule_lock key ttl' now' (attempts ts (acquire_schedule_lock key ttl now db).0)).1
      ≡ false
lock-exclusive key ttl now db ts ttl' now' h a l =
    refused key (now + ttl) ttl' now' _
      (held-attempts key (now + ttl) ts _ (taken key ttl now db h) a) l
