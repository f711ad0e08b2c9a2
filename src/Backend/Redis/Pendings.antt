-- ===== src/Backend/Redis/Pendings.antt =====
-- backends/redis.py: the pending tasks on the server, and `RedisBackend` as a `SnapshotBackend`.
use fastapi_taskflow.Base.{
  ℕ, ◌≡◌, refl, sym, ap, ◌∙◌, true, false, List, [], ◌∷◌, Option, none, some, String, if◌then◌else◌,
  is_some, or_else, ◌==◌, string_key, arith, Option-cases, inl, inr,
}
use fastapi_taskflow.Dict.{Dict, lookup, insert, erase, lookup-insert, lookup-erase}
use fastapi_taskflow.Models.{Obj, TaskRecord}
use fastapi_taskflow.Manager.Merged.{find_task, last_with}
use fastapi_taskflow.Backend.{SnapshotBackend, opt_map}
use fastapi_taskflow.Backend.Redis.{
  PendingHash, Members, Redis, save, pending_mapping, put_pendings, put_ids, delete_named,
  save_pending, of_pending, opt_pending, load, load_pending, clear_pending, claim_pending,
  completed_ids,
}
use fastapi_taskflow.Backend.Redis.Loads.{Own, gather-find}

last_with-id :
    (id : String) (ts : List TaskRecord) (r : TaskRecord)
    → last_with id ts ≡ some r
    → r.task_id ≡ id
unfolding last_with
last_with-id id [] r e = cc e
last_with-id id (t ∷ ts) r e =
    ground (arith, e, last_with-id id ts r, string_key.same_iff t.task_id id)

abbrev id_or : String → Option TaskRecord → String
id_or k none = k
id_or k (some r) = r.task_id

module _ (reload : Obj → Obj) (ttl : Option ℕ) (now : ℕ) where
  abbrev opt_hash : Option TaskRecord → Option PendingHash
  opt_hash none = none
  opt_hash (some r) = some (pending_mapping reload r)

  abbrev pub kept_pending : TaskRecord → TaskRecord
  kept_pending r = of_pending (pending_mapping reload r)

  pub kept_pending-kept :
      (r : TaskRecord)
      → ((kept_pending r).task_id ≡ r.task_id) × ((kept_pending r).func_name ≡ r.func_name)
  unfolding of_pending pending_mapping
  kept_pending-kept r = (refl, refl)

  pendings-put :
      (ts : List TaskRecord) (m : Dict String PendingHash) (id : String)
      → lookup id (put_pendings reload ts m) ≡ or_else (opt_hash (last_with id ts)) (lookup id m)
  unfolding last_with
  pendings-put [] m id = refl
  pendings-put (t ∷ ts) m id =
      pendings-put ts (insert t.task_id (pending_mapping reload t) m) id
      ∙ ground (arith, lookup-insert t.task_id id (pending_mapping reload t) m)

  ids-put :
      (ts : List TaskRecord) (m : Members) (id : String)
      → is_some (lookup id (put_ids reload ts m))
        ≡ (if is_some (last_with id ts) then true else is_some (lookup id m))
  unfolding last_with
  ids-put [] m id = refl
  ids-put (t ∷ ts) m id =
      ids-put ts (insert t.task_id tt m) id ∙ ground (arith, lookup-insert t.task_id id tt m)

  row : List TaskRecord → Redis → String → Option TaskRecord
  row ts db id = opt_pending (lookup id (save_pending reload ts db).pendings)

  row-last :
      (ts : List TaskRecord) (db : Redis) (id : String) (r : TaskRecord)
      → last_with id ts ≡ some r
      → row ts db id ≡ some (kept_pending r)
  unfolding row save_pending
  row-last ts db id r e =
      ap opt_pending (pendings-put ts (delete_named db.pending_index db.pendings) id) ∙ rw e refl

  row-Own : (ts : List TaskRecord) (db : Redis) → Own (row ts db) (put_ids reload ts [])
  unfolding lookup
  row-Own ts db k h r e = elim (Option-cases (last_with k ts)) [
    | inl n ↦ ground (arith, ids-put ts [] k, n, h)
    | inr (x, s) ↦
        sym (ap (id_or k) (sym (row-last ts db k x s) ∙ e))
        ∙ (kept_pending-kept x).0
        ∙ last_with-id k ts x s
  ]

  pub find-save_pending :
      (id : String) (ts : List TaskRecord) (db : Redis)
      → (id == "") ≡ false
      → find_task id (load_pending (save_pending reload ts db))
        ≡ opt_map kept_pending (last_with id ts)
  unfolding load_pending save_pending lookup row
  find-save_pending id ts db u =
      gather-find (row ts db) (put_ids reload ts []) id (row-Own ts db) u
      ∙ elim (Option-cases (last_with id ts)) [
        | inl n ↦ rw (ids-put ts [] id) (rw n refl)
        | inr (r, s) ↦ rw (ids-put ts [] id) (rw s (row-last ts db id r s))
      ]

  pub save_pending-listed :
      (id : String) (ts : List TaskRecord) (db : Redis)
      → is_some (last_with id ts) ≡ true
      → is_some (lookup id (save_pending reload ts db).pendings) ≡ true
  unfolding save_pending
  save_pending-listed id ts db h =
      ground (arith, pendings-put ts (delete_named db.pending_index db.pendings) id, h)

  pub is_pending-erase :
      (id j : String) (m : Dict String PendingHash)
      → is_some (lookup j (erase id m)) ≡ (if id == j then false else is_some (lookup j m))
  is_pending-erase id j m = ground (arith, lookup-erase id j m)

  -- `RedisBackend` at a time, with the laws that requeueing relies on.
  unfoldable pub redis_backend : SnapshotBackend Redis
  unfolding claim_pending
  redis_backend = record {
    save = save reload ttl now;
    load = load now;
    save_pending = save_pending reload;
    load_pending = load_pending;
    clear_pending = clear_pending;
    claim_pending = claim_pending;
    completed_ids = completed_ids now;
    is_pending = λ id db. is_some (lookup id db.pendings);
    claim-answer = λ id db. refl;
    claim-removes = λ id j db. is_pending-erase id j db.pendings;
    reload_pending = kept_pending;
    reload_pending-kept = kept_pending-kept;
    find-save_pending = find-save_pending;
    save_pending-listed = save_pending-listed;
  }
