-- ===== src/Backend/Tables.antt =====
-- backends/sqlite.py: what the tables give back, and `SqliteBackend` as a `SnapshotBackend`.
use fastapi_taskflow.Base.{
  ℕ, ◌≡◌, refl, ap, sym, ◌∙◌, false, ◌&&◌, List, [], ◌∷◌, map, Option, none, some, true, String,
  if◌then◌else◌, is_some, or_else, ◌==◌, string_key, arith,
}
use fastapi_taskflow.Dict.{
  Dict, lookup, insert, erase, lookup-insert, lookup-erase, Entries, insert-Entries,
}
use fastapi_taskflow.Models.{Obj, Bytes, Datetime, to_naive, TaskRecord}
use fastapi_taskflow.Registry.{or_text}
use fastapi_taskflow.Store.{is_expired}
use fastapi_taskflow.Manager.Merged.{find_task, last_with}
use fastapi_taskflow.Backend.{SnapshotBackend, opt_map}
use fastapi_taskflow.Backend.Sqlite.{
  Row, PendingRow, Sqlite, some_bytes, reload_values, to_row, save, put_pendings, to_pending_row,
  of_pending_row, save_pending, of_row, load, load_pending, clear_pending, claim_pending,
  completed_ids, check_idempotency_key, record_idempotency_key, row_is_old, is_old_status,
}

-- Each row stands under its own id.
abbrev pub RowsOwn : Sqlite → Type 0
RowsOwn db = Entries (λ k d. d.task_id ≡ k) db.snapshots

abbrev on_row : Option Row → Option TaskRecord
on_row none = none
on_row (some d) = some (of_row d)

find-load :
    (id : String) (m : Dict String Row)
    → Entries (λ k d. d.task_id ≡ k) m
    → find_task id (map (λ p. of_row p.1) m) ≡ on_row (lookup id m)
unfolding find_task lookup of_row
find-load id [] o = refl
find-load id (p ∷ m) o = ground (arith, o.0, find-load id m o.1)

module _ (reload : Obj → Obj) (now : ℕ) where
  -- What is left of a record in the history.
  abbrev pub snapshot : TaskRecord → TaskRecord
  snapshot r = record r {
    args = map reload r.args;
    kwargs = reload_values reload r.kwargs;
    idempotency_key = none;
    tags = [];
    encrypted_payload = some_bytes r.encrypted_payload;
    source = or_text (some r.source) "manual";
    queue = or_text (some r.queue) "default";
  }

  abbrev pub opt_snapshot : Option TaskRecord → Option TaskRecord
  opt_snapshot none = none
  opt_snapshot (some r) = some (snapshot r)

  some_bytes_twice : (b : Option Bytes) → some_bytes (some_bytes b) ≡ some_bytes b
  some_bytes_twice none = refl
  some_bytes_twice (some []) = refl
  some_bytes_twice (some (x ∷ xs)) = refl

  of_row-to_row : (r : TaskRecord) → of_row (to_row reload now r) ≡ snapshot r
  unfolding of_row to_row
  of_row-to_row r =
      ap (λ b. record (snapshot r) { encrypted_payload = b }) (some_bytes_twice r.encrypted_payload)

  save-RowsOwn : (rs : List TaskRecord) (db : Sqlite) → RowsOwn db → RowsOwn (save reload now rs db)
  unfolding save to_row
  save-RowsOwn [] db o = o
  save-RowsOwn (r ∷ rs) db o =
      save-RowsOwn rs _
        (insert-Entries (λ k d. d.task_id ≡ k) r.task_id (to_row reload now r) db.snapshots refl o)

  rows-save :
      (rs : List TaskRecord) (db : Sqlite) (id : String)
      → on_row (lookup id (save reload now rs db).snapshots)
        ≡ or_else (opt_snapshot (last_with id rs)) (on_row (lookup id db.snapshots))
  unfolding save last_with
  rows-save [] db id = refl
  rows-save (r ∷ rs) db id =
      rows-save rs (record db { snapshots = insert r.task_id (to_row reload now r) db.snapshots })
        id
      ∙ ground
          (arith, lookup-insert r.task_id id (to_row reload now r) db.snapshots, of_row-to_row r)

  -- The history after a save has, for each id, the snapshot of the last record saved under it, else
  -- what it had: everything of the record but its idempotency key and its tags, and the arguments as
  -- JSON gives them back.
  pub load-save :
      (rs : List TaskRecord) (db : Sqlite) (id : String)
      → RowsOwn db
      → find_task id (load (save reload now rs db))
        ≡ or_else (opt_snapshot (last_with id rs)) (find_task id (load db))
  unfolding load
  load-save rs db id o =
      find-load id (save reload now rs db).snapshots (save-RowsOwn rs db o)
      ∙ rows-save rs db id
      ∙ ap (or_else (opt_snapshot (last_with id rs))) (sym (find-load id db.snapshots o))

  pub row_is_old-is_expired :
      (cutoff : Datetime) (r : TaskRecord)
      → row_is_old cutoff.at (to_row reload now r) ≡ (is_expired cutoff r && is_old_status r.status)
  unfolding to_row to_naive
  row_is_old-is_expired cutoff r = ground arith

  pub is_pending-erase :
      (id j : String) (m : Dict String PendingRow)
      → is_some (lookup j (erase id m)) ≡ (if id == j then false else is_some (lookup j m))
  is_pending-erase id j m = ground (arith, lookup-erase id j m)

  abbrev opt_pending : Option TaskRecord → Option PendingRow
  opt_pending none = none
  opt_pending (some r) = some (to_pending_row reload r)

  abbrev on_pending : Option PendingRow → Option TaskRecord
  on_pending none = none
  on_pending (some d) = some (of_pending_row d)

  abbrev pub pending_snapshot : TaskRecord → TaskRecord
  pending_snapshot r = of_pending_row (to_pending_row reload r)

  pub pending_snapshot-kept :
      (r : TaskRecord)
      → ((pending_snapshot r).task_id ≡ r.task_id) × ((pending_snapshot r).func_name ≡ r.func_name)
  unfolding of_pending_row to_pending_row
  pending_snapshot-kept r = (refl, refl)

  pendings-put :
      (ts : List TaskRecord) (m : Dict String PendingRow) (id : String)
      → lookup id (put_pendings reload ts m) ≡ or_else (opt_pending (last_with id ts)) (lookup id m)
  unfolding last_with
  pendings-put [] m id = refl
  pendings-put (t ∷ ts) m id =
      pendings-put ts (insert t.task_id (to_pending_row reload t) m) id
      ∙ ground (arith, lookup-insert t.task_id id (to_pending_row reload t) m)

  put-Own :
      (ts : List TaskRecord) (m : Dict String PendingRow)
      → Entries (λ k d. d.task_id ≡ k) m
      → Entries (λ k d. d.task_id ≡ k) (put_pendings reload ts m)
  unfolding to_pending_row
  put-Own [] m o = o
  put-Own (t ∷ ts) m o =
      put-Own ts _
        (insert-Entries (λ k d. d.task_id ≡ k) t.task_id (to_pending_row reload t) m refl o)

  find-pending :
      (id : String) (m : Dict String PendingRow)
      → Entries (λ k d. d.task_id ≡ k) m
      → find_task id (map (λ p. of_pending_row p.1) m) ≡ on_pending (lookup id m)
  unfolding find_task lookup of_pending_row
  find-pending id [] o = refl
  find-pending id (p ∷ m) o = ground (arith, o.0, find-pending id m o.1)

  pub find-save_pending :
      (id : String) (ts : List TaskRecord) (db : Sqlite)
      → (id == "") ≡ false
      → find_task id (load_pending (save_pending reload ts db))
        ≡ opt_map pending_snapshot (last_with id ts)
  unfolding load_pending save_pending lookup
  find-save_pending id ts db n =
      find-pending id (put_pendings reload ts []) (put-Own ts [] tt)
      ∙ ap on_pending (pendings-put ts [] id)
      ∙ by_last (last_with id ts)
    where
      by_last :
          (o : Option TaskRecord)
          → on_pending (or_else (opt_pending o) none) ≡ opt_map pending_snapshot o
      by_last none = refl
      by_last (some r) = refl

  pub save_pending-listed :
      (id : String) (ts : List TaskRecord) (db : Sqlite)
      → is_some (last_with id ts) ≡ true
      → is_some (lookup id (save_pending reload ts db).pendings) ≡ true
  unfolding save_pending
  save_pending-listed id ts db h = ground (arith, pendings-put ts [] id, h)

  unfoldable pub sqlite_backend : SnapshotBackend Sqlite
  unfolding claim_pending
  sqlite_backend = record {
    save = save reload now;
    load = load;
    save_pending = save_pending reload;
    load_pending = load_pending;
    clear_pending = clear_pending;
    claim_pending = claim_pending;
    completed_ids = completed_ids;
    is_pending = λ id db. is_some (lookup id db.pendings);
    claim-answer = λ id db. refl;
    claim-removes = λ id j db. is_pending-erase id j db.pendings;
    reload_pending = pending_snapshot;
    reload_pending-kept = pending_snapshot-kept;
    find-save_pending = find-save_pending;
    save_pending-listed = save_pending-listed;
  }

-- The first task that records a key keeps it; no other key is touched.
pub check-record_idempotency_key :
    (key task_id other : String) (db : Sqlite)
    → check_idempotency_key other (record_idempotency_key key task_id db) ≡ (
        if key == other
        then or_else (check_idempotency_key key db) (some task_id)
        else check_idempotency_key other db)
unfolding check_idempotency_key record_idempotency_key
check-record_idempotency_key key task_id other db =
    ground
      (arith, string_key.same_iff key other, lookup-insert key other task_id db.idempotency_keys)
