-- ===== src/Backend.antt =====
-- backends/base.py: what the scheduler relies on in a backend of snapshots, as an interface with the
-- laws of the table of pending tasks. `backends/sqlite.py` fills it.
pub mod Sqlite
pub mod Tables
pub mod Locks
pub mod Redis
use fastapi_taskflow.Base.{
  ℕ, ◌≡◌, Bool, true, false, List, [], ◌∷◌, String, if◌then◌else◌, ◌==◌, string_key, Key, ◌||◌,
  Option, none, some, is_some,
}
use fastapi_taskflow.Models.{TaskRecord, Datetime}
use fastapi_taskflow.Manager.Merged.{find_task, last_with}

abbrev pub opt_map : (TaskRecord → TaskRecord) → Option TaskRecord → Option TaskRecord
opt_map f none = none
opt_map f (some r) = some (f r)

pub record SnapshotBackend (DB : Type 0) : Type 0 where
  pub save : List TaskRecord → DB → DB
  pub load : DB → List TaskRecord
  pub save_pending : List TaskRecord → DB → DB
  pub load_pending : DB → List TaskRecord
  pub clear_pending : DB → DB
  pub claim_pending : String → DB → DB × Bool
  pub completed_ids : List String → DB → List String
  -- Whether a row of the pending table has the id.
  pub is_pending : String → DB → Bool
  pub claim-answer : (id : String) (db : DB) → (claim_pending id db).1 ≡ is_pending id db
  pub claim-removes :
      (id j : String) (db : DB)
      → is_pending j (claim_pending id db).0 ≡ (if id == j then false else is_pending j db)
  -- The record that a row of the pending table gives back.
  pub reload_pending : TaskRecord → TaskRecord
  pub reload_pending-kept :
      (r : TaskRecord)
      → ((reload_pending r).task_id ≡ r.task_id) × ((reload_pending r).func_name ≡ r.func_name)
  pub find-save_pending :
      (id : String) (ts : List TaskRecord) (db : DB)
      → (id == "") ≡ false
      → find_task id (load_pending (save_pending ts db)) ≡ opt_map reload_pending (last_with id ts)
  pub save_pending-listed :
      (id : String) (ts : List TaskRecord) (db : DB)
      → is_some (last_with id ts) ≡ true
      → is_pending id (save_pending ts db) ≡ true

-- `id in ids`
abbrev pub in_ids : String → List String → Bool
in_ids id [] = false
in_ids id (k ∷ ks) = (k == id) || in_ids id ks
