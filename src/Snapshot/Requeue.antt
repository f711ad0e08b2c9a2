-- ===== src/Snapshot/Requeue.antt =====
-- snapshot.py: `requeue` of several instances that share a backend.
use fastapi_taskflow.Base.{
  ℕ, ◌+◌, ◌≤◌, ◌≡◌, refl, ap, sym, ◌∙◌, Bool, true, false, List, [], ◌∷◌, none, String,
  if◌then◌else◌, Result, ok, raise, ◌==◌, ==_refl, string_key, arith, Bool-cases, inl, inr,
}
use fastapi_taskflow.Models.{TaskRecord}
use fastapi_taskflow.Registry.{get_by_name}
use fastapi_taskflow.Manager.{TaskManager}
use fastapi_taskflow.Backend.{SnapshotBackend, in_ids}
use fastapi_taskflow.Snapshot.{requeue_one, if_claimed, dispatch_known}

-- One round of the loop in some instance: its answer of `completed_ids`, the record, and the manager
-- of the instance as it is then.
pub record Round : Type 0 where
  pub completed : List String
  pub task : TaskRecord
  pub manager : TaskManager

abbrev pub dispatched : Result Bool → Bool
dispatched (ok b) = b
dispatched (raise e) = false

module _ {DB : Type 0} (B : SnapshotBackend DB) (wrap : String → ℕ) where
  abbrev pub answer : Round → DB → Bool
  answer t db = dispatched (requeue_one B wrap t.completed t.task t.manager db).2

  -- How often the task `id` is dispatched over the rounds of all instances, in the order in which they
  -- reach the backend.
  unfoldable pub dispatches : String → List Round → DB → ℕ
  dispatches id [] db = 0
  dispatches id (t ∷ ts) db =
      (if t.task.task_id == id then (if answer t db then 1 else 0) else 0)
      + dispatches id ts (requeue_one B wrap t.completed t.task t.manager db).1

  abbrev share : String → DB → ℕ
  share id db = if B.is_pending id db then 1 else 0

  abbrev Bounded : String → TaskRecord → DB → TaskManager × DB × Result Bool → Type 0
  Bounded id r db o =
      (if r.task_id == id then (if dispatched o.2 then 1 else 0) else 0) + share id o.1
      ≤ share id db

  skipped :
      (id : String) (r : TaskRecord) (m : TaskManager) (db : DB) → Bounded id r db (m, db, ok false)
  skipped id r m db = ground arith

  claimed-Bounded :
      (id : String) (r : TaskRecord) (m : TaskManager) (db : DB) (c : Bool)
      → B.is_pending r.task_id db ≡ c
      → Bounded id r db
          (let (m', o) = if_claimed B wrap r c m in (m', (B.claim_pending r.task_id db).0, o))
  claimed-Bounded id r m db false e =
      ground (arith, string_key.same_iff r.task_id id, B.claim-removes r.task_id id db)
  claimed-Bounded id r m db true e = elim (Bool-cases (r.task_id == id)) [
    | inl h ↦
        let g = (string_key.same_iff r.task_id id).0 h in
        ground (arith, g, B.claim-removes r.task_id id db)
    | inr h ↦ ground (arith, B.claim-removes r.task_id id db)
  ]

  -- A round that dispatches the task takes its row, and no round adds one.
  round-Bounded :
      (id : String) (completed : List String) (r : TaskRecord) (m : TaskManager) (db : DB)
      → Bounded id r db (requeue_one B wrap completed r m db)
  unfolding requeue_one
  round-Bounded id completed r m db = by_skip (in_ids r.task_id completed)
    where
      after_claim : TaskManager × DB × Result Bool
      after_claim =
          let (db', c) = B.claim_pending r.task_id db in
          let (m', o) = if_claimed B wrap r c m in (m', db', o)

      claims : Bounded id r db after_claim
      claims =
          claimed-Bounded id r m db (B.claim_pending r.task_id db).1
            (sym (B.claim-answer r.task_id db))

      by_skip : (b : Bool) → Bounded id r db (if b then (m, db, ok false) else after_claim)
      by_skip true = skipped id r m db
      by_skip false = claims

  -- A pending task is dispatched at most once, whatever instances run `requeue` on the backend at the
  -- same time and however their rounds interleave, and never if its row is not there.
  pub dispatched-at-most-once :
      (id : String) (ts : List Round) (db : DB)
      → dispatches id ts db ≤ (if B.is_pending id db then 1 else 0)
  unfolding dispatches
  dispatched-at-most-once id [] db = ground arith
  dispatched-at-most-once id (t ∷ ts) db = omega (
    arith,
    round-Bounded id t.completed t.task t.manager db,
    dispatched-at-most-once id ts (requeue_one B wrap t.completed t.task t.manager db).1,
  )

  unregistered-round :
      (completed : List String) (r : TaskRecord) (m : TaskManager) (db : DB)
      → in_ids r.task_id completed ≡ false
      → B.is_pending r.task_id db ≡ true
      → get_by_name r.func_name m.registry ≡ none
      → requeue_one B wrap completed r m db ≡ (m, (B.claim_pending r.task_id db).0, ok false)
  unfolding requeue_one
  unregistered-round completed r m db c p g =
      let db' = (B.claim_pending r.task_id db).0 in
      let with_claim : Bool → TaskManager × DB × Result Bool =
        λ z. ((if_claimed B wrap r z m).0, db', (if_claimed B wrap r z m).1) in
      ap (λ b. if b then (m, db, ok false) else with_claim (B.claim_pending r.task_id db).1) c
      ∙ ap with_claim (B.claim-answer r.task_id db ∙ p)
      ∙ ap (λ z. ((dispatch_known B wrap r z m).0, db', (dispatch_known B wrap r z m).1)) g

  -- A claimed task whose function is not registered is lost: its row is gone from the backend, nothing
  -- of the manager changes, and it is not dispatched.
  pub unregistered-lost :
      (completed : List String) (r : TaskRecord) (m : TaskManager) (db : DB)
      → in_ids r.task_id completed ≡ false
      → B.is_pending r.task_id db ≡ true
      → get_by_name r.func_name m.registry ≡ none
      → let (m', db', o) = requeue_one B wrap completed r m db in
        (m' ≡ m) × (o ≡ ok false) × (B.is_pending r.task_id db' ≡ false)
  unregistered-lost completed r m db c p g =
      let e = unregistered-round completed r m db c p g in
      (
        ap (λ o. o.0) e,
        ap (λ o. o.2) e,
        ap (λ o. B.is_pending r.task_id o.1) e
            ∙ B.claim-removes r.task_id r.task_id db
            ∙ rw (==_refl r.task_id) refl,
      )
