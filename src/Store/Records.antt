-- ===== src/Store/Records.antt =====
-- store.py: the dictionary of tasks, its invariant, and what a read sees after each write.
use fastapi_taskflow.Base.{
  ◌≡◌, refl, List, [], ◌∷◌, ◌++◌, Option, none, some, String, arith, if◌then◌else◌, is_some, ◌==◌,
  string_key, Option-cases, inl, inr, ==_refl, ◌∙◌,
}
use fastapi_taskflow.Dict.{
  Dict, lookup, insert, lookup-insert, lookup-erase, Distinct, insert-Distinct, erase-Distinct,
  Entries, insert-Entries, erase-Entries, lookup-Entries, erase_all-Distinct, erase_all-Entries,
}
use fastapi_taskflow.Models.{Datetime, TaskRecord}
use fastapi_taskflow.Store.{
  TaskStore, Field, set_attr, set_attrs, create, new_record, update, append_log, restore, get,
  delete, delete_completed_before, clear, is_expired, add_subscriber, remove_subscriber, consume,
  run_scheduled, notify_shutdown,
}
use fastapi_taskflow.Store.Retention.{lookup-prune, drop_if}
use fastapi_taskflow.Store.Calls.{
  Call, creates, updates, append_logs, restores, deletes, prunes, clears, subscribes, unsubscribes,
  loop_runs, shuts_down, consumes, step, run,
}

-- Each record stands once, under its own id.
pub record IsValid (s : TaskStore) : Type 0 where
  pub distinct : Distinct s.tasks
  pub own_id : Entries (λ k r. r.task_id ≡ k) s.tasks

set_attr-task_id : (f : Field) (r : TaskRecord) → (set_attr f r).task_id ≡ r.task_id
unfolding set_attr
set_attr-task_id f r = ground arith

pub set_attrs-task_id : (fs : List Field) (r : TaskRecord) → (set_attrs fs r).task_id ≡ r.task_id
unfolding set_attrs
set_attrs-task_id [] r = refl
set_attrs-task_id (f ∷ fs) r =
    ground (arith, set_attr-task_id f r, set_attrs-task_id fs (set_attr f r))

module _ (s : TaskStore) (v : IsValid s) where
  put_valid :
      (k : String) (r : TaskRecord)
      → r.task_id ≡ k
      → Distinct (insert k r s.tasks) × Entries (λ j x. x.task_id ≡ j) (insert k r s.tasks)
  put_valid k r h = (
    insert-Distinct k r s.tasks v.distinct,
    insert-Entries (λ j x. x.task_id ≡ j) k r s.tasks h v.own_id,
  )

  own : (k : String) (r : TaskRecord) → lookup k s.tasks ≡ some r → r.task_id ≡ k
  own k r = lookup-Entries (λ j x. x.task_id ≡ j) k r s.tasks v.own_id

  update-IsValid : (k : String) (fs : List Field) → IsValid (update k fs s)
  unfolding update
  update-IsValid k fs = elim (Option-cases (lookup k s.tasks)) [
    | inl e ↦ rw (e, update) v
    | inr (r, e) ↦
        let (d, o) =
          put_valid k (set_attrs fs r) (ground (arith, set_attrs-task_id fs r, own k r)) in
        rw (e, update) (record { distinct = d; own_id = o })
  ]

  append_log-IsValid : (k m : String) → IsValid (append_log k m s)
  unfolding append_log
  append_log-IsValid k m = elim (Option-cases (lookup k s.tasks)) [
    | inl e ↦ rw (e, append_log) v
    | inr (r, e) ↦
        let (d, o) = put_valid k (record r { logs = r.logs ++ m ∷ [] }) (own k r e) in
        rw (e, append_log) (record { distinct = d; own_id = o })
  ]

  restore-IsValid : (r : TaskRecord) → IsValid (restore r s)
  unfolding restore
  restore-IsValid r = let h = put_valid r.task_id r refl in ground arith

  delete-IsValid : (k : String) → IsValid (delete k s).0
  unfolding delete
  delete-IsValid k =
      let d = erase-Distinct k s.tasks v.distinct in
      let o = erase-Entries (λ j x. x.task_id ≡ j) k s.tasks v.own_id in ground arith

  prune-IsValid : (cutoff : Datetime) → IsValid (delete_completed_before cutoff s).0
  unfolding delete_completed_before
  prune-IsValid cutoff = record {
    distinct = erase_all-Distinct _ s.tasks v.distinct;
    own_id = erase_all-Entries (λ j x. x.task_id ≡ j) _ s.tasks v.own_id;
  }

  pub step-IsValid : (c : Call) → IsValid (step c s)
  unfolding step create add_subscriber remove_subscriber consume run_scheduled notify_shutdown clear
  step-IsValid (creates k f args kwargs o now) =
      let (d, i) = put_valid k (new_record k f args kwargs o now) refl in
      record { distinct = d; own_id = i }
  step-IsValid (updates k fs) = update-IsValid k fs
  step-IsValid (append_logs k m) = append_log-IsValid k m
  step-IsValid (restores r) = restore-IsValid r
  step-IsValid (deletes k) = delete-IsValid k
  step-IsValid (prunes cutoff) = prune-IsValid cutoff
  step-IsValid clears = record { distinct = tt; own_id = tt }
  step-IsValid (subscribes q) = record { distinct = v.distinct; own_id = v.own_id }
  step-IsValid (unsubscribes q) = record { distinct = v.distinct; own_id = v.own_id }
  step-IsValid loop_runs = ground arith
  step-IsValid shuts_down = record { distinct = v.distinct; own_id = v.own_id }
  step-IsValid (consumes q) = record { distinct = v.distinct; own_id = v.own_id }

-- Whatever sequence of calls a valid store has gone through, each record stands once in the
-- dictionary, under its own task id.
pub run-IsValid : (cs : List Call) (s : TaskStore) → IsValid s → IsValid (run cs s)
unfolding run
run-IsValid [] s v = v
run-IsValid (c ∷ cs) s v = run-IsValid cs (step c s) (step-IsValid s v c)

-- A store seen as the map from task ids to records.
abbrev pub View : Type 0
View = String → Option TaskRecord

abbrev pub view : TaskStore → View
view s k = get k s

abbrev set_some : Option TaskRecord → (TaskRecord → TaskRecord) → Option TaskRecord
set_some none f = none
set_some (some r) f = some (f r)

-- What each call does to the map. The calls about clients leave it alone.
abbrev pub expected : Call → View → View
expected (creates k f args kwargs o now) m j =
    if k == j then some (new_record k f args kwargs o now) else m j
expected (updates k fs) m j = if k == j then set_some (m j) (set_attrs fs) else m j
expected (append_logs k msg) m j =
    if k == j then set_some (m j) (λ r. record r { logs = r.logs ++ msg ∷ [] }) else m j
expected (restores r) m j = if r.task_id == j then (if is_some (m j) then m j else some r) else m j
expected (deletes k) m j = if k == j then none else m j
expected (prunes cutoff) m j = drop_if (is_expired cutoff) (m j)
expected clears m j = none
expected _ m j = m j

-- Rewriting a record that is there.
lookup-set :
    (m : Dict String TaskRecord) (k j : String) (f : TaskRecord → TaskRecord) (r : TaskRecord)
    → lookup k m ≡ some r
    → lookup j (insert k (f r) m) ≡ (if k == j then set_some (lookup j m) f else lookup j m)
lookup-set m k j f r h = ground (arith, lookup-insert k j (f r) m, string_key.same_iff k j)

view-update :
    (s : TaskStore) (k : String) (fs : List Field) (j : String)
    → view (update k fs s) j ≡ (if k == j then set_some (view s j) (set_attrs fs) else view s j)
unfolding update get
view-update s k fs j = elim (Option-cases (lookup k s.tasks)) [
  | inl e ↦ rw (e, update) (ground (arith, string_key.same_iff k j))
  | inr (r, e) ↦ rw (e, update) (lookup-set s.tasks k j (set_attrs fs) r e)
]

view-append_log :
    (s : TaskStore) (k msg j : String)
    → view (append_log k msg s) j ≡ expected (append_logs k msg) (view s) j
unfolding append_log get
view-append_log s k msg j = elim (Option-cases (lookup k s.tasks)) [
  | inl e ↦ rw (e, append_log) (ground (arith, string_key.same_iff k j))
  | inr (r, e) ↦
      rw (e, append_log) (lookup-set s.tasks k j (λ x. record x { logs = x.logs ++ msg ∷ [] }) r e)
]

view-restore :
    (s : TaskStore) (r : TaskRecord) (j : String)
    → view (restore r s) j ≡ expected (restores r) (view s) j
unfolding restore get
view-restore s r j =
    ground (arith, string_key.same_iff r.task_id j, lookup-insert r.task_id j r s.tasks)

view-delete :
    (s : TaskStore) (k j : String) → view (delete k s).0 j ≡ expected (deletes k) (view s) j
unfolding delete get
view-delete s k j = ground (arith, string_key.same_iff k j, lookup-erase k j s.tasks)

-- Each call acts on the map from ids to records as its specification says: `create` replaces,
-- `update` and `append_log` change only a record that is there, `restore` never overwrites,
-- `delete` and `clear` remove, pruning removes exactly the expired records, and the calls about
-- clients change nothing.
pub get-step :
    (s : TaskStore)
    → IsValid s
    → (c : Call) (j : String) → view (step c s) j ≡ expected c (view s) j
unfolding step get create delete_completed_before add_subscriber remove_subscriber consume
    run_scheduled notify_shutdown clear lookup
get-step s v (creates k f args kwargs o now) j =
    lookup-insert k j (new_record k f args kwargs o now) s.tasks
get-step s v (updates k fs) j = view-update s k fs j
get-step s v (append_logs k m) j = view-append_log s k m j
get-step s v (restores r) j = view-restore s r j
get-step s v (deletes k) j = view-delete s k j
get-step s v (prunes cutoff) j = lookup-prune (is_expired cutoff) s.tasks v.distinct j
get-step s v clears j = refl
get-step s v (subscribes q) j = refl
get-step s v (unsubscribes q) j = refl
get-step s v loop_runs j = ground arith
get-step s v shuts_down j = refl
get-step s v (consumes q) j = refl

-- A record that is there, after an update of it.
pub update-found :
    (k : String) (fs : List Field) (s : TaskStore) {r : TaskRecord}
    → IsValid s
    → get k s ≡ some r
    → IsValid (update k fs s) × (get k (update k fs s) ≡ some (set_attrs fs r))
update-found k fs s {r} v h = (update-IsValid s v k fs, view-update s k fs k ∙ rw (==_refl k, h))
