-- ===== src/Router/Bulk.antt =====
-- router.py: `bulk_retry` and `retry_failed`, which retry several tasks in one request.
--   Each task to retry comes with the fresh id and the closure of its new run.
use fastapi_taskflow.Base.{
  ℕ, suc, ◌+◌, ◌≡◌, refl, Bool, true, false, not, ◌&&◌, List, [], ◌∷◌, map, Option, none, some,
  String, if◌then◌else◌, leb, length, keep, Result, ok, raise, ◌==◌, string_key, arith,
}
use fastapi_taskflow.Models.{
  Datetime, TaskStatus, failed, interrupted, TaskConfig, TaskRecord, AuditEntry,
}
use fastapi_taskflow.Registry.{Func, get_by_name}
use fastapi_taskflow.Store.{TaskStore, delete}
use fastapi_taskflow.Manager.{TaskManager}
use fastapi_taskflow.Manager.Merged.{any_task, merged_list, find_task}
use fastapi_taskflow.Router.{App, audit, is_retryable, redispatch}

-- A task to retry: its id, the id of the new run, and the closure.
pub record Retried : Type 0 where
  pub old : String
  pub id : String
  pub wrapped : ℕ

-- The answer of the handlers.
pub record Report : Type 0 where
  pub results : List Retried
  pub dispatched : ℕ
  pub skipped : ℕ

abbrev pub skip_one : Result Report → Result Report
skip_one (ok r) = ok (record r { skipped = r.skipped + 1 })
skip_one (raise e) = raise e

abbrev pub dispatch_one : Retried → Result Report → Result Report
dispatch_one t (ok r) = ok (record r { results = t ∷ r.results; dispatched = r.dispatched + 1 })
dispatch_one t (raise e) = raise e

module _ (find : String → TaskManager → Option TaskRecord) (now : Datetime) where
  -- Whether the task can be retried, with what it needs.
  abbrev of_record : Option TaskRecord → TaskManager → Option (TaskRecord × Func × TaskConfig)
  of_record none m = none
  of_record (some r) m =
      if is_retryable r.status
      then elim (get_by_name r.func_name m.registry) [ none ↦ none | some (f, c) ↦ some (r, f, c) ]
      else none

  abbrev after_dispatch :
      Retried
      → TaskManager × Result (Unit {0})
      → (TaskManager → TaskManager × Result Report)
      → TaskManager × Result Report
  after_dispatch t (m, raise e) rest = (m, raise e)
  after_dispatch t (m, ok _) rest = ((rest m).0, dispatch_one t (rest m).1)

  abbrev retry_or_skip :
      Option (TaskRecord × Func × TaskConfig)
      → Retried
      → (TaskManager → TaskManager × Result Report)
      → TaskManager
      → TaskManager × Result Report
  retry_or_skip none t rest m = ((rest m).0, skip_one (rest m).1)
  retry_or_skip (some (r, f, c)) t rest m =
      after_dispatch t (redispatch r f c t.id t.wrapped now m) rest

  -- The loop: an exception of the queue ends the request.
  unfoldable pub retry_all : List Retried → TaskManager → TaskManager × Result Report
  retry_all [] m = (m, ok (record { results = []; dispatched = 0; skipped = 0 }))
  retry_all (t ∷ ts) m = retry_or_skip (of_record (find t.old m) m) t (retry_all ts) m

abbrev delete_all : List Retried → TaskStore → TaskStore
delete_all [] s = s
delete_all (t ∷ ts) s = delete_all ts (delete t.old s).0

abbrev is_nil : List Retried → Bool
is_nil [] = true
is_nil (t ∷ ts) = false

abbrev replace_all : List Retried → App → App
replace_all ts app =
    if app.retry_replaces_original && not (is_nil ts)
    then record app {
      manager = record app.manager { store = delete_all ts app.manager.store };
      deletes =
          if app.manager.has_scheduler then map (λ t. t.old) ts ∷ app.deletes else app.deletes;
    }
    else app

abbrev close : AuditEntry → App → TaskManager × Result Report → App × Result Report
close e app (m, raise x) = (record app { manager = m }, raise x)
close e app (m, ok r) = (audit e (replace_all r.results (record app { manager = m })), ok r)

-- `POST /bulk-retry`
unfoldable pub bulk_retry : List Retried → Datetime → AuditEntry → App → App × Result Report
unfolding retry_all
bulk_retry ts now e app =
    close e app (
      retry_all (λ id m. any_task m.has_scheduler app.cache app.peers id m.store) now ts
        app.manager)

abbrev is_failed : TaskStatus → Bool
is_failed failed = true
is_failed interrupted = true
is_failed _ = false

abbrev since : Option Datetime → Datetime → Bool
since none created = true
since (some cutoff) created = leb cutoff.at created.at

abbrev named : Option String → String → Bool
named none f = true
named (some g) f = f == g

-- The tasks that `retry_failed` chooses from the merged list.
unfoldable pub candidates : Option Datetime → Option String → App → List TaskRecord
candidates cutoff func_name app =
    keep (λ r. is_failed r.status && since cutoff r.created_at && named func_name r.func_name)
      (merged_list app.manager.has_scheduler app.cache app.peers app.manager.store)

abbrev retried : (String → String × ℕ) → List TaskRecord → List Retried
retried fresh [] = []
retried fresh (r ∷ rs) =
    record { old = r.task_id; id = (fresh r.task_id).0; wrapped = (fresh r.task_id).1 }
    ∷ retried fresh rs

-- `POST /retry-failed`; `fresh` gives the new id and the closure for each task.
unfoldable pub retry_failed :
    Option Datetime
    → Option String
    → (String → String × ℕ)
    → Datetime
    → AuditEntry
    → App
    → App × Result Report
unfolding retry_all candidates
retry_failed cutoff func_name fresh now e app =
    let rs = candidates cutoff func_name app in
    close e app (retry_all (λ id m. find_task id rs) now (retried fresh rs) app.manager)

-- What a report says of `n` tasks.
abbrev pub Accounts : ℕ → Result Report → Type 0
Accounts n (ok r) = (r.dispatched + r.skipped ≡ n) × (length r.results ≡ r.dispatched)
Accounts n (raise e) = Unit

skip_one-Accounts : (n : ℕ) (o : Result Report) → Accounts n o → Accounts (suc n) (skip_one o)
skip_one-Accounts n (ok r) a = (omega (arith, a.0), a.1)
skip_one-Accounts n (raise e) a = tt

dispatch_one-Accounts :
    (n : ℕ) (t : Retried) (o : Result Report) → Accounts n o → Accounts (suc n) (dispatch_one t o)
dispatch_one-Accounts n t (ok r) a = (omega (arith, a.0), omega (arith, a.1))
dispatch_one-Accounts n t (raise e) a = tt

module _ (find : String → TaskManager → Option TaskRecord) (now : Datetime) where
  after_dispatch-Accounts :
      (n : ℕ) (t : Retried) (o : TaskManager × Result (Unit {0}))
      (rest : TaskManager → TaskManager × Result Report)
      → ((m : TaskManager) → Accounts n (rest m).1)
      → Accounts (suc n) (after_dispatch find now t o rest).1
  after_dispatch-Accounts n t (m, ok _) rest a = dispatch_one-Accounts n t (rest m).1 (a m)
  after_dispatch-Accounts n t (m, raise e) rest a = tt

  retry_or_skip-Accounts :
      (n : ℕ) (o : Option (TaskRecord × Func × TaskConfig)) (t : Retried)
      (rest : TaskManager → TaskManager × Result Report) (m : TaskManager)
      → ((m : TaskManager) → Accounts n (rest m).1)
      → Accounts (suc n) (retry_or_skip find now o t rest m).1
  retry_or_skip-Accounts n none t rest m a = skip_one-Accounts n (rest m).1 (a m)
  retry_or_skip-Accounts n (some (r, f, c)) t rest m a =
      after_dispatch-Accounts n t (redispatch r f c t.id t.wrapped now m) rest a

  pub retry_all-Accounts :
      (ts : List Retried) (m : TaskManager) → Accounts (length ts) (retry_all find now ts m).1
  unfolding retry_all
  retry_all-Accounts [] m = (refl, refl)
  retry_all-Accounts (t ∷ ts) m =
      retry_or_skip-Accounts (length ts) _ t (retry_all find now ts) m (retry_all-Accounts ts)
