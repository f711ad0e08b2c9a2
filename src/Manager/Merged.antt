-- ===== src/Manager/Merged.antt =====
-- manager.py: `merged_list`, and the look-up of one task by the routes.
use fastapi_taskflow.Base.{
  ℕ, ◌-◌, ◌≡◌, refl, ap, ◌∙◌, Bool, true, false, List, [], ◌∷◌, map, Option, none, some, String,
  if◌then◌else◌, ltb, or_else, ◌==◌, string_key, arith,
}
use fastapi_taskflow.Dict.{Dict, lookup, insert, lookup-insert, Distinct, Entries, insert-Entries}
use fastapi_taskflow.Models.{TaskRecord}
use fastapi_taskflow.Store.{TaskStore, records, get}
use fastapi_taskflow.Store.Records.{IsValid}

-- `for r in rs: d[r.task_id] = r`
unfoldable pub overlay : List TaskRecord → Dict String TaskRecord → Dict String TaskRecord
overlay [] m = m
overlay (r ∷ rs) m = overlay rs (insert r.task_id r m)

abbrev pub values : Dict String TaskRecord → List TaskRecord
values m = map (λ p. p.1) m

-- The cached read of the backend, and when it was made.
pub record Cache : Type 0 where
  pub backend : List TaskRecord
  pub read_at : ℕ

-- `backend` is what `load()` answers now.
unfoldable pub refresh : ℕ → ℕ → List TaskRecord → Cache → Cache
refresh ttl now backend c =
    if ltb ttl (now - c.read_at) then record { backend = backend; read_at = now } else c

-- `merged_list`: the backend's records, the peers' over them, and the live ones over both; without a
-- scheduler the live ones alone.
unfoldable pub merged : Bool → Cache → List TaskRecord → TaskStore → Dict String TaskRecord
unfolding overlay
merged false c peers s = overlay (records s) []
merged true c peers s = overlay (records s) (overlay peers (overlay c.backend []))

unfoldable pub merged_list : Bool → Cache → List TaskRecord → TaskStore → List TaskRecord
unfolding merged
merged_list has_scheduler c peers s = values (merged has_scheduler c peers s)

-- `next((r for r in rs if r.task_id == task_id), None)`
unfoldable pub find_task : String → List TaskRecord → Option TaskRecord
find_task id [] = none
find_task id (r ∷ rs) = if r.task_id == id then some r else find_task id rs

-- `store.get(task_id)`, and the merged list if there is none and a scheduler.
unfoldable pub any_task : Bool → Cache → List TaskRecord → String → TaskStore → Option TaskRecord
unfolding merged_list find_task
any_task has_scheduler c peers id s =
    or_else (get id s) (if has_scheduler then find_task id (merged_list true c peers s) else none)

-- The last record with the id.
unfoldable pub last_with : String → List TaskRecord → Option TaskRecord
last_with id [] = none
last_with id (r ∷ rs) = or_else (last_with id rs) (if r.task_id == id then some r else none)

lookup-overlay :
    (id : String) (rs : List TaskRecord) (m : Dict String TaskRecord)
    → lookup id (overlay rs m) ≡ or_else (last_with id rs) (lookup id m)
unfolding overlay last_with
lookup-overlay id [] m = refl
lookup-overlay id (r ∷ rs) m =
    lookup-overlay id rs (insert r.task_id r m) ∙ ground (arith, lookup-insert r.task_id id r m)

-- Under the invariant of the store, its records give back its map.
last_with-records :
    (id : String) (m : Dict String TaskRecord)
    → Distinct m
    → Entries (λ k r. r.task_id ≡ k) m
    → last_with id (values m) ≡ lookup id m
unfolding last_with lookup
last_with-records id [] d e = refl
last_with-records id (p ∷ m) d e = ground (
  arith,
  last_with-records id m d.1 e.1,
  d.0,
  e.0,
  string_key.same_iff p.0 id,
  string_key.same_iff p.1.task_id id,
)

abbrev Own : Dict String TaskRecord → Type 0
Own m = Entries (λ k r. r.task_id ≡ k) m

overlay-Own : (rs : List TaskRecord) (m : Dict String TaskRecord) → Own m → Own (overlay rs m)
unfolding overlay
overlay-Own [] m o = o
overlay-Own (r ∷ rs) m o =
    overlay-Own rs (insert r.task_id r m)
      (insert-Entries (λ k x. x.task_id ≡ k) r.task_id r m refl o)

find_task-values :
    (id : String) (m : Dict String TaskRecord) → Own m → find_task id (values m) ≡ lookup id m
unfolding find_task lookup
find_task-values id [] o = refl
find_task-values id (p ∷ m) o = ground (arith, o.0, find_task-values id m o.1)

merged-Own :
    (b : Bool) (c : Cache) (peers : List TaskRecord) (s : TaskStore) → Own (merged b c peers s)
unfolding merged
merged-Own false c peers s = overlay-Own (records s) [] tt
merged-Own true c peers s =
    overlay-Own (records s) _ (overlay-Own peers _ (overlay-Own c.backend [] tt))

-- What the merged list of a valid store has for an id: the live record of this instance if there is
-- one, else the last that a peer sent, else the last that the cached read of the backend has; without
-- a scheduler only the live one.
pub merged_list-find :
    (b : Bool) (c : Cache) (peers : List TaskRecord) (s : TaskStore) (id : String)
    → IsValid s
    → find_task id (merged_list b c peers s)
      ≡ or_else
          (get id s)
          (if b then or_else (last_with id peers) (last_with id c.backend) else none)
unfolding merged_list merged records get last_with lookup
merged_list-find false c peers s id v =
    find_task-values id (merged false c peers s) (merged-Own false c peers s)
    ∙ lookup-overlay id (records s) []
    ∙ ap (λ o. or_else o none) (last_with-records id s.tasks v.distinct v.own_id)
merged_list-find true c peers s id v =
    find_task-values id (merged true c peers s) (merged-Own true c peers s)
    ∙ ground (
      arith,
      lookup-overlay id (records s) (overlay peers (overlay c.backend [])),
      lookup-overlay id peers (overlay c.backend []),
      lookup-overlay id c.backend [],
      last_with-records id s.tasks v.distinct v.own_id,
    )
