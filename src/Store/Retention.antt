-- ===== src/Store/Retention.antt =====
-- store.py: `delete_completed_before` removes exactly the expired records, and counts them.
use fastapi_taskflow.Base.{
  suc, ◌+◌, ◌≡◌, refl, Bool, true, false, List, [], ◌∷◌, Option, none, some, String, arith,
  if◌then◌else◌, is_some, ◌==◌, string_key, length, ==_refl, ◌∙◌, length-map,
}
use fastapi_taskflow.Dict.{Dict, lookup, erase, erase_all, lookup-erase, Distinct, erase-Distinct}
use fastapi_taskflow.Models.{Datetime, TaskRecord}
use fastapi_taskflow.Store.{TaskStore, delete_completed_before, pick, is_expired, records}

abbrev pub drop_if : (TaskRecord → Bool) → Option TaskRecord → Option TaskRecord
drop_if p none = none
drop_if p (some r) = if p r then none else some r

abbrev in_list : String → List String → Bool
in_list j [] = false
in_list j (k ∷ ks) = if k == j then true else in_list j ks

lookup-erase_all :
    (ks : List String) (m : Dict String TaskRecord) (j : String)
    → lookup j (erase_all ks m) ≡ (if in_list j ks then none else lookup j m)
unfolding erase_all
lookup-erase_all [] m j = refl
lookup-erase_all (k ∷ ks) m j =
    ground (arith, lookup-erase_all ks (erase k m) j, lookup-erase k j m)

module _ (p : TaskRecord → Bool) where
  in_list-absent :
      (m : Dict String TaskRecord) (j : String) → lookup j m ≡ none → in_list j (pick p m) ≡ false
  unfolding lookup
  in_list-absent [] j h = refl
  in_list-absent (e ∷ m) j h = ground (arith, in_list-absent m j)

  in_list-pick :
      (m : Dict String TaskRecord)
      → Distinct m
      → (j : String) → (if in_list j (pick p m) then none else lookup j m) ≡ drop_if p (lookup j m)
  unfolding lookup
  in_list-pick [] d j = refl
  in_list-pick (e ∷ m) d j =
      ground (arith, in_list-pick m d.1 j, in_list-absent m j, string_key.same_iff e.0 j)

  pub lookup-prune :
      (m : Dict String TaskRecord)
      → Distinct m
      → (j : String) → lookup j (erase_all (pick p m) m) ≡ drop_if p (lookup j m)
  lookup-prune m d j = lookup-erase_all (pick p m) m j ∙ in_list-pick m d j

erase_absent : (k : String) (m : Dict String TaskRecord) → lookup k m ≡ none → erase k m ≡ m
unfolding lookup erase
erase_absent k [] h = refl
erase_absent k (e ∷ m) h = ground (arith, erase_absent k m)

length-erase :
    (k : String) (m : Dict String TaskRecord)
    → Distinct m
    → is_some (lookup k m) ≡ true
    → suc (length (erase k m)) ≡ length m
unfolding lookup erase
length-erase k [] d h = cc
length-erase k (e ∷ m) d h =
    ground (arith, length-erase k m d.1, erase_absent k m, string_key.same_iff e.0 k)

-- Every id of the list is a key, and stands once.
abbrev Present : List String → Dict String TaskRecord → Type 0
Present [] m = Unit
Present (k ∷ ks) m = (is_some (lookup k m) ≡ true) × (in_list k ks ≡ false) × Present ks m

Present-erase :
    (ks : List String) (k : String) (m : Dict String TaskRecord)
    → in_list k ks ≡ false
    → Present ks m
    → Present ks (erase k m)
Present-erase [] k m h p = tt
Present-erase (j ∷ ks) k m h p = ground (
  arith,
  Present-erase ks k m,
  lookup-erase k j m,
  string_key.same_iff j k,
  string_key.same_iff k j,
)

length-erase_all :
    (ks : List String) (m : Dict String TaskRecord)
    → Distinct m
    → Present ks m
    → length (erase_all ks m) + length ks ≡ length m
unfolding erase_all
length-erase_all [] m d p = omega arith
length-erase_all (k ∷ ks) m d p = omega (
  arith,
  length-erase_all ks (erase k m) (erase-Distinct k m d) (Present-erase ks k m p.1 p.2),
  length-erase k m d p.0,
)

Present-cons :
    (ks : List String) (e : String × TaskRecord) (m : Dict String TaskRecord)
    → Present ks m
    → Present ks (e ∷ m)
unfolding lookup
Present-cons [] e m p = tt
Present-cons (k ∷ ks) e m p = ground (arith, Present-cons ks e m)

pick-Present :
    (p : TaskRecord → Bool) (m : Dict String TaskRecord) → Distinct m → Present (pick p m) m
unfolding lookup
pick-Present p [] d = tt
pick-Present p (e ∷ m) d =
    ground (
      arith,
      Present-cons (pick p m) e m (pick-Present p m d.1),
      in_list-absent p m e.0,
      ==_refl e.0,
    )

-- The number that `delete_completed_before` returns is the number of records that are gone.
pub delete_completed_before-count :
    (cutoff : Datetime) (s : TaskStore)
    → Distinct s.tasks
    → let (t, n) = delete_completed_before cutoff s in length (records t) + n ≡ length (records s)
unfolding delete_completed_before records
delete_completed_before-count cutoff s d = omega (
  arith,
  length-erase_all _ s.tasks d (pick-Present (is_expired cutoff) s.tasks d),
  length-map s.tasks (λ (e : String × TaskRecord). e.1),
  length-map (erase_all (pick (is_expired cutoff) s.tasks) s.tasks)
      (λ (e : String × TaskRecord). e.1),
)
