-- ===== src/Registry/Lookup.antt =====
-- registry.py: the two dictionaries of the registry against each other.
use fastapi_taskflow.Base.{
  ℕ, ◌≡◌, refl, ap, ◌∙◌, Bool, true, false, [], ◌∷◌, Option, none, some, String, if◌then◌else◌,
  ◌==◌, ==_refl, string_key, nat_key, arith,
}
use fastapi_taskflow.Dict.{
  Dict, lookup, insert, lookup-insert, Entries, insert-Entries, lookup-Entries,
}
use fastapi_taskflow.Models.{TaskConfig}
use fastapi_taskflow.Registry.{
  Func, TaskRegistry, or_text, of_func, with_config, register, get_config, get_by_name,
  is_registered,
}

-- Every function that has a name has a configuration.
pub record IsConsistent (r : TaskRegistry) : Type 0 where
  pub named : Entries (λ n f. is_registered f r ≡ true) r.by_name

module _ (f : Func) (c : TaskConfig) where
  widen :
      (m : Dict String Func) (r : TaskRegistry)
      → Entries (λ n g. is_registered g r ≡ true) m
      → Entries (λ n g. is_registered g (register f c r) ≡ true) m
  unfolding is_registered register
  widen [] r h = tt
  widen ((n, g) ∷ m) r h = (ground (arith, h.0, lookup-insert f.id g.id c r.by_id), widen m r h.1)

  pub register-IsConsistent : (r : TaskRegistry) → IsConsistent r → IsConsistent (register f c r)
  unfolding register is_registered
  register-IsConsistent r v = record {
    named =
        insert-Entries (λ n g. is_registered g (register f c r) ≡ true) (or_text c.name f.name) f
          r.by_name (ground (arith, lookup-insert f.id f.id c r.by_id, ==_refl f.id))
          (widen r.by_name r v.named);
  }

abbrev pub reconfigured : ℕ → TaskConfig → Option (Func × TaskConfig) → Option (Func × TaskConfig)
reconfigured i c none = none
reconfigured i c (some (g, old)) = some (g, if i == g.id then c else old)

found_itself : (i : ℕ) (c : TaskConfig) (m : Dict ℕ TaskConfig) → lookup i (insert i c m) ≡ some c
found_itself i c m = ground (arith, lookup-insert i i c m, ==_refl i)

-- After a registration its name finds the function with the new configuration; every other name
-- finds what it found before, with the new configuration if it is the same function.
pub get_by_name-register :
    (f : Func) (c : TaskConfig) (r : TaskRegistry) (n : String)
    → IsConsistent r
    → get_by_name n (register f c r)
      ≡ (if or_text c.name f.name == n then some (f, c) else reconfigured f.id c (get_by_name n r))
unfolding get_by_name register is_registered
get_by_name-register f c r n v =
    ap (λ o. of_func o (insert f.id c r.by_id))
      (lookup-insert (or_text c.name f.name) n f r.by_name)
    ∙ by_name (or_text c.name f.name == n) (lookup n r.by_name) refl
  where
    by_name :
        (hit : Bool) (o : Option Func)
        → lookup n r.by_name ≡ o
        → of_func (if hit then some f else o) (insert f.id c r.by_id)
          ≡ (if hit then some (f, c) else reconfigured f.id c (of_func o r.by_id))
    by_name true o e = ap (with_config f) (found_itself f.id c r.by_id)
    by_name false none e = refl
    by_name false (some g) e = ground (
      arith,
      lookup-insert f.id g.id c r.by_id,
      lookup-Entries (λ m h. is_registered h r ≡ true) n g r.by_name v.named e,
    )

-- The registry knows a function under the name of its configuration only: a record, which holds the
-- name of the function itself, does not find a function that was registered under another name.
pub renamed-lost :
    (f : Func) (c : TaskConfig) (r : TaskRegistry) (n : String)
    → IsConsistent r
    → c.name ≡ some n
    → (n == "") ≡ false
    → (n == f.name) ≡ false
    → get_by_name f.name r ≡ none
    → (get_by_name f.name (register f c r) ≡ none) × (get_config f (register f c r) ≡ some c)
unfolding get_config register
renamed-lost f c r n v k e d a =
    (get_by_name-register f c r f.name v ∙ rw (k, e, d, a) refl, found_itself f.id c r.by_id)
