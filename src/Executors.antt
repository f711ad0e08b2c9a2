-- ===== src/Executors.antt =====
-- executors/: which functions the executors accept, and the names by which the process executor sends
-- a function when cloudpickle is not installed. Texts that are taken apart are lists of codes.
--   `importlib.import_module` and `getattr` are parameters.
pub mod Names
pub mod Process
pub mod Coroutines
use fastapi_taskflow.Base.{
  ℕ, Bool, true, false, not, ◌&&◌, ◌||◌, List, [], ◌∷◌, ◌++◌, Option, none, some, String,
  if◌then◌else◌, eqb, any, Exn, value_error, Result, ok, raise, ◌>>=◌, ◌==◌, string_key,
}
use fastapi_taskflow.Models.{Obj}
use fastapi_taskflow.Registry.{Func}
use fastapi_taskflow.Auth.{dot, split}

abbrev pub colon : ℕ
colon = 58

abbrev pub less_than : ℕ
less_than = 60

-- `_is_module_level`, on the `__qualname__`.
unfoldable pub is_module_level : List ℕ → Bool
is_module_level qualname =
    not (any (λ c. eqb c dot) qualname) && not (any (λ c. eqb c less_than) qualname)

-- `validate` of the executor of the given name.
unfoldable pub validate : Bool → (Func → List ℕ) → String → Func → Bool
unfolding is_module_level
validate cloudpickle qualname executor f =
    if executor == "async"
    then f.is_coroutine
    else if executor == "thread"
    then not f.is_coroutine
    else cloudpickle || is_module_level (qualname f)

-- `_qualified_name`
unfoldable pub qualified_name : List ℕ → List ℕ → List ℕ
qualified_name modname qualname = modname ++ colon ∷ qualname

abbrev pub put_front : ℕ → Option (List ℕ × List ℕ) → Option (List ℕ × List ℕ)
put_front c none = none
put_front c (some p) = some (c ∷ p.0, p.1)

-- `name.split(":", 1)`, where it gives two parts.
unfoldable pub split_once : List ℕ → Option (List ℕ × List ℕ)
split_once [] = none
split_once (c ∷ cs) = if eqb c colon then some ([], cs) else put_front c (split_once cs)

module _ (import_module : List ℕ → Result Obj) (getattr : Obj → List ℕ → Result Obj) where
  -- The loop over the parts of the name.
  unfoldable pub get_path : List (List ℕ) → Obj → Result Obj
  get_path [] x = ok x
  get_path (w ∷ ws) x = do y ← getattr x w; get_path ws y

  abbrev pub resolve_parts : Option (List ℕ × List ℕ) → Result Obj
  resolve_parts none = raise value_error
  resolve_parts (some p) = do x ← import_module p.0; get_path (split p.1) x

  -- `_resolve_qualified_name`, in the worker.
  unfoldable pub resolve_qualified_name : List ℕ → Result Obj
  unfolding split_once split get_path
  resolve_qualified_name name = resolve_parts (split_once name)
