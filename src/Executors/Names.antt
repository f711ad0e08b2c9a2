-- ===== src/Executors/Names.antt =====
-- executors/process_executor.py: the worker finds the function that the parent named.
use fastapi_taskflow.Base.{
  ℕ, ◌≡◌, refl, ap, ◌∙◌, true, false, List, [], ◌∷◌, ◌++◌, some, eqb, Result, ok, raise, ◌>>=◌,
  arith, All,
}
use fastapi_taskflow.Models.{Obj}
use fastapi_taskflow.Auth.Token.{NoDot, split-last}
use fastapi_taskflow.Executors.{
  colon, is_module_level, qualified_name, split_once, get_path, resolve_qualified_name,
  resolve_parts,
}

abbrev pub NoColon : ℕ → Type 0
NoColon c = eqb c colon ≡ false

split_once-colon : (m q : List ℕ) → All NoColon m → split_once (m ++ colon ∷ q) ≡ some (m, q)
unfolding split_once
split_once-colon [] q h = refl
split_once-colon (c ∷ m) q h = ground (arith, h.0, split_once-colon m q h.1)

module_level-NoDot : (q : List ℕ) → is_module_level q ≡ true → All NoDot q
unfolding is_module_level
module_level-NoDot [] h = tt
module_level-NoDot (c ∷ q) h = (ground (arith, h), module_level-NoDot q (ground (arith, h)))

get_one :
    (getattr : Obj → List ℕ → Result Obj) (import_module : List ℕ → Result Obj) (w : List ℕ)
    (r : Result Obj)
    → (r >>= get_path import_module getattr (w ∷ [])) ≡ (r >>= λ x. getattr x w)
unfolding get_path
get_one getattr import_module w (raise e) = refl
get_one getattr import_module w (ok x) = by_value (getattr x w)
  where
    by_value : (r : Result Obj) → (r >>= λ y. ok y) ≡ r
    by_value (ok y) = refl
    by_value (raise e) = refl

-- A function that the process executor accepts without cloudpickle is found in the worker by the
-- name that the parent sends: it is the attribute of its module under its qualified name.
pub resolve-qualified_name :
    (import_module : List ℕ → Result Obj) (getattr : Obj → List ℕ → Result Obj) (m q : List ℕ)
    → All NoColon m
    → is_module_level q ≡ true
    → resolve_qualified_name import_module getattr (qualified_name m q)
      ≡ (do x ← import_module m; getattr x q)
unfolding resolve_qualified_name qualified_name
resolve-qualified_name import_module getattr m q c h =
    ap (resolve_parts import_module getattr) (split_once-colon m q c)
    ∙ ap (λ ws. import_module m >>= get_path import_module getattr ws)
        (split-last q (module_level-NoDot q h))
    ∙ get_one getattr import_module q (import_module m)
