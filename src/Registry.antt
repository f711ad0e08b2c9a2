-- ===== src/Registry.antt =====
-- registry.py: `TaskRegistry`. A Python function is its identity, its name, and whether it is a
-- coroutine function.
pub mod Lookup
use fastapi_taskflow.Base.{
  ℕ, Bool, Option, none, some, String, if◌then◌else◌, is_some, ◌==◌, string_key, nat_key, Key,
}
use fastapi_taskflow.Dict.{Dict, lookup, insert}
use fastapi_taskflow.Models.{TaskConfig}

pub record Func : Type 0 where
  -- `id(func)`
  pub id : ℕ
  -- `func.__name__`
  pub name : String
  pub is_coroutine : Bool

pub record TaskRegistry : Type 0 where
  pub by_id : Dict ℕ TaskConfig
  pub by_name : Dict String Func

-- `a or b` for texts: an empty text counts as missing.
abbrev pub or_text : Option String → String → String
or_text none d = d
or_text (some s) d = if s == "" then d else s

unfoldable pub register : Func → TaskConfig → TaskRegistry → TaskRegistry
register f config r = record {
  by_id = insert f.id config r.by_id;
  by_name = insert (or_text config.name f.name) f r.by_name;
}

unfoldable pub get_config : Func → TaskRegistry → Option TaskConfig
get_config f r = lookup f.id r.by_id

abbrev pub with_config : Func → Option TaskConfig → Option (Func × TaskConfig)
with_config f none = none
with_config f (some config) = some (f, config)

abbrev pub of_func : Option Func → Dict ℕ TaskConfig → Option (Func × TaskConfig)
of_func none m = none
of_func (some f) m = with_config f (lookup f.id m)

unfoldable pub get_by_name : String → TaskRegistry → Option (Func × TaskConfig)
get_by_name name r = of_func (lookup name r.by_name) r.by_id

unfoldable pub is_registered : Func → TaskRegistry → Bool
is_registered f r = is_some (lookup f.id r.by_id)
