-- ===== src/Base/Results.antt =====
-- Python exceptions as values: the ones that the library raises or lets through.
use Prim.Native.Nat.{ℕ}
use Prim.Native.String.{String}
use mathlib.Core.Option.{Option, none, some}

pub data Exn : Type 0 where
  key_error : String → Exn
  value_error : Exn
  type_error : Exn
  runtime_error : Exn
  queue_full : Exn
  task_argument : Exn
  assertion_error : Exn
  http : ℕ → Exn

pub data Result {ℓ} (A : Type ℓ) : Type ℓ where
  ok : A → Result A
  raise : Exn → Result A

infixl 5 ◌>>=◌ ◌>>◌
abbrev pub ◌>>=◌ {ℓ κ} : {A : Type ℓ} {B : Type κ} → Result A → (A → Result B) → Result B
ok a >>= f = f a
raise e >>= f = raise e

abbrev pub ◌>>◌ {ℓ} : {B : Type ℓ} → Result (Unit {0}) → Result B → Result B
m >> k = m >>= λ _. k

abbrev pub ok_or {ℓ} : {A : Type ℓ} → Exn → Option A → Result A
ok_or e none = raise e
ok_or e (some a) = ok a
