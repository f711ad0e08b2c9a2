-- ===== src/Pipeline/World.antt =====
-- middleware.py: the execution context of one task run, and the monad that the middlewares run in.
use fastapi_taskflow.Base.{ℕ, ◌+◌, Bool, true, false, List, [], ◌∷◌, Option, String}
use fastapi_taskflow.Models.{Float, Datetime, TaskStatus, TaskConfig}
use fastapi_taskflow.Store.{TaskStore}
use fastapi_taskflow.Store.Calls.{Call, run}

-- What a dispatch may raise: the text of the exception, its traceback (the worker's where there is
-- one), and `_was_interrupted`.
pub record Failure : Type 0 where
  pub message : String
  pub traceback : String
  pub was_interrupted : Bool

pub data Fault : Type 0 where
  cancelled_error : Fault
  failure : Failure → Fault

pub data Outcome : Type 0 where
  returns : Outcome
  raises : Failure → Outcome

-- One await: what happens before the coroutine goes on.
pub record Turn : Type 0 where
  pub elapsed : ℕ
  pub others : List Call
  pub cancel : Bool

-- What the run shows to the outside, latest first.
pub data Effect : Type 0 where
  lifecycle : TaskStatus → ℕ → ℕ → Effect
  dispatched : ℕ → Effect
  slept : Float → Effect
  key_recorded : String → Effect
  on_success : Effect

-- `ExecContext`: the fields that change during the run.
pub record Context : Type 0 where
  pub attempt : ℕ
  pub task_start : Datetime
  pub attempt_start : Datetime
  pub last_error : Option Failure
  pub succeeded : Bool
  -- `task_id in running_tasks`
  pub registered : Bool

-- The fields that do not: the backend is what it answers to the key check (`none`: it raised) and
-- whether it can record a key.
pub record Backend : Type 0 where
  pub check_key : Option (Option String)
  pub can_record : Bool

pub record Job : Type 0 where
  pub task_id : String
  pub config : TaskConfig
  pub backend : Option Backend
  pub has_on_success : Bool
  pub has_logger : Bool

pub record World : Type 0 where
  pub store : TaskStore
  pub now : ℕ
  pub turns : List Turn
  pub outcomes : List Outcome
  pub effects : List Effect
  pub ctx : Context

pub data Out {ℓ} (A : Type ℓ) : Type ℓ where
  done : A → Out A
  throw : Fault → Out A

abbrev pub M : Type 0 → Type 0
M A = World → Out A × World

abbrev pub then_do : {A B : Type 0} → Out A × World → (A → M B) → Out B × World
then_do (done a, w) f = f a w
then_do (throw e, w) f = (throw e, w)

infixl 5 ◌>>=◌ ◌>>◌
abbrev pub ◌>>=◌ : {A B : Type 0} → M A → (A → M B) → M B
◌>>=◌ m f w = then_do (m w) f

abbrev pub ◌>>◌ : {B : Type 0} → M (Unit {0}) → M B → M B
m >> k = m >>= λ _. k

abbrev pub pass : M (Unit {0})
pass w = (done tt, w)

abbrev pub handle : {A : Type 0} → Out A × World → (Fault → M A) → Out A × World
handle (done a, w) f = (done a, w)
handle (throw e, w) f = f e w

-- `try: m except: handler`
abbrev pub catch : {A : Type 0} → M A → (Fault → M A) → M A
catch m handler w = handle (m w) handler

abbrev pub fail : {A : Type 0} → Fault → M A
fail e w = (throw e, w)

-- `await`
unfoldable pub await : M (Unit {0})
await w = elim w.turns [
  | [] ↦ (done tt, w)
  | t ∷ rest ↦
      let w' = record w { turns = rest; now = w.now + t.elapsed; store = run t.others w.store } in
      elim t.cancel [ true ↦ (throw cancelled_error, w') | false ↦ (done tt, w') ]
]

-- `datetime.now(timezone.utc)`
abbrev pub utc_now : World → Datetime
utc_now w = record { at = w.now; aware = true }

abbrev pub emit : Effect → M (Unit {0})
emit e w = (done tt, record w { effects = e ∷ w.effects })

abbrev pub on_store : (TaskStore → TaskStore) → M (Unit {0})
on_store f w = (done tt, record w { store = f w.store })

abbrev pub on_ctx : (World → Context → Context) → M (Unit {0})
on_ctx f w = (done tt, record w { ctx = f w w.ctx })

abbrev pub reading : {A : Type 0} → (World → M A) → M A
reading f w = f w w
