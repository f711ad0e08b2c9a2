-- ===== src/Models.antt =====
-- models.py: the data that the components share.
--   Datetimes count microseconds and carry whether they are aware; every aware one is UTC, as
--   everywhere in the code. Floats are terms over the literals of the configuration. Python objects
--   that are only passed on (arguments of tasks) are numbers, one for each object.
pub mod Json
pub mod RoundTrip
use fastapi_taskflow.Base.{
  ℕ, ◌+◌, ◌-◌, ◌≡◌, refl, Bool, true, false, List, [], ◌∷◌, Option, none, some, String,
  if◌then◌else◌, leb, arith,
}
use fastapi_taskflow.Base.Int.{ℤ, pos, negsuc}
use fastapi_taskflow.Dict.{Dict}

-- An object of the application, known by its identity.
abbrev pub Obj : Type 0
Obj = ℕ

abbrev pub Bytes : Type 0
Bytes = List ℕ

-- The floats of the configuration: literals, and the products that the retry loop forms.
pub data Float : Type 0 where
  lit : ℕ → Float
  mul : Float → Float → Float

pub record Datetime : Type 0 where
  pub at : ℕ
  pub aware : Bool

-- `dt.replace(tzinfo=None)` and `dt.replace(tzinfo=timezone.utc)`
unfoldable pub to_naive : Datetime → Datetime
to_naive dt = record dt { aware = false }

unfoldable pub to_utc : Datetime → Datetime
to_utc dt = record dt { aware = true }

pub data TaskStatus : Type 0 where
  pending running success failed interrupted cancelled rejected : TaskStatus

pub record QueueConfig : Type 0 where
  pub concurrency : Option ℕ
  pub max_size : Option ℕ

pub record TaskConfig : Type 0 where
  pub retries : ℕ
  pub delay : Float
  pub backoff : Float
  pub persist : Bool
  pub name : Option String
  pub requeue_on_interrupt : Bool
  pub eager : Bool
  pub priority : Option ℤ
  pub executor : Option String
  pub queue : Option String

-- `TaskConfig()`: literal 0 is 0.0, literal 1 is 1.0.
abbrev pub default_config : TaskConfig
default_config = record {
  retries = 0;
  delay = lit 0;
  backoff = lit 1;
  persist = false;
  name = none;
  requeue_on_interrupt = false;
  eager = false;
  priority = none;
  executor = none;
  queue = none;
}

pub record TaskRecord : Type 0 where
  pub task_id : String
  pub func_name : String
  pub status : TaskStatus
  pub args : List Obj
  pub kwargs : Dict String Obj
  pub created_at : Datetime
  pub start_time : Option Datetime
  pub end_time : Option Datetime
  pub retries_used : ℕ
  pub error : Option String
  pub logs : List String
  pub stacktrace : Option String
  pub idempotency_key : Option String
  pub tags : Dict String String
  pub encrypted_payload : Option Bytes
  pub source : String
  pub priority : Option ℤ
  pub executor : Option String
  pub queue : String

abbrev seconds_between : ℕ → ℕ → ℤ
seconds_between a b = if leb a b then pos (b - a) else negsuc (a - b - 1)

-- `record.duration`, in microseconds; the two times of one record are of one kind.
unfoldable pub duration : TaskRecord → Option ℤ
duration r = elim r.start_time [
  | none ↦ none
  | some s ↦ elim r.end_time [ none ↦ none | some e ↦ some (seconds_between s.at e.at) ]
]

pub record ScheduledOnce : Type 0 where
  pub run_key : String
  pub func_name : String
  pub fire_at : Datetime
  pub args : List Obj
  pub kwargs : Dict String Obj
  pub encrypted_payload : Option Bytes
  pub queue : String
  pub priority : Option ℤ
  pub idempotency_key : Option String
  pub tags : Dict String String
  pub created_at : Datetime

pub record AuditEntry : Type 0 where
  pub entry_id : String
  pub action : String
  pub task_id : String
  pub actor : String
  pub timestamp : Datetime
