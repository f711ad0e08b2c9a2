-- ===== src/Models/RoundTrip.antt =====
-- What a record keeps when it travels to another instance as JSON.
use fastapi_taskflow.Base.{◌≡◌, refl, [], Option, none, some, ok, arith, String}
use fastapi_taskflow.Base.Int.{ℤ}
use fastapi_taskflow.Models.{
  TaskStatus, pending, running, success, failed, interrupted, cancelled, rejected, TaskRecord,
  Datetime, to_utc,
}
use fastapi_taskflow.Models.Json.{
  value, parse_status, iso_utc, to_dict, from_dict, opt_str, opt_int, as_opt_time, as_opt_str,
  as_opt_int, iso, null,
}

pub parse_status-value : (s : TaskStatus) → parse_status (value s) ≡ ok s
unfolding parse_status value
parse_status-value pending = refl
parse_status-value running = refl
parse_status-value success = refl
parse_status-value failed = refl
parse_status-value interrupted = refl
parse_status-value cancelled = refl
parse_status-value rejected = refl

abbrev pub opt_utc : Option Datetime → Option Datetime
opt_utc none = none
opt_utc (some dt) = some (to_utc dt)

-- The record as a peer sees it.
abbrev pub displayed : TaskRecord → TaskRecord
displayed r = record r {
  args = [];
  kwargs = [];
  encrypted_payload = none;
  idempotency_key = none;
  created_at = to_utc r.created_at;
  start_time = opt_utc r.start_time;
  end_time = opt_utc r.end_time;
}

iso_utc-some : (dt : Datetime) → iso_utc (some dt) ≡ iso (to_utc dt)
unfolding iso_utc to_utc
iso_utc-some dt = ground arith

iso_utc-none : iso_utc none ≡ null
unfolding iso_utc
iso_utc-none = refl

as_opt_time-iso_utc : (o : Option Datetime) → as_opt_time (some (iso_utc o)) ≡ ok (opt_utc o)
as_opt_time-iso_utc none = rw iso_utc-none
as_opt_time-iso_utc (some dt) = rw (iso_utc-some dt)

as_opt_str-opt_str : (o : Option String) → as_opt_str (some (opt_str o)) ≡ ok o
as_opt_str-opt_str none = refl
as_opt_str-opt_str (some s) = refl

as_opt_int-opt_int : (o : Option ℤ) → as_opt_int (some (opt_int o)) ≡ ok o
as_opt_int-opt_int none = refl
as_opt_int-opt_int (some i) = refl

-- `from_dict` on the payload of `to_dict` gives back the record: every field is kept, but for the
-- arguments, the encrypted payload and the idempotency key, which are reset, and for the times,
-- which are made aware (UTC).
pub from_dict-to_dict : (r : TaskRecord) → from_dict (to_dict r) ≡ ok (displayed r)
unfolding from_dict to_dict
from_dict-to_dict r =
    simp (
      parse_status-value, iso_utc-some, as_opt_time-iso_utc, as_opt_str-opt_str, as_opt_int-opt_int,
    )
