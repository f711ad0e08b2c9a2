-- ===== src/Cluster.antt =====
-- instance_registry.py: the shared registry of instances, read and written as one metadata value.
--   A heartbeat reads the value and saves it later, so instances may overwrite one another: a copy
--   that was read and is not yet saved is part of the state. Times are numbers.
pub mod Peers
pub mod FanOut
use fastapi_taskflow.Base.{
  ℕ, ◌-◌, Bool, true, false, not, List, [], ◌∷◌, Option, none, some, String, if◌then◌else◌, ltb,
  ◌==◌, string_key,
}
use fastapi_taskflow.Dict.{Dict, lookup, insert, erase}

-- A value of the registry; URLs are lists of codes.
pub record Entry : Type 0 where
  pub url : List ℕ
  pub tasks_prefix : List ℕ
  pub last_seen : ℕ

abbrev pub Instances : Type 0
Instances = Dict String Entry

-- The saved value, and the copies that instances have read.
pub record Shared : Type 0 where
  pub entries : Instances
  pub copies : Dict String Instances

abbrev pub init : Shared
init = record { entries = []; copies = [] }

-- The steps of `_write_entry` and `_remove_entry` of an instance: the read, which may fail, and the
-- save, which may fail too. A removal whose read failed ends there.
pub data Event : Type 0 where
  reads : String → Bool → Event
  writes : String → Entry → Bool → Event
  removes : String → Bool → Event
  gives_up : String → Event

abbrev pub saved : Bool → Instances → Instances → Instances
saved true m old = m
saved false m old = old

-- `load_metadata` and `json.loads`; after an exception `_write_entry` starts from no entries.
unfoldable pub read : String → Bool → Shared → Shared
read id loaded x = record x { copies = insert id (if loaded then x.entries else []) x.copies }

abbrev pub write_over : String → Entry → Bool → Option Instances → Shared → Shared
write_over id e stored none x = x
write_over id e stored (some m) x = record {
  entries = saved stored (insert id e m) x.entries;
  copies = erase id x.copies;
}

-- The end of `_write_entry`.
unfoldable pub write : String → Entry → Bool → Shared → Shared
write id e stored x = write_over id e stored (lookup id x.copies) x

abbrev pub remove_over : String → Bool → Option Instances → Shared → Shared
remove_over id stored none x = x
remove_over id stored (some m) x = record {
  entries = saved stored (erase id m) x.entries;
  copies = erase id x.copies;
}

-- The end of `_remove_entry`.
unfoldable pub remove : String → Bool → Shared → Shared
remove id stored x = remove_over id stored (lookup id x.copies) x

unfoldable pub step : Event → Shared → Shared
unfolding read write remove
step (reads id loaded) x = read id loaded x
step (writes id e stored) x = write id e stored x
step (removes id stored) x = remove id stored x
step (gives_up id) x = record x { copies = erase id x.copies }

unfoldable pub run : List Event → Shared → Shared
unfolding step
run [] x = x
run (e ∷ es) x = run es (step e x)

-- A heartbeat that nobody interrupts.
unfoldable pub heartbeat : String → Entry → Shared → Shared
unfolding step
heartbeat id e x = step (writes id e true) (step (reads id true) x)

pub record Peer : Type 0 where
  pub instance_id : String
  pub url : List ℕ
  pub tasks_prefix : List ℕ

abbrev pub peer_of : String → Entry → Peer
peer_of id e = record { instance_id = id; url = e.url; tasks_prefix = e.tasks_prefix }

-- `peers`, on the entries that it read: all but its own and the stale ones.
unfoldable pub peers : String → ℕ → ℕ → Instances → List Peer
peers self ttl now [] = []
peers self ttl now (p ∷ m) =
    let rest = peers self ttl now m in
    if p.0 == self
    then rest
    else if ltb ttl (now - p.1.last_seen)
    then rest
    else peer_of p.0 p.1 ∷ rest
