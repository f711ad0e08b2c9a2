-- ===== src/Backend/Redis/Loads.antt =====
-- backends/redis.py: what the server gives back, and `RedisBackend` as a `SnapshotBackend`.
use fastapi_taskflow.Base.{
  ℕ, ◌≡◌, refl, sym, ap, ◌∙◌, Bool, true, false, List, [], ◌∷◌, map, Option, none, some, String,
  if◌then◌else◌, is_some, or_else, ◌==◌, string_key, arith, Bool-cases, inl, inr, ◌<◌, ==_refl,
}
use fastapi_taskflow.Dict.{lookup, insert, lookup-insert, Entries, insert-Entries, lookup-Entries}
use fastapi_taskflow.Models.{Obj, TaskRecord}
use fastapi_taskflow.Registry.{or_text}
use fastapi_taskflow.Manager.Merged.{find_task, last_with}
use fastapi_taskflow.Backend.Sqlite.{some_bytes, reload_values}
use fastapi_taskflow.Backend.Redis.{
  some_text, Stored, Members, Redis, is_over, if_live, hash_of, hgetall, kept_expiry, expire,
  record_to_mapping, save, mapping_to_record, append_named, opt_record, gather, load,
}

-- What the look-up of a member gives has the id it was asked for.
abbrev pub Own : (String → Option TaskRecord) → Members → Type 0
Own get ks =
    (k : String) → is_some (lookup k ks) ≡ true → (r : TaskRecord) → get k ≡ some r → r.task_id ≡ k

append_named-find :
    (id k : String) (o : Option TaskRecord) (rest : List TaskRecord)
    → ((r : TaskRecord) → o ≡ some r → r.task_id ≡ k)
    → (id == "") ≡ false
    → find_task id (append_named o rest) ≡ or_else (if k == id then o else none) (find_task id rest)
unfolding find_task
append_named-find id k none rest h u = ground arith
append_named-find id k (some r) rest h u = ground (
  arith,
  h r refl,
  u,
  string_key.same_iff r.task_id "",
  string_key.same_iff id "",
  string_key.same_iff r.task_id id,
  string_key.same_iff k id,
)

twice : (o : Option TaskRecord) (b : Bool) → or_else o (if b then o else none) ≡ o
twice none b = ground arith
twice (some r) b = refl

-- The records gathered over an index: one for each member whose look-up answers.
pub gather-find :
    (get : String → Option TaskRecord) (ks : Members) (id : String)
    → Own get ks
    → (id == "") ≡ false
    → find_task id (gather get ks) ≡ (if is_some (lookup id ks) then get id else none)
unfolding find_task gather lookup
gather-find get [] id o u = refl
gather-find get (k ∷ ks) id o u =
    let later : Own get ks = λ j h r e. o j (ground (arith, h)) r e in
    append_named-find id k.0 (get k.0) (gather get ks) (o k.0 (ground (arith, ==_refl k.0))) u
    ∙ elim (Bool-cases (k.0 == id)) [
      | inl t ↦ rw t (
          rw ((string_key.same_iff k.0 id).0 t)
            (rw (gather-find get ks id later u) (twice (get id) (is_some (lookup id ks)))))
      | inr f ↦ rw f (gather-find get ks id later u)
    ]

-- The backend's time to live, if any, is not over when it begins.
abbrev pub Lasts : Option ℕ → Type 0
Lasts none = Unit
Lasts (some n) = 0 < n

-- A key that was just written is there.
live_now :
    (ttl : Option ℕ) (now : ℕ) (x : Option Stored)
    → Lasts ttl
    → is_over (expire ttl now (kept_expiry (if_live now x))) now ≡ false
live_now (some n) now x l = ground arith
live_now none now none l = refl
live_now none now (some x) l = elim (Bool-cases (is_over x.expires_at now)) [
  | inl e ↦ rw e refl
  | inr e ↦ rw e e
]

module _ (reload : Obj → Obj) (ttl : Option ℕ) (now : ℕ) where
  -- What is left of a record: its empty texts are missing values, its tags and key are not kept.
  abbrev pub kept : TaskRecord → TaskRecord
  kept r = record r {
    args = map reload r.args;
    kwargs = reload_values reload r.kwargs;
    error = some_text r.error;
    stacktrace = some_text r.stacktrace;
    idempotency_key = none;
    tags = [];
    encrypted_payload = some_bytes r.encrypted_payload;
    source = or_text (some r.source) "manual";
    executor = some_text r.executor;
    queue = or_text (some r.queue) "default";
  }

  some_bytes_twice : (b : Option (List ℕ)) → some_bytes (some_bytes b) ≡ some_bytes b
  some_bytes_twice none = refl
  some_bytes_twice (some []) = refl
  some_bytes_twice (some (x ∷ xs)) = refl

  some_text_twice : (s : Option String) → some_text (some_text s) ≡ some_text s
  some_text_twice none = refl
  some_text_twice (some s) = ground arith

  mapping_to_record-record_to_mapping :
      (r : TaskRecord) → mapping_to_record (record_to_mapping reload r) ≡ kept r
  unfolding mapping_to_record record_to_mapping
  mapping_to_record-record_to_mapping r = rw (some_bytes_twice r.encrypted_payload) (
      rw (some_text_twice r.error)
        (rw (some_text_twice r.stacktrace) (rw (some_text_twice r.executor) refl)))

  abbrev HashOwn : Redis → Type 0
  HashOwn db = Entries (λ k x. x.hash.task_id ≡ k) db.hashes

  abbrev pub opt_kept : Option TaskRecord → Option TaskRecord
  opt_kept none = none
  opt_kept (some r) = some (kept r)

  save-HashOwn :
      (rs : List TaskRecord) (db : Redis) → HashOwn db → HashOwn (save reload ttl now rs db)
  unfolding save record_to_mapping
  save-HashOwn [] db o = o
  save-HashOwn (r ∷ rs) db o = save-HashOwn rs _ (
      insert-Entries (λ k x. x.hash.task_id ≡ k) r.task_id
        (record {
          hash = record_to_mapping reload r;
          expires_at = expire ttl now (kept_expiry (if_live now (lookup r.task_id db.hashes)));
        })
        db.hashes refl o)

  abbrev put : TaskRecord → Redis → Redis
  put r db = record db {
    hashes =
        insert r.task_id
          (record {
            hash = record_to_mapping reload r;
            expires_at = expire ttl now (kept_expiry (if_live now (lookup r.task_id db.hashes)));
          })
          db.hashes;
    index = insert r.task_id tt db.index;
  }

  found : String → Redis → Option TaskRecord
  found id db = opt_record (hgetall now id db)

  found-put :
      (r : TaskRecord) (db : Redis) (id : String)
      → Lasts ttl
      → found id (put r db) ≡ (if r.task_id == id then some (kept r) else found id db)
  unfolding found hgetall
  found-put r db id l =
      ap (λ x. opt_record (hash_of (if_live now x))) (lookup-insert r.task_id id _ db.hashes)
      ∙ elim (Bool-cases (r.task_id == id)) [
        | inl e ↦ rw e (
            rw (live_now ttl now (lookup r.task_id db.hashes) l)
              (ap some (mapping_to_record-record_to_mapping r)))
        | inr e ↦ rw e refl
      ]

  found-save :
      (rs : List TaskRecord) (db : Redis) (id : String)
      → Lasts ttl
      → found id (save reload ttl now rs db) ≡ or_else (opt_kept (last_with id rs)) (found id db)
  unfolding save last_with
  found-save [] db id l = refl
  found-save (r ∷ rs) db id l = found-save rs (put r db) id l ∙ ground (arith, found-put r db id l)

  index-save :
      (rs : List TaskRecord) (db : Redis) (id : String)
      → is_some (lookup id (save reload ttl now rs db).index)
        ≡ (if is_some (last_with id rs) then true else is_some (lookup id db.index))
  unfolding save last_with
  index-save [] db id = refl
  index-save (r ∷ rs) db id =
      index-save rs (put r db) id ∙ ground (arith, lookup-insert r.task_id id tt db.index)

  abbrev id_or : String → Option TaskRecord → String
  id_or k none = k
  id_or k (some r) = r.task_id

  found-Own : (db : Redis) → HashOwn db → Own (λ id. found id db) db.index
  unfolding found hgetall mapping_to_record
  found-Own db o k i r e = by_stored (lookup k db.hashes) refl e
    where
      by_stored :
          (x : Option Stored)
          → lookup k db.hashes ≡ x
          → opt_record (hash_of (if_live now x)) ≡ some r
          → r.task_id ≡ k
      by_stored none q e = cc e
      by_stored (some x) q e = elim (Bool-cases (is_over x.expires_at now)) [
        | inl h ↦ sym (ap (id_or k) e) ∙ rw h refl
        | inr h ↦
            sym (ap (id_or k) e)
            ∙ rw h (lookup-Entries (λ k x. x.hash.task_id ≡ k) k x db.hashes o q)
      ]

  find-load :
      (db : Redis) (id : String)
      → HashOwn db
      → (id == "") ≡ false
      → find_task id (load now db) ≡ (if is_some (lookup id db.index) then found id db else none)
  unfolding load found
  find-load db id o u = gather-find (λ k. found k db) db.index id (found-Own db o) u

  combined :
      (o : Option TaskRecord) (b : Bool) (x : Option TaskRecord)
      → (if (if is_some o then true else b) then or_else (opt_kept o) x else none)
        ≡ or_else (opt_kept o) (if b then x else none)
  combined none b x = refl
  combined (some r) b x = refl

  -- The history after a save, for an id that is not empty and a time to live that is not 0: the
  -- record last saved under it, without its idempotency key and its tags, with empty texts as
  -- missing values and the arguments as JSON gives them back; else what the history had.
  pub load-save_redis :
      (rs : List TaskRecord) (db : Redis) (id : String)
      → HashOwn db
      → Lasts ttl
      → (id == "") ≡ false
      → find_task id (load now (save reload ttl now rs db))
        ≡ or_else (opt_kept (last_with id rs)) (find_task id (load now db))
  load-save_redis rs db id o l u =
      find-load (save reload ttl now rs db) id (save-HashOwn rs db o) u
      ∙ rw (index-save rs db id) (
          rw (found-save rs db id l) (
            combined (last_with id rs) (is_some (lookup id db.index)) (found id db)
            ∙ ap (or_else (opt_kept (last_with id rs))) (sym (find-load db id o u))))
