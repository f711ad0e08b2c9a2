-- ===== src/Cluster/Peers.antt =====
-- instance_registry.py: who is seen by the others.
use fastapi_taskflow.Base.{
  ℕ, ◌+◌, ◌<◌, ◌≤◌, ◌≡◌, refl, ap, ◌∙◌, Bool, true, false, List, [], ◌∷◌, Option, none, some,
  String, if◌then◌else◌, any, All, ◌==◌, string_key, arith, ==_refl,
}
use fastapi_taskflow.Dict.{
  lookup, Entries, insert-Entries, erase-Entries, lookup-Entries, lookup-insert,
}
use fastapi_taskflow.Cluster.{
  Entry, Instances, Shared, init, Event, reads, writes, removes, gives_up, read, write, write_over,
  remove, remove_over, step, run, heartbeat, Peer, peers,
}

abbrev pub is_seen : String → List Peer → Bool
is_seen j ps = any (λ p. p.instance_id == j) ps

module _ (j : String) (t : ℕ) where
  -- A copy knows of no later heartbeat of the instance.
  abbrev AtMost : String → Entry → Type 0
  AtMost k e = (k == j) ≡ true → e.last_seen ≤ t

  abbrev Old : Instances → Type 0
  Old m = Entries AtMost m

  abbrev AllOld : Shared → Type 0
  AllOld x = Old x.entries × Entries (λ k m. Old m) x.copies

  -- A heartbeat of the instance is not later than the time.
  abbrev pub Until : Event → Type 0
  Until (reads k b) = Unit
  Until (writes k e b) = (k == j) ≡ true → e.last_seen ≤ t
  Until (removes k b) = Unit
  Until (gives_up k) = Unit

  write-AllOld :
      (k : String) (e : Entry) (b : Bool) (o : Option Instances) (x : Shared)
      → AtMost k e
      → lookup k x.copies ≡ o
      → AllOld x
      → AllOld (write_over k e b o x)
  write-AllOld k e b none x u q h = h
  write-AllOld k e true (some m) x u q h = (
    insert-Entries AtMost k e m u (lookup-Entries (λ k m. Old m) k m x.copies h.1 q),
    erase-Entries (λ k m. Old m) k x.copies h.1,
  )
  write-AllOld k e false (some m) x u q h = (h.0, erase-Entries (λ k m. Old m) k x.copies h.1)

  remove-AllOld :
      (k : String) (b : Bool) (o : Option Instances) (x : Shared)
      → lookup k x.copies ≡ o
      → AllOld x
      → AllOld (remove_over k b o x)
  remove-AllOld k b none x q h = h
  remove-AllOld k true (some m) x q h = (
    erase-Entries AtMost k m (lookup-Entries (λ k m. Old m) k m x.copies h.1 q),
    erase-Entries (λ k m. Old m) k x.copies h.1,
  )
  remove-AllOld k false (some m) x q h = (h.0, erase-Entries (λ k m. Old m) k x.copies h.1)

  read_copy-Old : (b : Bool) (m : Instances) → Old m → Old (if b then m else [])
  read_copy-Old true m h = h
  read_copy-Old false m h = tt

  step-AllOld : (e : Event) (x : Shared) → Until e → AllOld x → AllOld (step e x)
  unfolding step read write remove
  step-AllOld (reads k b) x u h =
      (h.0, insert-Entries (λ k m. Old m) k _ x.copies (read_copy-Old b x.entries h.0) h.1)
  step-AllOld (writes k e b) x u h = write-AllOld k e b (lookup k x.copies) x u refl h
  step-AllOld (removes k b) x u h = remove-AllOld k b (lookup k x.copies) x refl h
  step-AllOld (gives_up k) x u h = (h.0, erase-Entries (λ k m. Old m) k x.copies h.1)

  run-AllOld : (es : List Event) (x : Shared) → All Until es → AllOld x → AllOld (run es x)
  unfolding run
  run-AllOld [] x u h = h
  run-AllOld (e ∷ es) x u h = run-AllOld es (step e x) u.1 (step-AllOld e x u.0 h)

  module _ (self : String) (ttl now : ℕ) where
    unseen : (m : Instances) → t + ttl < now → Old m → is_seen j (peers self ttl now m) ≡ false
    unfolding peers
    unseen [] l h = refl
    unseen (p ∷ m) l h = ground (arith, unseen m l h.1, h.0, l)

    -- An instance whose last heartbeat was at the time `t` is seen by nobody once the time to live is
    -- over, whatever instances do meanwhile: old copies that others save again keep its old time.
    pub dead-unseen :
        (es : List Event)
        → All Until es
        → t + ttl < now
        → is_seen j (peers self ttl now (run es init).entries) ≡ false
    dead-unseen es u l = unseen (run es init).entries l (run-AllOld es init u (tt, tt)).0

-- Uninterrupted heartbeats, one after the other.
abbrev pub beat_all : List (String × Entry) → Shared → Shared
beat_all [] x = x
beat_all (b ∷ bs) x = beat_all bs (heartbeat b.0 b.1 x)

lookup-heartbeat :
    (k j : String) (e : Entry) (x : Shared)
    → lookup j (heartbeat k e x).entries ≡ (if k == j then some e else lookup j x.entries)
unfolding heartbeat step read write
lookup-heartbeat k j e x =
    let y = read k true x in
    ap (λ o. lookup j (write_over k e true o y).entries)
      (lookup-insert k k x.entries x.copies
        ∙ ap (λ b. if b then some x.entries else lookup k x.copies) (==_refl k))
    ∙ lookup-insert k j e x.entries

beat_all-kept :
    (j : String) (bs : List (String × Entry)) (x : Shared)
    → All (λ b. (b.0 == j) ≡ false) bs
    → lookup j (beat_all bs x).entries ≡ lookup j x.entries
beat_all-kept j [] x h = refl
beat_all-kept j (b ∷ bs) x h =
    beat_all-kept j bs (heartbeat b.0 b.1 x) h.1 ∙ lookup-heartbeat b.0 j b.1 x ∙ rw h.0 refl

seen :
    (j self : String) (ttl now : ℕ) (e : Entry) (m : Instances)
    → lookup j m ≡ some e
    → (j == self) ≡ false
    → now ≤ e.last_seen + ttl
    → is_seen j (peers self ttl now m) ≡ true
unfolding lookup peers
seen j self ttl now e [] q s l = cc q
seen j self ttl now e (p ∷ m) q s l =
    ground (arith, seen j self ttl now e m, q, s, l, string_key.same_iff p.0 j)

-- A heartbeat makes an instance visible to every other one for the time to live, whatever the
-- registry held, while heartbeats do not interrupt one another.
pub heartbeat-visible :
    (j self : String) (e : Entry) (ttl now : ℕ) (bs : List (String × Entry)) (x : Shared)
    → (j == self) ≡ false
    → All (λ b. (b.0 == j) ≡ false) bs
    → now ≤ e.last_seen + ttl
    → is_seen j (peers self ttl now (beat_all bs (heartbeat j e x)).entries) ≡ true
heartbeat-visible j self e ttl now bs x s h l =
    seen j self ttl now e _
      (beat_all-kept j bs (heartbeat j e x) h ∙ lookup-heartbeat j j e x ∙ rw (==_refl j) refl) s l
