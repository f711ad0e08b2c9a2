-- ===== src/Periodic/Armed.antt =====
-- periodic.py: the one-off entries of the heap against `_one_offs`, through any calls of others
-- between any steps of the loop.
use fastapi_taskflow.Base.{
  ℕ, ◌≤◌, ◌≡◌, refl, Bool, true, false, not, ◌&&◌, List, [], ◌∷◌, Option, none, some, String,
  if◌then◌else◌, ltb, eqb, arith, All, count_if, Bool-cases, inl, inr, eqb_iff, string_key, ◌==◌,
  ==_refl,
}
use fastapi_taskflow.Dict.{Dict, lookup, insert, erase, lookup-insert, lookup-erase}
use fastapi_taskflow.Models.{TaskConfig, ScheduledOnce}
use fastapi_taskflow.Registry.{Func}
use fastapi_taskflow.Periodic.{ScheduledEntry, push_entry, tombstone, one_off}

abbrev has_key : String → Option ScheduledOnce → Bool
has_key k none = false
has_key k (some o) = o.run_key == k

-- Whether the entry would fire the one-off of key `k`.
abbrev pub fires : String → ScheduledEntry → Bool
fires k x = not x.cancelled && has_key k x.once

-- The entry that `_one_offs` names for `k`, if it would fire it.
abbrev pub Named : Dict String ScheduledEntry → String → ScheduledEntry → Type 0
Named d k x = fires k x ≡ true → lookup k d ≡ some x

All-push {κ} :
    (P : ScheduledEntry → Type κ) (x : ScheduledEntry) (ys : List ScheduledEntry)
    → P x
    → All P ys
    → All P (push_entry x ys)
unfolding push_entry
All-push P x [] h a = (h, tt)
All-push P x (y ∷ ys) h a = elim (Bool-cases (ltb x.next_run y.next_run)) [
  | inl e ↦ rw e (h, a)
  | inr e ↦ rw e (a.0, All-push P x ys h a.1)
]

count-push :
    (q : ScheduledEntry → Bool) (x : ScheduledEntry) (ys : List ScheduledEntry)
    → count_if q (push_entry x ys) ≡ count_if q (x ∷ ys)
unfolding push_entry
count-push q x [] = refl
count-push q x (y ∷ ys) = ground (arith, count-push q x ys)

count-tombstone :
    (k : String) (i : ℕ) (xs : List ScheduledEntry)
    → count_if (fires k) (tombstone i xs) ≤ count_if (fires k) xs
unfolding tombstone
count-tombstone k i [] = omega arith
count-tombstone k i (x ∷ xs) = ground (arith, count-tombstone k i xs)

-- Without a name for `k` nothing fires it.
pub count-unnamed :
    (d : Dict String ScheduledEntry) (k : String) (xs : List ScheduledEntry)
    → lookup k d ≡ none
    → All (Named d k) xs
    → count_if (fires k) xs ≡ 0
count-unnamed d k [] n a = refl
count-unnamed d k (x ∷ xs) n a = elim (Bool-cases (fires k x)) [
  | inl e ↦ let c : none ≡ some x = cc (n, a.0 e) in cc c
  | inr e ↦ rw e (count-unnamed d k xs n a.1)
]

mark-Named :
    (j k : String) (d : Dict String ScheduledEntry) (x y : ScheduledEntry)
    → lookup j d ≡ some y
    → Named d k x
    → Named (erase j d) k (if eqb x.id y.id then record x { cancelled = true } else x)
mark-Named j k d x y h n =
    ground (arith, lookup-erase j k d, string_key.same_iff j k, eqb_iff x.id y.id)

tombstone-Named :
    (j k : String) (d : Dict String ScheduledEntry) (y : ScheduledEntry) (xs : List ScheduledEntry)
    → lookup j d ≡ some y
    → All (Named d k) xs
    → All (Named (erase j d) k) (tombstone y.id xs)
unfolding tombstone
tombstone-Named j k d y [] h a = tt
tombstone-Named j k d y (x ∷ xs) h a =
    (mark-Named j k d x y h a.0, tombstone-Named j k d y xs h a.1)

insert-Named :
    (j k : String) (d : Dict String ScheduledEntry) (y : ScheduledEntry) (xs : List ScheduledEntry)
    → lookup j d ≡ none
    → All (Named d k) xs
    → All (Named (insert j y d) k) xs
insert-Named j k d y [] h a = tt
insert-Named j k d y (x ∷ xs) h a =
    (ground (arith, lookup-insert j k y d, string_key.same_iff j k), insert-Named j k d y xs h a.1)

erase-Named :
    (j k : String) (d : Dict String ScheduledEntry) (xs : List ScheduledEntry)
    → count_if (fires j) xs ≡ 0
    → All (Named d k) xs
    → All (Named (erase j d) k) xs
erase-Named j k d [] h a = tt
erase-Named j k d (x ∷ xs) h a = (
  ground (arith, lookup-erase j k d, string_key.same_iff j k),
  erase-Named j k d xs (ground arith) a.1,
)

-- Every entry that would fire a one-off is the one that `_one_offs` names, and no key has two.
pub record Agrees (heap : List ScheduledEntry) (d : Dict String ScheduledEntry) : Type 0 where
  pub named : (k : String) → All (Named d k) heap
  pub single : (k : String) → count_if (fires k) heap ≤ 1

module _ {heap : List ScheduledEntry} {d : Dict String ScheduledEntry} (v : Agrees heap d) where
  pub tombstone-Agrees :
      (j : String) (y : ScheduledEntry)
      → lookup j d ≡ some y
      → Agrees (tombstone y.id heap) (erase j d)
  tombstone-Agrees j y h = record {
    named = λ k. tombstone-Named j k d y heap h (v.named k);
    single = λ k. ground (arith, count-tombstone k y.id heap, v.single k);
  }

  pub push-Agrees : (x : ScheduledEntry) → x.once ≡ none → Agrees (push_entry x heap) d
  push-Agrees x h = record {
    named = λ k. All-push (Named d k) x heap (ground (arith, h)) (v.named k);
    single = λ k. ground (arith, h, count-push (fires k) x heap, v.single k);
  }

  pub arm-Agrees :
      (i : ℕ) (f : Func) (c : TaskConfig) (o : ScheduledOnce)
      → lookup o.run_key d ≡ none
      → Agrees (push_entry (one_off i f c o) heap) (insert o.run_key (one_off i f c o) d)
  arm-Agrees i f c o h = record {
    named = λ k.
        All-push (Named (insert o.run_key (one_off i f c o) d) k) (one_off i f c o) heap
          (λ e. ground (arith, e, lookup-insert o.run_key k (one_off i f c o) d))
          (insert-Named o.run_key k d (one_off i f c o) heap h (v.named k));
    single = λ k. elim (Bool-cases (o.run_key == k)) [
      | inl e ↦
          let z : count_if (fires k) heap ≡ 0 =
            count-unnamed d k heap (rw ((string_key.same_iff o.run_key k).0 e) at h) (v.named k) in
          ground (arith, e, z, count-push (fires k) (one_off i f c o) heap)
      | inr e ↦ ground (arith, e, count-push (fires k) (one_off i f c o) heap, v.single k)
    ];
  }

module _ (x : ScheduledEntry) {rest : List ScheduledEntry} {d : Dict String ScheduledEntry}
    (v : Agrees (x ∷ rest) d) where
  pub pop-Agrees : Agrees rest d
  pop-Agrees = record { named = λ k. (v.named k).1; single = λ k. ground (arith, v.single k) }

  pub take-Agrees :
      (o : ScheduledOnce) → x.once ≡ some o → x.cancelled ≡ false → Agrees rest (erase o.run_key d)
  take-Agrees o e c =
      let z : count_if (fires o.run_key) rest ≡ 0 =
        ground (arith, e, c, ==_refl o.run_key, v.single o.run_key) in
      record {
        named = λ k. erase-Named o.run_key k d rest z (v.named k).1;
        single = λ k. ground (arith, v.single k);
      }
