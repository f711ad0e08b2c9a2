-- ===== src/Dict.antt =====
-- Python dictionaries in insertion order: association lists with unique keys. An assignment to a
-- key that is there keeps its place, a new key goes to the end, `del` drops the entry.
use fastapi_taskflow.Base.{
  ◌≡◌, refl, List, [], ◌∷◌, Option, none, some, arith, Key, ◌==◌, if◌then◌else◌, Bool-cases, inl,
  inr, ==_refl,
}

abbrev pub Dict {ℓ κ} : Type ℓ → Type κ → Type (ℓ ⊔ κ)
Dict K V = List (K × V)

module _ {ℓ κ} {K : Type ℓ} {V : Type κ} ⦃e : Key K⦄ where
  -- `d.get(k)`
  unfoldable pub lookup : K → Dict K V → Option V
  lookup k [] = none
  lookup k (p ∷ m) = if p.0 == k then some p.1 else lookup k m

  -- `d[k] = v`
  unfoldable pub insert : K → V → Dict K V → Dict K V
  insert k v [] = (k, v) ∷ []
  insert k v (p ∷ m) = if p.0 == k then (p.0, v) ∷ m else p ∷ insert k v m

  -- `d.pop(k, None)`
  unfoldable pub erase : K → Dict K V → Dict K V
  erase k [] = []
  erase k (p ∷ m) = if p.0 == k then erase k m else p ∷ erase k m

  -- `for k in ks: del d[k]`
  unfoldable pub erase_all : List K → Dict K V → Dict K V
  erase_all [] m = m
  erase_all (k ∷ ks) m = erase_all ks (erase k m)

  pub lookup-insert :
      (k j : K) (v : V) (m : Dict K V)
      → lookup j (insert k v m) ≡ (if k == j then some v else lookup j m)
  unfolding lookup insert
  lookup-insert k j v [] = refl
  lookup-insert k j v (p ∷ m) =
      ground (arith, e.same_iff k j, e.same_iff p.0 k, e.same_iff p.0 j, lookup-insert k j v m)

  pub lookup-erase :
      (k j : K) (m : Dict K V) → lookup j (erase k m) ≡ (if k == j then none else lookup j m)
  unfolding lookup erase
  lookup-erase k j [] = ground arith
  lookup-erase k j (p ∷ m) =
      ground (arith, e.same_iff k j, e.same_iff p.0 k, e.same_iff p.0 j, lookup-erase k j m)

  -- Every key stands once.
  abbrev pub Distinct : Dict K V → Type κ
  Distinct [] = Unit
  Distinct (p ∷ m) = (lookup p.0 m ≡ none) × Distinct m

  pub insert-Distinct : (k : K) (v : V) (m : Dict K V) → Distinct m → Distinct (insert k v m)
  unfolding lookup insert
  insert-Distinct k v [] d = (refl, tt)
  insert-Distinct k v (p ∷ m) d = ground (
    arith,
    insert-Distinct k v m d.1,
    lookup-insert k p.0 v m,
    e.same_iff p.0 k,
    e.same_iff k p.0,
  )

  pub erase-Distinct : (k : K) (m : Dict K V) → Distinct m → Distinct (erase k m)
  unfolding lookup erase
  erase-Distinct k [] d = tt
  erase-Distinct k (p ∷ m) d = ground (arith, erase-Distinct k m d.1, lookup-erase k p.0 m)

  pub erase_all-Distinct : (ks : List K) (m : Dict K V) → Distinct m → Distinct (erase_all ks m)
  unfolding erase_all
  erase_all-Distinct [] m d = d
  erase_all-Distinct (k ∷ ks) m d = erase_all-Distinct ks (erase k m) (erase-Distinct k m d)

  module _ {μ} (P : K → V → Type μ) where
    -- Every entry satisfies `P`.
    abbrev pub Entries : Dict K V → Type μ
    Entries [] = Unit
    Entries (p ∷ m) = P p.0 p.1 × Entries m

    pub insert-Entries : (k : K) (v : V) (m : Dict K V) → P k v → Entries m → Entries (insert k v m)
    unfolding insert
    insert-Entries k v [] h es = (h, tt)
    insert-Entries k v (p ∷ m) h es = elim (Bool-cases (p.0 == k)) [
      | inl hit ↦ rw hit (rw ((e.same_iff p.0 k).0 hit) h, es.1)
      | inr miss ↦ rw miss (es.0, insert-Entries k v m h es.1)
    ]

    pub erase-Entries : (k : K) (m : Dict K V) → Entries m → Entries (erase k m)
    unfolding erase
    erase-Entries k [] es = tt
    erase-Entries k (p ∷ m) es = ground (arith, erase-Entries k m es.1)

    pub lookup-Entries : (k : K) (v : V) (m : Dict K V) → Entries m → lookup k m ≡ some v → P k v
    unfolding lookup
    lookup-Entries k v [] es h = cc
    lookup-Entries k v (p ∷ m) es h = ground (arith, e.same_iff p.0 k, lookup-Entries k v m es.1)

    pub erase_all-Entries : (ks : List K) (m : Dict K V) → Entries m → Entries (erase_all ks m)
    unfolding erase_all
    erase_all-Entries [] m es = es
    erase_all-Entries (k ∷ ks) m es = erase_all-Entries ks (erase k m) (erase-Entries k m es)

  pub Entries-both {μ ν} :
      (P : K → V → Type μ) (Q : K → V → Type ν) (m : Dict K V)
      → Entries P m
      → Entries Q m
      → Entries (λ k v. P k v × Q k v) m
  Entries-both P Q [] p q = tt
  Entries-both P Q (e ∷ m) p q = ((p.0, q.0), Entries-both P Q m p.1 q.1)

  unhidden :
      (q : K × V) (m M : Dict K V)
      → lookup q.0 m ≡ none
      → Entries (λ k v. lookup k M ≡ some v) m
      → Entries (λ k v. lookup k (q ∷ M) ≡ some v) m
  unfolding lookup
  unhidden q [] M n h = tt
  unhidden q (p ∷ m) M n h = (
    ground (arith, h.0, e.same_iff q.0 p.0, e.same_iff p.0 q.0),
    unhidden q m M (ground (arith, e.same_iff p.0 q.0)) h.1,
  )

  -- Where keys stand once, each entry is what the look-up of its key gives.
  pub lookup-each : (m : Dict K V) → Distinct m → Entries (λ k v. lookup k m ≡ some v) m
  unfolding lookup
  lookup-each [] d = tt
  lookup-each (p ∷ m) d = (ground (arith, ==_refl p.0), unhidden p m m d.0 (lookup-each m d.1))
