-- ===== src/Pipeline/Within.antt =====
-- middleware.py: a bound on the starts of the task function and on what may be raised, for each way
-- the layers are put together, from any world and wherever a cancellation arrives.
use fastapi_taskflow.Base.{
  ℕ, ◌+◌, ◌≤◌, ◌≡◌, refl, Bool, true, false, List, [], ◌∷◌, arith, count_if, Bool-cases, inl, inr,
}
use fastapi_taskflow.Pipeline.World.{
  Fault, cancelled_error, failure, Turn, Effect, World, Out, done, throw, M, ◌>>=◌, ◌>>◌, then_do,
  handle, pass, catch, fail, await, emit, reading,
}
use fastapi_taskflow.Pipeline.Steady.{is_dispatch}
use fastapi_taskflow.Pipeline.Middleware.{when}

abbrev pub starts : World → ℕ
starts w = count_if is_dispatch w.effects

-- What a run may raise: in a tolerant one also an exception of the task function.
abbrev pub Allowed : {A : Type 0} → Bool → Out A → Type 0
Allowed tolerant (done a) = Unit
Allowed tolerant (throw cancelled_error) = Unit
Allowed tolerant (throw (failure f)) = tolerant ≡ true

-- From any world, the run starts the function at most `n` times more, and raises what it may.
pub record Within {A : Type 0} (tolerant : Bool) (n : ℕ) (m : M A) : Type 0 where
  pub bound : (w : World) → starts (m w).1 ≤ starts w + n
  pub allowed : (w : World) → Allowed tolerant (m w).0

module _ {A B : Type 0} {tolerant : Bool} {a b : ℕ} where
  pub bind-Within :
      (m : M A) (f : A → M B)
      → Within tolerant a m
      → ((x : A) → Within tolerant b (f x))
      → Within tolerant (a + b) (m >>= f)
  bind-Within m f h g = record {
    bound = λ w. bound_of w (m w) (h.bound w);
    allowed = λ w. allowed_of (m w) (h.allowed w);
  }
    where
      bound_of :
          (w : World) (o : Out A × World)
          → starts o.1 ≤ starts w + a
          → starts (then_do o f).1 ≤ starts w + (a + b)
      bound_of w (done x, w') q = ground (arith, (g x).bound w')
      bound_of w (throw e, w') q = omega arith

      allowed_of : (o : Out A × World) → Allowed tolerant o.0 → Allowed tolerant (then_do o f).0
      allowed_of (done x, w') q = (g x).allowed w'
      allowed_of (throw cancelled_error, w') q = tt
      allowed_of (throw (failure e), w') q = q

module _ {A : Type 0} {inner tolerant : Bool} {a b : ℕ} where
  pub catch-Within :
      (m : M A) (k : Fault → M A)
      → Within inner a m
      → ((e : Fault) → Allowed {A = A} inner (throw e) → Within tolerant b (k e))
      → Within tolerant (a + b) (catch m k)
  catch-Within m k h g = record {
    bound = λ w. bound_of w (m w) (h.bound w) (h.allowed w);
    allowed = λ w. allowed_of (m w) (h.allowed w);
  }
    where
      bound_of :
          (w : World) (o : Out A × World)
          → starts o.1 ≤ starts w + a
          → Allowed inner o.0
          → starts (handle o k).1 ≤ starts w + (a + b)
      bound_of w (done x, w') q r = omega arith
      bound_of w (throw e, w') q r = ground (arith, (g e r).bound w')

      allowed_of : (o : Out A × World) → Allowed inner o.0 → Allowed tolerant (handle o k).0
      allowed_of (done x, w') r = tt
      allowed_of (throw e, w') r = (g e r).allowed w'

pub relax :
    {A : Type 0} {tolerant : Bool} (a : ℕ) {b : ℕ} {m : M A}
    → a ≤ b
    → Within tolerant a m
    → Within tolerant b m
relax a le g = record { bound = λ w. ground (arith, g.bound w); allowed = g.allowed }

pub await-Within : {tolerant : Bool} → Within tolerant 0 await
unfolding await
await-Within {tolerant} = record {
  bound = λ w. bound_of w w.turns refl;
  allowed = λ w. allowed_of w w.turns refl;
}
  where
    bound_of : (w : World) (ts : List Turn) → w.turns ≡ ts → starts (await w).1 ≤ starts w + 0
    bound_of w [] q = ground (arith, q)
    bound_of w (t ∷ rest) q = ground (arith, q)

    allowed_of : (w : World) (ts : List Turn) → w.turns ≡ ts → Allowed tolerant (await w).0
    allowed_of w [] q = rw q tt
    allowed_of w (t ∷ rest) q = elim (Bool-cases t.cancel) [
      | inl e ↦ rw (q, e) tt
      | inr e ↦ rw (q, e) tt
    ]

module _ {tolerant : Bool} where
  pub free-Within :
      {A : Type 0} (a : A) (f : World → World)
      → ((w : World) → starts (f w) ≡ starts w)
      → Within tolerant 0 (λ w. (done a, f w))
  free-Within a f e = record { bound = λ w. ground (arith, e w); allowed = λ w. tt }

  pub reading-Within :
      {A : Type 0} {n : ℕ} (f : World → M A)
      → ((w : World) → Within tolerant n (f w))
      → Within tolerant n (reading f)
  reading-Within f g = record { bound = λ w. (g w).bound w; allowed = λ w. (g w).allowed w }

  pub when-Within :
      (b : Bool) {n : ℕ} (m : M (Unit {0})) → Within tolerant n m → Within tolerant n (when b m)
  when-Within true m g = g
  when-Within false m g = record { bound = λ w. omega arith; allowed = λ w. tt }

  pub pass-Within : Within tolerant 0 pass
  pass-Within = record { bound = λ w. omega arith; allowed = λ w. tt }

  pub cancel-Within : {A : Type 0} → Within tolerant 0 (fail {A = A} cancelled_error)
  cancel-Within = record { bound = λ w. omega arith; allowed = λ w. tt }

  pub observed-Within :
      (b : Bool) (e : Effect)
      → is_dispatch e ≡ false
      → Within tolerant 0 (when b (do emit e; await))
  observed-Within b e q =
      when-Within b _
        (bind-Within (emit e) _ (free-Within tt _ (λ w. ground (arith, q))) (λ _. await-Within))

  -- A step of the world before `m`.
  pub after-Within :
      {A : Type 0} (k : ℕ) {n : ℕ} (f : World → World) (m : M A)
      → ((w : World) → starts (f w) ≤ starts w + k)
      → Within tolerant n m
      → Within tolerant (k + n) (λ w. m (f w))
  after-Within k f m e g = record {
    bound = λ w. ground (arith, e w, g.bound (f w));
    allowed = λ w. g.allowed (f w);
  }
