-- ===== src/Executors/Coroutines.antt =====
-- executors/async_executor.py: `AsyncExecutor` and its semaphore, as events of its dispatches.
--   A semaphore is its number of free permits and the dispatches that wait in `acquire`, first come
--   first. A dispatch that is cancelled there holds no permit, and its `finally` is not reached.
use fastapi_taskflow.Base.{
  ℕ, zero, suc, ◌+◌, ◌≤◌, ◌≡◌, ◌⊎◌, inl, inr, refl, Bool, true, false, List, [], ◌∷◌, ◌++◌, Option,
  none, some, if◌then◌else◌, eqb, any, length, arith,
}

pub record AsyncExecutor : Type 0 where
  -- The free permits, or none without a semaphore.
  pub free : Option ℕ
  pub waiting : List ℕ
  pub running : List ℕ

-- `__init__`
abbrev pub init : Option ℕ → AsyncExecutor
init limit = record { free = limit; waiting = []; running = [] }

-- `await self._semaphore.acquire()`, and the inner task if the permit is there.
abbrev pub acquire : ℕ → Option ℕ → List ℕ → AsyncExecutor → AsyncExecutor
acquire d none ws x = record x { running = d ∷ x.running }
acquire d (some zero) ws x = record x { waiting = ws ++ d ∷ [] }
acquire d (some (suc n)) [] x = record x { free = some n; running = d ∷ x.running }
acquire d (some (suc n)) (w ∷ ws) x = record x { waiting = (w ∷ ws) ++ d ∷ [] }

unfoldable pub start : ℕ → AsyncExecutor → AsyncExecutor
start d x = acquire d x.free x.waiting x

abbrev pub remove : ℕ → List ℕ → List ℕ
remove d [] = []
remove d (x ∷ xs) = if eqb x d then xs else x ∷ remove d xs

-- `release`, which hands the permit to the first that waits.
abbrev pub release : Option ℕ → List ℕ → AsyncExecutor → AsyncExecutor
release none ws x = x
release (some n) [] x = record x { free = some (suc n) }
release (some n) (w ∷ ws) x = record x { waiting = ws; running = w ∷ x.running }

-- The end of the inner task, whatever it gives, a cancellation included.
unfoldable pub finish : ℕ → AsyncExecutor → AsyncExecutor
finish d x =
    if any (λ r. eqb r d) x.running
    then release x.free x.waiting (record x { running = remove d x.running })
    else x

-- A cancellation while it waits for a permit.
unfoldable pub cancel_waiting : ℕ → AsyncExecutor → AsyncExecutor
cancel_waiting d x = record x { waiting = remove d x.waiting }

pub data Event : Type 0 where
  starts : ℕ → Event
  finishes : ℕ → Event
  cancels : ℕ → Event

unfoldable pub step : Event → AsyncExecutor → AsyncExecutor
unfolding start finish cancel_waiting
step (starts d) x = start d x
step (finishes d) x = finish d x
step (cancels d) x = cancel_waiting d x

unfoldable pub run : List Event → AsyncExecutor → AsyncExecutor
unfolding step
run [] x = x
run (e ∷ es) x = run es (step e x)

-- The permits are the free ones and those of the running tasks.
abbrev Holds : Option ℕ → ℕ → AsyncExecutor → Type 0
Holds none limit x = ⊥
Holds (some n) limit x = n + length x.running ≡ limit

length-remove :
    (d : ℕ) (xs : List ℕ) → any (λ r. eqb r d) xs ≡ true → suc (length (remove d xs)) ≡ length xs
length-remove d [] h = cc h
length-remove d (x ∷ xs) h = ground (arith, length-remove d xs, h)

start-Holds :
    (d limit : ℕ) (o : Option ℕ) (ws : List ℕ) (x : AsyncExecutor)
    → x.free ≡ o
    → Holds o limit x
    → Holds (acquire d o ws x).free limit (acquire d o ws x)
start-Holds d limit none ws x e h = absurd h
start-Holds d limit (some zero) ws x e h = rw e h
start-Holds d limit (some (suc n)) [] x e h = omega (arith, h)
start-Holds d limit (some (suc n)) (w ∷ ws) x e h = rw e h

finish-Holds :
    (limit : ℕ) (o : Option ℕ) (ws rs : List ℕ) (x : AsyncExecutor)
    → x.free ≡ o
    → Holds o limit x
    → suc (length rs) ≡ length x.running
    → Holds
        (release o ws (record x { running = rs })).free
        limit
        (release o ws (record x { running = rs }))
finish-Holds limit none ws rs x e h l = absurd h
finish-Holds limit (some n) [] rs x e h l = omega (arith, h, l)
finish-Holds limit (some n) (w ∷ ws) rs x e h l = rw e (omega (arith, h, l))

cancel-Holds :
    (d limit : ℕ) (o : Option ℕ) (x : AsyncExecutor)
    → Holds o limit x
    → Holds o limit (record x { waiting = remove d x.waiting })
cancel-Holds d limit none x h = absurd h
cancel-Holds d limit (some n) x h = h

step-Holds :
    (e : Event) (limit : ℕ) (x : AsyncExecutor)
    → Holds x.free limit x
    → Holds (step e x).free limit (step e x)
unfolding step start finish cancel_waiting
step-Holds (starts d) limit x h = start-Holds d limit x.free x.waiting x refl h
step-Holds (finishes d) limit x h = by_running (any (λ r. eqb r d) x.running) refl
  where
    by_running :
        (b : Bool)
        → any (λ r. eqb r d) x.running ≡ b
        → let y =
            if b then release x.free x.waiting (record x { running = remove d x.running }) else x in
          Holds y.free limit y
    by_running true e = finish-Holds limit x.free x.waiting _ x refl h (length-remove d x.running e)
    by_running false e = h
step-Holds (cancels d) limit x h = cancel-Holds d limit x.free x h

run-Holds :
    (es : List Event) (limit : ℕ) (x : AsyncExecutor)
    → Holds x.free limit x
    → Holds (run es x).free limit (run es x)
unfolding run
run-Holds [] limit x h = h
run-Holds (e ∷ es) limit x h = run-Holds es limit (step e x) (step-Holds e limit x h)

bounded :
    (limit : ℕ) (o : Option ℕ) (x : AsyncExecutor) → Holds o limit x → length x.running ≤ limit
bounded limit none x h = absurd h
bounded limit (some n) x h = omega (arith, h)

-- Nobody waits while a permit is free.
abbrev pub Busy : AsyncExecutor → Type 0
Busy x = (x.waiting ≡ []) ⊎ (x.free ≡ some 0)

start-Busy :
    (d : ℕ) (o : Option ℕ) (ws : List ℕ) (x : AsyncExecutor)
    → x.free ≡ o
    → x.waiting ≡ ws
    → Busy x
    → Busy (acquire d o ws x)
start-Busy d none ws x e w b = b
start-Busy d (some zero) ws x e w b = inr e
start-Busy d (some (suc n)) [] x e w b = inl w
start-Busy d (some (suc n)) (v ∷ ws) x e w (inl n') = cc (w, n')
start-Busy d (some (suc n)) (v ∷ ws) x e w (inr z) = ground (arith, e, z)

finish-Busy :
    (o : Option ℕ) (ws rs : List ℕ) (x : AsyncExecutor)
    → x.free ≡ o
    → x.waiting ≡ ws
    → Busy x
    → Busy (release o ws (record x { running = rs }))
finish-Busy none ws rs x e w b = b
finish-Busy (some n) [] rs x e w b = inl w
finish-Busy (some n) (v ∷ ws) rs x e w (inl n') = cc (w, n')
finish-Busy (some n) (v ∷ ws) rs x e w (inr z) = inr z

remove-Busy :
    (d : ℕ) (x : AsyncExecutor) → Busy x → Busy (record x { waiting = remove d x.waiting })
remove-Busy d x (inl n) = inl (rw n refl)
remove-Busy d x (inr z) = inr z

step-Busy : (e : Event) (x : AsyncExecutor) → Busy x → Busy (step e x)
unfolding step start finish cancel_waiting
step-Busy (starts d) x b = start-Busy d x.free x.waiting x refl refl b
step-Busy (finishes d) x b = by_running (any (λ r. eqb r d) x.running)
  where
    by_running :
        (r : Bool)
        → Busy
            (if r then release x.free x.waiting (record x { running = remove d x.running }) else x)
    by_running true = finish-Busy x.free x.waiting (remove d x.running) x refl refl b
    by_running false = b
step-Busy (cancels d) x b = remove-Busy d x b

run-Busy : (es : List Event) (x : AsyncExecutor) → Busy x → Busy (run es x)
unfolding run
run-Busy [] x b = b
run-Busy (e ∷ es) x b = run-Busy es (step e x) (step-Busy e x b)

-- With a semaphore of `max_concurrent_tasks` permits no more coroutines than that run at once, and
-- none waits while a permit is free, whatever dispatches start, end or are cancelled, in any order.
pub run-init-bounded :
    (limit : ℕ) (es : List Event)
    → (length (run es (init (some limit))).running ≤ limit) × Busy (run es (init (some limit)))
run-init-bounded limit es = (
  bounded limit _ (run es (init (some limit)))
      (run-Holds es limit (init (some limit)) (omega arith)),
  run-Busy es (init (some limit)) (inl refl),
)
