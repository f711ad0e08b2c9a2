-- ===== src/Pipeline/Steady.antt =====
-- middleware.py: what other coroutines may do to the store while one task runs, and what of the
-- task's record that leaves alone.
use fastapi_taskflow.Base.{
  ℕ, ◌+◌, ◌≡◌, ◌≢◌, refl, ap, ◌∙◌, Bool, true, false, List, [], ◌∷◌, ◌++◌, Option, some, String,
  All, arith, count_if, ◌==◌, string_key, Bool-cases, inl, inr,
}
use fastapi_taskflow.Models.{TaskRecord}
use fastapi_taskflow.Store.{TaskStore, get}
use fastapi_taskflow.Store.Calls.{
  Call, creates, updates, append_logs, restores, deletes, prunes, clears, subscribes, unsubscribes,
  loop_runs, shuts_down, consumes, step, run,
}
use fastapi_taskflow.Store.Records.{IsValid, step-IsValid, view, expected, get-step}
use fastapi_taskflow.Pipeline.World.{
  Turn, World, Out, done, M, await, then_do, handle, Fault, Failure, Outcome, Effect, dispatched,
  key_recorded,
}

-- A call that is not about the task `id`, or only logs or restores; pruning is excluded.
abbrev pub Apart : String → Call → Type 0
Apart id (creates k f args kwargs o now) = k ≢ id
Apart id (updates k fs) = k ≢ id
Apart id (deletes k) = k ≢ id
Apart id clears = ⊥
Apart id (prunes cutoff) = ⊥
Apart id _ = Unit

pub record Steady (id : String) (t : Turn) : Type 0 where
  pub apart : All (Apart id) t.others
  pub goes_on : t.cancel ≡ false

-- The store holds the task's record `r`, up to its log.
pub record Live (id : String) (r : TaskRecord) (s : TaskStore) : Type 0 where
  pub valid : IsValid s
  pub logs : List String
  pub found : get id s ≡ some (record r { logs = logs })

module _ (id : String) (r : TaskRecord) (s : TaskStore) (l : Live id r s) where
  at_id : (c : Call) → get id (step c s) ≡ expected c (view s) id
  at_id c = get-step s l.valid c id

  kept : (c : Call) → expected c (view s) id ≡ get id s → Live id r (step c s)
  kept c e = record {
    valid = step-IsValid s l.valid c;
    logs = l.logs;
    found = at_id c ∙ e ∙ l.found;
  }

  logged : (k m : String) → Live id r (step (append_logs k m) s)
  logged k m = elim (Bool-cases (k == id)) [
    | inl hit ↦ record {
      valid = step-IsValid s l.valid (append_logs k m);
      logs = l.logs ++ m ∷ [];
      found = at_id (append_logs k m) ∙ rw (hit, l.found);
    }
    | inr miss ↦ kept (append_logs k m) (rw miss)
  ]

  pub step-Live : (c : Call) → Apart id c → Live id r (step c s)
  step-Live (creates k f args kwargs o now) a =
      kept (creates k f args kwargs o now) (ground (arith, string_key.same_iff k id))
  step-Live (updates k fs) a = kept (updates k fs) (ground (arith, string_key.same_iff k id))
  step-Live (append_logs k m) a = logged k m
  step-Live (restores x) a = kept (restores x) (ground (arith, l.found))
  step-Live (deletes k) a = kept (deletes k) (ground (arith, string_key.same_iff k id))
  step-Live (prunes cutoff) a = absurd a
  step-Live clears a = absurd a
  step-Live (subscribes q) a = kept (subscribes q) refl
  step-Live (unsubscribes q) a = kept (unsubscribes q) refl
  step-Live loop_runs a = kept loop_runs refl
  step-Live shuts_down a = kept shuts_down refl
  step-Live (consumes q) a = kept (consumes q) refl

run-Live :
    (id : String) (r : TaskRecord) (cs : List Call) (s : TaskStore)
    → All (Apart id) cs
    → Live id r s
    → Live id r (run cs s)
unfolding run
run-Live id r [] s a l = l
run-Live id r (c ∷ cs) s a l = run-Live id r cs (step c s) a.1 (step-Live id r s l c a.0)

abbrev pub is_dispatch : Effect → Bool
is_dispatch (dispatched n) = true
is_dispatch _ = false

abbrev pub is_key : Effect → Bool
is_key (key_recorded k) = true
is_key _ = false

-- What is known of the world between two steps of the run of task `id`: its record `r`, attempt `a`,
-- `k` dispatches so far, the outcomes to come, `ctx.succeeded`, and no key recorded yet.
pub record Situated (b : Bool) (id : String) (r : TaskRecord) (a k : ℕ) (e : Option Failure)
    (os : List Outcome) (w : World) : Type 0 where
  pub steady : All (Steady id) w.turns
  pub live : Live id r w.store
  pub attempt : w.ctx.attempt ≡ a
  pub error : w.ctx.last_error ≡ e
  pub starts : count_if is_dispatch w.effects ≡ k
  pub coming : w.outcomes ≡ os
  pub flag : w.ctx.succeeded ≡ b
  pub unkeyed : count_if is_key w.effects ≡ 0

-- The same, before the run has succeeded.
abbrev pub At : String → TaskRecord → ℕ → ℕ → Option Failure → List Outcome → World → Type 0
At = Situated false

-- A step that returns `a` in a world of which `P` holds.
abbrev pub Goes {ℓ} : {A : Type 0} → M A → World → A → (World → Type ℓ) → Type ℓ
Goes m w a P = (w' : World) × (m w ≡ (done a, w')) × P w'

-- A bind whose first part is known, and the same under `try`.
pub bind-done :
    {A B : Type 0} (f : A → M B) {r : Out A × World} {a : A} {w : World}
    → r ≡ (done a, w)
    → then_do r f ≡ f a w
bind-done f e = ap (λ r. then_do r f) e

pub handle-eq :
    {A : Type 0} (f : Fault → M A) {r s : Out A × World} → r ≡ s → handle r f ≡ handle s f
handle-eq f e = ap (λ r. handle r f) e

pub try-then :
    {A B : Type 0} (f : A → M B) (h : Fault → M B) {r s : Out A × World}
    → r ≡ s
    → handle (then_do r f) h ≡ handle (then_do s f) h
try-then f h e = ap (λ r. handle (then_do r f) h) e

pub then-then :
    {A B C : Type 0} (f : A → M B) (h : B → M C) {r s : Out A × World}
    → r ≡ s
    → then_do (then_do r f) h ≡ then_do (then_do s f) h
then-then f h e = ap (λ r. then_do (then_do r f) h) e

module _ (id : String) {r : TaskRecord} {a k : ℕ} {e : Option Failure} {os : List Outcome}
    {w : World} where
  pub At-coming :
      (os' : List Outcome) → At id r a k e os w → At id r a k e os' (record w { outcomes = os' })
  At-coming os' h = record {
    steady = h.steady;
    live = h.live;
    attempt = h.attempt;
    error = h.error;
    starts = h.starts;
    coming = refl;
    flag = h.flag;
    unkeyed = h.unkeyed;
  }

  pub At-error :
      (e' : Option Failure)
      → At id r a k e os w
      → At id r a k e' os (record w { ctx = record w.ctx { last_error = e' } })
  At-error e' h = record {
    steady = h.steady;
    live = h.live;
    attempt = h.attempt;
    error = refl;
    starts = h.starts;
    coming = h.coming;
    flag = h.flag;
    unkeyed = h.unkeyed;
  }

turn-At :
    (b : Bool) (id : String) (r : TaskRecord) (a k : ℕ) (e : Option Failure) (os : List Outcome)
    (w : World) (t : Turn) (rest : List Turn)
    → w.turns ≡ t ∷ rest
    → Situated b id r a k e os w
    → Goes await w tt (Situated b id r a k e os)
unfolding await
turn-At b id r a k e os w t rest q h =
    let ts : All (Steady id) (t ∷ rest) = rw q at h.steady in
    (
      record w { turns = rest; now = w.now + t.elapsed; store = run t.others w.store },
      ground (arith, ts.0.goes_on),
      record {
        steady = ts.1;
        live = run-Live id r t.others w.store ts.0.apart h.live;
        attempt = h.attempt;
        error = h.error;
        starts = h.starts;
        coming = h.coming;
        flag = h.flag;
        unkeyed = h.unkeyed;
      },
    )

pub await-At :
    (b : Bool) (id : String) (r : TaskRecord) (a k : ℕ) (e : Option Failure) (os : List Outcome)
    (w : World)
    → Situated b id r a k e os w
    → Goes await w tt (Situated b id r a k e os)
unfolding await
await-At b id r a k e os w h = by_turns w.turns refl
  where
    by_turns : (ts : List Turn) → w.turns ≡ ts → Goes await w tt (Situated b id r a k e os)
    by_turns [] q = (w, ground arith, h)
    by_turns (t ∷ rest) q = turn-At b id r a k e os w t rest q h
