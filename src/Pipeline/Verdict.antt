-- ===== src/Pipeline/Verdict.antt =====
-- middleware.py: `RetryMiddleware` against a plain reading of the outcomes of the attempts.
use fastapi_taskflow.Base.{
  ℕ, zero, suc, ◌+◌, ◌-◌, ◌≤◌, ◌≡◌, refl, ◌∙◌, Bool, true, false, List, [], ◌∷◌, Option, none, some,
  String, if◌then◌else◌, All, arith, count_if, string_key,
}
use fastapi_taskflow.Models.{Float, TaskRecord}
use fastapi_taskflow.Pipeline.World.{Failure, Outcome, returns, raises, Job, World, done}
use fastapi_taskflow.Pipeline.Steady.{Steady, Live, At, Goes, bind-done, is_dispatch, is_key}
use fastapi_taskflow.Pipeline.Middleware.{retry_loop, retry, next_outcome, begin, grow}
use fastapi_taskflow.Pipeline.Attempt.{returned-At, raised-At, begin-At, begin_first-At}

-- The last attempt made, and the error that is left at the end: the first attempt that returns ends
-- the loop without an error; one that was interrupted ends it with the error of the attempt before;
-- else the last failure is left when the attempts are used up.
unfoldable pub verdict : ℕ → ℕ → List Outcome → Option Failure → ℕ × Option Failure
verdict zero attempt os last = (attempt - 1, last)
verdict (suc left) attempt [] last = (attempt, none)
verdict (suc left) attempt (returns ∷ os) last = (attempt, none)
verdict (suc left) attempt (raises f ∷ os) last =
    if f.was_interrupted then (attempt, last) else verdict left (suc attempt) os (some f)

sub_suc : (n : ℕ) → suc n - 1 ≡ n
sub_suc n = omega arith

-- The record with `n` retries used.
abbrev pub with_used : TaskRecord → ℕ → TaskRecord
with_used r n = record r { retries_used = n }

-- The attempts stay within the ones that are left.
pub verdict-le :
    (left a : ℕ) (os : List Outcome) (e : Option Failure) → (verdict (suc left) a os e).0 ≤ a + left
unfolding verdict
verdict-le left a [] e = omega arith
verdict-le left a (returns ∷ os) e = omega arith
verdict-le zero a (raises f ∷ os) e = ground arith
verdict-le (suc left) a (raises f ∷ os) e = ground (arith, verdict-le left (suc a) os (some f))

module _ (job : Job) (retry_line : ℕ → String) where
  module _ (r : TaskRecord) where
    -- Where the loop stands after attempt `a`: it ends, or goes on with the next.
    abbrev pub Ends : ℕ × Option Failure → World → Type 0
    Ends v w = (os : List Outcome) × At job.task_id (with_used r v.0) v.0 (suc v.0) v.1 os w

    begin_any-At :
        (a : ℕ) (delay : Float) (e : Option Failure) (os : List Outcome) (w : World)
        → At job.task_id (with_used r (a - 1)) (a - 1) a e os w
        → Goes (begin job retry_line a delay) w tt (At job.task_id (with_used r a) a a e os)
    begin_any-At zero delay e os w h =
        begin_first-At job retry_line (with_used r 0) delay 0 0 e os w h
    begin_any-At (suc n) delay e os w h =
        begin-At job retry_line (with_used r n) delay n n (suc n) e os w (rw (sub_suc n) at h)

    stop-At :
        (a : ℕ) (delay : Float) (os : List Outcome) (f : Failure) (v : World)
        → At job.task_id (with_used r a) a (suc a) (some f) os v
        → Goes
            (retry_loop job retry_line zero (suc a) (grow job retry_line a delay))
            v
            tt
            (Ends (verdict zero (suc a) os (some f)))
    unfolding retry_loop verdict
    stop-At a delay os f v p = (v, refl, (os, rw (sub_suc a) p))

    returned_loop :
        (left a : ℕ) (delay : Float) (e : Option Failure) (os os' : List Outcome) (w : World)
        → ((u : World) → next_outcome job retry_line os u ≡ (done tt, record u { outcomes = os' }))
        → At job.task_id (with_used r (a - 1)) (a - 1) a e os w
        → Goes (retry_loop job retry_line (suc left) a delay) w tt (Ends (a, none))
    unfolding retry_loop
    returned_loop left a delay e os os' w o h =
        let (u, g, p) = begin_any-At a delay e os w h in
        let (v, g', p') = returned-At job retry_line (with_used r a) a a e os os' u o p in
        (v, bind-done _ g ∙ bind-done _ g', (os', p'))

    abbrev Continues : ℕ → ℕ → Float → List Outcome → Failure → Type 0
    Continues left a delay os f =
        (v : World)
        → At job.task_id (with_used r a) a (suc a) (some f) os v
        → Goes (retry_loop job retry_line left (suc a) (grow job retry_line a delay)) v tt
            (Ends (verdict left (suc a) os (some f)))

    raised_loop :
        (left a : ℕ) (delay : Float) (e : Option Failure) (f : Failure) (os : List Outcome)
        (w : World)
        → At job.task_id (with_used r (a - 1)) (a - 1) a e (raises f ∷ os) w
        → Continues left a delay os f
        → (b : Bool) → f.was_interrupted ≡ b
        → Goes
            (retry_loop job retry_line (suc left) a delay)
            w
            tt
            (Ends (if b then (a, e) else verdict left (suc a) os (some f)))
    unfolding retry_loop
    raised_loop left a delay e f os w h next true i =
        let (u, g, p) = begin_any-At a delay e (raises f ∷ os) w h in
        let (v, g', p') = raised-At job retry_line (with_used r a) a a e f os u p true i in
        (v, bind-done _ g ∙ bind-done _ g', (os, p'))
    raised_loop left a delay e f os w h next false i =
        let (u, g, p) = begin_any-At a delay e (raises f ∷ os) w h in
        let (v, g', p') = raised-At job retry_line (with_used r a) a a e f os u p false i in
        let (z, g'', q) = next v p' in (z, bind-done _ g ∙ bind-done _ g' ∙ g'', q)

    loop-At :
        (left a : ℕ) (delay : Float) (e : Option Failure) (os : List Outcome) (w : World)
        → At job.task_id (with_used r (a - 1)) (a - 1) a e os w
        → Goes
            (retry_loop job retry_line (suc left) a delay)
            w
            tt
            (Ends (verdict (suc left) a os e))
    unfolding verdict
    loop-At left a delay e [] w h = returned_loop left a delay e [] [] w (λ u. refl) h
    loop-At left a delay e (returns ∷ os) w h =
        returned_loop left a delay e (returns ∷ os) os w (λ u. refl) h
    loop-At zero a delay e (raises f ∷ os) w h =
        raised_loop zero a delay e f os w h (stop-At a delay os f) f.was_interrupted refl
    loop-At (suc left) a delay e (raises f ∷ os) w h =
        raised_loop (suc left) a delay e f os w h
          (λ v p.
            loop-At left (suc a) (grow job retry_line a delay) (some f) os v (rw (sub_suc a) p))
          f.was_interrupted refl

    pub retry-At :
        (e : Option Failure) (os : List Outcome) (w : World)
        → At job.task_id (with_used r 0) 0 0 e os w
        → Goes (retry job retry_line) w tt (Ends (verdict (suc job.config.retries) 0 os e))
    unfolding retry
    retry-At e os w h = loop-At job.config.retries 0 job.config.delay e os w h

    -- `RetryMiddleware` makes the attempts that the outcomes call for, while other tasks go on: it
    -- leaves the number of the last one in the context and as `retries_used` on the record, and the
    -- error of the verdict in the context.
    pub retry-verdict :
        (w : World)
        → All (Steady job.task_id) w.turns
        → Live job.task_id (with_used r 0) w.store
        → w.ctx.attempt ≡ 0
        → count_if is_dispatch w.effects ≡ 0
        → w.ctx.succeeded ≡ false
        → count_if is_key w.effects ≡ 0
        → Goes
            (retry job retry_line)
            w
            tt
            (Ends (verdict (suc job.config.retries) 0 w.outcomes w.ctx.last_error))
    retry-verdict w s l a k f u = retry-At w.ctx.last_error w.outcomes w (record {
      steady = s;
      live = l;
      attempt = a;
      error = refl;
      starts = k;
      coming = refl;
      flag = f;
      unkeyed = u;
    })
