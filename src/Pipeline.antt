-- ===== src/Pipeline.antt =====
-- middleware.py and executor.py: the run of one task through the middleware pipeline.
--   The coroutine is a state monad with exceptions over a `World`. At an `await` other coroutines
--   run: `turns` says, for each await in turn, how long it takes, which calls of the store the
--   others make, and whether a `CancelledError` is thrown in. The task function, the backend and
--   the observers are not code of this repository: what they answer is in `outcomes` and in `Job`.
pub mod World
pub mod Middleware
pub mod Steady
pub mod Attempt
pub mod Verdict
pub mod Finalize
pub mod Execute
pub mod Within
pub mod Safety
pub mod Idempotency
pub mod Cancellation
