-- ===== src/Tests/Workers.antt =====
-- The executors at fixed inputs.
use fastapi_taskflow.Base.{ℕ, ◌≤◌, ◌≡◌, refl, false, [], ◌∷◌, some, length, nat_key}
use fastapi_taskflow.Dict.{lookup}
use fastapi_taskflow.Executors.Coroutines.{Busy, run-init-bounded}
use fastapi_taskflow.Executors.Coroutines
use fastapi_taskflow.Executors.Process.{
  alive, broken, closed, ProcessExecutor, refused, starts, start, run, shutdown,
}
use fastapi_taskflow.Executors.Process.Shutdown.{shutdown-refuses}
use fastapi_taskflow.Executors.Process.Broken.{all_refused, start_all, broken-stays}

abbrev executor : ProcessExecutor
executor = record {
  pool = some 1;
  shutdown_called = false;
  pools = (0, broken) ∷ (1, alive) ∷ [];
  next = 2;
  waiting = (5, 0) ∷ (6, 1) ∷ [];
}

abbrev idle_broken : ProcessExecutor
idle_broken = record executor { pool = some 0; waiting = [] }

run-init-bounded_example :
    let es = Coroutines.starts 1 ∷ Coroutines.starts 2 ∷ Coroutines.finishes 1 ∷ [] in
    let x = Coroutines.run es (Coroutines.init (some 1)) in (length x.running ≤ 1) × Busy x
run-init-bounded_example =
    run-init-bounded 1 (Coroutines.starts 1 ∷ Coroutines.starts 2 ∷ Coroutines.finishes 1 ∷ [])

shutdown-refuses_example :
    let y = run (starts 7 ∷ []) (shutdown executor) in
    (start 8 y ≡ (y, some refused))
    × (y.next ≡ 2)
    × ((p : ℕ) → false ≡ false → some 1 ≡ some p → lookup p y.pools ≡ some closed)
shutdown-refuses_example = shutdown-refuses (starts 7 ∷ []) executor 8

broken-stays_example : start_all (7 ∷ 8 ∷ []) idle_broken ≡ (idle_broken, all_refused (7 ∷ 8 ∷ []))
unfolding lookup
broken-stays_example = broken-stays (7 ∷ 8 ∷ []) 0 idle_broken refl refl refl
