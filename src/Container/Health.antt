-- ===== src/Container/Health.antt =====
-- internal/container/health_monitor.go: probes of dockerd, and the exit after three failures in a row.
use contextmatrix_runner.Prelude.{
  ℕ, zero, suc, ◌+◌, ◌≡◌, refl, Bool, true, false, ◌&&◌, ◌||◌, List, [], ◌∷◌, leb, if◌then◌else◌,
  arith,
}

-- What one select of the loop meets: the context is done, or a ping succeeds, fails, fails with the
-- context cancelled, or panics.
pub data Probe : Type 0 where
  context_done healthy failing cancelled panicked : Probe

-- Whether the loop goes on, returns, or has called `exitFn(1)`.
pub data Monitor : Type 0 where
  watching : ℕ → Monitor  -- with the count of failures
  returned exited : Monitor

abbrev pub health_failure_limit : ℕ
health_failure_limit = 3

-- `failures++` and what follows it.
abbrev pub count_failure : ℕ → Monitor
count_failure failures =
    if leb health_failure_limit (failures + 1) then exited else watching (failures + 1)

-- `runOneIteration`
unfoldable pub run_one_iteration : Probe → ℕ → Monitor
run_one_iteration context_done failures = returned
run_one_iteration healthy failures = watching 0
run_one_iteration failing failures = count_failure failures
run_one_iteration cancelled failures = returned
run_one_iteration panicked failures = count_failure failures

-- The loop of `MonitorDockerdWithMetrics` over the probes so far.
unfoldable pub monitor_from : Monitor → List Probe → Monitor
unfolding run_one_iteration
monitor_from (watching failures) [] = watching failures
monitor_from (watching failures) (p ∷ l) = monitor_from (run_one_iteration p failures) l
monitor_from returned l = returned
monitor_from exited l = exited

unfoldable pub monitor_dockerd : List Probe → Monitor
unfolding monitor_from
monitor_dockerd probes = monitor_from (watching 0) probes

abbrev pub has_exited : Monitor → Bool
has_exited (watching n) = false
has_exited returned = false
has_exited exited = true

abbrev pub is_failure : Probe → Bool
is_failure context_done = false
is_failure healthy = false
is_failure failing = true
is_failure cancelled = false
is_failure panicked = true

abbrev pub is_shutdown : Probe → Bool
is_shutdown context_done = true
is_shutdown healthy = false
is_shutdown failing = false
is_shutdown cancelled = true
is_shutdown panicked = false

-- The first probes are failures, as many as given.
abbrev pub fails : ℕ → List Probe → Bool
fails zero l = true
fails (suc n) [] = false
fails (suc n) (p ∷ l) = is_failure p && fails n l

-- Three failures in a row, before a shutdown.
abbrev pub three_in_a_row : List Probe → Bool
three_in_a_row [] = false
three_in_a_row (p ∷ l) =
    let later = three_in_a_row l in
    if is_shutdown p then false else is_failure p && fails 2 l || later

fails_fewer : (l : List Probe) → fails 2 l ≡ true → fails 1 l ≡ true
fails_fewer [] h = h
fails_fewer (p ∷ l) h = ground arith

monitor_lem :
    (l : List Probe)
    → (has_exited (monitor_from (watching 0) l) ≡ three_in_a_row l)
      × (has_exited (monitor_from (watching 1) l) ≡ (fails 2 l || three_in_a_row l))
      × (has_exited (monitor_from (watching 2) l) ≡ (fails 1 l || three_in_a_row l))
unfolding monitor_from run_one_iteration
monitor_lem [] = (refl, refl, refl)
monitor_lem (context_done ∷ l) = (refl, refl, refl)
monitor_lem (healthy ∷ l) = let h = monitor_lem l in (h.0, h.0, h.0)
monitor_lem (failing ∷ l) = let h = monitor_lem l in ground (arith, h, fails_fewer l)
monitor_lem (cancelled ∷ l) = (refl, refl, refl)
monitor_lem (panicked ∷ l) = let h = monitor_lem l in ground (arith, h, fails_fewer l)

-- The monitor has exited for a restart exactly if three probes in a row failed or panicked before the
-- context was done: fewer never do, however many, and a success in between starts the count again.
pub monitor_dockerd_iff :
    (probes : List Probe) → has_exited (monitor_dockerd probes) ≡ three_in_a_row probes
unfolding monitor_dockerd
monitor_dockerd_iff probes = (monitor_lem probes).0
