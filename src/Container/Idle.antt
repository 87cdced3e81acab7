-- ===== src/Container/Idle.antt =====
-- internal/container/manager.go: `runIdleWatchdog`. Times and durations are of one unit; the setting of the
-- interval may be negative in Go, which is 0 here, as both fall back to the default.
use contextmatrix_runner.Prelude.{
  ℕ, zero, suc, ◌+◌, ◌-◌, ◌*◌, ◌≤◌, ◌<◌, ◌≡◌, refl, inl, inr, Bool, true, false, ◌&&◌, Option, none,
  some, List, [], ◌∷◌, Text, bytes, ltb, ltb_lt, ltb_ge, ltb_of, nat_beq, Bool-cases, if◌then◌else◌,
  arith,
}
use contextmatrix_runner.Tracker.{Tracker}
use contextmatrix_runner.Tracker.Methods.{cancel_with_reason}

-- The interval where none is set: 30 seconds, in nanoseconds.
abbrev default_tick : ℕ
default_tick = 30_000_000_000

-- The poll interval.
unfoldable pub poll_interval : ℕ → ℕ → ℕ
poll_interval interval idle_timeout =
    let tick = if nat_beq interval 0 then default_tick else interval in
    if ltb idle_timeout tick && ltb 0 idle_timeout then idle_timeout else tick

-- What a round of the loop's select meets: the context or the log stream is done, or a tick, with the
-- time of the last output if there was any.
pub data Round : Type 0 where
  stream_done : Round
  tick : ℕ → Option ℕ → Round

-- The loop: the time of the tick that kills, none if it returns or goes on.
unfoldable pub watch : ℕ → List Round → Option ℕ
watch idle_timeout [] = none
watch idle_timeout (stream_done ∷ l) = none
watch idle_timeout (tick now none ∷ l) = watch idle_timeout l
watch idle_timeout (tick now (some last) ∷ l) =
    let later = watch idle_timeout l in if ltb idle_timeout (now - last) then some now else later

-- `killReasonIdle`
abbrev pub kill_reason_idle : Text
kill_reason_idle = bytes "idle_timeout"

-- The kill: the tracker, and whether the container is stopped directly.
unfoldable pub idle_kill : Text → Text → Tracker → Tracker × Bool
unfolding cancel_with_reason
idle_kill project card_id t =
    let cancelled = cancel_with_reason project card_id kill_reason_idle t in
    if cancelled.1 then (cancelled.0, false) else (cancelled.0, true)

-- `runIdleWatchdog`: the tracker, and whether the container is stopped directly.
unfoldable pub run_idle_watchdog : Text → Text → ℕ → List Round → Tracker → Tracker × Bool
unfolding watch idle_kill
run_idle_watchdog project card_id idle_timeout rounds t = elim (watch idle_timeout rounds) [
  | none ↦ (t, false)
  | some at ↦ idle_kill project card_id t
]

-- The ticks of a silent container: `n` of them, the first at a given time, an interval apart.
abbrev pub silence : ℕ → ℕ → ℕ → ℕ → List Round
silence last interval now zero = []
silence last interval now (suc n) = tick now (some last) ∷ silence last interval (now + interval) n

pub poll_interval_bounds :
    (interval idle_timeout : ℕ)
    → 0 < idle_timeout
    → (0 < poll_interval interval idle_timeout)
      × (poll_interval interval idle_timeout ≤ idle_timeout)
unfolding poll_interval
poll_interval_bounds interval idle_timeout i = ground arith

-- Ticks from a time that is not past the deadline, as many as reach it.
watch_polled :
    (last interval idle_timeout now n : ℕ)
    → now ≤ last + idle_timeout + interval
    → last + idle_timeout < now + n * interval
    → (at : ℕ) × (watch idle_timeout (silence last interval now (suc n)) ≡ some at)
      × (last + idle_timeout < at)
      × (at ≤ last + idle_timeout + interval)
unfolding watch
watch_polled last interval idle_timeout now zero a b =
    let late : idle_timeout < now - last = omega arith in
    (now, rw (ltb_of late, watch) refl, omega arith, a)
watch_polled last interval idle_timeout now (suc n) a b =
    elim (Bool-cases (ltb idle_timeout (now - last))) [
      | inl e ↦
          let late : idle_timeout < now - last = ltb_lt e in
          (now, rw (e, watch) refl, omega arith, a)
      | inr e ↦
          let early : now - last ≤ idle_timeout = ltb_ge e in
          let rest =
            watch_polled last interval idle_timeout (now + interval) n (omega arith)
              (omega arith) in
          (rest.0, rw (e, watch) rest.1, rest.2, rest.3)
    ]

-- A container that falls silent while the watchdog polls it at its interval is killed: at a tick more
-- than the timeout after the last output, and at most twice the timeout after it, whatever interval
-- is configured, where the first tick is at most an interval after the last output and the ticks go on
-- past the deadline.
pub watch-silence :
    (interval idle_timeout last now n : ℕ)
    → 0 < idle_timeout
    → now ≤ last + poll_interval interval idle_timeout
    → last + idle_timeout < now + n * poll_interval interval idle_timeout
    → (at : ℕ) × (watch idle_timeout
          (silence last (poll_interval interval idle_timeout) now (suc n))
        ≡ some at)
      × (last + idle_timeout < at)
      × (at ≤ last + 2 * idle_timeout)
watch-silence interval idle_timeout last now n i a b =
    let p = poll_interval interval idle_timeout in
    let bounds = poll_interval_bounds interval idle_timeout i in
    let r = watch_polled last p idle_timeout now n (omega (arith, a)) b in
    (r.0, r.1, r.2, omega (arith, r.3, bounds.1))
