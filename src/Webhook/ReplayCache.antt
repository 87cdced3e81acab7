-- ===== src/Webhook/ReplayCache.antt =====
-- internal/webhook/replay_cache.go: the set of HMAC signatures seen inside the TTL window.
-- Times and durations are nanoseconds. `ttl` and `capacity` are 0 where the source has a value that
-- is not positive: it tests nothing else of such a value. `now` is the reading of the cache's clock
-- under its mutex, so a call is one step. `now - seen` stops at 0 where the source goes negative,
-- which the comparison with a positive TTL does not tell apart.
pub mod Valid
pub mod Replays
pub mod History
use contextmatrix_runner.Prelude.{
  ℕ, suc, ◌*◌, ◌-◌, ◌/◌, ◌^◌, Bool, true, false, ◌||◌, Option, none, some, List, [], ◌∷◌, Text,
  is_empty, ltb, leb, nat_beq, length, if◌then◌else◌,
}
use contextmatrix_runner.Webhook.TimedStore.{Element, Store, empty, remove, push_back, evict, sweep}

-- 60 * time.Second
abbrev pub max_interval : ℕ
max_interval = 60 * 10 ^ 9

unfoldable pub default_sweep_interval : ℕ → ℕ
default_sweep_interval ttl =
    if nat_beq ttl 0
    then max_interval
    else (let half = ttl / 2 in if ltb half max_interval then half else max_interval)

pub record ReplayCache : Type 0 where
  pub ttl : ℕ
  pub capacity : ℕ
  pub sweep_interval : ℕ
  pub store : Store (Unit {0})

unfoldable pub new_replay_cache : ℕ → ℕ → ReplayCache
new_replay_cache ttl capacity = record {
  ttl = ttl;
  capacity = capacity;
  sweep_interval = default_sweep_interval ttl;
  store = empty;
}

-- `r.ttl <= 0 || now.Sub(entry.seen) <= r.ttl`
unfoldable pub inside_window : ℕ → ℕ → ℕ → Bool
inside_window ttl now seen = nat_beq ttl 0 || leb (now - seen) ttl

-- The part of `Seen` that records a signature at the back and enforces the capacity.
unfoldable pub record_new : Text → ℕ → ReplayCache → ReplayCache
record_new sig now r = record r { store = evict r.capacity (push_back sig now tt r.store) }

unfoldable pub seen : Text → ℕ → ReplayCache → ReplayCache × Bool
unfolding record_new inside_window
seen sig now r = if is_empty sig then (r, false) else elim (r.store.index sig) [
  | none ↦ (record_new sig now r, false)
  | some entry ↦
      if inside_window r.ttl now entry.stamp
      then (r, true)
      else (record_new sig now (record r { store = remove entry r.store }), false)
]

-- `Len`
unfoldable pub len : ReplayCache → ℕ
len r = length r.store.entries

-- `sweep`, which `Run` calls on every tick
unfoldable pub sweep_cache : ℕ → ReplayCache → ReplayCache
sweep_cache now r = record r { store = sweep r.ttl now r.store }

-- What the callers of a cache may do, each at a time.
pub data Call : Type 0 where
  check : Text → ℕ → Call
  tick : ℕ → Call

abbrev pub time_of : Call → ℕ
time_of (check sig now) = now
time_of (tick now) = now

unfoldable pub step : Call → ReplayCache → ReplayCache
unfolding seen sweep_cache
step (check sig now) r = (seen sig now r).0
step (tick now) r = sweep_cache now r

unfoldable pub run : List Call → ReplayCache → ReplayCache
run [] r = r
run (c ∷ calls) r = run calls (step c r)
