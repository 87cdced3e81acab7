-- ===== src/Webhook/DedupCache.antt =====
-- internal/webhook/message_dedup_cache.go: the acks of served messages, by message key.
-- Times, TTL and capacity are read as in ReplayCache. A body is a value here, so the defensive copies
-- that the source makes of it on each path have no counterpart.
pub mod Valid
pub mod Acks
pub mod Keys
use contextmatrix_runner.Prelude.{
  ℕ, ◌-◌, ◌/◌, Bool, true, false, ◌&&◌, Option, none, some, List, [], ◌∷◌, ◌++◌, Text, bytes,
  is_empty, ltb, length, if◌then◌else◌, nat_beq,
}
use contextmatrix_runner.Webhook.ReplayCache.{max_interval}
use contextmatrix_runner.Webhook.TimedStore.{
  Element, Store, empty, remove, renew, push_back, evict, sweep,
}

pub record CachedAck : Type 0 where
  pub status : ℕ
  pub body : Text

pub record DedupCache : Type 0 where
  pub ttl : ℕ
  pub capacity : ℕ
  pub sweep_interval : ℕ
  pub store : Store CachedAck

unfoldable pub default_dedup_sweep_interval : ℕ → ℕ
default_dedup_sweep_interval ttl =
    if nat_beq ttl 0
    then max_interval
    else (let half = ttl / 2 in if ltb half max_interval then half else max_interval)

unfoldable pub new_dedup_cache : ℕ → ℕ → DedupCache
new_dedup_cache ttl capacity = record {
  ttl = ttl;
  capacity = capacity;
  sweep_interval = default_dedup_sweep_interval ttl;
  store = empty;
}

-- "\x00chat"
abbrev pub chat_dedup_sentinel : Text
chat_dedup_sentinel = 0 ∷ bytes "chat"

unfoldable pub message_dedup_key : Text → Text → Text → Text
message_dedup_key project card_id message_id = project ++ 0 ∷ (card_id ++ 0 ∷ message_id)

unfoldable pub chat_dedup_key : Text → Text → Text
chat_dedup_key session_id message_id = chat_dedup_sentinel ++ 0 ∷ (session_id ++ 0 ∷ message_id)

-- `c.ttl > 0 && c.now().Sub(entry.stored) > c.ttl`
unfoldable pub is_stale : ℕ → ℕ → ℕ → Bool
is_stale ttl now stored = ltb 0 ttl && ltb ttl (now - stored)

unfoldable pub get_by_key : Text → ℕ → DedupCache → DedupCache × Option CachedAck
unfolding is_stale
get_by_key key now c = elim (c.store.index key) [
  | none ↦ (c, none)
  | some entry ↦
      if is_stale c.ttl now entry.stamp
      then (record c { store = remove entry c.store }, none)
      else (c, some entry.value)
]

unfoldable pub put_by_key : Text → CachedAck → ℕ → DedupCache → DedupCache
put_by_key key ack now c = elim (c.store.index key) [
  | none ↦ record c { store = evict c.capacity (push_back key now ack c.store) }
  | some entry ↦ record c { store = renew entry now ack c.store }
]

-- `Get` and `Put`: there is no deduplication without a message id.
unfoldable pub get : Text → Text → Text → ℕ → DedupCache → DedupCache × Option CachedAck
unfolding get_by_key message_dedup_key
get project card_id message_id now c =
    if is_empty message_id
    then (c, none)
    else get_by_key (message_dedup_key project card_id message_id) now c

unfoldable pub put : Text → Text → Text → CachedAck → ℕ → DedupCache → DedupCache
unfolding put_by_key message_dedup_key
put project card_id message_id ack now c =
    if is_empty message_id
    then c
    else put_by_key (message_dedup_key project card_id message_id) ack now c

-- `GetChat` and `PutChat`
unfoldable pub get_chat : Text → Text → ℕ → DedupCache → DedupCache × Option CachedAck
unfolding get_by_key chat_dedup_key
get_chat session_id message_id now c =
    if is_empty message_id
    then (c, none)
    else get_by_key (chat_dedup_key session_id message_id) now c

unfoldable pub put_chat : Text → Text → CachedAck → ℕ → DedupCache → DedupCache
unfolding put_by_key chat_dedup_key
put_chat session_id message_id ack now c =
    if is_empty message_id then c else put_by_key (chat_dedup_key session_id message_id) ack now c

-- `Len`
unfoldable pub len : DedupCache → ℕ
len c = length c.store.entries

-- `sweep`, which `Run` calls on every tick
unfoldable pub sweep_cache : ℕ → DedupCache → DedupCache
sweep_cache now c = record c { store = sweep c.ttl now c.store }

-- What the callers of a cache may do, each at a time.
pub data Call : Type 0 where
  fetch : Text → ℕ → Call
  save : Text → CachedAck → ℕ → Call
  tick : ℕ → Call

abbrev pub time_of : Call → ℕ
time_of (fetch key now) = now
time_of (save key ack now) = now
time_of (tick now) = now

unfoldable pub step : Call → DedupCache → DedupCache
unfolding get_by_key put_by_key sweep_cache
step (fetch key now) c = (get_by_key key now c).0
step (save key ack now) c = put_by_key key ack now c
step (tick now) c = sweep_cache now c

unfoldable pub run : List Call → DedupCache → DedupCache
run [] c = c
run (call ∷ calls) c = run calls (step call c)
