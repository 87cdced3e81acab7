-- ===== src/Tests/Caches.antt =====
-- internal/webhook/replay_cache.go and message_dedup_cache.go at concrete data.
use contextmatrix_runner.Prelude.{
  ℕ, ◌≡◌, refl, ◌≢◌, ◌<◌, true, false, some, List, [], ◌∷◌, Text, bytes, arith,
}
use contextmatrix_runner.Prelude.Texts.{text_beq}
use contextmatrix_runner.Webhook.TimedStore.{
  empty, push_back, evict, evict_rounds, sweep, sweep_rounds, remove, unlink,
}
use contextmatrix_runner.Webhook.TimedStore.Coherent.{find}
use contextmatrix_runner.Webhook.ReplayCache
use contextmatrix_runner.Webhook.ReplayCache.{
  ReplayCache, new_replay_cache, check, tick, step, seen, sweep_cache, inside_window, record_new,
}
use contextmatrix_runner.Webhook.ReplayCache.Valid.{new_replay_cache-IsValid, seen-IsValid}
use contextmatrix_runner.Webhook.ReplayCache.Replays.{recorded, seen_replay_rejected}
use contextmatrix_runner.Webhook.ReplayCache.History.{
  WasChecked, seen_rejects_only_replays, seen-sweep_cache,
}
use contextmatrix_runner.Webhook.DedupCache.{
  CachedAck, DedupCache, Call, fetch, save, new_dedup_cache, get_by_key, put_by_key, run,
}
use contextmatrix_runner.Webhook.DedupCache.Valid.{new_dedup_cache-IsValid}
use contextmatrix_runner.Webhook.DedupCache.Acks.{get_by_key-put_by_key}

abbrev sig : Text
sig = bytes "ab12"

abbrev cache : ReplayCache
cache = new_replay_cache 300 3

first_seen : (seen sig 10 cache).1 ≡ false
unfolding seen new_replay_cache empty
first_seen = refl

abbrev between : List ReplayCache.Call
between = check (bytes "cd34") 20 ∷ tick 100 ∷ []

room : recorded between (seen sig 10 cache).0 < 3
unfolding recorded seen new_replay_cache empty step record_new push_back evict evict_rounds
    sweep_cache sweep sweep_rounds remove unlink text_beq inside_window
room = omega arith

seen_replay_rejected_example :
    (seen sig 200 (ReplayCache.run between (seen sig 10 cache).0)).1 ≡ true
unfolding new_replay_cache
seen_replay_rejected_example =
    seen_replay_rejected sig 0 10 200 cache between refl (new_replay_cache-IsValid 300 3)
      (omega arith) first_seen (omega arith, (omega arith, tt)) (omega arith) (λ p. omega arith)
      (λ p. room)

abbrev one_check : List ReplayCache.Call
one_check = check sig 10 ∷ []

again : (seen sig 200 (ReplayCache.run one_check cache)).1 ≡ true
unfolding ReplayCache.run step seen new_replay_cache empty record_new push_back evict evict_rounds
    text_beq inside_window
again = refl

seen_rejects_only_replays_example :
    (t : ℕ) × WasChecked sig t one_check × (inside_window 300 200 t ≡ true)
seen_rejects_only_replays_example =
    seen_rejects_only_replays 300 3 one_check sig 200 (omega arith, tt) again

run-IsValid_example : ReplayCache.Valid.IsValid 100 (ReplayCache.run between cache)
run-IsValid_example =
    ReplayCache.Valid.run-IsValid between 0 cache (new_replay_cache-IsValid 300 3)
      (omega arith, (omega arith, tt))

-- An entry that is exactly as old as the TTL: a sweep removes it, though `Seen` alone would reject.
abbrev aged : ReplayCache
aged = (seen sig 10 cache).0

seen-sweep_cache_example : (seen sig 310 (sweep_cache 310 aged)).1 ≡ false
unfolding seen new_replay_cache empty find evict evict_rounds push_back text_beq
seen-sweep_cache_example =
    seen-sweep_cache sig 10 310 aged
      (seen-IsValid sig 0 10 cache (new_replay_cache-IsValid 300 3) (omega arith)) (omega arith)
      (omega arith) refl

aged_rejected : (seen sig 310 aged).1 ≡ true
unfolding seen new_replay_cache empty record_new push_back evict evict_rounds text_beq inside_window
aged_rejected = refl

abbrev ack : CachedAck
ack = record { status = 202; body = bytes "{}" }

abbrev other_key : Text
other_key = bytes "k2"

other_key_ne : other_key ≢ bytes "k1"
other_key_ne e = ground (arith, e)

abbrev calls : List Call
calls = save other_key ack 6 ∷ fetch (bytes "k1") 7 ∷ Call.tick 8 ∷ []

abbrev saved_once : DedupCache
saved_once = run calls (put_by_key (bytes "k1") ack 5 (new_dedup_cache 600 10))

get_by_key-put_by_key_example : get_by_key (bytes "k1") 500 saved_once ≡ (saved_once, some ack)
unfolding new_dedup_cache
get_by_key-put_by_key_example =
    get_by_key-put_by_key (bytes "k1") ack 0 5 500 (new_dedup_cache 600 10) calls
      (new_dedup_cache-IsValid 600 10) (omega arith) (omega arith, (omega arith, (omega arith, tt)))
      (other_key_ne, tt) (omega arith) (λ p. omega arith) (λ p. omega arith)

named : bytes "p" ≢ []
named e = cc
