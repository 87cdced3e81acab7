-- ===== src/Tests/Upkeep.antt =====
-- internal/container: orphans, the idle watchdog, the DNS cache and the end of a run, at concrete data.
use contextmatrix_runner.Prelude.{
  none, true, ◌≢◌, ℕ, Bool, ◌≡◌, refl, ◌+◌, ◌*◌, ◌<◌, ◌≤◌, false, some, List, [], ◌∷◌, Text, bytes,
  arith, length,
}
use contextmatrix_runner.Prelude.Texts.{text_beq}
use contextmatrix_runner.Prelude.Dict.{lookup}
use contextmatrix_runner.Webhook.TimedStore.{
  empty, push_back, remove, renew, unlink, evict, evict_rounds,
}
use contextmatrix_runner.Tracker.{Tracker, has_at, key, chat_key}
use contextmatrix_runner.Tracker.Methods.{has, has_chat}
use contextmatrix_runner.Tests.Tracking.{two}
use contextmatrix_runner.Container.Orphans.{
  DockerContainer, stop, force_remove, is_kept, orphans, clean_each, cleanup_orphans, IsCleaned,
  cleanup_orphans-IsCleaned,
}
use contextmatrix_runner.Container.Idle.{poll_interval, watch, silence, watch-silence}
use contextmatrix_runner.Container.DnsCache.{
  DnsCache, Call, fetch, save, new_dns_cache, get, put, run, dns_cache_ttl, dns_cache_capacity,
  step, len,
}
use contextmatrix_runner.Container.DnsCache.Sound.{new_dns_cache-IsCoherent}
use contextmatrix_runner.Container.DnsCache.Warm.{get-put}
use contextmatrix_runner.Tests.Tracking.{card}
use contextmatrix_runner.Tracker.Methods.{cancel}
use contextmatrix_runner.Container.Idle.{idle_kill, kill_reason_idle}
use contextmatrix_runner.Container.Wait.{
  Wait, context_done, wait_error, exited, Ended, wait_and_cleanup, kill_outcomes, outcome_killed,
  select_wait, handle_exit, reported_completed, removed, drained, emitted,
}

abbrev listed : List DockerContainer
listed =
    record { id = bytes "c1"; project = bytes "proj"; card_id = bytes "A-1"; session_id = [] }
    ∷ record { id = bytes "c2"; project = bytes "proj"; card_id = bytes "A-7"; session_id = [] }
    ∷ record { id = bytes "c3"; project = []; card_id = []; session_id = bytes "gone" }
    ∷ []

abbrev removes : Text → Bool
removes = text_beq (bytes "c2")

cleaned_test : cleanup_orphans (λ i. false) removes two listed ≡ record {
  calls =
      stop (bytes "c2")
      ∷ force_remove (bytes "c2")
      ∷ stop (bytes "c3")
      ∷ force_remove (bytes "c3")
      ∷ [];
  removed = 1;
  stop_failures = 2;
  remove_errors = bytes "c3" ∷ [];
}
unfolding cleanup_orphans orphans clean_each is_kept has has_chat text_beq has_at lookup key
    chat_key
cleaned_test = refl

cleanup_orphans-IsCleaned_example :
    IsCleaned
      (λ i. false)
      removes
      two
      listed
      (length (orphans two listed))
      (cleanup_orphans (λ i. false) removes two listed)
cleanup_orphans-IsCleaned_example = cleanup_orphans-IsCleaned (λ i. false) removes two listed

clamped : poll_interval 0 20 ≡ 20
unfolding poll_interval
clamped = refl

watch-silence_example :
    (at : ℕ) × (watch 20 (silence 100 (poll_interval 0 20) 110 3) ≡ some at)
    × (100 + 20 < at)
    × (at ≤ 100 + 2 * 20)
watch-silence_example =
    watch-silence 0 20 100 110 2 (omega arith) (omega (arith, clamped)) (omega (arith, clamped))

differs : bytes "cdn" ≢ bytes "cm"
differs e = ground (arith, e)

abbrev warm : DnsCache
warm = new_dns_cache dns_cache_ttl dns_cache_capacity

abbrev answer : List Text
answer = bytes "10.0.0.1" ∷ []

abbrev lookups : List Call
lookups = fetch (bytes "cm") 8 ∷ save (bytes "cdn") [] 9 ∷ []

get-put_example :
    (get (bytes "cm") 300_000_000_005 (run lookups (put (bytes "cm") answer 5 warm))).1
    ≡ some answer
unfolding new_dns_cache
get-put_example =
    get-put (bytes "cm") answer 5 300_000_000_005 warm lookups
      (new_dns_cache-IsCoherent dns_cache_ttl dns_cache_capacity)
      ((λ e. omega arith), (differs, tt)) (λ p. omega arith) (omega arith)

-- The entry that was looked up stays when the capacity pushes one out; an expired one is removed.
abbrev three : List Call
three =
    save (bytes "a") answer 0
    ∷ save (bytes "b") answer 0
    ∷ fetch (bytes "a") 1
    ∷ save (bytes "c") answer 2
    ∷ []

lru_test :
    let c = run three (new_dns_cache 10 2) in
    (len c ≡ 2)
    × ((get (bytes "a") 10 c).1 ≡ some answer)
    × ((get (bytes "b") 10 c).1 ≡ none)
    × ((get (bytes "a") 11 c).1 ≡ none)
unfolding len run step get put new_dns_cache empty push_back remove renew unlink evict evict_rounds
    text_beq
lru_test = (refl, refl, refl, refl)

abbrev decimal : ℕ → Text
decimal n = bytes "?"

abbrev wait_on : Wait → Tracker → Ended
wait_on w t =
    wait_and_cleanup decimal (bytes "2h") (bytes "30m") w true (bytes "proj") (bytes "A-1") t

exits_test :
    (wait_on (exited 0) two).actions
    ≡ drained ∷ emitted (bytes "container completed") ∷ reported_completed ∷ removed ∷ []
unfolding wait_and_cleanup select_wait handle_exit
exits_test = refl

kill_outcomes_example :
    let idle = (idle_kill (bytes "proj") (bytes "A-1") two).0 in
    let stopped = (cancel (bytes "proj") (bytes "A-1") two).0 in
    ((wait_on context_done idle).outcome ≡ kill_reason_idle)
    × ((wait_on (wait_error (bytes "canceled") true) idle).outcome ≡ kill_reason_idle)
    × ((wait_on context_done stopped).outcome ≡ outcome_killed)
    × ((wait_on (wait_error (bytes "canceled") true) stopped).outcome ≡ outcome_killed)
unfolding lookup key text_beq
kill_outcomes_example =
    kill_outcomes decimal (bytes "2h") (bytes "30m") (bytes "proj") (bytes "A-1") (bytes "canceled")
      true (record card { stdin = some 0 }) two refl refl
