-- ===== src/Container/DnsCache.antt =====
-- internal/container/dns_cache.go: the cache of DNS answers, on the list and map that the caches of
-- package webhook keep too. An element's stamp is its `expiresAt`. Times are in nanoseconds.
pub mod Sound
pub mod Warm
use contextmatrix_runner.Prelude.{
  ℕ, ◌+◌, Bool, true, false, Option, none, some, List, [], ◌∷◌, Text, ltb, length, if◌then◌else◌,
}
use contextmatrix_runner.Webhook.TimedStore.{Store, empty, remove, renew, push_back, evict}

abbrev pub dns_cache_capacity : ℕ
dns_cache_capacity = 256

abbrev pub dns_cache_ttl : ℕ
dns_cache_ttl = 300_000_000_000

pub record DnsCache : Type 0 where
  pub ttl : ℕ
  pub capacity : ℕ
  pub store : Store (List Text)

unfoldable pub new_dns_cache : ℕ → ℕ → DnsCache
new_dns_cache ttl capacity = record { ttl = ttl; capacity = capacity; store = empty }

unfoldable pub get : Text → ℕ → DnsCache → DnsCache × Option (List Text)
get host now c = elim (c.store.index host) [
  | none ↦ (c, none)
  | some entry ↦
      if ltb entry.stamp now
      then (record c { store = remove entry c.store }, none)
      else (record c { store = renew entry entry.stamp entry.value c.store }, some entry.value)
]

unfoldable pub put : Text → List Text → ℕ → DnsCache → DnsCache
put host addrs now c = elim (c.store.index host) [
  | none ↦ record c { store = evict c.capacity (push_back host (now + c.ttl) addrs c.store) }
  | some entry ↦ record c { store = renew entry (now + c.ttl) addrs c.store }
]

unfoldable pub len : DnsCache → ℕ
len c = length c.store.entries

-- What the callers of the cache do, each at a time.
pub data Call : Type 0 where
  fetch : Text → ℕ → Call
  save : Text → List Text → ℕ → Call

unfoldable pub step : Call → DnsCache → DnsCache
unfolding get put
step (fetch host now) c = (get host now c).0
step (save host addrs now) c = put host addrs now c

unfoldable pub run : List Call → DnsCache → DnsCache
run [] c = c
run (call ∷ calls) c = run calls (step call c)
