-- ===== src/Container/DnsCache/Sound.antt =====
-- internal/container/dns_cache.go: the branches of `put` and `get`, and the list against the map.
use contextmatrix_runner.Prelude.{
  ℕ, ◌+◌, ◌≡◌, true, false, some, none, List, [], ◌∷◌, Text, Bool-cases, Option-cases, inl, inr,
  ltb, arith,
}
use contextmatrix_runner.Webhook.TimedStore.{Element, remove, renew, push_back, evict}
use contextmatrix_runner.Webhook.TimedStore.Coherent.{
  IsCoherent, empty-IsCoherent, remove-IsCoherent, renew-IsCoherent, push_back-IsCoherent, find,
}
use contextmatrix_runner.Webhook.TimedStore.Loops.{evict-IsCoherent}
use contextmatrix_runner.Container.DnsCache.{
  DnsCache, new_dns_cache, get, put, Call, fetch, save, step, run,
}

-- `put` where the host is new, and where it is known.
pub put_new :
    (h : Text) (addrs : List Text) (now : ℕ) (c : DnsCache)
    → IsCoherent c.store
    → find h c.store.entries ≡ none
    → put h addrs now c
      ≡ record c { store = evict c.capacity (push_back h (now + c.ttl) addrs c.store) }
unfolding put
put_new h addrs now c i f = rw (i.agrees h, put) (rw f)

pub put_known :
    (h : Text) (addrs : List Text) (now : ℕ) (c : DnsCache) (e : Element (List Text))
    → IsCoherent c.store
    → find h c.store.entries ≡ some e
    → put h addrs now c ≡ record c { store = renew e (now + c.ttl) addrs c.store }
unfolding put
put_known h addrs now c e i f = rw (i.agrees h, put) (rw f)

-- `get` where the host is new, where its entry has expired, and where it is served.
pub get_new :
    (h : Text) (now : ℕ) (c : DnsCache)
    → IsCoherent c.store
    → find h c.store.entries ≡ none
    → get h now c ≡ (c, none)
unfolding get
get_new h now c i f = rw (i.agrees h, get) (rw f)

pub get_expired :
    (h : Text) (now : ℕ) (c : DnsCache) (e : Element (List Text))
    → IsCoherent c.store
    → find h c.store.entries ≡ some e
    → ltb e.stamp now ≡ true
    → get h now c ≡ (record c { store = remove e c.store }, none)
unfolding get
get_expired h now c e i f old = rw (i.agrees h, get) (rw f (rw old))

pub get_served :
    (h : Text) (now : ℕ) (c : DnsCache) (e : Element (List Text))
    → IsCoherent c.store
    → find h c.store.entries ≡ some e
    → ltb e.stamp now ≡ false
    → get h now c ≡ (record c { store = renew e e.stamp e.value c.store }, some e.value)
unfolding get
get_served h now c e i f young = rw (i.agrees h, get) (rw f (rw young))

pub new_dns_cache-IsCoherent : (ttl capacity : ℕ) → IsCoherent (new_dns_cache ttl capacity).store
unfolding new_dns_cache
new_dns_cache-IsCoherent ttl capacity = empty-IsCoherent

pub put-IsCoherent :
    (h : Text) (addrs : List Text) (now : ℕ) (c : DnsCache)
    → IsCoherent c.store
    → IsCoherent (put h addrs now c).store
put-IsCoherent h addrs now c i = elim (Option-cases (find h c.store.entries)) [
  | inl new ↦
      rw (put_new h addrs now c i new)
        (evict-IsCoherent c.capacity _ (push_back-IsCoherent c.store h _ addrs i new))
  | inr (e, known) ↦
      rw (put_known h addrs now c e i known) (renew-IsCoherent c.store h e _ addrs i known)
]

get-IsCoherent :
    (h : Text) (now : ℕ) (c : DnsCache) → IsCoherent c.store → IsCoherent (get h now c).0.store
get-IsCoherent h now c i = elim (Option-cases (find h c.store.entries)) [
  | inl new ↦ rw (get_new h now c i new) i
  | inr (e, f) ↦ elim (Bool-cases (ltb e.stamp now)) [
    | inl old ↦ rw (get_expired h now c e i f old) (remove-IsCoherent c.store h e i f)
    | inr young ↦
        rw (get_served h now c e i f young) (renew-IsCoherent c.store h e e.stamp e.value i f)
  ]
]

pub step-IsCoherent :
    (call : Call) (c : DnsCache) → IsCoherent c.store → IsCoherent (step call c).store
unfolding step
step-IsCoherent (fetch h now) c i = get-IsCoherent h now c i
step-IsCoherent (save h addrs now) c i = put-IsCoherent h addrs now c i

pub run-IsCoherent :
    (calls : List Call) (c : DnsCache) → IsCoherent c.store → IsCoherent (run calls c).store
unfolding run
run-IsCoherent [] c i = i
run-IsCoherent (call ∷ calls) c i = run-IsCoherent calls (step call c) (step-IsCoherent call c i)

pub step_capacity : (call : Call) (c : DnsCache) → (step call c).capacity ≡ c.capacity
unfolding step
step_capacity (fetch h now) c = ground arith
step_capacity (save h addrs now) c = ground arith
